-- ===== src/Tests/Mtp.antt =====
-- modules/lpss/src/node_rmtp.cpp on concrete messages.
use rmvl.Prelude.{
  All, List, [], arith, if◌then◌else◌, length, none, refl, some, true, ℕ, ◌*◌, ◌++◌, ◌>>=◌, ◌∷◌,
  ◌≡◌,
}
use mathlib.Core.Path.{subst}
use rmvl.Bytes.{Bytes, codes, bytes_eq, host_of_net, slice}
use rmvl.Dict.{find, put, erase}
use rmvl.Lpss.Mtp.Header.{
  create, set_fragment, parse_header, mtp_header_size, sizes_agree, names, ParsedFragment,
}
use rmvl.Lpss.Mtp.Header.RoundTrip.{parse_header-set_fragment}
use rmvl.Lpss.Mtp.Capacity.{fragment_capacity}
use rmvl.Lpss.Mtp.Send.{MtpWriterTarget, Datagram, send_mtp_message, fragment_count}
use rmvl.Lpss.Mtp.Send.Correct.{
  send_mtp_message_lem, within_limits, fragments_of, fragments_of_all, fragments_of-Fits, payloads,
  Fits,
}
use rmvl.Lpss.Mtp.Assembly.{
  Limits, Reassembly, Arrival, empty, receive, accept_fragment, run, key_eq, MtpAsmKey, MtpAsm,
  reserve_memory, accept_parsed, remove_expired, store, find_fragment, store_new, add_size, finish,
  scan, emplace_fragment, join_fragments, oldest_from, remove_asm, sub_size,
}
use rmvl.Lpss.Mtp.Assembly.Invariant.{IsValid, empty-IsValid}
use rmvl.Lpss.Mtp.Assembly.Sound.{run-IsValid, accept_fragment_sound, Honest}
use rmvl.Lpss.Mtp.Send.Fragments.{chunk}
use rmvl.Lpss.Mtp.Assembly.{join_fragments, oldest_from, remove_asm, sub_size}
use rmvl.Lpss.Mtp.Assembly.Room.{reserve_memory-room}
use rmvl.Lpss.Mtp.Assembly.Delivery.{arrive, receive-send}

abbrev limits : Limits
limits = record { fragment_timeout = 1000; reassembly_max_bytes = 16777216 }

abbrev topic : Bytes
topic = codes "t"

abbrev type : Bytes
type = codes "M"

abbrev text : Bytes
text = codes "hello"

abbrev target : MtpWriterTarget
target = record { locator = record { port = 7000; addr = 10 ∷ 0 ∷ 0 ∷ 2 ∷ [] }; mtu = 48 }

abbrev sender : Bytes
sender = codes "10.0.0.1"

receive-send_example :
    (sent : List Datagram) × (send_mtp_message text type topic 7 (target ∷ []) ≡ some sent)
    × ((receive limits type topic (arrive sender 9000 (λ i. i * 10) 0 sent) empty).0 ≡ text ∷ [])
unfolding fragment_capacity mtp_header_size fragment_count find
receive-send_example =
    receive-send limits text type topic 7 target sender 9000 (λ i. i * 10) empty (omega arith)
      (omega arith) (omega arith) (omega arith) (omega arith) (omega arith) (omega arith)
      (λ i. omega arith) (empty-IsValid limits) refl

send_mtp_message_lem_example :
    send_mtp_message text type topic 7 (target ∷ [])
    ≡ some (
        if within_limits text type topic 7 (target ∷ [])
        then fragments_of_all text type topic 7 (target ∷ [])
        else [])
send_mtp_message_lem_example = send_mtp_message_lem text type topic 7 (target ∷ [])

fragments_of-Fits_example :
    (payloads (fragments_of text type topic 7 target) ≡ text)
    × All (Fits 48) (fragments_of text type topic 7 target)
unfolding fragment_capacity mtp_header_size
fragments_of-Fits_example = fragments_of-Fits text type topic 7 target (omega arith)

parse_header-set_fragment_example :
    (set_fragment 1 2 (create type topic 7 5) >>= λ h. parse_header h.bytes (codes "ll") type topic)
    ≡ some (record { sequence = 7; fragment_id = 1; total_size = 5 })
unfolding sizes_agree
parse_header-set_fragment_example =
    parse_header-set_fragment type topic (codes "ll") 7 5 1 2 (omega arith) (omega arith)
      (omega arith) (omega arith) (omega arith) (omega arith) refl

-- A message of two fragments, and one of its fragments after the other has arrived twice.
abbrev sent : List Datagram
sent = elim (send_mtp_message text type topic 7 (target ∷ [])) [ none ↦ [] | some s ↦ s ]

abbrev first_arrivals : List Arrival
first_arrivals = arrive sender 9000 (λ i. i * 10) 0 sent

run-IsValid_example : IsValid limits (run limits type topic first_arrivals empty)
run-IsValid_example =
    run-IsValid limits (omega arith) type topic first_arrivals (empty-IsValid limits)

abbrev fragment : ℕ → ℕ → Bytes → Arrival
fragment now id payload = record {
  now = now;
  addr = sender;
  port = 9000;
  header =
      codes "MT02"
      ++ (1 ∷ [])
      ++ codes "t"
      ++ (1 ∷ [])
      ++ codes "M"
      ++ (0 ∷ 7 ∷ 0 ∷ id ∷ 0 ∷ 0 ∷ 0 ∷ 5 ∷ 0 ∷ length payload ∷ []);
  payload = payload;
}

abbrev key : MtpAsmKey
key = record { addr = sender; port = 9000; sequence = 7 }

honest :
    (d : Arrival) (p : ParsedFragment)
    → parse_header d.header d.payload type topic ≡ some p
    → (p.total_size ≡ length text) × (d.payload ≡ chunk text 2 p.fragment_id)
    → Honest text 2 key type topic d
honest d p e h parsed e' same =
    let q : p ≡ parsed = ground arith in
    subst (λ r. (r.total_size ≡ length text) × (d.payload ≡ chunk text 2 r.fragment_id)) q h

abbrev parsed_as : ℕ → ParsedFragment
parsed_as id = record { sequence = 7; fragment_id = id; total_size = 5 }

abbrev last : Arrival
last = fragment 4 2 (codes "o")

-- The second and the first fragment, one of them twice.
abbrev earlier : List Arrival
earlier = fragment 1 1 (codes "ll") ∷ fragment 2 0 (codes "he") ∷ fragment 3 1 (codes "ll") ∷ []

accept_fragment_sound_example : text ≡ text
unfolding run accept_fragment find parse_header mtp_header_size slice names sizes_agree host_of_net
    accept_parsed remove_expired store find_fragment store_new add_size reserve_memory put finish
    scan erase emplace_fragment join_fragments oldest_from remove_asm sub_size chunk
accept_fragment_sound_example =
    accept_fragment_sound text 2 key limits type topic earlier last (parsed_as 2) text (omega arith)
      (
        honest last (parsed_as 2) refl (refl, refl),
        (
          honest (fragment 1 1 (codes "ll")) (parsed_as 1) refl (refl, refl),
          (
            honest (fragment 2 0 (codes "he")) (parsed_as 0) refl (refl, refl),
            (honest (fragment 3 1 (codes "ll")) (parsed_as 1) refl (refl, refl), tt),
          ),
        ),
      )
      refl refl refl

-- The cache with the first two fragments of the message, whose last byte still has room.
abbrev waiting : MtpAsm
waiting = record {
  total_size = 5;
  fragments = (0, codes "he") ∷ (1, codes "ll") ∷ [];
  bytes = 4;
  updated = 3;
}

abbrev cache : Reassembly
cache = run limits type topic earlier empty

reserve_memory-room_example : (reserve_memory 1 limits key 1 cache).0 ≡ true
unfolding run accept_fragment find parse_header mtp_header_size slice names sizes_agree host_of_net
    accept_parsed remove_expired store find_fragment store_new add_size reserve_memory put finish
    scan erase emplace_fragment join_fragments oldest_from remove_asm sub_size
reserve_memory-room_example =
    reserve_memory-room limits (omega arith) 1 cache key waiting 1
      (run-IsValid limits (omega arith) type topic earlier (empty-IsValid limits)) refl
      (omega arith) (omega arith)
