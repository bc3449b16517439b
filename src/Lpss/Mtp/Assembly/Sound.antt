-- ===== src/Lpss/Mtp/Assembly/Sound.antt =====
-- modules/lpss/src/node_rmtp.cpp: reassembly is sound under loss, duplication, reordering, garbage
-- and interleaving with other messages.
use mathlib.Core.Path.{ap₂}
use rmvl.Bytes.Laws.{take_all}
use rmvl.Prelude.{
  All, All-map, List, [], ap, arith, length, length-append, length-take, refl, some, take, ℕ, ◌*◌,
  ◌++◌, ◌+◌, ◌<◌, ◌^◌, ◌∙◌, ◌∷◌, ◌≡◌, ◌≤◌,
}
use rmvl.Bytes.{Bytes}
use rmvl.Lpss.Mtp.Header.{ParsedFragment, parse_header}
use rmvl.Lpss.Mtp.Send.Fragments.{chunk, chunks_from, chunks_from-take, length-chunk}
use rmvl.Lpss.Mtp.Assembly.{
  Limits, MtpAsmKey, key_eq, Fragments, Reassembly, empty, add_size, scanned, scan, join_fragments,
  Arrival, key_of, accept_fragment, run,
}
use rmvl.Lpss.Mtp.Assembly.Invariant.{IsValid, add_size-exact}
use rmvl.Lpss.Mtp.Assembly.Accept.{accept_fragment-IsValid}
use rmvl.Lpss.Mtp.Assembly.Contents.{EntryGood, Delivered, accept_fragment-Accepted}

-- For a byte budget below 2^32, the cache's invariant holds after any sequence of arrivals, if it
-- held before: the cache counts the bytes of its entries, keeps to the budget and has one entry for
-- each key, and an entry counts the bytes of its fragments, which are no more than the message's,
-- and has one fragment for each number, in order.
pub run-IsValid :
    (limits : Limits) (narrow : limits.reassembly_max_bytes < 2 ^ 32) (type topic : Bytes)
    (ds : List Arrival) {s : Reassembly}
    → IsValid limits s
    → IsValid limits (run limits type topic ds s)
unfolding run
run-IsValid limits narrow type topic [] v = v
run-IsValid limits narrow type topic (d ∷ ds) v =
    run-IsValid limits narrow type topic ds (accept_fragment-IsValid limits narrow type topic d v)

run-Good :
    (Good : MtpAsmKey → ℕ → ℕ → Bytes → Type 0) (limits : Limits) (type topic : Bytes)
    (ds : List Arrival) (s : Reassembly)
    → All (EntryGood Good) s.asms
    → All
        (λ d.
          (parsed : ParsedFragment)
          → parse_header d.header d.payload type topic ≡ some parsed
          → Good (key_of d parsed) parsed.total_size parsed.fragment_id d.payload)
        ds
    → All (EntryGood Good) (run limits type topic ds s).asms
unfolding run
run-Good Good limits type topic [] s h arrivals = h
run-Good Good limits type topic (d ∷ ds) s h arrivals =
    run-Good Good limits type topic ds _
      (accept_fragment-Accepted Good limits type topic d s h arrivals.0).kept arrivals.1

module _ (text : Bytes) (capacity : ℕ) (key : MtpAsmKey) where
  -- A fragment of the message is the part of the text that its number says.
  abbrev pub IsPart : MtpAsmKey → ℕ → ℕ → Bytes → Type 0
  IsPart k total id part = k ≡ key → (total ≡ length text) × (part ≡ chunk text capacity id)

  -- What an arrival under the message's key holds.
  abbrev pub Honest : Bytes → Bytes → Arrival → Type 0
  Honest type topic d =
      (parsed : ParsedFragment)
      → parse_header d.header d.payload type topic ≡ some parsed
      → IsPart (key_of d parsed) parsed.total_size parsed.fragment_id d.payload

  -- Parts without a gap, joined, are the parts of the text from the first number on.
  scan-chunks :
      (fs : Fragments) (id total : ℕ)
      → length text < 2 ^ 32
      → total ≤ length text
      → All (λ f. f.1 ≡ chunk text capacity f.0) fs
      → scan (length text) id total fs ≡ scanned (length text)
      → (join_fragments fs ≡ chunks_from text capacity (length fs) id)
        × (total + length (join_fragments fs) ≡ length text)
  unfolding scan join_fragments chunks_from
  scan-chunks [] id total small h parts e = (refl, ground arith)
  scan-chunks ((i, part) ∷ fs) id total small h parts e =
      let size : length part ≤ length text =
        rw parts.0 (omega (arith, length-chunk text capacity i)) in
      let sum = add_size-exact total (length part) (omega arith) in
      let (same, fits, rest) = step sum in
      let (joined, whole) = scan-chunks fs (id + 1) (total + length part) small fits parts.1 rest in
      (
        ap₂ (◌++◌) (parts.0 ∙ ap (chunk text capacity) same) joined,
        omega (arith, whole, length-append part (join_fragments fs)),
      )
    where
      step :
          add_size total (length part) ≡ total + length part
          → (i ≡ id)
            × (total + length part ≤ length text)
            × (scan (length text) (id + 1) (total + length part) fs ≡ scanned (length text))
      step sum = ground arith

  Delivered-text :
      (k : MtpAsmKey) (message : Bytes)
      → k ≡ key
      → length text < 2 ^ 32
      → (total : ℕ) → total ≡ length text
      → Delivered IsPart k total message
      → message ≡ text
  Delivered-text k message same small total size d =
      let parts : All (λ f. f.1 ≡ chunk text capacity f.0) d.fragments =
        All-map _ (λ f p. (p same).1) d.fragments d.good in
      let (joined, whole) =
        scan-chunks d.fragments 0 0 small (omega arith) parts (rw size at d.complete) in
      let start : 0 * capacity ≡ 0 = omega arith in
      let prefix : join_fragments d.fragments ≡ take (length d.fragments * capacity) text =
        joined ∙ rw start at (chunks_from-take text capacity (length d.fragments) 0) in
      d.joined
      ∙ prefix
      ∙ take_all _ text
          (omega (arith, ap length prefix, length-take (length d.fragments * capacity) text))

  -- Every message that the reader returns under the key is the text that was sent, whatever
  -- arrived before: fragments of the text in any order, some of them lost or repeated, other
  -- messages' fragments between them, and datagrams that are no fragments at all. The premise is
  -- that the arrivals under the key state the text's size and carry the text's parts.
  pub accept_fragment_sound :
      (limits : Limits) (type topic : Bytes) (ds : List Arrival) (d : Arrival)
      (parsed : ParsedFragment) (message : Bytes)
      → length text < 2 ^ 32
      → All (Honest type topic) (d ∷ ds)
      → parse_header d.header d.payload type topic ≡ some parsed
      → key_of d parsed ≡ key
      → (accept_fragment limits type topic d (run limits type topic ds empty)).0 ≡ some message
      → message ≡ text
  accept_fragment_sound limits type topic ds d parsed message small arrivals e same out =
      let h = run-Good IsPart limits type topic ds empty tt arrivals.1 in
      let accepted = accept_fragment-Accepted IsPart limits type topic d _ h arrivals.0 in
      let (parsed', e', delivered) = accepted.message_of message out in
      let p : parsed' ≡ parsed = ground arith in
      let same' : key_of d parsed' ≡ key = rw p same in
      Delivered-text (key_of d parsed') message same' small parsed'.total_size
        (arrivals.0 parsed' e' same').0 delivered
