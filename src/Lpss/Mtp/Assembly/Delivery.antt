-- ===== src/Lpss/Mtp/Assembly/Delivery.antt =====
-- modules/lpss/src/node_rmtp.cpp: the fragments that sendMTPMessage sends, read in order, give the
-- message back.
use mathlib.Core.Path.{subst}
use rmvl.Prelude.{
  List, [], ap, append-nil, arith, length, none, refl, some, suc, true, zero, ℕ, ◌+◌, ◌-◌, ◌<◌, ◌^◌,
  ◌∙◌, ◌∷◌, ◌≡◌, ◌≤◌,
}
use rmvl.Bytes.{Bytes}
use rmvl.Lpss.Mtp.Header.{parse_header, sizes_agree}
use rmvl.Lpss.Mtp.Header.RoundTrip.{parse_header-wire}
use rmvl.Lpss.Mtp.Send.{MtpWriterTarget, Datagram, fragment_count, all_in_limits, send_mtp_message}
use rmvl.Lpss.Mtp.Send.Fragments.{
  chunk, length-chunk, full-before, starts_inside, fragment, fragments_from, fragment_count-pos,
}
use rmvl.Lpss.Mtp.Send.Correct.{
  fragments_of, fragments_of_all, capacity_of, fragment_capacity-fits, within_limits,
  send_mtp_message_lem,
}
use rmvl.Lpss.Mtp.Assembly.{
  Limits, MtpAsmKey, key_eq, Reassembly, Arrival, accept_fragment, receive, finish, find,
}
use rmvl.Lpss.Mtp.Assembly.Invariant.{IsValid}
use rmvl.Lpss.Mtp.Assembly.Accept.{accept_fragment-IsValid}
use rmvl.Lpss.Mtp.Assembly.Step.{entry, Stored, finish-more, finish-last, accept_fragment-part}

-- The datagrams of one sender, read in order; `times` says when each of them is read.
unfoldable pub arrive : Bytes → ℕ → (ℕ → ℕ) → ℕ → List Datagram → List Arrival
arrive addr port times i [] = []
arrive addr port times i (d ∷ ds) =
    let first : Arrival = record {
      now = times i;
      addr = addr;
      port = port;
      header = d.header;
      payload = d.payload;
    } in
    first ∷ arrive addr port times (i + 1) ds

module _ (limits : Limits) (type topic : Bytes) (d : Arrival) (s : Reassembly) where
  receive-none :
      (ds : List Arrival) (s' : Reassembly)
      → accept_fragment limits type topic d s ≡ (none, s')
      → (receive limits type topic (d ∷ ds) s).0 ≡ (receive limits type topic ds s').0
  unfolding receive
  receive-none ds s' e =
      rw (ap (λ r. r.0) e, receive) (ap (λ r. (receive limits type topic ds r.1).0) e)

  receive-some :
      (message : Bytes)
      → (accept_fragment limits type topic d s).0 ≡ some message
      → (receive limits type topic (d ∷ []) s).0 ≡ message ∷ []
  unfolding receive
  receive-some message e = rw (e, receive) refl

module _ (limits : Limits) (narrow : limits.reassembly_max_bytes < 2 ^ 32) (text type topic : Bytes)
    (fits : length text ≤ limits.reassembly_max_bytes) (short_type : length type < 64)
    (short_topic : length topic < 64) (sequence : ℕ) (in_range : sequence < 2 ^ 16)
    (target : MtpWriterTarget) (capacity : ℕ) (pos : 0 < capacity) (datagram : capacity < 2 ^ 16)
    (few : fragment_count capacity (length text) ≤ 2 ^ 16) (addr : Bytes) (port : ℕ) (times : ℕ → ℕ)
    (prompt : (i : ℕ) → times (i + 1) - times i ≤ limits.fragment_timeout) where
  abbrev sent : MtpAsmKey
  sent = record { addr = addr; port = port; sequence = sequence }

  sizes_agree-chunk :
      (n : ℕ)
      → n < fragment_count capacity (length text)
      → sizes_agree
          (length (chunk text capacity n))
          (length (chunk text capacity n))
          n
          (length text)
        ≡ true
  unfolding sizes_agree fragment_count
  sizes_agree-chunk n h =
      ground (arith, length-chunk text capacity n, starts_inside text capacity pos n)

  parse_header-fragment :
      (n : ℕ)
      → n < fragment_count capacity (length text)
      → parse_header
          (fragment text type topic sequence target capacity n).header
          (chunk text capacity n)
          type
          topic
        ≡ some (record { sequence = sequence; fragment_id = n; total_size = length text })
  unfolding fragment
  parse_header-fragment n h =
      parse_header-wire type topic sequence (length text) n (length (chunk text capacity n))
        (chunk text capacity n) short_topic short_type in_range (omega arith) (omega arith)
        (omega (arith, length-chunk text capacity n)) (sizes_agree-chunk n h)

  -- Fragment `id` as the reader gets it.
  abbrev arrival : ℕ → Arrival
  arrival id = record {
    now = times id;
    addr = addr;
    port = port;
    header = (fragment text type topic sequence target capacity id).header;
    payload = (fragment text type topic sequence target capacity id).payload;
  }

  arrivals : ℕ → ℕ → List Arrival
  arrivals rest id =
      arrive addr port times id (fragments_from text type topic sequence target capacity rest id)

  arrivals-suc : (rest id : ℕ) → arrivals (suc rest) id ≡ arrival id ∷ arrivals rest (id + 1)
  unfolding arrivals arrive fragments_from
  arrivals-suc rest id = refl

  accept-arrival :
      (id u : ℕ) (s : Reassembly)
      → id < fragment_count capacity (length text)
      → IsValid limits s
      → Stored limits narrow text fits capacity pos sent id u s
      → times id - u ≤ limits.fragment_timeout
      → (s' : Reassembly) × (accept_fragment limits type topic (arrival id) s
          ≡ finish sent (entry limits narrow text fits capacity pos sent (suc id) (times id)) s')
        × Stored limits narrow text fits capacity pos sent (suc id) (times id) s'
  unfolding fragment
  accept-arrival id u s h v f fresh =
      accept_fragment-part limits narrow text fits capacity pos sent type topic (arrival id) id u
        sequence s h v f fresh refl (parse_header-fragment id h) refl

  -- From the part with number `id` on, with the parts before it stored.
  receive-from :
      (rest id u : ℕ) (s : Reassembly)
      → id + suc rest ≡ fragment_count capacity (length text)
      → IsValid limits s
      → Stored limits narrow text fits capacity pos sent id u s
      → times id - u ≤ limits.fragment_timeout
      → (receive limits type topic (arrivals (suc rest) id) s).0 ≡ text ∷ []
  unfolding arrivals arrive fragments_from
  receive-from zero id u s e v f fresh =
      let (s', step, stored) = accept-arrival id u s (omega arith) v f fresh in
      receive-some limits type topic (arrival id) s text (
        ap (λ r. r.0) step
        ∙ finish-last limits narrow text fits capacity pos sent (suc id) (times id) s'
            (omega arith))
  receive-from (suc rest) id u s e v f fresh =
      let (s', step, stored) = accept-arrival id u s (omega arith) v f fresh in
      let inside = full-before text capacity pos id (omega arith) in
      let waits =
        step
        ∙ finish-more limits narrow text fits capacity pos sent (suc id) (times id) s'
            (omega arith) in
      let v' : IsValid limits s' =
        subst (λ r. IsValid limits r.1) waits
          (accept_fragment-IsValid limits narrow type topic (arrival id) v) in
      let next : suc id ≡ id + 1 = omega arith in
      let stored' =
        subst (λ k. Stored limits narrow text fits capacity pos sent k (times id) s') next stored in
      receive-none limits type topic (arrival id) s (arrivals (suc rest) (id + 1)) s' waits
      ∙ receive-from rest (id + 1) (times id) s' (omega arith) v' stored' (prompt id)

-- What sendMTPMessage sends to one target, read in order by a reader of the same type and topic,
-- is returned as the text that was sent, once, at the last fragment. The names and the text are
-- within the protocol's limits, the target can be reached with at most 65536 fragments, the
-- text is within the reader's budget, the reader holds no fragments under the same key, and no two
-- fragments in a row are further apart than the timeout. The reader may hold anything else, within
-- its invariant.
pub receive-send :
    (limits : Limits) (text type topic : Bytes) (sequence : ℕ) (target : MtpWriterTarget)
    (addr : Bytes) (port : ℕ) (times : ℕ → ℕ) (s : Reassembly)
    → limits.reassembly_max_bytes < 2 ^ 32
    → length text ≤ limits.reassembly_max_bytes
    → length type < 64
    → length topic < 64
    → sequence < 2 ^ 16
    → 0 < capacity_of text type topic sequence target
    → fragment_count (capacity_of text type topic sequence target) (length text) ≤ 2 ^ 16
    → ((i : ℕ) → times (i + 1) - times i ≤ limits.fragment_timeout)
    → IsValid limits s
    → find (record { addr = addr; port = port; sequence = sequence }) s.asms ≡ none
    → (sent : List Datagram) × (send_mtp_message text type topic sequence (target ∷ []) ≡ some sent)
      × ((receive limits type topic (arrive addr port times 0 sent) s).0 ≡ text ∷ [])
unfolding all_in_limits fragments_of_all fragments_of arrivals
receive-send limits text type topic sequence target addr port times s narrow fits hy ht hs pos few
      prompt v f =
    let capacity = capacity_of text type topic sequence target in
    let small : capacity < 2 ^ 16 = omega (arith, fragment_capacity-fits target.mtu _ pos) in
    let all : within_limits text type topic sequence (target ∷ []) ≡ true = ground arith in
    let count : fragment_count capacity (length text)
        ≡ suc (fragment_count capacity (length text) - 1) =
      omega (arith, fragment_count-pos capacity (length text)) in
    (
      fragments_of text type topic sequence target,
      send_mtp_message_lem text type topic sequence (target ∷ []) ∙ rw all (ap some (append-nil _)),
      rw count (
          receive-from limits narrow text type topic fits hy ht sequence hs target capacity pos
            small few addr port times prompt (fragment_count capacity (length text) - 1) 0 (times 0)
            s (omega (arith, count)) v f (omega arith)),
    )
