-- ===== src/Lpss/Mtp/Send/Fragments.antt =====
-- modules/lpss/src/node_rmtp.cpp: the fragments of a message, and the loop that sends them.
use native.Mathlib.Nat.{le-div_iff_mul-le, lt-div-mul-add, min-eq_left, min-eq_right}
use rmvl.Prelude.{
  Bool-cases, List, [], arith, drop, inl, inr, leb, leb→le, length, length-drop, length-take, min,
  refl, some, suc, take, zero, ℕ, ◌%◌, ◌*◌, ◌++◌, ◌+◌, ◌-◌, ◌/◌, ◌<◌, ◌^◌, ◌∙◌, ◌∷◌, ◌≡◌, ◌≤◌,
}
use rmvl.Bytes.Laws.{take_all, drop-drop, take-append-take}
use rmvl.Bytes.{Bytes, slice}
use rmvl.Lpss.Mtp.Header.{MtpHeader}
use rmvl.Lpss.Mtp.Header.RoundTrip.{wire_header, header_at, set_fragment_lem}
use rmvl.Lpss.Mtp.Send.{MtpWriterTarget, Datagram, fragment_count, send_fragments}

-- The part of the text that fragment `id` carries.
unfoldable pub chunk : Bytes → ℕ → ℕ → Bytes
chunk text capacity id = slice text (id * capacity) capacity

module _ (c i : ℕ) (pos : 0 < c) where
  below_quotient : (d : ℕ) → i + 1 < 1 + (d - 1) / c → (i + 1) * c < d
  below_quotient d h =
      let most : (i + 1) * c ≤ d - 1 = (le-div_iff_mul-le pos).0 (omega arith) in
      let some_rounds : 0 < (i + 1) * c = grind arith in omega arith

  starts_below : (d : ℕ) → 0 < d → i < 1 + (d - 1) / c → i * c < d
  starts_below d some_bytes h =
      let most : i * c ≤ d - 1 = (le-div_iff_mul-le pos).0 (omega arith) in omega arith

  quotient_covers : (d : ℕ) → d ≤ (1 + (d - 1) / c) * c
  quotient_covers d = omega (arith, lt-div-mul-add {a = d - 1} pos)

pub fragment_count-pos : (capacity size : ℕ) → 0 < fragment_count capacity size
unfolding fragment_count
fragment_count-pos capacity size = ground arith

take-min {ℓ} : {A : Type ℓ} (n : ℕ) (xs : List A) → take (min n (length xs)) xs ≡ take n xs
take-min n xs = elim (Bool-cases (leb n (length xs))) [
  | inl h ↦ rw (min-eq_left (leb→le _ _ h))
  | inr h ↦
      let less : length xs ≤ n = ground arith in
      rw (min-eq_right less, take_all (length xs) xs (omega arith), take_all n xs less)
]

module _ (text : Bytes) (capacity : ℕ) where
  pub length-chunk :
      (id : ℕ) → length (chunk text capacity id) ≡ min capacity (length text - id * capacity)
  unfolding chunk slice
  length-chunk id = simp (length-take, length-drop)

  slice-chunk :
      (id : ℕ)
      → slice text (id * capacity) (length (chunk text capacity id)) ≡ chunk text capacity id
  unfolding chunk slice
  slice-chunk id = simp length-take (take-min capacity (drop (id * capacity) text))

  -- `n` parts from `id` on, joined.
  unfoldable pub chunks_from : ℕ → ℕ → Bytes
  chunks_from zero id = []
  chunks_from (suc n) id = chunk text capacity id ++ chunks_from n (id + 1)

  pub chunks_from-take :
      (n id : ℕ) → chunks_from n id ≡ take (n * capacity) (drop (id * capacity) text)
  unfolding chunks_from chunk slice
  chunks_from-take zero id = let e : 0 * capacity ≡ 0 = omega arith in rw e refl
  chunks_from-take (suc n) id =
      let next : (id + 1) * capacity ≡ id * capacity + capacity = omega arith in
      let more : suc n * capacity ≡ capacity + n * capacity = omega arith in
      rw (chunks_from-take n (id + 1), next, more, ← drop-drop (id * capacity) capacity text)
        (take-append-take capacity (n * capacity) (drop (id * capacity) text))

  module _ (pos : 0 < capacity) where
    -- Every part but the last is full, and the last reaches the end.
    pub full-before :
        (id : ℕ)
        → id + 1 < fragment_count capacity (length text)
        → (id + 1) * capacity < length text
    unfolding fragment_count
    full-before id h = ground (arith, below_quotient capacity id pos (length text))

    -- No part of a text that has bytes is empty.
    pub starts_inside :
        (id : ℕ)
        → 0 < length text
        → id < fragment_count capacity (length text)
        → id * capacity < length text
    unfolding fragment_count
    starts_inside id some_bytes h = ground (arith, starts_below capacity id pos (length text))

    pub count-covers : length text ≤ fragment_count capacity (length text) * capacity
    unfolding fragment_count
    count-covers = ground (arith, quotient_covers capacity 0 pos (length text))

    -- All the parts, joined, are the text.
    pub chunks_join : chunks_from (fragment_count capacity (length text)) 0 ≡ text
    chunks_join =
        let e : 0 * capacity ≡ 0 = omega arith in
        chunks_from-take (fragment_count capacity (length text)) 0
        ∙ rw e (take_all _ text (count-covers))

module _ (text type topic : Bytes) (sequence : ℕ) (target : MtpWriterTarget) (capacity : ℕ) where
  -- Fragment `id` as it stands on the wire.
  unfoldable pub fragment : ℕ → Datagram
  fragment id = record {
    to = target.locator;
    header = wire_header type topic sequence (length text) id (length (chunk text capacity id));
    payload = chunk text capacity id;
  }

  unfoldable pub fragments_from : ℕ → ℕ → List Datagram
  fragments_from zero id = []
  fragments_from (suc n) id = fragment id ∷ fragments_from n (id + 1)

  module _ (pos : 0 < capacity) (narrow : capacity < 2 ^ 16) where
    -- One round sends the next fragment.
    send_fragments-step :
        (rounds id old_id old_size : ℕ) (rest : List Datagram) (last : MtpHeader)
        → id < 2 ^ 16
        → let size = length (chunk text capacity id) in
          send_fragments text target capacity rounds
              (id + 1)
              (id * capacity + size)
              (header_at type topic sequence (length text) id size)
            ≡ some (rest, last)
          → send_fragments text target capacity
              (suc rounds)
              id
              (id * capacity)
              (header_at type topic sequence (length text) old_id old_size)
            ≡ some (fragment id ∷ rest, last)
    unfolding send_fragments fragment
    send_fragments-step rounds id old_id old_size rest last low e =
        let size = length (chunk text capacity id) in
        let small : size % 2 ^ 16 ≡ size = omega (arith, length-chunk text capacity id) in
        let same_id : id % 2 ^ 16 ≡ id = omega arith in
        rw (
          ← length-chunk text capacity id,
          small,
          same_id,
          set_fragment_lem type topic sequence (length text) old_id old_size id size,
          e,
          slice-chunk text capacity id,
        )

    pub send_fragments-from :
        (rounds id old_id old_size : ℕ)
        → id + rounds ≡ fragment_count capacity (length text)
        → id + rounds ≤ 2 ^ 16
        → (last_id last_size : ℕ) × (send_fragments text target capacity rounds id
              (id * capacity)
              (header_at type topic sequence (length text) old_id old_size)
            ≡ some (
              fragments_from rounds id,
              header_at type topic sequence (length text) last_id last_size,
            ))
    unfolding fragments_from
    send_fragments-from zero id old_id old_size e h =
        (old_id, old_size, unfold send_fragments in refl)
    send_fragments-from (suc zero) id old_id old_size e h =
        let size = length (chunk text capacity id) in
        (
          id,
          size,
          send_fragments-step 0 id old_id old_size [] _ (omega arith)
              (unfold send_fragments in refl),
        )
    send_fragments-from (suc (suc rounds)) id old_id old_size e h =
        let size = length (chunk text capacity id) in
        let full : id * capacity + size ≡ (id + 1) * capacity =
          omega (
            arith,
            length-chunk text capacity id,
            full-before text capacity pos id (omega arith),
          ) in
        let (last_id, last_size, rest) =
          send_fragments-from (suc rounds) (id + 1) id size (omega arith) (omega arith) in
        (
          last_id,
          last_size,
          send_fragments-step (suc rounds) id old_id old_size _ _ (omega arith) (rw full rest),
        )
