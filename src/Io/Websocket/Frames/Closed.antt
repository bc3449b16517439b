-- ===== src/Io/Websocket/Frames/Closed.antt =====
-- modules/io/src/netapp.cpp: recv on a connection that is closed within the header of a frame.
use mathlib.Core.Option.{some-injective}
use rmvl.Prelude.{
  Bool, Bool-cases, List, Option-cases, [], ap, append_assoc, arith, false, if◌then◌else◌, inl, inr,
  leb, length, length-append, ltb, lt→ltb, none, refl, some, suc, sym, true, zero, ℕ, ◌%◌, ◌++◌,
  ◌+◌, ◌<◌, ◌==◌, ◌>>=◌, ◌∙◌, ◌∷◌, ◌≡◌, ◌≤◌,
}
use rmvl.Bytes.{Bytes, host_of_net, slice}
use rmvl.Bytes.Chunks.{contents}
use rmvl.Io.Websocket.Frames.{fill, recv_mask, recv_size, recv}

-- The bytes of the header of a frame, by RFC 6455: two, those of an extended length, and the mask.
abbrev pub header_bytes : ℕ → ℕ
header_bytes second =
    2
    + (if second % 128 == 126 then 2 else if second % 128 == 127 then 8 else 0)
    + (if leb 128 second then 4 else 0)

-- All that a buffer and the chunks after it will ever hold.
abbrev total : Bytes → List Bytes → ℕ
total buffer chunks = length (buffer ++ contents chunks)

fill_short :
    (rounds n : ℕ) (buffer : Bytes) (chunks : List Bytes)
    → total buffer chunks < n
    → fill rounds n buffer chunks ≡ none
unfolding fill
fill_short zero n buffer chunks h = refl
fill_short (suc rounds) n buffer [] h =
    let short : ltb (length buffer) n ≡ true =
      lt→ltb _ _ (omega (arith, h, length-append buffer [])) in
    rw (fill, short)
      (fill_short rounds n (buffer ++ []) [] (omega (arith, h, length-append (buffer ++ []) [])))
fill_short (suc rounds) n buffer (c ∷ cs) h =
    let short : ltb (length buffer) n ≡ true =
      lt→ltb _ _ (omega (arith, h, length-append buffer (c ++ contents cs))) in
    rw (fill, short)
      (fill_short rounds n (buffer ++ c) cs (rw (append_assoc buffer c (contents cs)) h))

-- The loop loses nothing and makes nothing.
total-fill :
    (rounds n : ℕ) (buffer : Bytes) (chunks : List Bytes) (r : Bytes × List Bytes)
    → fill rounds n buffer chunks ≡ some r
    → total r.0 r.1 ≡ total buffer chunks
unfolding fill
total-fill zero n buffer chunks r h = absurd (ground (arith, h))
total-fill (suc rounds) n buffer [] r h = elim (Bool-cases (ltb (length buffer) n)) [
  | inl short ↦
      total-fill rounds n (buffer ++ []) [] r (rw (fill, short) at h)
      ∙ omega (arith, length-append (buffer ++ []) [])
  | inr full ↦ ap (λ q. total q.0 q.1) (sym (some-injective (buffer, []) r (rw (fill, full) at h)))
]
total-fill (suc rounds) n buffer (c ∷ cs) r h = elim (Bool-cases (ltb (length buffer) n)) [
  | inl short ↦
      total-fill rounds n (buffer ++ c) cs r (rw (fill, short) at h)
      ∙ ap length (append_assoc buffer c (contents cs))
  | inr full ↦
      ap (λ q. total q.0 q.1) (sym (some-injective (buffer, c ∷ cs) r (rw (fill, full) at h)))
]

mask_short :
    (rounds opcode n size : ℕ) (buffer : Bytes) (chunks : List Bytes)
    → total buffer chunks < n + 4
    → recv_mask rounds opcode true n size buffer chunks ≡ none
unfolding recv_mask
mask_short rounds opcode n size buffer chunks h =
    rw (fill_short rounds (n + 4) buffer chunks h) refl

-- An extended length, and then the mask if there is one.
size_short :
    (rounds opcode n : ℕ) (masked : Bool) (size : Bytes → ℕ) (buffer : Bytes) (chunks : List Bytes)
    → total buffer chunks < n + (if masked then 4 else 0)
    → (fill rounds n buffer chunks >>= λ (b, cs). recv_mask rounds opcode masked n (size b) b cs)
      ≡ none
size_short rounds opcode n false size buffer chunks h =
    rw (fill_short rounds n buffer chunks (omega (arith, h))) refl
size_short rounds opcode n true size buffer chunks h =
    elim (Option-cases (fill rounds n buffer chunks)) [
      | inl endless ↦ rw endless refl
      | inr (r, e) ↦ rw e (
          mask_short rounds opcode n (size r.0) r.0 r.1
            (rw (total-fill rounds n buffer chunks r e) h))
    ]

-- What the two first bytes say.
sized_short :
    (rounds first second : ℕ) (buffer : Bytes) (chunks : List Bytes)
    → 2 ≤ total buffer chunks
    → total buffer chunks < header_bytes second
    → recv_size rounds first second buffer chunks ≡ none
unfolding recv_size
sized_short rounds first second buffer chunks two h = elim (Bool-cases (second % 128 == 126)) [
  | inl middle ↦
      rw (recv_size, middle)
        (size_short rounds (first % 16) 4 (leb 128 second) (λ b. host_of_net 0 (slice b 2 2)) buffer
          chunks (rw middle at h))
  | inr other ↦ elim (Bool-cases (second % 128 == 127)) [
    | inl long ↦
        rw (recv_size, other, long)
          (size_short rounds (first % 16) 10 (leb 128 second) (λ b. host_of_net 0 (slice b 2 8))
            buffer chunks (rw (other, long) at h))
    | inr short ↦ elim (Bool-cases (leb 128 second)) [
      | inl masked ↦
          rw (recv_size, other, short, masked)
            (mask_short rounds (first % 16) 2 (second % 128) buffer chunks
              (rw (other, short, masked) at h))
      | inr plain ↦
          let few : total buffer chunks < 2 = rw (other, short, plain) at h in
          absurd (omega (arith, few, two))
    ]
  ]
]

-- A connection that is closed before the header of a frame is complete, but after its first two
-- bytes, which the first read gave, makes recv read for ever: no number of rounds ends it. This holds
-- for each form of the length, with the mask and without, and however the bytes are cut.
pub recv_closed :
    (rounds first second : ℕ) (bytes : Bytes) (chunks : List Bytes)
    → 2 + length (bytes ++ contents chunks) < header_bytes second
    → recv rounds ((first ∷ second ∷ bytes) ∷ chunks) ≡ none
unfolding recv
recv_closed rounds first second bytes chunks h =
    sized_short rounds first second (first ∷ second ∷ bytes) chunks (omega arith) (omega (arith, h))
