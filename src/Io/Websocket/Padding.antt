-- ===== src/Io/Websocket/Padding.antt =====
-- modules/io/src/ws_aux.hpp: the digest of a text, by the padding of RFC 3174.
use rmvl.Prelude.{
  Bool-cases, List, [], ap, append-nil, append_assoc, arith, drop, false, inl, inr, length,
  length-append, length-drop, length-replicate, length-take, ltb, refl, replicate, suc, sym, take,
  take-append-drop, true, zero, ℕ, ◌%◌, ◌*◌, ◌++◌, ◌+◌, ◌-◌, ◌/◌, ◌<◌, ◌==◌, ◌^◌, ◌∙◌, ◌∷◌, ◌≡◌,
}
use rmvl.Bytes.{Bytes, net_u32}
use rmvl.Bytes.Laws.{replicate-append}
use rmvl.Io.Websocket.{Words, Sha1, reset, process_block, feed, update, final}
use rmvl.Io.Websocket.Updates.{feed-append, with_count, feed-with_count, update-append}

-- The number of bits, in eight bytes.
abbrev pub bit_count : ℕ → Bytes
bit_count bits = net_u32 (bits / 2 ^ 32) ++ net_u32 (bits % 2 ^ 32)

-- What follows a text of this size: a bit, zeros up to the last eight bytes of a block, and the number
-- of bits in the text.
abbrev pub padding_of : ℕ → Bytes
padding_of size = 128 ∷ (replicate ((119 - size % 64) % 64) 0 ++ bit_count (size * 8))

abbrev pub blocks_of : ℕ → Bytes → List Bytes
blocks_of zero s = []
blocks_of (suc n) s = take 64 s ∷ blocks_of n (drop 64 s)

abbrev pub absorb : List Bytes → Words → Words
absorb [] w = w
absorb (block ∷ blocks) w = absorb blocks (process_block block w)

abbrev pub digest_of : Words → Bytes
digest_of r = net_u32 r.w₀ ++ (net_u32 r.w₁ ++ (net_u32 r.w₂ ++ (net_u32 r.w₃ ++ net_u32 r.w₄)))

-- SHA-1: all blocks of the padded text in turn.
abbrev pub sha1 : Bytes → Bytes
sha1 m =
    let text = m ++ padding_of (length m) in
    digest_of (absorb (blocks_of (length text / 64) text) reset.words)

abbrev state_of : Words → Bytes → ℕ → Sha1
state_of w buffer n = record { words = w; buffer = buffer; byte_count = n }

-- Bytes that complete a block.
feed-full :
    (s buffer : Bytes) (w : Words) (n : ℕ)
    → length buffer + length s ≡ 64
    → 0 < length s
    → feed s (state_of w buffer n) ≡ state_of (process_block (buffer ++ s) w) [] n
unfolding feed
feed-full [] buffer w n full some_byte = absurd (omega (arith, some_byte))
feed-full (c ∷ []) buffer w n full some_byte =
    let last : (length (buffer ++ (c ∷ [])) == 64) ≡ true =
      ground (arith, length-append buffer (c ∷ []), full) in
    rw (feed, last) refl
feed-full (c ∷ d ∷ s) buffer w n full some_byte =
    let early : (length (buffer ++ (c ∷ [])) == 64) ≡ false =
      ground (arith, length-append buffer (c ∷ []), full) in
    rw (feed, early)
      (feed-full (d ∷ s) (buffer ++ (c ∷ [])) w n
          (omega (arith, length-append buffer (c ∷ []), full)) (omega arith)
        ∙ ap (λ b. state_of (process_block b w) [] n) (append_assoc buffer (c ∷ []) (d ∷ s)))

-- What the buffer has is what is left of the size.
length-feed :
    (s : Bytes) (h : Sha1)
    → length h.buffer < 64
    → length (feed s h).buffer ≡ (length h.buffer + length s) % 64
unfolding feed
length-feed [] h small = omega (arith, small)
length-feed (c ∷ s) h small = elim (Bool-cases (length (h.buffer ++ (c ∷ [])) == 64)) [
  | inl full ↦
      let size : length h.buffer + 1 ≡ 64 = ground (arith, length-append h.buffer (c ∷ [])) in
      rw (feed, full) (length-feed s _ (omega arith) ∙ omega (arith, size))
  | inr part ↦
      let size = length-append h.buffer (c ∷ []) in
      rw (feed, part) (length-feed s _ (ground (arith, size, small)) ∙ omega (arith, size))
]

-- Whole blocks are processed one by one.
feed-blocks :
    (n : ℕ) (s : Bytes) (w : Words) (k : ℕ)
    → length s ≡ 64 * n
    → feed s (state_of w [] k) ≡ state_of (absorb (blocks_of n s) w) [] k
unfolding feed
feed-blocks zero [] w k h = refl
feed-blocks zero (c ∷ s) w k h = absurd (omega (arith, h))
feed-blocks (suc n) s w k h =
    let block : length (take 64 s) ≡ 64 = omega (arith, length-take 64 s, h) in
    ap (λ t. feed t (state_of w [] k)) (sym (take-append-drop 64 s))
    ∙ (feed-append (take 64 s) (drop 64 s) (state_of w [] k)
        ∙ (ap (feed (drop 64 s))
              (feed-full (take 64 s) [] w k (omega (arith, block)) (omega (arith, block)))
            ∙ feed-blocks n (drop 64 s) (process_block (take 64 s) w) k
                (omega (arith, length-drop 64 s, h))))

abbrev zero_bytes : ℕ → Bytes
zero_bytes k = replicate k 0

-- Zeros and a count of bits after the bit that marks the end.
abbrev ending : ℕ → Bytes → Bytes
ending k count = 128 ∷ (zero_bytes k ++ count)

length-bit_count : (bits : ℕ) → length (bit_count bits) ≡ 8
unfolding net_u32
length-bit_count bits = refl

-- The padding of final is the bytes of `ending`, fed like all others.
abbrev IsEnding : Words → Bytes → ℕ → ℕ → Type 0
IsEnding w buffer n k =
    final (state_of w buffer n)
    ≡ digest_of (feed (ending k (bit_count (n * 8 % 2 ^ 64))) (state_of w buffer n)).words

module _ (w : Words) (buffer : Bytes) (n k : ℕ) (small : length buffer < 64)
    (zeros : k ≡ (119 - length buffer) % 64) where
  abbrev marked : Bytes
  marked = buffer ++ (128 ∷ [])

  abbrev count : Bytes
  count = bit_count (n * 8 % 2 ^ 64)

  length-marked : length marked ≡ length buffer + 1
  length-marked = length-append buffer (128 ∷ [])

  one_block : ltb 56 (length marked) ≡ false → IsEnding w buffer n k
  unfolding final net_u32
  one_block fits =
      let left : 56 - length marked ≡ k = ground (arith, length-marked, zeros, small) in
      let full : length buffer + length (ending k count) ≡ 64 = ground (
        arith,
        length-append (zero_bytes k) count,
        length-replicate {A = ℕ} k 0,
        zeros,
        length-marked,
        small,
      ) in
      let joined : (marked ++ zero_bytes k) ++ count ≡ buffer ++ ending k count =
        append_assoc marked (zero_bytes k) count ∙ append_assoc buffer (128 ∷ []) _ in
      rw (final, fits, left, joined, feed-full (ending k count) buffer w n full (omega arith)) refl

  two_blocks : ltb 56 (length marked) ≡ true → IsEnding w buffer n k
  unfolding final net_u32
  two_blocks spills =
      let j = 64 - length marked in
      let split : k ≡ j + 56 = ground (arith, length-marked, zeros, small) in
      let first = ending j [] in
      let rest = zero_bytes 56 ++ count in
      let full : length buffer + length first ≡ 64 = ground (
        arith,
        length-append (zero_bytes j) [],
        length-replicate {A = ℕ} j 0,
        length-marked,
        small,
      ) in
      let cut : ending k count ≡ first ++ rest =
        ap (λ t. 128 ∷ t)
          (rw
            (
              split,
              replicate-append {A = ℕ} j 56 0,
              append_assoc (zero_bytes j) (zero_bytes 56) count,
              append-nil (zero_bytes j),
            )
            refl) in
      let joined : marked ++ zero_bytes j ≡ buffer ++ first =
        append_assoc buffer (128 ∷ []) (zero_bytes j)
        ∙ ap (λ t. buffer ++ (128 ∷ t)) (sym (append-nil (zero_bytes j))) in
      rw
        (
          final,
          spills,
          cut,
          feed-append first rest (state_of w buffer n),
          feed-full first buffer w n full (omega arith),
          feed-full rest [] (process_block (buffer ++ first) w) n (omega arith) (omega arith),
          joined,
        )
        refl

  final-IsEnding : IsEnding w buffer n k
  final-IsEnding = elim (Bool-cases (ltb 56 (length marked))) [
    | inl spills ↦ two_blocks spills
    | inr fits ↦ one_block fits
  ]

final-update : (m : Bytes) → length m < 2 ^ 61 → final (update m reset) ≡ sha1 m
unfolding update
final-update m short =
    let h = feed m reset in
    let n = (0 + length m) % 2 ^ 64 in
    let left : length h.buffer ≡ length m % 64 = length-feed m reset (omega arith) ∙ omega arith in
    let bits : n * 8 % 2 ^ 64 ≡ length m * 8 = omega (arith, short) in
    let text = m ++ padding_of (length m) in
    let whole : length text ≡ 64 * (length text / 64) = size m in
    final-IsEnding h.words h.buffer n ((119 - length m % 64) % 64) (omega (arith, left))
      (omega (arith, left))
    ∙ ap digest_of (
        ap (λ b. (feed (ending ((119 - length m % 64) % 64) (bit_count b)) (with_count h n)).words)
          bits
        ∙ (ap (λ x. x.words) (feed-with_count (padding_of (length m)) h n)
            ∙ (ap (λ x. x.words) (sym (feed-append m (padding_of (length m)) reset))
                ∙ ap (λ x. x.words) (feed-blocks (length text / 64) text reset.words 0 whole))))
  where
    size :
        (m : Bytes)
        → length (m ++ padding_of (length m)) ≡ 64 * (length (m ++ padding_of (length m)) / 64)
    size m =
        let z = (119 - length m % 64) % 64 in
        omega (
          arith,
          length-append m (padding_of (length m)),
          length-append (zero_bytes z) (bit_count (length m * 8)),
          length-replicate {A = ℕ} z 0,
          length-bit_count (length m * 8),
        )

-- The digest after two updates is that of the two texts in one, below 2 ^ 61 bytes: the text with the
-- padding of RFC 3174, whose blocks of 64 bytes go through process_block in turn, wherever it is cut
-- into two.
pub final-update_twice :
    (s t : Bytes) → length (s ++ t) < 2 ^ 61 → final (update t (update s reset)) ≡ sha1 (s ++ t)
final-update_twice s t short =
    ap final (sym (update-append s t reset)) ∙ final-update (s ++ t) short
