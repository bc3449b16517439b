-- ===== src/Core/Str/Parts.antt =====
-- modules/core/src/core.cpp: split takes apart what join puts together.
use rmvl.Prelude.{
  All, List, Option, [], ap, append-nil, append_assoc, arith, drop, false, leb, length,
  length-append, none, refl, some, suc, sym, true, zero, ℕ, ◌++◌, ◌+◌, ◌-◌, ◌<◌, ◌==◌, ◌∙◌, ◌∷◌,
  ◌≡◌,
}
use rmvl.Bytes.{Bytes, slice}
use rmvl.Bytes.Laws.{slice-append, drop-append_exact}
use rmvl.Core.Str.{
  starts_with, search, find_text, contains, not_of_from, find_first_not_of, split_loop, split, join,
}
use rmvl.Core.Str.Join.{separated, join-separated}

module _ (c : ℕ) where
  -- A text without the delimiter.
  abbrev pub IsFree : Bytes → Type 0
  IsFree w = All (λ d. (c == d) ≡ false) w

  -- A text that is one part: without the delimiter, and not empty.
  abbrev pub IsPart : Bytes → Type 0
  IsPart w = (0 < length w) × IsFree w

  pub search-free : (w : Bytes) (i : ℕ) → IsFree w → search (c ∷ []) w i ≡ none
  unfolding search starts_with
  search-free [] i h = refl
  search-free (d ∷ w) i h = rw (h.0, search-free w (i + 1) h.1) refl

  pub search-found :
      (w s : Bytes) (i : ℕ) → IsFree w → search (c ∷ []) (w ++ (c ∷ s)) i ≡ some (i + length w)
  unfolding search starts_with
  search-found [] s i h = ground arith
  search-found (d ∷ w) s i h = ground (arith, search-found w s (i + 1) h.1)

  -- After a delimiter, the next part begins at once.
  not_of_from-part :
      (w s : Bytes) (i : ℕ) → IsPart w → not_of_from (c ∷ []) (c ∷ (w ++ s)) i ≡ some (i + 1)
  unfolding not_of_from contains
  not_of_from-part [] s i h = absurd (omega (arith, h.0))
  not_of_from-part (d ∷ w) s i h = ground (arith, h.1.0)

  not_of_from-separated :
      (v : Bytes) (vs : List Bytes) (i : ℕ)
      → IsPart v
      → not_of_from (c ∷ []) (c ∷ separated (c ∷ []) (v ∷ vs)) i ≡ some (i + 1)
  unfolding separated
  not_of_from-separated v [] i h = rw⁻¹ (append-nil v) (not_of_from-part v [] i h)
  not_of_from-separated v (w ∷ vs) i h = not_of_from-part v _ i h

  -- What stands at the end of a prefix.
  drop-prefix : (str p s : Bytes) (n : ℕ) → str ≡ p ++ s → length p ≡ n → drop n str ≡ s
  drop-prefix str p s n e h = rw e (drop-append_exact n p s h)

  find_text-at :
      (str p s : Bytes)
      → str ≡ p ++ s
      → find_text str (c ∷ []) (length p) ≡ search (c ∷ []) s (length p)
  unfolding find_text
  find_text-at str p s e =
      let inside : leb (length p) (length str) ≡ true =
        ground (arith, ap length e, length-append p s) in
      rw (inside, drop-prefix str p s (length p) e refl) refl

  first_after :
      (str : Bytes) (n : ℕ) (s : Bytes) {r : Option ℕ}
      → drop n str ≡ s
      → not_of_from (c ∷ []) s n ≡ r
      → find_first_not_of str (c ∷ []) n ≡ r
  unfolding find_first_not_of
  first_after str n s e h = rw e h

  split_loop-parts :
      (rounds : ℕ) (str p w : Bytes) (ws : List Bytes)
      → str ≡ p ++ separated (c ∷ []) (w ∷ ws)
      → IsPart w
      → All IsPart ws
      → length ws < rounds
      → split_loop rounds str (c ∷ []) (some (length p)) ≡ some (w ∷ ws)
  unfolding split_loop separated
  split_loop-parts zero str p w ws e h hs few = absurd (omega arith)
  split_loop-parts (suc rounds) str p w [] e h hs few =
      let none_left = find_text-at str p w e ∙ search-free w (length p) h.1 in
      rw (split_loop, none_left, drop-prefix str p w (length p) e refl) refl
  split_loop-parts (suc rounds) str p w (v ∷ vs) e h hs few =
      let s = separated (c ∷ []) (v ∷ vs) in
      let n = length p + length w in
      let here = find_text-at str p (w ++ (c ∷ s)) e ∙ search-found w s (length p) h.1 in
      let start : str ≡ (p ++ w) ++ (c ∷ s) = e ∙ sym (append_assoc p w (c ∷ s)) in
      let at_delimiter = drop-prefix str (p ++ w) (c ∷ s) n start (length-append p w) in
      let next : find_first_not_of str (c ∷ []) n ≡ some (n + 1) =
        first_after str n _ at_delimiter (not_of_from-separated v vs n hs.0) in
      let p' = p ++ (w ++ (c ∷ [])) in
      let width : length p' ≡ n + 1 =
        ground (arith, length-append p (w ++ (c ∷ [])), length-append w (c ∷ [])) in
      let after : str ≡ p' ++ s =
        e ∙ sym (append_assoc p (w ++ (c ∷ [])) s ∙ ap (λ x. p ++ x) (append_assoc w (c ∷ []) s)) in
      let rest = rw width at (split_loop-parts rounds str p' v vs after hs.0 hs.1 (omega arith)) in
      let part : slice str (length p) (n - length p) ≡ w =
        rw e (slice-append p w (c ∷ s) _ _ refl (omega arith)) in
      rw (split_loop, here, here, next, rest, part) refl

  length-separated :
      (w : Bytes) (ws : List Bytes)
      → IsPart w
      → All IsPart ws
      → length ws < length (separated (c ∷ []) (w ∷ ws))
  unfolding separated
  length-separated w [] h hs = h.0
  length-separated w (v ∷ vs) h hs =
      omega
        (arith, length-separated v vs hs.0 hs.1, length-append w (c ∷ separated (c ∷ []) (v ∷ vs)))

  first_part :
      (w : Bytes) (ws : List Bytes)
      → IsPart w
      → find_first_not_of (separated (c ∷ []) (w ∷ ws)) (c ∷ []) 0 ≡ some 0
  unfolding find_first_not_of separated not_of_from contains
  first_part [] ws h = absurd (omega (arith, h.0))
  first_part (d ∷ w) [] h = ground (arith, h.1.0)
  first_part (d ∷ w) (v ∷ vs) h = ground (arith, h.1.0)

  split-loop :
      (str : Bytes) {start : Option ℕ}
      → 0 < length str
      → find_first_not_of str (c ∷ []) 0 ≡ start
      → split str (c ∷ []) ≡ split_loop (length str + 1) str (c ∷ []) start
  unfolding split
  split-loop [] h e = absurd (omega (arith, h))
  split-loop (d ∷ str) h e = rw e refl

  -- One text or more, none of them empty and none with the delimiter in it, joined by a delimiter of
  -- one character and split at it again, are the same texts; the loop of split ends.
  pub split-join :
      (w : Bytes) (ws : List Bytes)
      → IsPart w
      → All IsPart ws
      → split (join (w ∷ ws) (c ∷ [])) (c ∷ []) ≡ some (w ∷ ws)
  split-join w ws h hs =
      let joined : join (w ∷ ws) (c ∷ []) ≡ separated (c ∷ []) (w ∷ ws) =
        join-separated ws w [] c ∙ append-nil _ in
      let size = length-separated w ws h hs in
      let str = separated (c ∷ []) (w ∷ ws) in
      ap (λ x. split x (c ∷ [])) joined
      ∙ split-loop str (omega arith) (first_part w ws h)
      ∙ split_loop-parts (length str + 1) str [] w ws refl h hs (omega arith)

find_empty : (d : ℕ) (s : Bytes) → find_text (d ∷ s) [] 0 ≡ some 0
unfolding find_text search starts_with
find_empty d s = ground arith

first_of_all : (d : ℕ) (s : Bytes) → find_first_not_of (d ∷ s) [] 0 ≡ some 0
unfolding find_first_not_of not_of_from contains
first_of_all d s = refl

split_loop-again : (rounds d : ℕ) (s : Bytes) → split_loop rounds (d ∷ s) [] (some 0) ≡ none
unfolding split_loop
split_loop-again zero d s = refl
split_loop-again (suc rounds) d s =
    rw (split_loop, find_empty d s, find_empty d s, first_of_all d s, split_loop-again rounds d s)
      refl

-- Splitting a text that is not empty at the empty delimiter never ends: the loop starts again at the
-- same character in each round.
pub split_loop-endless :
    (rounds d : ℕ) (s : Bytes)
    → split_loop rounds (d ∷ s) [] (find_first_not_of (d ∷ s) [] 0) ≡ none
split_loop-endless rounds d s = rw (first_of_all d s) (split_loop-again rounds d s)
