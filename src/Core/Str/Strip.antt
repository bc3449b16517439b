-- ===== src/Core/Str/Strip.antt =====
-- modules/core/src/core.cpp: strip takes the blanks off both ends, and throws for a blank string.
use rmvl.Prelude.{
  All, Option, [], ap, append_assoc, arith, false, length, length-append, none, refl, some, sym,
  true, ℕ, ◌++◌, ◌+◌, ◌∙◌, ◌∷◌, ◌≡◌,
}
use rmvl.Bytes.{Bytes}
use rmvl.Bytes.Laws.{slice-append}
use rmvl.Core.Str.{
  contains, not_of_from, find_first_not_of, last_not_of_from, find_last_not_of, blanks, strip,
}

abbrev pub IsBlank : ℕ → Type 0
IsBlank c = contains blanks c ≡ true

abbrev pub IsSolid : ℕ → Type 0
IsSolid c = contains blanks c ≡ false

-- Splitting at the first character that is no blank.
not_of_from-blank : (s : Bytes) (i : ℕ) → All IsBlank s → not_of_from blanks s i ≡ none
unfolding not_of_from
not_of_from-blank [] i h = refl
not_of_from-blank (c ∷ s) i h = rw h.0 (not_of_from-blank s (i + 1) h.1)

not_of_from-solid :
    (p : Bytes) (c : ℕ) (s : Bytes) (i : ℕ)
    → All IsBlank p
    → IsSolid c
    → not_of_from blanks (p ++ (c ∷ s)) i ≡ some (i + length p)
unfolding not_of_from
not_of_from-solid [] c s i h k = rw k (ap some (omega arith))
not_of_from-solid (b ∷ p) c s i h k =
    rw h.0 (not_of_from-solid p c s (i + 1) h.1 k ∙ ap some (omega arith))

last_not_of_from-blank :
    (s : Bytes) (i : ℕ) (last : Option ℕ) → All IsBlank s → last_not_of_from blanks s i last ≡ last
unfolding last_not_of_from
last_not_of_from-blank [] i last h = refl
last_not_of_from-blank (c ∷ s) i last h = rw h.0 (last_not_of_from-blank s (i + 1) last h.1)

last_not_of_from-solid :
    (s : Bytes) (c : ℕ) (p : Bytes) (i : ℕ) (last : Option ℕ)
    → IsSolid c
    → All IsBlank p
    → last_not_of_from blanks (s ++ (c ∷ p)) i last ≡ some (i + length s)
unfolding last_not_of_from
last_not_of_from-solid [] c p i last k h =
    rw (last_not_of_from, k) (last_not_of_from-blank p (i + 1) (some i) h ∙ ap some (omega arith))
last_not_of_from-solid (b ∷ s) c p i last k h =
    last_not_of_from-solid s c p (i + 1) _ k h ∙ ap some (omega arith)

-- Stripping any string of blanks, the empty one included, throws.
pub strip_blank : (s : Bytes) → All IsBlank s → strip s ≡ none
unfolding strip find_first_not_of
strip_blank s h = rw (not_of_from-blank s 0 h) refl

last_of-solid :
    (p s q : Bytes) (d : ℕ)
    → IsSolid d
    → All IsBlank q
    → find_last_not_of (p ++ ((s ++ (d ∷ [])) ++ q)) blanks ≡ some (length p + length s)
unfolding find_last_not_of
last_of-solid p s q d k h =
    let shape : p ++ ((s ++ (d ∷ [])) ++ q) ≡ (p ++ s) ++ (d ∷ q) =
      ap (λ x. p ++ x) (append_assoc s (d ∷ []) q) ∙ sym (append_assoc p s (d ∷ q)) in
    rw shape
      (last_not_of_from-solid (p ++ s) d q 0 none k h ∙ ap some (omega (arith, length-append p s)))

-- Stripping a text that neither begins nor ends with a blank, with any blanks before and after it,
-- gives the text.
pub strip_between :
    (p body q front rest : Bytes) (c d : ℕ)
    → All IsBlank p
    → All IsBlank q
    → body ≡ c ∷ rest
    → body ≡ front ++ (d ∷ [])
    → IsSolid c
    → IsSolid d
    → strip (p ++ (body ++ q)) ≡ some body
unfolding strip find_first_not_of
strip_between p body q front rest c d hp hq begins ends hc hd =
    let first : not_of_from blanks (p ++ (body ++ q)) 0 ≡ some (length p) =
      rw begins (not_of_from-solid p c (rest ++ q) 0 hp hc ∙ ap some (omega arith)) in
    let last : find_last_not_of (p ++ (body ++ q)) blanks ≡ some (length p + length front) =
      rw ends (last_of-solid p front q d hd hq) in
    let size = ap length ends ∙ length-append front (d ∷ []) in
    rw (strip, first, last)
      (ap some (slice-append p body q (length p) _ refl (omega (arith, size))))
