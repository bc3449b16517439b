-- ===== src/Io/Http/Boundary/Scanning.antt =====
-- modules/core and modules/io: searches in a text and in a longer one.
use rmvl.Prelude.{
  Bool-cases, [], arith, drop, inl, inr, leb, length, length-append, refl, some, suc, true, zero, ℕ,
  ◌++◌, ◌+◌, ◌-◌, ◌∷◌, ◌≡◌, ◌≤◌,
}
use rmvl.Bytes.{Bytes}
use rmvl.Bytes.Laws.{drop-append_le}
use rmvl.Core.Str.{starts_with, search, find_text}

starts_with-append :
    (p s t : Bytes) → length p ≤ length s → starts_with p (s ++ t) ≡ starts_with p s
unfolding starts_with
starts_with-append [] s t h = refl
starts_with-append (x ∷ p) [] t h = absurd (omega arith)
starts_with-append (x ∷ p) (c ∷ s) t h = rw (starts_with-append p s t (omega arith)) refl

starts_with-length : (p s : Bytes) → starts_with p s ≡ true → length p ≤ length s
unfolding starts_with
starts_with-length [] s h = omega arith
starts_with-length (x ∷ p) [] h = absurd (ground arith)
starts_with-length (x ∷ p) (c ∷ s) h =
    let rest : starts_with p s ≡ true = ground arith in omega (arith, starts_with-length p s rest)

search-length : (p s : Bytes) (i j : ℕ) → search p s i ≡ some j → length p ≤ length s
unfolding search
search-length p [] i j h = elim (Bool-cases (starts_with p [])) [
  | inl here ↦ starts_with-length p [] here
  | inr none_here ↦ absurd (ground arith)
]
search-length p (c ∷ s) i j h = elim (Bool-cases (starts_with p (c ∷ s))) [
  | inl here ↦ starts_with-length p (c ∷ s) here
  | inr later ↦ omega (arith, search-length p s (i + 1) j (rw later at h))
]

-- What is found in a text is found in a longer one.
pub search-append : (p s t : Bytes) (i j : ℕ) → search p s i ≡ some j → search p (s ++ t) i ≡ some j
unfolding search starts_with
search-append [] [] [] i j h = h
search-append [] [] (c ∷ t) i j h = h
search-append (x ∷ p) [] t i j h = absurd (ground arith)
search-append p (c ∷ s) t i j h = elim (Bool-cases (starts_with p (c ∷ s))) [
  | inl here ↦
      let fits = starts_with-length p (c ∷ s) here in
      rw (starts_with-append p (c ∷ s) t fits, here) (rw here at h)
  | inr later ↦
      let fits = search-length p s (i + 1) j (rw later at h) in
      rw (starts_with-append p (c ∷ s) t (omega (arith, fits)), later)
        (search-append p s t (i + 1) j (rw later at h))
]

-- What is found is there, and no further than any other place where it is.
pub search_sound :
    (p s : Bytes) (i j : ℕ)
    → search p s i ≡ some j
    → (i ≤ j) × ((starts_with p (drop (j - i) s) ≡ true) × (j - i + length p ≤ length s))
unfolding search
search_sound p [] i j h = elim (Bool-cases (starts_with p [])) [
  | inl here ↦
      let same : i ≡ j = ground arith in
      let zero_steps : j - i ≡ 0 = omega arith in
      (omega arith, rw zero_steps (here, omega (arith, starts_with-length p [] here)))
  | inr none_here ↦ absurd (ground arith)
]
search_sound p (c ∷ s) i j h = elim (Bool-cases (starts_with p (c ∷ s))) [
  | inl here ↦
      let same : i ≡ j = ground arith in
      let zero_steps : j - i ≡ 0 = omega arith in
      (omega arith, rw zero_steps (here, omega (arith, starts_with-length p (c ∷ s) here)))
  | inr later ↦
      let (low, (there, fits)) = search_sound p s (i + 1) j (rw later at h) in
      let step : j - i ≡ suc (j - (i + 1)) = omega arith in
      (omega arith, rw step (there, omega arith))
]

pub search-first :
    (p s : Bytes) (i k : ℕ)
    → starts_with p (drop k s) ≡ true
    → k ≤ length s
    → (j : ℕ) × ((search p s i ≡ some j) × (j ≤ i + k))
unfolding search
search-first p [] i zero h few = (i, (rw h refl, omega arith))
search-first p [] i (suc k) h few = absurd (omega arith)
search-first p (c ∷ s) i zero h few = (i, (rw h refl, omega arith))
search-first p (c ∷ s) i (suc k) h few = elim (Bool-cases (starts_with p (c ∷ s))) [
  | inl here ↦ (i, (rw here refl, omega arith))
  | inr later ↦
      let (j, (found, low)) = search-first p s (i + 1) k h (omega arith) in
      (j, (rw later found, omega arith))
]

pub find_text-append :
    (p s t : Bytes) (i j : ℕ) → find_text s p i ≡ some j → find_text (s ++ t) p i ≡ some j
unfolding find_text
find_text-append p s t i j h = elim (Bool-cases (leb i (length s))) [
  | inl inside ↦
      let still : leb i (length (s ++ t)) ≡ true = ground (arith, length-append s t) in
      rw (still, drop-append_le i s t (ground arith))
        (search-append p (drop i s) t i j (rw inside at h))
  | inr outside ↦ absurd (ground arith)
]
