-- ===== src/Lpss/Tf/Edges.antt =====
-- modules/lpss/src/transform.cpp: the samples of an edge stay in the order of time, an edge always
-- keeps its last one, and a sample that was stored is read back.
pub mod Window
use rmvl.Prelude.{
  All, All-map, Bool-cases, List, Option, [], arith, false, inl, inr, ltb, lt→ltb, none, refl, some,
  ℕ, ◌<◌, ◌==◌, ◌∷◌, ◌≡◌, ◌≤◌, ◌⊎◌,
}
use rmvl.Lpss.Tf.Geometry.{Doubles, Transform}
use rmvl.Lpss.Tf.{
  ok, cache_cutoff, TransformSample, from_time, insert_sample, back_time, prune_samples, is_old,
}
use rmvl.Lpss.Tf.Lookup.{sample_from, sample_dynamic}

module _ (F : Doubles) where
  abbrev pub Samples : Type 0
  Samples = List (TransformSample F)

  -- The times of all samples have a property.
  abbrev pub Times : (ℕ → Type 0) → Samples → Type 0
  Times P = All (λ s. P s.time)

  abbrev pub IsSorted : Samples → Type 0
  IsSorted [] = Unit
  IsSorted (s ∷ ss) = Times (λ r. s.time < r) ss × IsSorted ss

  -- A sample of this time and transform is there.
  abbrev pub Has : ℕ → Transform F → Samples → Type 0
  Has time t [] = 0 < 0
  Has time t (s ∷ ss) = ((s.time ≡ time) × (s.transform ≡ t)) ⊎ Has time t ss

  insert-Times :
      (P : ℕ → Type 0) (time : ℕ) (t : Transform F) (ss : Samples)
      → P time
      → Times P ss
      → Times P (insert_sample F time t ss)
  unfolding insert_sample
  insert-Times P time t [] p h = (p, tt)
  insert-Times P time t (s ∷ ss) p h = elim (Bool-cases (ltb s.time time)) [
    | inl before ↦ rw before (h.0, insert-Times P time t ss p h.1)
    | inr from ↦ elim (Bool-cases (s.time == time)) [
      | inl same ↦ rw (from, same) h
      | inr after ↦ rw (from, after) (p, h)
    ]
  ]

  Times-above : (a b : ℕ) (ss : Samples) → a ≤ b → Times (λ r. b < r) ss → Times (λ r. a < r) ss
  Times-above a b ss h k = All-map _ (λ s p. omega arith) ss k

  pub insert_sample-IsSorted :
      (time : ℕ) (t : Transform F) (ss : Samples)
      → IsSorted ss
      → IsSorted (insert_sample F time t ss)
  unfolding insert_sample
  insert_sample-IsSorted time t [] h = (tt, tt)
  insert_sample-IsSorted time t (s ∷ ss) h = elim (Bool-cases (ltb s.time time)) [
    | inl before ↦ rw before (
      insert-Times (λ r. s.time < r) time t ss (ground arith) h.0,
      insert_sample-IsSorted time t ss h.1,
    )
    | inr from ↦ elim (Bool-cases (s.time == time)) [
      | inl same ↦ rw (from, same) h
      | inr after ↦
          rw (from, after) ((ground arith, Times-above time s.time ss (ground arith) h.0), h)
    ]
  ]

  pub insert_sample-Has :
      (time : ℕ) (t : Transform F) (ss : Samples) → Has time t (insert_sample F time t ss)
  unfolding insert_sample
  insert_sample-Has time t [] = inl (refl, refl)
  insert_sample-Has time t (s ∷ ss) = elim (Bool-cases (ltb s.time time)) [
    | inl before ↦ rw before (inr (insert_sample-Has time t ss))
    | inr from ↦ elim (Bool-cases (s.time == time)) [
      | inl same ↦ rw (from, same) (inl (ground arith, refl))
      | inr after ↦ rw (from, after) (inl (refl, refl))
    ]
  ]

  pub from_time-IsSorted :
      (cutoff : ℕ) (ss : Samples) → IsSorted ss → IsSorted (from_time F cutoff ss)
  unfolding from_time
  from_time-IsSorted cutoff [] h = tt
  from_time-IsSorted cutoff (s ∷ ss) h = elim (Bool-cases (ltb s.time cutoff)) [
    | inl before ↦ rw before (from_time-IsSorted cutoff ss h.1)
    | inr from ↦ rw from h
  ]

  pub from_time-Has :
      (cutoff time : ℕ) (t : Transform F) (ss : Samples)
      → cutoff ≤ time
      → Has time t ss
      → Has time t (from_time F cutoff ss)
  unfolding from_time
  from_time-Has cutoff time t [] c h = absurd (omega arith)
  from_time-Has cutoff time t (s ∷ ss) c h = elim (Bool-cases (ltb s.time cutoff)) [
    | inl before ↦ rw before (elim h [
      | inl here ↦ absurd (ground arith)
      | inr later ↦ from_time-Has cutoff time t ss c later
    ])
    | inr from ↦ rw from h
  ]

  -- No sample is later than the last one.
  Has-le-back :
      (time : ℕ) (t : Transform F) (s : TransformSample F) (ss : Samples)
      → IsSorted (s ∷ ss)
      → Has time t (s ∷ ss)
      → (s.time ≤ time) × (time ≤ back_time F s ss)
  unfolding back_time
  Has-le-back time t s [] h k = ground arith
  Has-le-back time t s (r ∷ rs) h k = elim k [
    | inl here ↦
        let rest = Has-le-back r.time r.transform r rs h.1 (inl (refl, refl)) in
        (omega arith, omega (arith, rest.1, h.0.0))
    | inr later ↦
        let rest = Has-le-back time t r rs h.1 later in (omega (arith, rest.0, h.0.0), rest.1)
  ]

  sample_from-Has :
      (time : ℕ) (t : Transform F) (previous : Option (TransformSample F)) (ss : Samples)
      → IsSorted ss
      → Has time t ss
      → sample_from F time previous ss ≡ some t
  unfolding sample_from
  sample_from-Has time t previous [] h k = absurd (omega arith)
  sample_from-Has time t previous (s ∷ ss) h k = elim k [
    | inl here ↦ ground arith
    | inr later ↦
        let below : s.time < time = later_time ss h.0 later in
        rw (lt→ltb s.time time below) (sample_from-Has time t (some s) ss h.1 later)
  ]
    where
      later_time : (rs : Samples) → Times (λ r. s.time < r) rs → Has time t rs → s.time < time
      later_time [] p q = absurd (omega arith)
      later_time (r ∷ rs) p q = elim q [
        | inl here ↦ omega (arith, p.0, here.0)
        | inr rest ↦ later_time rs p.1 rest
      ]

  pub sample_dynamic-Has :
      (time : ℕ) (t : Transform F) (ss : Samples)
      → IsSorted ss
      → Has time t ss
      → sample_dynamic F time ss ≡ some (ok, t)
  unfolding sample_dynamic
  sample_dynamic-Has time t [] h k = absurd (omega arith)
  sample_dynamic-Has time t (s ∷ ss) h k =
      let (low, high) = Has-le-back time t s ss h k in
      let inside : ltb time s.time ≡ false = ground arith in
      let inside' : ltb (back_time F s ss) time ≡ false = ground arith in
      rw (inside, inside', sample_from-Has time t none (s ∷ ss) h k) refl
