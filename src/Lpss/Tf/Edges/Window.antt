-- ===== src/Lpss/Tf/Edges/Window.antt =====
-- modules/lpss/src/transform.cpp: pruning keeps the samples of the cache's window, the last one
-- among them.
use rmvl.Prelude.{
  Bool-cases, [], arith, false, inl, inr, length, ltb, max, refl, true, ℕ, ◌<◌, ◌==◌, ◌∷◌, ◌≡◌, ◌≤◌,
}
use rmvl.Lpss.Tf.Geometry.{Doubles, Transform}
use rmvl.Lpss.Tf.{
  cache_cutoff, TransformSample, TransformEdge, from_time, insert_sample, back_time, prune_samples,
  prune_edge, is_old,
}
use rmvl.Lpss.Tf.Edges.{
  Samples, IsSorted, Has, insert_sample-IsSorted, insert_sample-Has, from_time-IsSorted,
  from_time-Has,
}

pub cache_cutoff-le : (latest duration : ℕ) → cache_cutoff latest duration ≤ latest
unfolding cache_cutoff
cache_cutoff-le latest duration = ground arith

module _ (F : Doubles) where
  abbrev pub last_time : Samples F → ℕ
  last_time [] = 0
  last_time (s ∷ ss) = back_time F s ss

  last_time-cons :
      (s : TransformSample F) (ss : Samples F) → 0 < length ss → last_time (s ∷ ss) ≡ last_time ss
  unfolding back_time
  last_time-cons s [] h = absurd (omega arith)
  last_time-cons s (r ∷ rs) h = refl

  insert_sample-nonempty :
      (time : ℕ) (t : Transform F) (ss : Samples F) → 0 < length (insert_sample F time t ss)
  unfolding insert_sample
  insert_sample-nonempty time t [] = omega arith
  insert_sample-nonempty time t (s ∷ ss) = ground arith

  last_time-insert :
      (time : ℕ) (t : Transform F) (ss : Samples F)
      → last_time (insert_sample F time t ss) ≤ max (last_time ss) time
  unfolding insert_sample back_time
  last_time-insert time t [] = omega arith
  last_time-insert time t (s ∷ ss) = elim (Bool-cases (ltb s.time time)) [
    | inl before ↦
        let more =
          last_time-cons s (insert_sample F time t ss) (insert_sample-nonempty time t ss) in
        rw before (last_before s ss before more (last_time-insert time t ss))
    | inr from ↦ elim (Bool-cases (s.time == time)) [
      | inl same ↦ rw (from, same) (last_same s ss)
      | inr after ↦ rw (from, after) (omega arith)
    ]
  ]
    where
      last_before :
          (s : TransformSample F) (ss : Samples F)
          → ltb s.time time ≡ true
          → last_time (s ∷ insert_sample F time t ss) ≡ last_time (insert_sample F time t ss)
          → last_time (insert_sample F time t ss) ≤ max (last_time ss) time
          → last_time (s ∷ insert_sample F time t ss) ≤ max (last_time (s ∷ ss)) time
      last_before s [] b e h = omega (arith, e, h)
      last_before s (r ∷ rs) b e h = omega (arith, e, h)

      last_same :
          (s : TransformSample F) (ss : Samples F)
          → last_time (record s { transform = t } ∷ ss) ≤ max (last_time (s ∷ ss)) time
      last_same s [] = omega arith
      last_same s (r ∷ rs) = omega arith

  last-Has :
      (s : TransformSample F) (ss : Samples F)
      → (t : Transform F) × Has F (last_time (s ∷ ss)) t (s ∷ ss)
  unfolding back_time
  last-Has s [] = (s.transform, inl (refl, refl))
  last-Has s (r ∷ rs) = let (t, h) = last-Has r rs in (t, inr h)

  Has-nonempty : (time : ℕ) (t : Transform F) (ss : Samples F) → Has F time t ss → 0 < length ss
  Has-nonempty time t [] h = h
  Has-nonempty time t (s ∷ ss) h = omega arith

  prune_samples-from :
      (duration : ℕ) (ss : Samples F)
      → prune_samples F duration ss ≡ from_time F (cache_cutoff (last_time ss) duration) ss
  unfolding prune_samples from_time
  prune_samples-from duration [] = refl
  prune_samples-from duration (s ∷ ss) = refl

  pub prune_samples-IsSorted :
      (duration : ℕ) (ss : Samples F) → IsSorted F ss → IsSorted F (prune_samples F duration ss)
  prune_samples-IsSorted duration ss h =
      rw (prune_samples-from duration ss) (from_time-IsSorted F _ ss h)

  -- Pruning keeps the last sample.
  pub prune_samples-nonempty :
      (duration : ℕ) (ss : Samples F) → 0 < length ss → 0 < length (prune_samples F duration ss)
  prune_samples-nonempty duration [] h = absurd (omega arith)
  prune_samples-nonempty duration (s ∷ ss) h =
      let (t, last) = last-Has s ss in
      rw (prune_samples-from duration (s ∷ ss)) (
        Has-nonempty _ t _ (
          from_time-Has F (cache_cutoff (last_time (s ∷ ss)) duration) _ t (s ∷ ss)
            (cache_cutoff-le _ duration) last))

  is_old-last :
      (duration time : ℕ) (ss : Samples F)
      → is_old F duration time ss ≡ false
      → cache_cutoff (last_time ss) duration ≤ time
  unfolding is_old cache_cutoff
  is_old-last duration time [] h = ground arith
  is_old-last duration time (s ∷ ss) h = ground arith

  -- A sample that is not too old is kept when it is stored.
  pub prune-insert-Has :
      (duration time : ℕ) (t : Transform F) (ss : Samples F)
      → is_old F duration time ss ≡ false
      → Has F time t (prune_samples F duration (insert_sample F time t ss))
  unfolding cache_cutoff
  prune-insert-Has duration time t ss young =
      let grown = last_time-insert time t ss in
      let old = is_old-last duration time ss young in
      rw (prune_samples-from duration (insert_sample F time t ss))
        (from_time-Has F _ time t _ (ground arith) (insert_sample-Has F time t ss))

  -- The samples of an edge are in the order of time, and a dynamic edge has one.
  pub record IsEdge (edge : TransformEdge F) : Type 0 where
    pub sorted : IsSorted F edge.samples
    pub nonempty : edge.is_static ≡ false → 0 < length edge.samples

  pub prune_edge-IsEdge :
      (duration : ℕ) (edge : TransformEdge F) → IsEdge edge → IsEdge (prune_edge F duration edge)
  unfolding prune_edge
  prune_edge-IsEdge duration edge v = elim (Bool-cases edge.is_static) [
    | inl fixed ↦
        rw (prune_edge, fixed) (record { sorted = v.sorted; nonempty = λ k. absurd (ground arith) })
    | inr moving ↦
        rw (prune_edge, moving)
          (record {
            sorted = prune_samples-IsSorted duration edge.samples v.sorted;
            nonempty = λ _. prune_samples-nonempty duration edge.samples (v.nonempty moving);
          })
  ]

  pub insert-IsEdge :
      (time : ℕ) (t : Transform F) (edge : TransformEdge F)
      → IsSorted F edge.samples
      → IsEdge (record edge { samples = insert_sample F time t edge.samples })
  insert-IsEdge time t edge h = record {
    sorted = insert_sample-IsSorted F time t edge.samples h;
    nonempty = λ _. insert_sample-nonempty time t edge.samples;
  }
