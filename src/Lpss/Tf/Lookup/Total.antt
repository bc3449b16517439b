-- ===== src/Lpss/Tf/Lookup/Total.antt =====
-- modules/lpss/src/transform.cpp: on the buffers that the changes leave, every lookup ends, and reads
-- no entry that is not there.
use rmvl.Prelude.{
  All, All-map, Ends, Ends-bind, Ends-if, Ends-option, List, Option, [], arith, Ends-some, length,
  ltb, none, not, refl, some, ℕ, ◌&&◌, ◌+◌, ◌-◌, ◌<◌, ◌==◌, ◌=?◌, ◌>>=◌, ◌||◌, ◌∷◌, ◌≡◌, ◌≤◌,
}
use rmvl.Bytes.{bytes_eq}
use rmvl.Lpss.Tf.Geometry.{Doubles, Transform, interpolate, identity_transform, compose}
use rmvl.Lpss.Tf.Times.{Time, is_zero_time, valid_time}
use rmvl.Lpss.Tf.{
  Frame, Status, ok, connectivity_error, no_common_time, TransformSample, TransformEdge, Buffer,
  back_time,
}
use rmvl.Lpss.Tf.Lookup.{
  LookupResult, failure, Interval, unbounded, Edges, sample_from, sample_dynamic, sample_edge,
  ancestors, common_frame, path_to, narrow, latest_time, query_time, product, join_paths,
  lookup_paths, has_frame, lookup,
}
use rmvl.Lpss.Tf.Edges.{Samples}
use rmvl.Lpss.Tf.Edges.Window.{IsEdge}
use rmvl.Lpss.Tf.Forest.{IsForest, Steps-le, ancestors-ends}
use rmvl.Lpss.Tf.Invariant.{IsBuffer}
use rmvl.Lpss.Tf.Lookup.Paths.{common_frame-ends, path_to-ancestor, path_to-common}

module _ (F : Doubles) where
  between-Ends :
      (time : ℕ) (previous : Option (TransformSample F)) (s : TransformSample F)
      → Ends (elim previous [
        | none ↦ some s.transform
        | some p ↦ some (interpolate F p.transform s.transform (time - p.time) (s.time - p.time))
      ])
  between-Ends time none s = Ends-some
  between-Ends time (some p) s = Ends-some

  sample_from-Ends :
      (time : ℕ) (previous : Option (TransformSample F)) (s : TransformSample F) (ss : Samples F)
      → time ≤ back_time F s ss
      → Ends (sample_from F time previous (s ∷ ss))
  unfolding sample_from back_time
  sample_from-Ends time previous s [] h =
      Ends-if (ltb s.time time) (λ before. absurd (ground arith))
        (λ from.
          Ends-if (s.time == time) (λ same. Ends-some) (λ after. between-Ends time previous s))
  sample_from-Ends time previous s (r ∷ rs) h =
      Ends-if (ltb s.time time) (λ before. sample_from-Ends time (some s) r rs h)
        (λ from.
          Ends-if (s.time == time) (λ same. Ends-some) (λ after. between-Ends time previous s))

  sample_dynamic-Ends :
      (time : ℕ) (ss : Samples F) → 0 < length ss → Ends (sample_dynamic F time ss)
  unfolding sample_dynamic
  sample_dynamic-Ends time [] h = absurd (omega arith)
  sample_dynamic-Ends time (s ∷ ss) h =
      Ends-if (ltb time s.time) (λ early. Ends-some)
        (λ from.
          Ends-if (ltb (back_time F s ss) time) (λ late. Ends-some)
            (λ inside. Ends-bind (sample_from-Ends time none s ss (ground arith)) (λ t. Ends-some)))

  Samples-cases :
      (ss : Samples F) → 0 < length ss → (s : TransformSample F) × (rs : Samples F) × (ss ≡ s ∷ rs)
  Samples-cases [] h = absurd (omega arith)
  Samples-cases (s ∷ rs) h = (s, rs, refl)

  -- What is made of a status that is Ok, and what of any other.
  status-Ends {ℓ} :
      {A : Type ℓ} {x : Option A} {f : Status → Option A} (status : Status)
      → Ends x
      → ((s : Status) → Ends (f s))
      → Ends (elim status as (λ _. Option A) [ ok ↦ x | failed ↦ f failed ])
  status-Ends ok h k = h
  status-Ends failed h k = k failed

  sample_edge-Ends : (time : ℕ) (e : TransformEdge F) → IsEdge F e → Ends (sample_edge F time e)
  unfolding sample_edge
  sample_edge-Ends time e v =
      Ends-if e.is_static (λ fixed. Ends-some)
        (λ moving. sample_dynamic-Ends time e.samples (v.nonempty moving))

  narrow-Ends :
      (es : List (TransformEdge F)) (i : Interval) → All (IsEdge F) es → Ends (narrow F es i)
  unfolding narrow
  narrow-Ends [] i h = Ends-some
  narrow-Ends (e ∷ es) i h =
      Ends-if e.is_static (λ fixed. narrow-Ends es i h.1)
        (λ moving.
          let (s, ss, shape) = Samples-cases e.samples (h.0.nonempty moving) in
          rw shape (narrow-Ends es _ h.1))

  query_time-Ends :
      (time : Time) (ss ts : List (TransformEdge F))
      → All (IsEdge F) ss
      → All (IsEdge F) ts
      → Ends (query_time F time ss ts)
  unfolding query_time latest_time
  query_time-Ends time ss ts h k =
      Ends-if (is_zero_time time)
        (λ latest. Ends-bind (narrow-Ends ss unbounded h) λ i. Ends-bind (narrow-Ends ts i k) λ j.
          Ends-if (j.has_dynamic_edge && ltb j.latest j.earliest) (λ apart. Ends-some)
            (λ common. Ends-some))
        (λ given. Ends-some)

  product-Ends :
      (time : ℕ) (es : List (TransformEdge F)) (t : Transform F)
      → All (IsEdge F) es
      → Ends (product F time es t)
  unfolding product
  product-Ends time [] t h = Ends-some
  product-Ends time (e ∷ es) t h = Ends-bind (sample_edge-Ends time e h.0) λ (status, u).
      status-Ends status (product-Ends time es (compose F u t) h.1)
        (λ failed. Ends-some {a = (failed, t)})

  join_paths-Ends :
      (target source : Frame) (time : ℕ) (ss ts : List (TransformEdge F))
      → All (IsEdge F) ss
      → All (IsEdge F) ts
      → Ends (join_paths F target source time ss ts)
  unfolding join_paths
  join_paths-Ends target source time ss ts h k =
      Ends-bind (product-Ends time ss (identity_transform F) h) λ (status, t).
        status-Ends status
          (Ends-bind (product-Ends time ts (identity_transform F) k) (λ r. Ends-some))
          (λ failed. Ends-some {a = failure F failed target source})

  Steps-few :
      (edges : Edges F) (x : Frame) (forest : IsForest F edges) → (forest x).0 < length edges + 1
  Steps-few edges x forest = omega (arith, Steps-le F (forest x).0 edges x (forest x).1)

  entries_of :
      (es : List (TransformEdge F)) → All (λ e. (x : Frame) × IsEdge F e) es → All (IsEdge F) es
  entries_of = All-map _ (λ e h. h.1)

  lookup_paths-Ends :
      (target source : Frame) (time : Time) (b : Buffer F)
      → IsBuffer F b
      → Ends (lookup_paths F b.edges target source time)
  unfolding lookup_paths
  lookup_paths-Ends target source time b v =
      let rounds = length b.edges + 1 in
      let (known, above) =
        ancestors-ends F rounds (v.forest source).0 b.edges source (v.forest source).1
          (Steps-few b.edges source v.forest) in
      let (found, meeting) =
        common_frame-ends F rounds (v.forest target).0 b.edges known target (v.forest target).1
          (Steps-few b.edges target v.forest) in
      rw (above, meeting) (at_frame known found above meeting)
    where
      at_frame :
          (known : List Frame) (found : Option Frame)
          → ancestors F (length b.edges + 1) b.edges source ≡ some known
          → common_frame F (length b.edges + 1) b.edges known target ≡ some found
          → Ends (elim found as (λ _. Option (LookupResult F)) [
            | none ↦ some (failure F connectivity_error target source)
            | some common ↦ path_to F (length b.edges + 1) b.edges common source >>= λ source_edges.
                path_to F (length b.edges + 1) b.edges common target >>= λ target_edges.
                query_time F time source_edges target_edges >>= λ at. elim at [
                  | none ↦ some (failure F no_common_time target source)
                  | some t ↦ join_paths F target source t source_edges target_edges
                ]
          ])
      at_frame known none above meeting = Ends-some
      at_frame known (some common) above meeting =
          let rounds = length b.edges + 1 in
          let (there, (ts, down, us)) =
            path_to-common F (λ p. IsEdge F p.1) rounds b.edges known common target v.entries
              meeting in
          let (ss, up, vs) =
            path_to-ancestor F (λ p. IsEdge F p.1) rounds b.edges common source known v.entries
              above there in
          rw (up, down)
            (Ends-bind (query_time-Ends time ss ts (entries_of ss vs) (entries_of ts us)) λ at.
              Ends-option at Ends-some
                (λ t. join_paths-Ends target source t ss ts (entries_of ss vs) (entries_of ts us)))

  -- Every lookup on a buffer that meets the invariant IsBuffer ends, for any two frames and any time.
  pub lookup-Ends :
      (target source : Frame) (time : Time) (b : Buffer F)
      → IsBuffer F b
      → Ends (lookup F target source time b)
  unfolding lookup
  lookup-Ends target source time b v =
      Ends-if (((target =? []) || (source =? [])) || not (valid_time time)) (λ _. Ends-some)
        (λ _.
          Ends-if (not (has_frame F target b) || not (has_frame F source b)) (λ _. Ends-some)
            (λ _.
              Ends-if (target =? source) (λ _. Ends-some)
                (λ _. lookup_paths-Ends target source time b v)))
