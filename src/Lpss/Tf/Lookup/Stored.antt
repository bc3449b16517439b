-- ===== src/Lpss/Tf/Lookup/Stored.antt =====
-- modules/lpss/src/transform.cpp: what set stores, lookup returns.
use rmvl.Prelude.{
  =?_refl, Bool, Bool-cases, List, Option-cases, [], ap, arith, false, inl, inr, length, not, refl,
  some, suc, sym, true, zero, ℕ, ◌+◌, ◌-◌, ◌<◌, ◌=?◌, ◌||◌, ◌∙◌, ◌∷◌, ◌≡◌,
}
use mathlib.Core.Path.{subst}
use mathlib.Core.Option.{some-injective}
use rmvl.Bytes.{bytes_eq}
use rmvl.Dict.{find, put}
use rmvl.Dict.Laws.{find-put, All-find}
use rmvl.Lpss.Tf.Geometry.{
  Doubles, Transform, normalize_transform, compose, inverse, identity_transform, normalized,
}
use rmvl.Lpss.Tf.Times.{Time, is_zero_time, valid_time, to_nanoseconds, from_nanoseconds}
use rmvl.Lpss.Tf.{
  Frame, ok, TransformEdge, TransformStamped, Buffer, insert_sample, is_old, prune_edge, add_frames,
  store_transform, meets, no_edge, invalid_input, set_transform, set_impl, same_flag,
}
use rmvl.Lpss.Tf.Lookup.{
  LookupResult, Edges, sample_edge, ancestors, common_frame, path_to, is_among, query_time, product,
  join_paths, lookup_paths, has_frame, named, lookup,
}
use rmvl.Lpss.Tf.Edges.{IsSorted, sample_dynamic-Has}
use rmvl.Lpss.Tf.Edges.Window.{prune-insert-Has, prune_samples-IsSorted}
use rmvl.Lpss.Tf.Edges.{insert_sample-IsSorted}
use rmvl.Lpss.Tf.Forest.{Steps, Steps-le, ancestors-ends}
use rmvl.Lpss.Tf.Invariant.{
  IsBuffer, same_flag-same, no_edge-parent, no_edge-flag, no_edge-IsSorted, set_impl-IsBuffer,
}

module _ (F : Doubles) where
  -- What lookup makes of the one edge that leads from the child to its parent.
  abbrev pub one_edge : Frame → Frame → Time → Transform F → LookupResult F
  one_edge parent child time t =
      let u = compose F (inverse F (identity_transform F)) (compose F t (identity_transform F)) in
      record {
        status = ok;
        transform = record (named F parent child) {
          stamp = from_nanoseconds (to_nanoseconds time);
          transform = record u { rotation = normalized F u.rotation };
        };
      }

  join_one :
      (parent child : Frame) (time : Time) (e : TransformEdge F) (t : Transform F)
      → sample_edge F (to_nanoseconds time) e ≡ some (ok, t)
      → join_paths F parent child (to_nanoseconds time) (e ∷ []) []
        ≡ some (one_edge parent child time t)
  unfolding join_paths product
  join_one parent child time e t h = rw h refl

  ancestors-among :
      (rounds : ℕ) (edges : Edges F) (x : Frame) (fs : List Frame)
      → ancestors F rounds edges x ≡ some fs
      → is_among x fs ≡ true
  unfolding ancestors is_among
  ancestors-among zero edges x fs h = absurd (ground arith)
  ancestors-among (suc rounds) edges x fs h = elim (Option-cases (find x edges)) [
    | inl root ↦ head_of [] (rw (ancestors, root) refl)
    | inr (e, found) ↦ elim (Option-cases (ancestors F rounds edges e.parent)) [
      | inl endless ↦ absurd (ground arith)
      | inr (gs, above) ↦ head_of gs (rw (ancestors, found, above) refl)
    ]
  ]
    where
      head_of :
          (gs : List Frame)
          → ancestors F (suc rounds) edges x ≡ some (x ∷ gs)
          → is_among x fs ≡ true
      head_of gs k = rw (some-injective fs (x ∷ gs) (sym h ∙ k), =?_refl x) refl

  module _ (edges : Edges F) (parent child : Frame) (e : TransformEdge F)
      (found : find child edges ≡ some e) (up : e.parent ≡ parent)
      (apart : (child =? parent) ≡ false) where
    ancestors-edge :
        (rounds n : ℕ)
        → Steps F edges parent n
        → n < rounds
        → (known : List Frame) × (ancestors F (suc rounds) edges child ≡ some known)
          × (is_among parent known ≡ true)
    unfolding ancestors is_among
    ancestors-edge rounds n steps few =
        let (fs, ends) = ancestors-ends F rounds n edges parent steps few in
        (
          child ∷ fs,
          rw (ancestors, found, up, ends) refl,
          rw (is_among, ancestors-among rounds edges parent fs ends) (ground arith),
        )

    common_frame-edge :
        (rounds : ℕ) (known : List Frame)
        → is_among parent known ≡ true
        → common_frame F (suc rounds) edges known parent ≡ some (some parent)
    unfolding common_frame
    common_frame-edge rounds known h = rw (common_frame, h) refl

    path_to-same : (rounds : ℕ) → path_to F (suc rounds) edges parent parent ≡ some []
    unfolding path_to
    path_to-same rounds = rw (path_to, =?_refl parent) refl

    path_to-edge : (rounds : ℕ) → path_to F (suc (suc rounds)) edges parent child ≡ some (e ∷ [])
    unfolding path_to
    path_to-edge rounds = rw (path_to, apart, found, up, path_to-same rounds) refl

  lookup_paths-edge :
      (parent child : Frame) (time : Time) (b : Buffer F) (e : TransformEdge F) (t : Transform F)
      → IsBuffer F b
      → find child b.edges ≡ some e
      → e.parent ≡ parent
      → (child =? parent) ≡ false
      → is_zero_time time ≡ false
      → sample_edge F (to_nanoseconds time) e ≡ some (ok, t)
      → lookup_paths F b.edges parent child time ≡ some (one_edge parent child time t)
  unfolding lookup_paths query_time
  lookup_paths-edge parent child time b e t v found up apart late sampled =
      let (n, steps) = v.forest parent in
      let below : n < length b.edges =
        omega (arith, Steps-le F (suc n) b.edges child (e, found, rw up steps)) in
      let (known, above, there) =
        ancestors-edge b.edges parent child e found up apart (length b.edges) n steps below in
      let rounds : suc (suc (length b.edges - 1)) ≡ suc (length b.edges) = omega arith in
      let one_more : length b.edges + 1 ≡ suc (length b.edges) = omega arith in
      let path : path_to F (suc (length b.edges)) b.edges parent child ≡ some (e ∷ []) =
        subst (λ k. path_to F k b.edges parent child ≡ some (e ∷ [])) rounds
          (path_to-edge b.edges parent child e found up apart (length b.edges - 1)) in
      rw
        (
          lookup_paths,
          one_more,
          above,
          common_frame-edge b.edges parent child e found up apart (length b.edges) known there,
          one_more,
          path,
          path_to-same b.edges parent child e found up apart (length b.edges),
          late,
        )
        (join_one parent child time e t sampled)

  -- What a change leaves for the child: an edge to the parent, with the transform at the time.
  record IsStored (input : TransformStamped F) (t : Transform F) (b : Buffer F) : Type 0 where
    edge : TransformEdge F
    found : find input.child_frame_id b.edges ≡ some edge
    up : edge.parent ≡ input.frame_id
    sampled : sample_edge F (to_nanoseconds input.stamp) edge ≡ some (ok, t)
    child_known : has_frame F input.child_frame_id b ≡ true
    parent_known : has_frame F input.frame_id b ≡ true

  added :
      (input : TransformStamped F) (t : Transform F) (edge : TransformEdge F) (b : Buffer F)
      → edge.parent ≡ input.frame_id
      → sample_edge F (to_nanoseconds input.stamp) edge ≡ some (ok, t)
      → IsStored input t
          (add_frames F input (record b { edges = put input.child_frame_id edge b.edges }))
  unfolding add_frames has_frame
  added input t edge b up sampled = record {
    edge = edge;
    found =
        find-put input.child_frame_id input.child_frame_id edge b.edges
        ∙ rw (=?_refl input.child_frame_id) refl;
    up = up;
    sampled = sampled;
    child_known = ground (
      arith,
      find-put input.child_frame_id input.child_frame_id true (put input.frame_id true b.frames),
      =?_refl input.child_frame_id,
    );
    parent_known = ground (
      arith,
      find-put input.child_frame_id input.frame_id true (put input.frame_id true b.frames),
      find-put input.frame_id input.frame_id true b.frames,
      =?_refl input.frame_id,
    );
  }

  static_sample :
      (time : ℕ) (t : Transform F) (edge : TransformEdge F)
      → edge.is_static ≡ true
      → sample_edge F time (record edge { static_transform = t }) ≡ some (ok, t)
  unfolding sample_edge
  static_sample time t edge flag = rw flag refl

  -- The edge with a new sample, which is in the window of the cache.
  module _ (duration time : ℕ) (t : Transform F) (edge : TransformEdge F) where
    abbrev kept : TransformEdge F
    kept = prune_edge F duration (record edge { samples = insert_sample F time t edge.samples })

    kept-parent : kept.parent ≡ edge.parent
    unfolding prune_edge
    kept-parent = ground arith

    kept_sample :
        is_old F duration time edge.samples ≡ false
        → edge.is_static ≡ false
        → IsSorted F edge.samples
        → sample_edge F time kept ≡ some (ok, t)
    unfolding sample_edge prune_edge
    kept_sample young flag sorted =
        let inserted = insert_sample-IsSorted F time t edge.samples sorted in
        let pruned =
          prune_samples-IsSorted F duration (insert_sample F time t edge.samples) inserted in
        rw flag (
          sample_dynamic-Has F time t _ pruned
            (prune-insert-Has F duration time t edge.samples young))

  store_transform-IsStored :
      (is_static : Bool) (input : TransformStamped F) (t : Transform F) (edge : TransformEdge F)
      (b b' : Buffer F)
      → edge.parent ≡ input.frame_id
      → edge.is_static ≡ is_static
      → IsSorted F edge.samples
      → store_transform F is_static input t edge b ≡ (ok, b')
      → IsStored input t b'
  unfolding store_transform
  store_transform-IsStored true input t edge b b' up flag sorted h =
      subst (IsStored input t) (ap (λ r. r.1) h)
        (added input t _ b up (static_sample (to_nanoseconds input.stamp) t edge flag))
  store_transform-IsStored false input t edge b b' up flag sorted h =
      let time = to_nanoseconds input.stamp in
      elim (Bool-cases (is_old F b.cache_duration time edge.samples)) [
        | inl old ↦ absurd (ground arith)
        | inr young ↦
            let stored : store_transform F false input t edge b ≡ (
              ok,
              add_frames F input (record b {
                edges = put input.child_frame_id (kept b.cache_duration time t edge) b.edges;
              }),
            ) =
              rw (store_transform, young) refl in
            subst (IsStored input t) (ap (λ r. r.1) (sym stored ∙ h)) (
              added input t _ b (kept-parent b.cache_duration time t edge ∙ up)
                (kept_sample b.cache_duration time t edge young flag sorted))
      ]

  set_transform-IsStored :
      (is_static : Bool) (input : TransformStamped F) (t : Transform F) (b b' : Buffer F)
      → IsBuffer F b
      → set_transform F is_static input t b ≡ some (ok, b')
      → IsStored input t b'
  unfolding set_transform
  set_transform-IsStored is_static input t b b' v h =
      elim (Option-cases (find input.child_frame_id b.edges)) [
        | inr (edge, found) ↦ elim (Bool-cases (edge.parent =? input.frame_id)) [
          | inr other ↦ absurd (ground arith)
          | inl same ↦ elim (Bool-cases (same_flag edge.is_static is_static)) [
            | inr mixed ↦ absurd (ground arith)
            | inl flag ↦
                store_transform-IsStored is_static input t edge b b'
                  ((bytes_eq.beq_iff edge.parent input.frame_id).0 same)
                  (same_flag-same F edge.is_static is_static flag)
                  (All-find _ input.child_frame_id edge b.edges v.entries found).sorted
                  (ground arith)
          ]
        ]
        | inl fresh ↦
            elim (Option-cases
              (meets F (length b.edges + 1) b.edges input.child_frame_id input.frame_id)) [
                | inl endless ↦ absurd (ground arith)
                | inr (true, cycle) ↦ absurd (ground arith)
                | inr (false, clear) ↦
                    store_transform-IsStored is_static input t (no_edge F input.frame_id is_static)
                      b b' (no_edge-parent F input.frame_id is_static)
                      (no_edge-flag F input.frame_id is_static)
                      (no_edge-IsSorted F input.frame_id is_static) (ground arith)
              ]
      ]

  =?_sym : (x y : Frame) → (x =? y) ≡ false → (y =? x) ≡ false
  =?_sym x y h = ground (arith, bytes_eq.beq_iff x y, bytes_eq.beq_iff y x)

  good_input :
      (input : TransformStamped F)
      → invalid_input F input ≡ false
      → ((input.frame_id =? input.child_frame_id) ≡ false)
        × ((((input.frame_id =? []) || (input.child_frame_id =? []))
              || not (valid_time input.stamp))
            ≡ false)
  unfolding invalid_input
  good_input input h = ground arith

  -- After a change that succeeds, of a static or a dynamic edge, a lookup of the parent from the child
  -- at the time of the change, which is not zero, gives the transform that was set, as the code
  -- computes it for a path of one edge.
  pub lookup-set_impl :
      (is_static : Bool) (input : TransformStamped F) (t : Transform F) (b b' : Buffer F)
      → IsBuffer F b
      → normalize_transform F input.transform ≡ some t
      → is_zero_time input.stamp ≡ false
      → set_impl F is_static input b ≡ some (ok, b')
      → lookup F input.frame_id input.child_frame_id input.stamp b'
        ≡ some (one_edge input.frame_id input.child_frame_id input.stamp t)
  unfolding set_impl lookup
  lookup-set_impl is_static input t b b' v normal late h =
      elim (Bool-cases (invalid_input F input)) [
        | inl bad ↦ absurd (ground arith)
        | inr good ↦
            let stored : set_transform F is_static input t b ≡ some (ok, b') = ground arith in
            let s : IsStored input t b' = set_transform-IsStored is_static input t b b' v stored in
            let (apart, valid) = good_input input good in
            let (r, ends, w) = set_impl-IsBuffer F is_static input b v in
            let after : IsBuffer F b' =
              subst (λ q. IsBuffer F q.1) (some-injective r (ok, b') (sym ends ∙ h)) w in
            rw (lookup, valid, s.parent_known, s.child_known, apart)
              (lookup_paths-edge input.frame_id input.child_frame_id input.stamp b' s.edge t after
                s.found s.up (=?_sym input.frame_id input.child_frame_id apart) late s.sampled)
      ]
