-- ===== src/Lpss/Tf/Invariant.antt =====
-- modules/lpss/src/transform.cpp: the invariant of the transform tree, which every change keeps, and
-- with it that every change ends.
use rmvl.Prelude.{
  =?_refl, All, All-map, Bool, Bool-cases, Option-cases, ap, arith, false, inl, inr, length, none,
  refl, some, sym, true, ℕ, ◌+◌, ◌=?◌, ◌∙◌, ◌≡◌,
}
use mathlib.Core.Path.{subst}
use rmvl.Bytes.{bytes_eq}
use rmvl.Dict.{find, put}
use rmvl.Dict.Laws.{find-put, find-put_ne, All-put, All-find}
use rmvl.Lpss.Tf.Geometry.{Doubles, Transform, normalize_transform}
use rmvl.Lpss.Tf.Times.{to_nanoseconds}
use rmvl.Lpss.Tf.{
  Frame, Status, invalid_argument, invalid_transform, multiple_parents, cycle_detected,
  static_dynamic_conflict, TransformEdge, TransformStamped, Buffer, insert_sample, is_old,
  prune_edge, meets, add_frames, store_transform, no_edge, invalid_input, set_transform, set_impl,
  same_flag,
}
use rmvl.Lpss.Tf.Lookup.{Edges}
use rmvl.Lpss.Tf.Edges.{IsSorted}
use rmvl.Lpss.Tf.Edges.Window.{IsEdge, prune_edge-IsEdge, insert-IsEdge}
use rmvl.Lpss.Tf.Forest.{IsForest, Steps-le, meets-ends, put-IsForest, parent_of, same-IsForest}

module _ (F : Doubles) where
  -- Both ends of an edge are known frames.
  abbrev pub IsKnown : Buffer F → Frame × TransformEdge F → Type 0
  IsKnown b p = (find p.0 b.frames ≡ some true) × (find p.1.parent b.frames ≡ some true)

  -- The edges form a forest, their samples are in order, a dynamic edge has one, and the frames of
  -- all edges are known.
  pub record IsBuffer (b : Buffer F) : Type 0 where
    pub forest : IsForest F b.edges
    pub entries : All (λ p. IsEdge F p.1) b.edges
    pub known : All (IsKnown b) b.edges

  IsKnown-still :
      (input : TransformStamped F) (b : Buffer F) (edges : Edges F)
      → All (IsKnown b) edges
      → All (IsKnown (add_frames F input b)) edges
  unfolding add_frames
  IsKnown-still input b edges h =
      All-map (IsKnown b) (λ p k. (keeps p.0 k.0, keeps p.1.parent k.1)) edges h
    where
      keeps :
          (x : Frame)
          → find x b.frames ≡ some true
          → find x (put input.child_frame_id true (put input.frame_id true b.frames)) ≡ some true
      keeps x h = ground (
        arith,
        find-put input.child_frame_id x true (put input.frame_id true b.frames),
        find-put input.frame_id x true b.frames,
      )

  IsKnown-new :
      (input : TransformStamped F) (b : Buffer F) (edge : TransformEdge F)
      → edge.parent ≡ input.frame_id
      → IsKnown (add_frames F input b) (input.child_frame_id, edge)
  unfolding add_frames
  IsKnown-new input b edge same = (
    ground (
      arith,
      find-put input.child_frame_id input.child_frame_id true (put input.frame_id true b.frames),
      =?_refl input.child_frame_id,
    ),
    rw same (
        ground (
          arith,
          find-put input.child_frame_id input.frame_id true (put input.frame_id true b.frames),
          find-put input.frame_id input.frame_id true b.frames,
          =?_refl input.frame_id,
        )),
  )

  -- One edge more, or another edge for a child.
  put-IsBuffer :
      (input : TransformStamped F) (b : Buffer F) (edge : TransformEdge F)
      → IsBuffer b
      → edge.parent ≡ input.frame_id
      → IsEdge F edge
      → IsForest F (put input.child_frame_id edge b.edges)
      → IsBuffer (add_frames F input (record b { edges = put input.child_frame_id edge b.edges }))
  unfolding add_frames
  put-IsBuffer input b edge v same w forest = record {
    forest = forest;
    entries = All-put _ input.child_frame_id edge b.edges w v.entries;
    known =
        All-put _ input.child_frame_id edge b.edges (IsKnown-new input b edge same)
          (IsKnown-still input b b.edges v.known);
  }

  store_transform-IsBuffer :
      (is_static : Bool) (input : TransformStamped F) (transform : Transform F)
      (edge : TransformEdge F) (b : Buffer F)
      → IsBuffer b
      → edge.parent ≡ input.frame_id
      → edge.is_static ≡ is_static
      → IsSorted F edge.samples
      → ((e : TransformEdge F)
          → e.parent ≡ edge.parent
          → IsForest F (put input.child_frame_id e b.edges))
      → IsBuffer (store_transform F is_static input transform edge b).1
  unfolding store_transform prune_edge
  store_transform-IsBuffer true input transform edge b v same flag sorted forest =
      put-IsBuffer input b _ v same
        (record { sorted = sorted; nonempty = λ k. absurd (ground arith) }) (forest _ refl)
  store_transform-IsBuffer false input transform edge b v same flag sorted forest =
      let time = to_nanoseconds input.stamp in
      elim (Bool-cases (is_old F b.cache_duration time edge.samples)) [
        | inl old ↦ rw (store_transform, old) v
        | inr young ↦
            rw (store_transform, young)
              (put-IsBuffer input b _ v (parent_kept time)
                (prune_edge-IsEdge F b.cache_duration _
                  (insert-IsEdge F time transform edge sorted))
                (forest _ (parent_same time)))
      ]
    where
      parent_same :
          (time : ℕ)
          → (prune_edge F b.cache_duration
              (record edge { samples = insert_sample F time transform edge.samples })).parent
            ≡ edge.parent
      parent_same time = ground arith

      parent_kept :
          (time : ℕ)
          → (prune_edge F b.cache_duration
              (record edge { samples = insert_sample F time transform edge.samples })).parent
            ≡ input.frame_id
      parent_kept time = parent_same time ∙ same

  pub same_flag-same : (a b : Bool) → same_flag a b ≡ true → a ≡ b
  unfolding same_flag
  same_flag-same true true h = refl
  same_flag-same true false h = absurd (ground arith)
  same_flag-same false true h = absurd (ground arith)
  same_flag-same false false h = refl

  update_same :
      (child : Frame) (edge e : TransformEdge F) (edges : Edges F)
      → find child edges ≡ some edge
      → e.parent ≡ edge.parent
      → IsForest F edges
      → IsForest F (put child e edges)
  update_same child edge e edges found same forest =
      same-IsForest F edges (put child e edges) parents forest
    where
      parents : (x : Frame) → parent_of F x (put child e edges) ≡ parent_of F x edges
      parents x = elim (Bool-cases (x =? child)) [
        | inr other ↦ rw (parent_of, find-put_ne child x e edges other) refl
        | inl here ↦
            let at : find x edges ≡ some edge =
              subst (λ y. find y edges ≡ some edge) (sym ((bytes_eq.beq_iff x child).0 here))
                found in
            let now : find x (put child e edges) ≡ some e =
              find-put child x e edges ∙ rw here refl in
            rw (parent_of, now, at) (ap some same)
      ]

  module _ (parent : Frame) (is_static : Bool) where
    pub no_edge-parent : (no_edge F parent is_static).parent ≡ parent
    unfolding no_edge
    no_edge-parent = refl

    pub no_edge-flag : (no_edge F parent is_static).is_static ≡ is_static
    unfolding no_edge
    no_edge-flag = refl

    pub no_edge-IsSorted : IsSorted F (no_edge F parent is_static).samples
    unfolding no_edge
    no_edge-IsSorted = tt

  set_transform-IsBuffer :
      (is_static : Bool) (input : TransformStamped F) (transform : Transform F) (b : Buffer F)
      → IsBuffer b
      → (r : Status × Buffer F) × (set_transform F is_static input transform b ≡ some r)
        × IsBuffer r.1
  unfolding set_transform
  set_transform-IsBuffer is_static input transform b v =
      let child = input.child_frame_id in
      elim (Option-cases (find child b.edges)) [
        | inr (edge, found) ↦ elim (Bool-cases (edge.parent =? input.frame_id)) [
          | inr other ↦ ((multiple_parents, b), rw (set_transform, found, other) refl, v)
          | inl same ↦ elim (Bool-cases (same_flag edge.is_static is_static)) [
            | inr mixed ↦
                ((static_dynamic_conflict, b), rw (set_transform, found, same, mixed) refl, v)
            | inl flag ↦ (
              store_transform F is_static input transform edge b,
              rw (set_transform, found, same, flag) refl,
              store_transform-IsBuffer is_static input transform edge b v
                  ((bytes_eq.beq_iff edge.parent input.frame_id).0 same)
                  (same_flag-same edge.is_static is_static flag)
                  (All-find _ child edge b.edges v.entries found).sorted
                  (λ e p. update_same child edge e b.edges found p v.forest),
            )
          ]
        ]
        | inl fresh ↦
            let (n, steps) = v.forest input.frame_id in
            let (cycle, ends) =
              meets-ends F (length b.edges + 1) n b.edges child input.frame_id steps
                (omega (arith, Steps-le F n b.edges input.frame_id steps)) in
            fresh_case cycle fresh ends
      ]
    where
      fresh_case :
          (cycle : Bool)
          → find input.child_frame_id b.edges ≡ none
          → meets F (length b.edges + 1) b.edges input.child_frame_id input.frame_id ≡ some cycle
          → (r : Status × Buffer F) × (set_transform F is_static input transform b ≡ some r)
            × IsBuffer r.1
      fresh_case true fresh ends = ((cycle_detected, b), rw (set_transform, fresh, ends) refl, v)
      fresh_case false fresh ends = (
        store_transform F is_static input transform (no_edge F input.frame_id is_static) b,
        rw (set_transform, fresh, ends) refl,
        store_transform-IsBuffer is_static input transform _ b v
            (no_edge-parent input.frame_id is_static) (no_edge-flag input.frame_id is_static)
            (no_edge-IsSorted input.frame_id is_static)
            (λ e p.
              put-IsForest F (length b.edges + 1) b.edges input.child_frame_id e v.forest fresh
                (rw (p ∙ no_edge-parent input.frame_id is_static) ends)),
      )

  -- Every call of set or setStatic on a buffer that meets the invariant IsBuffer ends, whatever the
  -- transform is, and leaves such a buffer: its edges form a forest, the samples of each edge are in
  -- the order of time, a dynamic edge has one, and the frames of all edges are known.
  pub set_impl-IsBuffer :
      (is_static : Bool) (input : TransformStamped F) (b : Buffer F)
      → IsBuffer b
      → (r : Status × Buffer F) × (set_impl F is_static input b ≡ some r) × IsBuffer r.1
  unfolding set_impl
  set_impl-IsBuffer is_static input b v = elim (Bool-cases (invalid_input F input)) [
    | inl bad ↦ ((invalid_argument, b), rw (set_impl, bad) refl, v)
    | inr good ↦ elim (Option-cases (normalize_transform F input.transform)) [
      | inl wild ↦ ((invalid_transform, b), rw (set_impl, good, wild) refl, v)
      | inr (transform, e) ↦
          let (r, ends, w) = set_transform-IsBuffer is_static input transform b v in
          (r, rw (set_impl, good, e) ends, w)
    ]
  ]
