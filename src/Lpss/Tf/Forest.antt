-- ===== src/Lpss/Tf/Forest.antt =====
-- modules/lpss/src/transform.cpp: the edges form a forest. From each frame a number of steps to
-- parents leads to a root, which bounds every loop over the tree by the number of edges.
use rmvl.Prelude.{
  Bool, Bool-cases, List, Option, Option-cases, [], ap, arith, false, inl, inr, length, none, refl,
  some, suc, true, zero, ℕ, ◌<◌, ◌=?◌, ◌∙◌, ◌∷◌, ◌≡◌, ◌≤◌,
}
use mathlib.Core.Path.{subst}
use rmvl.Bytes.{bytes_eq}
use rmvl.Dict.{find, put, erase}
use rmvl.Dict.Laws.{find-put_ne, find-put, find-erase_ne, find-erase-none, length-erase}
use rmvl.Lpss.Tf.Geometry.{Doubles}
use rmvl.Lpss.Tf.{Frame, TransformEdge, meets}
use rmvl.Lpss.Tf.Lookup.{Edges, ancestors}

module _ (F : Doubles) where
  -- This many steps lead from the frame to a root.
  abbrev pub Steps : Edges F → Frame → ℕ → Type 0
  Steps edges x zero = find x edges ≡ none
  Steps edges x (suc n) =
      (edge : TransformEdge F) × (find x edges ≡ some edge) × Steps edges edge.parent n

  abbrev pub IsForest : Edges F → Type 0
  IsForest edges = (x : Frame) → (n : ℕ) × Steps edges x n

  Steps-unique : (edges : Edges F) (x : Frame) (n m : ℕ) → Steps edges x n → Steps edges x m → n ≡ m
  Steps-unique edges x zero zero h k = refl
  Steps-unique edges x zero (suc m) h (e, found, rest) = absurd (ground (arith, h, found))
  Steps-unique edges x (suc n) zero (e, found, rest) k = absurd (ground (arith, k, found))
  Steps-unique edges x (suc n) (suc m) (e, found, rest) (e', found', rest') =
      let same : e ≡ e' = ground (arith, found, found') in
      ap suc (Steps-unique edges e'.parent n m (rw same at rest) rest')

  -- From a frame that is nearer to the root, the way does not use the edge of one farther away.
  Steps-erase :
      (edges : Edges F) (x p : Frame) (k n : ℕ)
      → Steps edges x k
      → n < k
      → Steps edges p n
      → Steps (erase x edges) p n
  Steps-erase edges x p k zero far near h = find-erase-none x p edges h
  Steps-erase edges x p k (suc n) far near (e, found, rest) =
      let apart : (p =? x) ≡ false = elim (Bool-cases (p =? x)) [
        | inr other ↦ other
        | inl same ↦
            let here : Steps edges x (suc n) =
              subst (λ q. Steps edges q (suc n)) ((bytes_eq.beq_iff p x).0 same) (e, found, rest) in
            absurd (omega (arith, Steps-unique edges x (suc n) k here far))
      ] in
      (
        e,
        find-erase_ne x p edges apart ∙ found,
        Steps-erase edges x e.parent k n far (omega arith) rest,
      )

  -- The steps to the root are no more than the edges.
  pub Steps-le : (n : ℕ) (edges : Edges F) (x : Frame) → Steps edges x n → n ≤ length edges
  Steps-le zero edges x h = omega arith
  Steps-le (suc n) edges x (e, found, rest) =
      let beyond = Steps-erase edges x e.parent (suc n) n (e, found, rest) (omega arith) rest in
      omega (arith, Steps-le n (erase x edges) e.parent beyond, length-erase x e edges found)

  -- The loop over the ancestors of a frame ends.
  pub ancestors-ends :
      (rounds n : ℕ) (edges : Edges F) (x : Frame)
      → Steps edges x n
      → n < rounds
      → (fs : List Frame) × (ancestors F rounds edges x ≡ some fs)
  unfolding ancestors
  ancestors-ends zero n edges x h few = absurd (omega arith)
  ancestors-ends (suc rounds) zero edges x h few = (x ∷ [], rw (ancestors, h) refl)
  ancestors-ends (suc rounds) (suc n) edges x (e, found, rest) few =
      let (fs, ends) = ancestors-ends rounds n edges e.parent rest (omega arith) in
      (x ∷ fs, rw (ancestors, found, ends) refl)

  pub meets-ends :
      (rounds n : ℕ) (edges : Edges F) (child x : Frame)
      → Steps edges x n
      → n < rounds
      → (b : Bool) × (meets F rounds edges child x ≡ some b)
  unfolding meets
  meets-ends zero n edges child x h few = absurd (omega arith)
  meets-ends (suc rounds) zero edges child x h few = elim (Bool-cases (x =? child)) [
    | inl same ↦ (true, rw (meets, same) refl)
    | inr other ↦ (false, rw (meets, other, h) refl)
  ]
  meets-ends (suc rounds) (suc n) edges child x (e, found, rest) few =
      elim (Bool-cases (x =? child)) [
        | inl same ↦ (true, rw (meets, same) refl)
        | inr other ↦
            let (b, ends) = meets-ends rounds n edges child e.parent rest (omega arith) in
            (b, rw (meets, other, found, ends) refl)
      ]

  -- With an edge from `child` to where the loop does not meet `child`, the way on is the same.
  meets-Steps :
      (rounds : ℕ) (edges : Edges F) (child x : Frame) (edge : TransformEdge F)
      → meets F rounds edges child x ≡ some false
      → (n : ℕ) × Steps (put child edge edges) x n
  unfolding meets
  meets-Steps zero edges child x edge h = absurd (ground arith)
  meets-Steps (suc rounds) edges child x edge h = elim (Bool-cases (x =? child)) [
    | inl same ↦ absurd (ground arith)
    | inr other ↦ elim (Option-cases (find x edges)) [
      | inl root ↦ (zero, find-put_ne child x edge edges other ∙ root)
      | inr (up, found) ↦
          let (n, rest) = meets-Steps rounds edges child up.parent edge (ground arith) in
          (suc n, (up, find-put_ne child x edge edges other ∙ found, rest))
    ]
  ]

  -- A new edge, from a frame without one to a parent from where the loop does not meet the frame.
  pub put-IsForest :
      (rounds : ℕ) (edges : Edges F) (child : Frame) (edge : TransformEdge F)
      → IsForest edges
      → find child edges ≡ none
      → meets F rounds edges child edge.parent ≡ some false
      → IsForest (put child edge edges)
  put-IsForest rounds edges child edge forest fresh clear x = go x (forest x).0 (forest x).1
    where
      at_child : (y : Frame) → (y =? child) ≡ true → (m : ℕ) × Steps (put child edge edges) y m
      at_child y same =
          let (m, above) = meets-Steps rounds edges child edge.parent edge clear in
          (suc m, (edge, find-put child y edge edges ∙ rw same refl, above))

      go : (y : Frame) (n : ℕ) → Steps edges y n → (m : ℕ) × Steps (put child edge edges) y m
      go y zero h = elim (Bool-cases (y =? child)) [
        | inl same ↦ at_child y same
        | inr other ↦ (zero, find-put_ne child y edge edges other ∙ h)
      ]
      go y (suc n) (e, found, rest) = elim (Bool-cases (y =? child)) [
        | inl same ↦ at_child y same
        | inr other ↦
            let (m, above) = go e.parent n rest in
            (suc m, (e, find-put_ne child y edge edges other ∙ found, above))
      ]

  -- The parent of a frame, if it has an edge.
  abbrev pub parent_of : Frame → Edges F → Option Frame
  parent_of x edges = elim (find x edges) [ none ↦ none | some edge ↦ some edge.parent ]

  Steps-same :
      (edges edges' : Edges F)
      → ((x : Frame) → parent_of x edges' ≡ parent_of x edges)
      → (x : Frame) (n : ℕ) → Steps edges x n
      → Steps edges' x n
  Steps-same edges edges' same x zero h = elim (Option-cases (find x edges')) [
    | inl root ↦ root
    | inr (e, found) ↦ absurd (ground (arith, same x))
  ]
  Steps-same edges edges' same x (suc n) (e, found, rest) = elim (Option-cases (find x edges')) [
    | inl root ↦ absurd (ground (arith, same x))
    | inr (e', found') ↦
        let p : e.parent ≡ e'.parent = ground (arith, same x) in
        (e', found', subst (λ q. Steps edges' q n) p (Steps-same edges edges' same e.parent n rest))
  ]

  -- What keeps the parents keeps the forest.
  pub same-IsForest :
      (edges edges' : Edges F)
      → ((x : Frame) → parent_of x edges' ≡ parent_of x edges)
      → IsForest edges
      → IsForest edges'
  same-IsForest edges edges' same forest x =
      ((forest x).0, Steps-same edges edges' same x (forest x).0 (forest x).1)
