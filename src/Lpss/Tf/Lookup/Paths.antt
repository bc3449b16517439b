-- ===== src/Lpss/Tf/Lookup/Paths.antt =====
-- modules/lpss/src/transform.cpp: the paths that lookup follows: they end, and meet.
use rmvl.Prelude.{
  All, Bool-cases, List, Option, Option-cases, [], arith, false, inl, inr, none, refl, some, suc,
  true, zero, ℕ, ◌<◌, ◌=?◌, ◌∷◌, ◌≡◌,
}
use rmvl.Bytes.{bytes_eq}
use rmvl.Dict.{find}
use rmvl.Dict.Laws.{All-find}
use rmvl.Lpss.Tf.Geometry.{Doubles}
use rmvl.Lpss.Tf.{Frame, TransformEdge}
use rmvl.Lpss.Tf.Lookup.{Edges, is_among, ancestors, common_frame, path_to}
use rmvl.Lpss.Tf.Forest.{Steps}

module _ (F : Doubles) where
  -- The loop from the target ends, at a frame that is known or at a root.
  pub common_frame-ends :
      (rounds n : ℕ) (edges : Edges F) (known : List Frame) (x : Frame)
      → Steps F edges x n
      → n < rounds
      → (found : Option Frame) × (common_frame F rounds edges known x ≡ some found)
  unfolding common_frame
  common_frame-ends zero n edges known x h few = absurd (omega arith)
  common_frame-ends (suc rounds) zero edges known x h few = elim (Bool-cases (is_among x known)) [
    | inl here ↦ (some x, rw (common_frame, here) refl)
    | inr not_here ↦ (none, rw (common_frame, not_here, h) refl)
  ]
  common_frame-ends (suc rounds) (suc n) edges known x (e, up, rest) few =
      elim (Bool-cases (is_among x known)) [
        | inl here ↦ (some x, rw (common_frame, here) refl)
        | inr not_here ↦
            let (found, ends) =
              common_frame-ends rounds n edges known e.parent rest (omega arith) in
            (found, rw (common_frame, not_here, up, ends) refl)
      ]

  -- The path from the source to one of its ancestors.
  pub path_to-ancestor :
      (P : Frame × TransformEdge F → Type 0) (rounds : ℕ) (edges : Edges F) (c x : Frame)
      (fs : List Frame)
      → All P edges
      → ancestors F rounds edges x ≡ some fs
      → is_among c fs ≡ true
      → (es : List (TransformEdge F)) × (path_to F rounds edges c x ≡ some es)
        × All (λ e. (y : Frame) × P (y, e)) es
  unfolding ancestors path_to is_among
  path_to-ancestor P zero edges c x fs h e k = absurd (ground arith)
  path_to-ancestor P (suc rounds) edges c x fs h e k = elim (Bool-cases (x =? c)) [
    | inl here ↦ ([], rw (path_to, here) refl, tt)
    | inr apart ↦ elim (Option-cases (find x edges)) [
      | inl root ↦ absurd (ground (arith, bytes_eq.beq_iff c x, bytes_eq.beq_iff x c))
      | inr (edge, up) ↦ elim (Option-cases (ancestors F rounds edges edge.parent)) [
        | inl endless ↦ absurd (ground arith)
        | inr (gs, above) ↦
            let there : is_among c gs ≡ true =
              ground (arith, bytes_eq.beq_iff c x, bytes_eq.beq_iff x c) in
            let (es, ends, all) = path_to-ancestor P rounds edges c edge.parent gs h above there in
            (
              edge ∷ es,
              rw (path_to, apart, up, ends) refl,
              ((x, All-find P x edge edges h up), all),
            )
      ]
    ]
  ]

  -- The path from the target to the frame where the loop stops, which is known.
  pub path_to-common :
      (P : Frame × TransformEdge F → Type 0) (rounds : ℕ) (edges : Edges F) (known : List Frame)
      (c x : Frame)
      → All P edges
      → common_frame F rounds edges known x ≡ some (some c)
      → (is_among c known ≡ true)
        × ((es : List (TransformEdge F)) × (path_to F rounds edges c x ≡ some es)
            × All (λ e. (y : Frame) × P (y, e)) es)
  unfolding common_frame path_to
  path_to-common P zero edges known c x h e = absurd (ground arith)
  path_to-common P (suc rounds) edges known c x h e = elim (Bool-cases (is_among x known)) [
    | inl here ↦
        let same : x ≡ c = ground arith in
        (rw same at here, ([], rw (path_to, (bytes_eq.beq_iff x c).1 same) refl, tt))
    | inr away ↦ elim (Option-cases (find x edges)) [
      | inl root ↦ absurd (ground arith)
      | inr (edge, up) ↦
          let (known_c, (es, ends, all)) =
            path_to-common P rounds edges known c edge.parent h (ground arith) in
          let apart : (x =? c) ≡ false = ground (arith, bytes_eq.beq_iff x c) in
          (
            known_c,
            (
              edge ∷ es,
              rw (path_to, apart, up, ends) refl,
              ((x, All-find P x edge edges h up), all),
            ),
          )
    ]
  ]
