-- ===== src/Lpss/Tf/Lookup.antt =====
-- modules/lpss/src/transform.cpp: Buffer::lookup, with its loops over the tree.
pub mod Paths
pub mod Total
pub mod Stored
use rmvl.Prelude.{
  Bool, List, Option, [], false, if◌then◌else◌, length, ltb, max, min, none, not, some, suc, true,
  zero, ℕ, ◌&&◌, ◌+◌, ◌-◌, ◌==◌, ◌=?◌, ◌>>=◌, ◌^◌, ◌||◌, ◌∷◌,
}
use rmvl.Bytes.{Bytes, bytes_eq}
use rmvl.Dict.{Dict, find}
use rmvl.Lpss.Tf.Geometry.{
  Doubles, Transform, interpolate, compose, inverse, identity_transform, zero_transform, normalized,
}
use rmvl.Lpss.Tf.Times.{Time, is_zero_time, valid_time, to_nanoseconds, from_nanoseconds}
use rmvl.Lpss.Tf.{
  Frame, Status, ok, invalid_argument, frame_not_found, connectivity_error, extrapolation_past,
  extrapolation_future, no_common_time, TransformSample, TransformEdge, TransformStamped, Buffer,
  back_time,
}

-- The interval that the dynamic edges of a path have in common, from INT64_MIN to INT64_MAX at first.
pub record Interval : Type 0 where
  pub has_dynamic_edge : Bool
  pub earliest : ℕ
  pub latest : ℕ

abbrev pub unbounded : Interval
unbounded = record { has_dynamic_edge = false; earliest = 0; latest = 2 ^ 64 - 1 }

unfoldable pub is_among : Frame → List Frame → Bool
is_among frame [] = false
is_among frame (f ∷ fs) = (frame =? f) || is_among frame fs

module _ (F : Doubles) where
  pub record LookupResult : Type 0 where
    pub status : Status
    pub transform : TransformStamped F

  abbrev pub Edges : Type 0
  Edges = Dict Frame (TransformEdge F)

  abbrev pub no_transform : TransformStamped F
  no_transform = record {
    frame_id = [];
    stamp = record { sec = 2 ^ 31; nsec = 0 };
    child_frame_id = [];
    transform = zero_transform F;
  }

  -- `previous` is the sample before. The end of the samples is no sample to read.
  unfoldable pub sample_from :
      ℕ → Option (TransformSample F) → List (TransformSample F) → Option (Transform F)
  sample_from time previous [] = none
  sample_from time previous (s ∷ ss) =
      let rest = sample_from time (some s) ss in
      if ltb s.time time then rest else if s.time == time then some s.transform else elim previous [
        | none ↦ some s.transform
        | some p ↦ some (interpolate F p.transform s.transform (time - p.time) (s.time - p.time))
      ]

  unfoldable pub sample_dynamic : ℕ → List (TransformSample F) → Option (Status × Transform F)
  sample_dynamic time [] = none
  sample_dynamic time (s ∷ ss) =
      if ltb time s.time
      then some (extrapolation_past, zero_transform F)
      else if ltb (back_time F s ss) time
      then some (extrapolation_future, zero_transform F)
      else sample_from time none (s ∷ ss) >>= λ t. some (ok, t)

  unfoldable pub sample_edge : ℕ → TransformEdge F → Option (Status × Transform F)
  sample_edge time edge =
      if edge.is_static then some (ok, edge.static_transform) else sample_dynamic time edge.samples

  unfoldable pub ancestors : ℕ → Edges → Frame → Option (List Frame)
  ancestors zero edges frame = none
  ancestors (suc rounds) edges frame = elim (find frame edges) [
    | none ↦ some (frame ∷ [])
    | some edge ↦ ancestors rounds edges edge.parent >>= λ fs. some (frame ∷ fs)
  ]

  -- Inner `none`: the root is reached.
  unfoldable pub common_frame : ℕ → Edges → List Frame → Frame → Option (Option Frame)
  common_frame zero edges known frame = none
  common_frame (suc rounds) edges known frame =
      if is_among frame known then some (some frame) else elim (find frame edges) [
        | none ↦ some none
        | some edge ↦ common_frame rounds edges known edge.parent
      ]

  unfoldable pub path_to : ℕ → Edges → Frame → Frame → Option (List (TransformEdge F))
  path_to zero edges common frame = none
  path_to (suc rounds) edges common frame =
      if frame =? common then some [] else elim (find frame edges) [
        | none ↦ none
        | some edge ↦ path_to rounds edges common edge.parent >>= λ es. some (edge ∷ es)
      ]

  -- The samples of a dynamic edge that has none are read: `none`.
  unfoldable pub narrow : List (TransformEdge F) → Interval → Option Interval
  narrow [] i = some i
  narrow (edge ∷ es) i = if edge.is_static then narrow es i else elim edge.samples [
    | [] ↦ none
    | s ∷ ss ↦ narrow es (record {
      has_dynamic_edge = true;
      earliest = max i.earliest s.time;
      latest = min i.latest (back_time F s ss);
    })
  ]

  -- Inner `none`: the edges have no common time.
  unfoldable pub latest_time : List (TransformEdge F) → List (TransformEdge F) → Option (Option ℕ)
  latest_time source_edges target_edges = do
    i ← narrow source_edges unbounded
    j ← narrow target_edges i
    if j.has_dynamic_edge && ltb j.latest j.earliest
        then some none
        else some (some (if j.has_dynamic_edge then j.latest else 2 ^ 63))

  unfoldable pub query_time :
      Time → List (TransformEdge F) → List (TransformEdge F) → Option (Option ℕ)
  query_time time source_edges target_edges =
      if is_zero_time time
      then latest_time source_edges target_edges
      else some (some (to_nanoseconds time))

  -- The product along a path, or the first status that is not Ok.
  unfoldable pub product : ℕ → List (TransformEdge F) → Transform F → Option (Status × Transform F)
  product time [] t = some (ok, t)
  product time (edge ∷ es) t = sample_edge time edge >>= λ (status, parent_from_child).
      elim status [
        | ok ↦ product time es (compose F parent_from_child t)
        | failed ↦ some (failed, t)
      ]

  unfoldable pub named : Frame → Frame → TransformStamped F
  named target source = record no_transform { frame_id = target; child_frame_id = source }

  unfoldable pub failure : Status → Frame → Frame → LookupResult
  failure status target source = record { status = status; transform = named target source }

  -- The product of the target's path undone after that of the source's.
  unfoldable pub join_paths :
      Frame → Frame → ℕ → List (TransformEdge F) → List (TransformEdge F) → Option LookupResult
  join_paths target source time source_edges target_edges = do
    (s, common_from_source) ← product time source_edges (identity_transform F)
    elim s [
      | ok ↦ do
        (r, common_from_target) ← product time target_edges (identity_transform F)
        let t = compose F (inverse F common_from_target) common_from_source
        some (elim r [
          | ok ↦ record {
            status = ok;
            transform = record (named target source) {
              stamp = from_nanoseconds time;
              transform = record t { rotation = normalized F t.rotation };
            };
          }
          | failed ↦ failure failed target source
        ])
      | failed ↦ some (failure failed target source)
    ]

  unfoldable pub lookup_paths : Edges → Frame → Frame → Time → Option LookupResult
  lookup_paths edges target source time = do
    known ← ancestors (length edges + 1) edges source
    found ← common_frame (length edges + 1) edges known target
    elim found [
      | none ↦ some (failure connectivity_error target source)
      | some common ↦ do
        source_edges ← path_to (length edges + 1) edges common source
        target_edges ← path_to (length edges + 1) edges common target
        at ← query_time time source_edges target_edges
        elim at [
          | none ↦ some (failure no_common_time target source)
          | some t ↦ join_paths target source t source_edges target_edges
        ]
    ]

  unfoldable pub has_frame : Frame → Buffer F → Bool
  has_frame frame b = elim (find frame b.frames) [ none ↦ false | some _ ↦ true ]

  unfoldable pub lookup : Frame → Frame → Time → Buffer F → Option LookupResult
  lookup target source time b =
      if ((target =? []) || (source =? [])) || not (valid_time time)
      then some (record { status = invalid_argument; transform = no_transform })
      else if not (has_frame target b) || not (has_frame source b)
      then some (record { status = frame_not_found; transform = no_transform })
      else if target =? source
      then some (record {
        status = ok;
        transform = record (named target source) { stamp = time; transform = identity_transform F };
      })
      else lookup_paths b.edges target source time

  unfoldable pub can : Frame → Frame → Time → Buffer F → Option Bool
  can target source time b =
      lookup target source time b >>= λ r. some (elim r.status [ ok ↦ true | failed ↦ false ])
