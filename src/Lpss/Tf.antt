-- ===== src/Lpss/Tf.antt =====
-- modules/lpss/src/transform.cpp: the transform tree (tf::Buffer). A signed 64-bit number of
-- nanoseconds is written as the number that is 2^63 more, and the seconds of a time, which have 32
-- bits, as the number that is 2^31 more: the order is the same, and INT64_MIN is 0. Loops that the
-- code leaves to the shape of the tree take rounds; outer `none` is a loop that has not ended, or an
-- access to an entry that is not there, which is undefined behaviour.
pub mod Geometry
pub mod Times
pub mod Edges
pub mod Forest
pub mod Lookup
pub mod Invariant
mod Names
use rmvl.Prelude.{
  Bool, List, Option, [], false, if◌then◌else◌, length, ltb, none, not, some, suc, true, zero, ℕ,
  ◌+◌, ◌-◌, ◌==◌, ◌=?◌, ◌>>=◌, ◌^◌, ◌||◌, ◌∷◌,
}
use rmvl.Bytes.{Bytes, bytes_eq}
use rmvl.Dict.{Dict, find, put}
use rmvl.Lpss.Tf.Geometry.{
  Doubles, Transform, Vector3, Quaternion, identity_transform, normalize_transform, normalized,
  zero_transform, compose, inverse, interpolate,
}
use rmvl.Lpss.Tf.Times.{Time, is_zero_time, valid_time, to_nanoseconds, from_nanoseconds}

abbrev pub Frame : Type 0
Frame = Bytes

pub data Status : Type 0 where
  ok invalid_argument invalid_transform multiple_parents cycle_detected static_dynamic_conflict :
      Status
  frame_not_found connectivity_error extrapolation_past extrapolation_future no_common_time : Status
  timestamp_out_of_range : Status

-- `latest - duration`, or INT64_MIN where that would be below it.
unfoldable pub cache_cutoff : ℕ → ℕ → ℕ
cache_cutoff latest duration = if ltb latest duration then 0 else latest - duration

-- The nanoseconds of a duration, which are signed: a negative one counts as zero.
abbrev pub duration_of : ℕ → ℕ
duration_of nanoseconds = nanoseconds - 2 ^ 63

unfoldable pub same_flag : Bool → Bool → Bool
same_flag a b = if a then b else not b

module _ (F : Doubles) where
  pub record TransformSample : Type 0 where
    pub time : ℕ
    pub transform : Transform F

  pub record TransformEdge : Type 0 where
    pub parent : Frame
    pub is_static : Bool
    pub static_transform : Transform F
    pub samples : List TransformSample

  pub record TransformStamped : Type 0 where
    pub frame_id : Frame
    pub stamp : Time
    pub child_frame_id : Frame
    pub transform : Transform F

  -- Buffer::Impl.
  pub record Buffer : Type 0 where
    pub edges : Dict Frame TransformEdge
    pub frames : Dict Frame Bool
    pub cache_duration : ℕ

  unfoldable pub make_buffer : ℕ → Buffer
  make_buffer nanoseconds = record {
    edges = [];
    frames = [];
    cache_duration = duration_of nanoseconds;
  }

  -- std::lower_bound on samples in the order of time: what is before, and what is from there on.
  unfoldable pub from_time : ℕ → List TransformSample → List TransformSample
  from_time time [] = []
  from_time time (s ∷ ss) = let rest = from_time time ss in if ltb s.time time then rest else s ∷ ss

  -- The sample at the lower bound is replaced if it has the time, and else one is put before it.
  unfoldable pub insert_sample : ℕ → Transform F → List TransformSample → List TransformSample
  insert_sample time t [] = record { time = time; transform = t } ∷ []
  insert_sample time t (s ∷ ss) =
      let rest = insert_sample time t ss in
      if ltb s.time time
      then s ∷ rest
      else if s.time == time
      then record s { transform = t } ∷ ss
      else record { time = time; transform = t } ∷ s ∷ ss

  unfoldable pub back_time : TransformSample → List TransformSample → ℕ
  back_time s [] = s.time
  back_time s (r ∷ rs) = back_time r rs

  unfoldable pub prune_samples : ℕ → List TransformSample → List TransformSample
  prune_samples duration [] = []
  prune_samples duration (s ∷ ss) = from_time (cache_cutoff (back_time s ss) duration) (s ∷ ss)

  unfoldable pub prune_edge : ℕ → TransformEdge → TransformEdge
  prune_edge duration edge =
      if edge.is_static then edge else record edge { samples = prune_samples duration edge.samples }

  -- The loop from the parent towards the root: whether it meets the child.
  unfoldable pub meets : ℕ → Dict Frame TransformEdge → Frame → Frame → Option Bool
  meets zero edges child frame = none
  meets (suc rounds) edges child frame =
      if frame =? child then some true else elim (find frame edges) [
        | none ↦ some false
        | some ancestor ↦ meets rounds edges child ancestor.parent
      ]

  -- Whether a time is before what the samples still keep.
  unfoldable pub is_old : ℕ → ℕ → List TransformSample → Bool
  is_old duration time [] = false
  is_old duration time (s ∷ ss) = ltb time (cache_cutoff (back_time s ss) duration)

  unfoldable pub add_frames : TransformStamped → Buffer → Buffer
  add_frames input b = record b {
    frames = put input.child_frame_id true (put input.frame_id true b.frames);
  }

  -- The edge of the child, found or new, takes the transform.
  unfoldable pub store_transform :
      Bool → TransformStamped → Transform F → TransformEdge → Buffer → Status × Buffer
  store_transform is_static input transform edge b =
      let child = input.child_frame_id in
      let time = to_nanoseconds input.stamp in
      if is_static
      then (
        ok,
        add_frames input
            (record b { edges = put child (record edge { static_transform = transform }) b.edges }),
      )
      else if is_old b.cache_duration time edge.samples
      then (timestamp_out_of_range, b)
      else (
        ok,
        add_frames input (record b {
          edges =
              put child
                (prune_edge b.cache_duration
                  (record edge { samples = insert_sample time transform edge.samples }))
                b.edges;
        }),
      )

  unfoldable pub no_edge : Frame → Bool → TransformEdge
  no_edge parent is_static = record {
    parent = parent;
    is_static = is_static;
    static_transform = zero_transform F;
    samples = [];
  }

  unfoldable pub invalid_input : TransformStamped → Bool
  invalid_input input =
      ((input.frame_id =? []) || (input.child_frame_id =? []))
      || ((input.frame_id =? input.child_frame_id) || not (valid_time input.stamp))

  unfoldable pub set_transform :
      Bool → TransformStamped → Transform F → Buffer → Option (Status × Buffer)
  set_transform is_static input transform b =
      let child = input.child_frame_id in
      elim (find child b.edges) [
        | some edge ↦
            if not (edge.parent =? input.frame_id)
            then some (multiple_parents, b)
            else if not (same_flag edge.is_static is_static)
            then some (static_dynamic_conflict, b)
            else some (store_transform is_static input transform edge b)
        | none ↦ meets (length b.edges + 1) b.edges child input.frame_id >>= λ cycle.
            if cycle
            then some (cycle_detected, b)
            else some
                (store_transform is_static input transform (no_edge input.frame_id is_static) b)
      ]

  unfoldable pub set_impl : Bool → TransformStamped → Buffer → Option (Status × Buffer)
  set_impl is_static input b =
      if invalid_input input
      then some (invalid_argument, b)
      else elim (normalize_transform F input.transform) [
        | none ↦ some (invalid_transform, b)
        | some transform ↦ set_transform is_static input transform b
      ]

  -- Buffer::set and Buffer::setStatic of several transforms: the first status that is not Ok.
  unfoldable pub first_failure : Status → Status → Status
  first_failure ok current = current
  first_failure result current = result

  unfoldable pub set_all : Bool → List TransformStamped → Status → Buffer → Option (Status × Buffer)
  set_all is_static [] result b = some (result, b)
  set_all is_static (input ∷ inputs) result b =
      set_impl is_static input b >>= λ r. set_all is_static inputs (first_failure result r.0) r.1

  unfoldable pub prune_edges : ℕ → Dict Frame TransformEdge → Dict Frame TransformEdge
  prune_edges duration [] = []
  prune_edges duration ((child, edge) ∷ edges) =
      (child, prune_edge duration edge) ∷ prune_edges duration edges

  unfoldable pub set_cache_duration : ℕ → Buffer → Buffer
  set_cache_duration nanoseconds b = record b {
    cache_duration = duration_of nanoseconds;
    edges = prune_edges (duration_of nanoseconds) b.edges;
  }

  unfoldable pub size : Buffer → ℕ
  size b = length b.edges

  unfoldable pub clear : Buffer → Buffer
  clear b = record b { edges = []; frames = [] }
