-- ===== src/Lpss/Tf/Names.antt =====
-- modules/lpss/src/transform.cpp: the texts of the states, and the topics of the broadcasters.
use rmvl.Prelude.{[], if◌then◌else◌, ◌++◌, ◌=?◌, ◌||◌, ◌∷◌}
use rmvl.Bytes.{Bytes, codes, bytes_eq}
use rmvl.Lpss.Tf.{
  Status, ok, invalid_argument, invalid_transform, multiple_parents, cycle_detected,
  static_dynamic_conflict, frame_not_found, connectivity_error, extrapolation_past,
  extrapolation_future, no_common_time, timestamp_out_of_range,
}

unfoldable to_string : Status → Bytes
to_string ok = codes "ok"
to_string invalid_argument = codes "invalid argument"
to_string invalid_transform = codes "invalid transform"
to_string multiple_parents = codes "multiple parents"
to_string cycle_detected = codes "cycle detected"
to_string static_dynamic_conflict = codes "static/dynamic conflict"
to_string frame_not_found = codes "frame not found"
to_string connectivity_error = codes "frames are not connected"
to_string extrapolation_past = codes "query precedes transform history"
to_string extrapolation_future = codes "query exceeds transform history"
to_string no_common_time = codes "no common time on transform path"
to_string timestamp_out_of_range = codes "timestamp is outside cache window"

last_of : Bytes → Bytes
last_of [] = []
last_of (c ∷ []) = c ∷ []
last_of (c ∷ d ∷ cs) = last_of (d ∷ cs)

unfoldable topic_name : Bytes → Bytes → Bytes
unfolding last_of
topic_name name suffix =
    if (name =? []) || (last_of name =? codes "/")
    then name ++ suffix
    else name ++ codes "/" ++ suffix
