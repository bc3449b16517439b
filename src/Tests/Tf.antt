-- ===== src/Tests/Tf.antt =====
-- modules/lpss/src/transform.cpp: changes and lookups of a small tree, with numbers for doubles.
use rmvl.Prelude.{
  Ends, [], false, ltb, refl, some, sym, true, ℕ, ◌*◌, ◌+◌, ◌-◌, ◌/◌, ◌^◌, ◌∙◌, ◌∷◌, ◌≡◌,
}
use rmvl.Bytes.{codes}
use mathlib.Core.Path.{subst}
use mathlib.Core.Option.{some-injective}
use rmvl.Dict.{find, put}
use rmvl.Lpss.Tf.Geometry.{
  Doubles, Transform, zero_transform, normalize_transform, normalize_quaternion, norm2, scale,
}
use rmvl.Lpss.Tf.Times.{is_zero_time, valid_time, to_nanoseconds}
use rmvl.Lpss.Tf.{
  Status, ok, TransformStamped, Buffer, make_buffer, set_impl, invalid_input, set_transform, meets,
  store_transform, is_old, no_edge, add_frames, prune_edge, prune_samples, insert_sample, from_time,
  cache_cutoff, back_time,
}
use rmvl.Lpss.Tf.Lookup.{lookup}
use rmvl.Lpss.Tf.Lookup.Total.{lookup-Ends}
use rmvl.Lpss.Tf.Lookup.Stored.{one_edge, lookup-set_impl}
use rmvl.Lpss.Tf.Invariant.{IsBuffer, set_impl-IsBuffer}

abbrev numbers : Doubles
numbers = record {
  Double = ℕ;
  zero = 0;
  one = 1;
  two = 2;
  epsilon = 0;
  slerp_limit = 1;
  add = λ a b. a + b;
  sub = λ a b. a - b;
  mul = λ a b. a * b;
  div = λ a b. a / b;
  neg = λ a. a;
  sqrt = λ a. a;
  sin = λ a. a;
  acos = λ a. a;
  less = ltb;
  finite = λ a. true;
  of_integer = λ a. a;
}

abbrev moved : Transform numbers
moved = record {
  translation = record { x = 3; y = 4; z = 5 };
  rotation = record { x = 0; y = 0; z = 0; w = 1 };
}

abbrev at_one : TransformStamped numbers
at_one = record {
  frame_id = codes "map";
  stamp = record { sec = 2 ^ 31 + 1; nsec = 5 };
  child_frame_id = codes "base";
  transform = moved;
}

abbrev fresh : Buffer numbers
fresh = make_buffer numbers (2 ^ 63 + 10000000000)

fresh-IsBuffer : IsBuffer numbers fresh
unfolding make_buffer find
fresh-IsBuffer = record { forest = λ x. (0, refl); entries = tt; known = tt }

set_impl-IsBuffer_example :
    (r : Status × Buffer numbers) × (set_impl numbers false at_one fresh ≡ some r)
    × IsBuffer numbers r.1
set_impl-IsBuffer_example = set_impl-IsBuffer numbers false at_one fresh fresh-IsBuffer

abbrev grown : Buffer numbers
grown = record {
  edges =
      (
        codes "base",
        record {
          parent = codes "map";
          is_static = false;
          static_transform = zero_transform numbers;
          samples = record { time = to_nanoseconds at_one.stamp; transform = moved } ∷ [];
        },
      )
      ∷ [];
  frames = (codes "map", true) ∷ (codes "base", true) ∷ [];
  cache_duration = 10000000000;
}

set_grown : set_impl numbers false at_one fresh ≡ some (ok, grown)
unfolding set_impl invalid_input valid_time normalize_transform normalize_quaternion scale norm2
    set_transform find meets store_transform is_old no_edge add_frames put prune_edge prune_samples
    insert_sample from_time cache_cutoff back_time make_buffer to_nanoseconds
set_grown = refl

grown-IsBuffer : IsBuffer numbers grown
grown-IsBuffer =
    let (r, ends, v) = set_impl-IsBuffer numbers false at_one fresh fresh-IsBuffer in
    subst (λ q. IsBuffer numbers q.1) (some-injective r (ok, grown) (sym ends ∙ set_grown)) v

lookup-Ends_example : Ends (lookup numbers (codes "map") (codes "base") at_one.stamp grown)
lookup-Ends_example =
    lookup-Ends numbers (codes "map") (codes "base") at_one.stamp grown grown-IsBuffer

at_one_normal : normalize_transform numbers moved ≡ some moved
unfolding normalize_transform normalize_quaternion scale norm2
at_one_normal = refl

at_one_late : is_zero_time at_one.stamp ≡ false
unfolding is_zero_time
at_one_late = refl

lookup-set_impl_example :
    lookup numbers (codes "map") (codes "base") at_one.stamp grown
    ≡ some (one_edge numbers (codes "map") (codes "base") at_one.stamp moved)
lookup-set_impl_example =
    lookup-set_impl numbers false at_one moved fresh grown fresh-IsBuffer at_one_normal at_one_late
      set_grown
