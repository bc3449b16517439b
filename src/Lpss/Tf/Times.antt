-- ===== src/Lpss/Tf/Times.antt =====
-- modules/lpss/src/transform.cpp: times in seconds and nanoseconds, and in nanoseconds; their sum and
-- difference are of modules/lpss/src/node.cpp.
use rmvl.Prelude.{
  Bool, arith, if◌then◌else◌, leb, ltb, true, ℕ, ◌%◌, ◌&&◌, ◌*◌, ◌+◌, ◌-◌, ◌/◌, ◌<◌, ◌==◌, ◌^◌, ◌≡◌,
}

-- `sec` is 2^31 more than the signed seconds.
pub record Time : Type 0 where
  pub sec : ℕ
  pub nsec : ℕ

abbrev pub second_size : ℕ
second_size = 1000000000

unfoldable pub is_zero_time : Time → Bool
is_zero_time t = t.sec == 2 ^ 31 && t.nsec == 0

unfoldable pub valid_time : Time → Bool
valid_time t = ltb t.nsec second_size

-- 2^63 more than the signed nanoseconds.
unfoldable pub to_nanoseconds : Time → ℕ
to_nanoseconds t = t.sec * second_size + t.nsec + (2 ^ 63 - 2 ^ 31 * second_size)

-- Division of a negative number rounds towards zero, and its remainder is negative or zero.
unfoldable pub from_nanoseconds : ℕ → Time
from_nanoseconds t =
    if leb (2 ^ 63) t
    then record {
      sec = (2 ^ 31 + (t - 2 ^ 63) / second_size) % 2 ^ 32;
      nsec = (t - 2 ^ 63) % second_size;
    }
    else let m = 2 ^ 63 - t in
      if m % second_size == 0
      then record { sec = (2 ^ 63 + 2 ^ 31 - m / second_size) % 2 ^ 32; nsec = 0 }
      else record {
        sec = (2 ^ 63 + 2 ^ 31 - m / second_size - 1) % 2 ^ 32;
        nsec = second_size - m % second_size;
      }

-- A valid time, whose seconds have 32 bits, is what the number of its nanoseconds is read as, for the
-- times before 1970 too.
pub from_nanoseconds-to_nanoseconds :
    (t : Time) → t.sec < 2 ^ 32 → valid_time t ≡ true → from_nanoseconds (to_nanoseconds t) ≡ t
unfolding from_nanoseconds to_nanoseconds valid_time
from_nanoseconds-to_nanoseconds t range valid = ground arith

-- modules/lpss/src/node.cpp: the sum and the difference of times. Seconds wrap around at 32 bits,
-- where the source's signed sum is undefined.
unfoldable pub add_time : Time → Time → Time
add_time t u =
    let nsec_sum = t.nsec + u.nsec in
    if leb second_size nsec_sum
    then record { sec = (t.sec + u.sec + 2 ^ 31 + 1) % 2 ^ 32; nsec = nsec_sum - second_size }
    else record { sec = (t.sec + u.sec + 2 ^ 31) % 2 ^ 32; nsec = nsec_sum }

unfoldable pub sub_time : Time → Time → Time
sub_time t u =
    let sec_diff = t.sec + 2 ^ 32 + 2 ^ 31 - u.sec in
    if ltb t.nsec u.nsec
    then record { sec = (sec_diff - 1) % 2 ^ 32; nsec = t.nsec + second_size - u.nsec }
    else record { sec = sec_diff % 2 ^ 32; nsec = t.nsec - u.nsec }

-- A time less another one, and that added again, is the time, where both are valid and have seconds of
-- 32 bits; and the difference is valid.
pub add_time-sub_time :
    (t u : Time)
    → t.sec < 2 ^ 32
    → u.sec < 2 ^ 32
    → valid_time t ≡ true
    → valid_time u ≡ true
    → (add_time (sub_time t u) u ≡ t) × (valid_time (sub_time t u) ≡ true)
unfolding add_time sub_time valid_time
add_time-sub_time t u range range' valid valid' = ground arith
