-- ===== src/Common/Time.antt =====
-- What the program uses of Go's `time`. A time counts nanoseconds from year 1, and the zero time is 0;
-- a duration is an int64 of nanoseconds. The clock is past 2 ^ 63, some 292 years after year 1, so
-- that `Add` of a negative duration does not pass the zero time.
use re_mazarin.Common.{ℕ, suc, ◌+◌, ◌-◌, ◌*◌, ◌%◌, ◌<◌, ◌≡◌, ◌≤◌, Bool, ◌==◌, min, arith}
use re_mazarin.Common.Int.{ℤ, pos, negsuc, i64_mod, max_i64, wrap64, wrap64_small}

-- t.IsZero()
abbrev pub is_zero_time : ℕ → Bool
is_zero_time t = t == 0

-- t.Add(d)
unfoldable pub add_time : ℕ → ℤ → ℕ
add_time t (pos d) = t + d
add_time t (negsuc d) = t - suc d

-- now.Sub(t) for a reading `t` that the process made before `now`: both have the monotonic clock,
-- and the difference saturates at the largest duration.
unfoldable pub sub_time : ℕ → ℕ → ℕ
sub_time now t = min (now - t) max_i64

-- The int64 product of an int and a positive number of nanoseconds.
times : ℤ → ℕ → ℤ
times (pos n) unit = wrap64 (n * unit)
times (negsuc n) unit = wrap64 (i64_mod - (suc n * unit) % i64_mod)

-- time.Duration(n) * time.Second
unfoldable pub seconds : ℤ → ℤ
unfolding times
seconds n = times n 1000000000

-- time.Duration(n) * time.Hour
unfoldable pub hours : ℤ → ℤ
unfolding times
hours n = times n 3600000000000

-- The largest number of seconds that a duration holds.
abbrev pub max_seconds : ℕ
max_seconds = 9223372036

abbrev pub max_hours : ℕ
max_hours = 2562047

pub seconds_exact : (n : ℕ) → n ≤ max_seconds → seconds (pos n) ≡ pos (n * 1000000000)
unfolding seconds
seconds_exact n h = wrap64_small (n * 1000000000) (omega arith)

pub hours_exact : (n : ℕ) → n ≤ max_hours → hours (pos n) ≡ pos (n * 3600000000000)
unfolding hours
hours_exact n h = wrap64_small (n * 3600000000000) (omega arith)

-- Past the largest number the product is negative, up to twice that number.
pub seconds_wrap :
    (n : ℕ)
    → max_seconds < n
    → n ≤ 18446744073
    → seconds (pos n) ≡ negsuc (18446744073709551615 - n * 1000000000)
unfolding seconds wrap64
seconds_wrap n h k = ground arith
