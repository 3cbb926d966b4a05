-- ===== src/Common/Clock.antt =====
-- Go's `time.Time` and `time.Duration`. A time is the nanoseconds since Go's zero time (year 1);
-- a duration is an int64, and `Sub` saturates as Go's does.
use ortus.Common.Base.{ℕ, suc, ◌-◌, ◌/◌, ◌^◌, Bool, min}
use ortus.Common.Tests.{ltb, leb, ◌==◌, if◌then◌else◌}
use ortus.Common.Int.{ℤ, pos, negsuc, sub_ℕ}

abbrev pub Time : Type 0
Time = ℕ

abbrev pub is_zero : Time → Bool
is_zero t = t == 0

abbrev pub before : Time → Time → Bool
before t u = ltb t u

abbrev pub after : Time → Time → Bool
after t u = ltb u t

-- `t.Sub(u)`
abbrev pub sub_time : Time → Time → ℤ
sub_time t u =
    if leb u t then pos (min (t - u) (2 ^ 63 - 1)) else negsuc (min (u - t - 1) (2 ^ 63 - 1))

-- `d.Microseconds()`: division by 1000, truncated toward zero.
abbrev pub microseconds : ℤ → ℤ
microseconds (pos n) = pos (n / 1000)
microseconds (negsuc n) = sub_ℕ 0 (suc n / 1000)
