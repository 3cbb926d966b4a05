-- ===== src/Common/Float.antt =====
-- Go's float64, as its IEEE 754 bit pattern: comparisons and equality, with NaN and the two zeros
-- as the standard has them. No arithmetic is modelled.
use ortus.Common.Base.{ℕ, ◌+◌, ◌/◌, ◌%◌, ◌^◌, Bool, not, ◌&&◌}
use ortus.Common.Tests.{ltb, ◌==◌, if◌then◌else◌}
use ortus.Common.Int.{ℤ, pos, sub_ℕ, ltb_ℤ}

abbrev pub Float : Type 0
Float = ℕ

abbrev pub float_magnitude : Float → ℕ
float_magnitude x = x % 2 ^ 63

abbrev pub is_nan : Float → Bool
is_nan x = ltb 0x7FF0000000000000 (float_magnitude x)

-- Where a value that is no number stands in the order of the others.
abbrev pub float_key : Float → ℤ
float_key x = if (x / 2 ^ 63) % 2 == 0 then pos (float_magnitude x) else sub_ℕ 0 (float_magnitude x)

-- `x < y`
unfoldable pub float_lt : Float → Float → Bool
float_lt x y = not (is_nan x) && (not (is_nan y) && ltb_ℤ (float_key x) (float_key y))

-- `x <= y`
unfoldable pub float_le : Float → Float → Bool
float_le x y = not (is_nan x) && (not (is_nan y) && not (ltb_ℤ (float_key y) (float_key x)))

-- `x == y`
unfoldable pub float_eq : Float → Float → Bool
float_eq x y =
    not (is_nan x)
    && (not (is_nan y)
        && (not (ltb_ℤ (float_key x) (float_key y)) && not (ltb_ℤ (float_key y) (float_key x))))

abbrev pub f_zero : Float
f_zero = 0

abbrev pub f_90 : Float
f_90 = 0x4056800000000000

abbrev pub f_180 : Float
f_180 = 0x4066800000000000

abbrev pub negate : Float → Float
negate x = (x + 2 ^ 63) % 2 ^ 64
