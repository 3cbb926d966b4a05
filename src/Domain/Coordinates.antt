-- ===== src/Domain/Coordinates.antt =====
-- `Coordinate.Validate`, `IsZero`, `IsKnownSRID` and `Extent.Contains` of
-- internal/domain/coordinate.go.
use ortus.Common.{
  ℕ, Bool, false, not, ◌&&◌, ◌||◌, Option, none, some, List, [], ◌∷◌, bytes, if◌then◌else◌, ◌≡◌,
  true, arith,
}
use ortus.Common.Int.{ℤ, pos, ltb_ℤ, eq_of_parts}
use ortus.Common.Float.{float_lt, float_le, float_eq, f_zero, f_90, f_180, negate}
use ortus.Domain.Types.{Coordinate, Extent}
use ortus.Domain.Errors.{Error, invalid_coordinate}

abbrev pub eq_ℤ : ℤ → ℤ → Bool
eq_ℤ a b = not (ltb_ℤ a b) && not (ltb_ℤ b a)

pub eq_ℤ→eq : (a b : ℤ) → eq_ℤ a b ≡ true → a ≡ b
eq_ℤ→eq a b h = eq_of_parts a b (ground (arith, h))

pub eq_ℤ_refl : (a : ℤ) → eq_ℤ a a ≡ true
eq_ℤ_refl a = ground arith

abbrev pub srid_wgs84 : ℤ
srid_wgs84 = pos 4326

unfoldable pub validate : Coordinate → Option Error
validate c =
    if eq_ℤ c.srid srid_wgs84
    then (if float_lt c.x (negate f_180) || float_lt f_180 c.x
        then some (invalid_coordinate (bytes "longitude"))
        else if float_lt c.y (negate f_90) || float_lt f_90 c.y
        then some (invalid_coordinate (bytes "latitude"))
        else none)
    else none

-- `Coordinate.IsZero`
unfoldable pub is_unset : Coordinate → Bool
is_unset c = float_eq c.x f_zero && (float_eq c.y f_zero && eq_ℤ c.srid (pos 0))

-- The keys of `CommonProjections`.
abbrev pub common_projections : List ℕ
common_projections = 4326 ∷ 3857 ∷ 25832 ∷ 25833 ∷ 31466 ∷ 31467 ∷ []

elem_ℤ : ℤ → List ℕ → Bool
elem_ℤ k [] = false
elem_ℤ k (n ∷ ns) = eq_ℤ (pos n) k || elem_ℤ k ns

unfoldable pub is_known_srid : ℤ → Bool
unfolding elem_ℤ
is_known_srid srid = elem_ℤ srid common_projections

-- `Extent.Contains`, `Extent.IsValid`
unfoldable pub extent_contains : Extent → Coordinate → Bool
extent_contains e c =
    float_le e.min_x c.x && (float_le c.x e.max_x && (float_le e.min_y c.y && float_le c.y e.max_y))

unfoldable pub extent_is_valid : Extent → Bool
extent_is_valid e = float_le e.min_x e.max_x && float_le e.min_y e.max_y
