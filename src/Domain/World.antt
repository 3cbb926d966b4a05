-- ===== src/Domain/World.antt =====
-- `Coordinate.Validate` of internal/domain/coordinate.go against the extent of the world.
use ortus.Common.{◌≡◌, ◌↔◌, true, false, none, arith}
use ortus.Common.Float.{float_lt, float_le, is_nan, f_90, f_180, negate}
use ortus.Domain.Types.{Coordinate, Extent}
use ortus.Domain.Coordinates.{validate, extent_contains, eq_ℤ, srid_wgs84}

abbrev pub world : Extent
world = record {
  min_x = negate f_180;
  min_y = negate f_90;
  max_x = f_180;
  max_y = f_90;
  srid = srid_wgs84;
}

-- A WGS 84 coordinate of numbers is valid exactly if it lies in the extent of the world.
pub validate_iff :
    (c : Coordinate)
    → eq_ℤ c.srid srid_wgs84 ≡ true
    → is_nan c.x ≡ false
    → is_nan c.y ≡ false
    → (validate c ≡ none) ↔ (extent_contains world c ≡ true)
unfolding validate extent_contains float_lt float_le
validate_iff c wgs84 x y = ground (arith, wgs84, x, y)

-- A WGS 84 coordinate without numbers is valid, and lies in no extent.
pub validate_nan :
    (c : Coordinate) (e : Extent)
    → eq_ℤ c.srid srid_wgs84 ≡ true
    → is_nan c.x ≡ true
    → is_nan c.y ≡ true
    → (validate c ≡ none) × (extent_contains e c ≡ false)
unfolding validate extent_contains float_lt float_le
validate_nan c e wgs84 x y = ground (arith, wgs84, x, y)
