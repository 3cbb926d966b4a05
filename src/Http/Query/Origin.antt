-- ===== src/Http/Query/Origin.antt =====
-- Which coordinates the point queries of internal/adapters/http/handlers.go take.
use ortus.Common.{◌≡◌, refl, ◌⊎◌, true, false, some, Str, bytes}
use ortus.Common.Float.{Float, float_eq, f_zero}
use ortus.Domain.Types.{Coordinate}
use ortus.Gazetteer.Compass.{Arithmetic}
use ortus.Http.Query.{
  QueryParams, bad, no_coordinates, parse_number, parse_srid, parse_query_params,
}

-- The parameter is missing, or zero.
abbrev pub IsZero : Arithmetic → (Str → Str) → Str → Type 0
IsZero a q name = (x : Float) × (parse_number a q name ≡ some x) × (float_eq x f_zero ≡ true)

-- A request whose coordinates are all missing or zero is refused, so one at longitude and latitude
-- zero is.
pub origin_refused :
    (a : Arithmetic) (q : Str → Str)
    → IsZero a q (bytes "lon")
    → IsZero a q (bytes "lat")
    → IsZero a q (bytes "x")
    → IsZero a q (bytes "y")
    → parse_query_params a q ≡ bad no_coordinates
unfolding parse_query_params
origin_refused a q (lon, is_lon, lon_zero) (lat, is_lat, lat_zero) (x, is_x, x_zero)
      (y, is_y, y_zero) =
    rw (is_lon, is_lat, is_x, is_y, lon_zero, lat_zero, x_zero, y_zero, parse_query_params) refl

-- The coordinates are read from the parameters of their names.
abbrev pub Reads : Arithmetic → (Str → Str) → Str → Str → Coordinate → Type 0
Reads a q first second c =
    (parse_number a q first ≡ some c.x) × (parse_number a q second ≡ some c.y)

pub record IsRead (a : Arithmetic) (q : Str → Str) (p : QueryParams) : Type 0 where
  pub lon_read : parse_number a q (bytes "lon") ≡ some p.lon
  pub lat_read : parse_number a q (bytes "lat") ≡ some p.lat
  pub x_read : parse_number a q (bytes "x") ≡ some p.x
  pub y_read : parse_number a q (bytes "y") ≡ some p.y
  pub srid_read : parse_srid a q ≡ some p.srid

-- The point is not at zero on both axes.
abbrev pub IsSomewhere : Coordinate → Type 0
IsSomewhere c = (float_eq c.x f_zero ≡ false) ⊎ (float_eq c.y f_zero ≡ false)
