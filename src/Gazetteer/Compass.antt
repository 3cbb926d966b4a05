-- ===== src/Gazetteer/Compass.antt =====
-- internal/domain/compass.go, over Go's arithmetic on float64.
use ortus.Common.{
  ℕ, suc, ◌%◌, Option, none, List, [], ◌∷◌, ◌++◌, Str, bytes, ◌==◌, length, get_elem?,
  if◌then◌else◌,
}
use ortus.Common.Int.{ℤ, pos, negsuc}
use ortus.Common.Float.{Float, float_lt, float_eq, f_zero}
use ortus.Domain.Coordinates.{eq_ℤ}

-- Go's arithmetic on float64: `math.Mod`, `+`, `/`, `*`, `math.Round`, `math.Trunc`, the conversions
-- from and to int, `%.0f` and `%.1f`, and `strconv.ParseFloat`.
pub record Arithmetic : Type 0 where
  pub f_mod : Float → Float → Float
  pub f_add : Float → Float → Float
  pub f_div : Float → Float → Float
  pub f_mul : Float → Float → Float
  pub f_round : Float → Float
  pub f_trunc : Float → Float
  pub of_int : ℕ → Float
  pub to_int : Float → ℤ
  pub format_fixed : ℕ → Float → Str
  pub parse_float : Str → Option Float

abbrev pub compass8 : List Str
compass8 =
    bytes "N"
    ∷ bytes "NE"
    ∷ bytes "E"
    ∷ bytes "SE"
    ∷ bytes "S"
    ∷ bytes "SW"
    ∷ bytes "W"
    ∷ bytes "NW"
    ∷ []

abbrev pub compass16 : List Str
compass16 =
    bytes "N"
    ∷ bytes "NNE"
    ∷ bytes "NE"
    ∷ bytes "ENE"
    ∷ bytes "E"
    ∷ bytes "ESE"
    ∷ bytes "SE"
    ∷ bytes "SSE"
    ∷ bytes "S"
    ∷ bytes "SSW"
    ∷ bytes "SW"
    ∷ bytes "WSW"
    ∷ bytes "W"
    ∷ bytes "WNW"
    ∷ bytes "NW"
    ∷ bytes "NNW"
    ∷ []

abbrev pub rose_of : ℤ → List Str
rose_of points = if eq_ℤ points (pos 16) then compass16 else compass8

-- `rose[i % n]`; Go's remainder has the sign of `i`, and a negative index panics.
unfoldable pub rose_at : List Str → ℤ → Option Str
rose_at rose (pos i) = get_elem? rose (i % length rose)
rose_at rose (negsuc i) = if suc i % length rose == 0 then get_elem? rose 0 else none

module _ (a : Arithmetic) where
  abbrev pub normalized : Float → Float
  normalized azimuth =
      let az = a.f_mod azimuth (a.of_int 360) in
      if float_lt az f_zero then a.f_add az (a.of_int 360) else az

  unfoldable pub compass : Float → ℤ → Option Str
  compass azimuth points =
      let rose = rose_of points in
      let step = a.f_div (a.of_int 360) (a.of_int (length rose)) in
      rose_at rose (a.to_int (a.f_round (a.f_div (normalized azimuth) step)))

  unfoldable pub round_distance_km : Float → Float
  round_distance_km km =
      if float_lt km (a.of_int 10)
      then a.f_div (a.f_round (a.f_mul km (a.of_int 2))) (a.of_int 2)
      else a.f_round km

  unfoldable pub format_km : Float → Str
  format_km km = if float_eq km (a.f_trunc km) then a.format_fixed 0 km else a.format_fixed 1 km

  unfoldable pub format_bearing_label : Float → Str → Str → Str
  format_bearing_label km point name =
      format_km km ++ (bytes " km " ++ (point ++ (bytes " " ++ name)))
