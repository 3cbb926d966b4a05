-- ===== src/Http/Points.antt =====
-- The parameters of point queries, and the block of a gazetteer that is not ready.
use ortus.Common.{◌≡◌, refl, ◌⊎◌, false, Option, none, some, [], Str, bytes, str_eq, if◌then◌else◌}
use ortus.Common.Float.{float_eq, f_zero, f_90}
use ortus.Domain.Types.{Coordinate}
use ortus.Domain.Coordinates.{srid_wgs84}
use ortus.Domain.Errors.{Result, ok, err, gazetteer_disabled}
use ortus.Gazetteer.Compass.{Arithmetic}
use ortus.Gazetteer.Samples.{manifest, levels, arithmetic, policy}
use ortus.Gazetteer.Salience.{select_ranked}
use ortus.Gazetteer.Service.{Service, locate, islands, sample_elevation, checked, ready}
use ortus.Gazetteer.Bearing.{bearing}
use ortus.Http.Query.{
  QueryParams, bad, no_coordinates, parse_number, parse_srid, parse_properties, parse_query_params,
  gazetteer_sections,
}
use ortus.Http.Query.Sections.{Breaks, gazetteer_sections_error}

-- Only the text 90 is read.
abbrev reader : Arithmetic
reader = record arithmetic { parse_float = λ s. if str_eq s (bytes "90") then some f_90 else none }

-- A latitude without a longitude, and an x: the x is not looked at.
abbrev north : Str → Str
north name =
    if str_eq name (bytes "lat")
    then bytes "90"
    else if str_eq name (bytes "x")
    then bytes "90"
    else []

abbrev pole : QueryParams
pole = record { lon = f_zero; lat = f_90; x = f_90; y = f_zero; srid = srid_wgs84; properties = [] }

abbrev nowhere : Str → Str
nowhere name = []

nowhere_refused : parse_query_params reader nowhere ≡ bad no_coordinates
unfolding parse_query_params parse_number parse_srid parse_properties str_eq float_eq
nowhere_refused = refl

abbrev inert : Service
inert = record {
  index = none;
  manifest = manifest;
  levels = levels;
  name_sources = none;
  salience = select_ranked;
  enabled = false;
  elevation = none;
  elev_meta = record {
    vertical_datum = [];
    accuracy_m = f_zero;
    accuracy_basis = [];
    per_point_accuracy_basis = [];
    horizontal_m = f_zero;
    surface_model = [];
  };
}

abbrev here : Coordinate
here = record { x = f_zero; y = f_zero; z = f_zero; srid = srid_wgs84 }

abbrev no_exposure : Coordinate → Result (Option Str)
no_exposure c = ok none

gazetteer_sections_error_example :
    Breaks (locate here inert) gazetteer_disabled
    ⊎ ((islands here inert ≡ err gazetteer_disabled)
        ⊎ (Breaks (bearing arithmetic here policy inert) gazetteer_disabled
            ⊎ ((no_exposure here ≡ err gazetteer_disabled)
                ⊎ (sample_elevation here inert ≡ err gazetteer_disabled))))
unfolding gazetteer_sections locate checked ready ortus.Domain.Errors.is_not_found
gazetteer_sections_error_example =
    gazetteer_sections_error arithmetic inert policy no_exposure here gazetteer_disabled refl
