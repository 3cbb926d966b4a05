-- ===== src/Http/Query/Endpoint.antt =====
-- The endpoint of the gazetteer: handleGazetteer and toWGS84 of internal/adapters/http/gazetteer.go.
-- The sections of a point are a parameter, as the route exists only with a gazetteer.
use ortus.Common.{ℕ, arith, ◌≡◌, not, ◌||◌, none, some, Str, if◌then◌else◌}
use ortus.Common.Int.{pos}
use ortus.Common.Float.{f_zero}
use ortus.Domain.Types.{Coordinate}
use ortus.Domain.Coordinates.{eq_ℤ, srid_wgs84}
use ortus.Domain.Errors.{Error, Result, ok, err}
use ortus.Gazetteer.Compass.{Arithmetic}
use ortus.Http.Batch.{BatchServer, wgs84_or_log, status_of}
use ortus.Http.Query.{good, bad, parse_query_params, params_to_coordinate}

-- `toWGS84`: a place, `errNotTransformable`, or another error.
pub data Placed : Type 0 where
  placed : Coordinate → Placed
  not_transformable : Placed
  failed : Error → Placed

pub data GazetteerReply (G : Type 0) : Type 0 where
  refused : ℕ → GazetteerReply G
  located : Coordinate → Coordinate → G → GazetteerReply G

module _ {W G : Type 0} (s : BatchServer W G) where
  unfoldable pub to_wgs84 : Coordinate → Placed
  to_wgs84 c =
      if eq_ℤ c.srid (pos 0) || eq_ℤ c.srid srid_wgs84
      then placed (record { x = c.x; y = c.y; z = f_zero; srid = srid_wgs84 })
      else elim s.transformer [
        | none ↦ not_transformable
        | some transform ↦
            if not (s.is_supported c.srid srid_wgs84)
            then not_transformable
            else elim (transform c srid_wgs84) [ err e ↦ failed e | ok w ↦ placed w ]
      ]

  unfoldable pub handle_gazetteer :
      Arithmetic → (Coordinate → Result G) → (Str → Str) → GazetteerReply G
  handle_gazetteer a sections q = elim (parse_query_params a q) [
    | bad e ↦ refused 400
    | good p ↦
        let c = params_to_coordinate p in
        elim (to_wgs84 c) [
          | not_transformable ↦ refused 422
          | failed e ↦ refused (status_of e)
          | placed wgs ↦ elim (sections wgs) [
            | err e ↦ refused (status_of e)
            | ok g ↦ located c wgs g
          ]
        ]
  ]

  -- The place that a response carries is that of `toWGS84`.
  pub to_wgs84-wgs84_or_log :
      (c : Coordinate)
      → wgs84_or_log s c
        ≡ elim (to_wgs84 c) [ placed w ↦ some w | not_transformable ↦ none | failed e ↦ none ]
  unfolding to_wgs84 wgs84_or_log
  to_wgs84-wgs84_or_log c = ground arith
