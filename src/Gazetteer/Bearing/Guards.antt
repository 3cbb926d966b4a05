-- ===== src/Gazetteer/Bearing/Guards.antt =====
-- What the requests of internal/application/gazetteer do with a service that is not ready, and with
-- a point in another projection.
use ortus.Common.{◌≡◌, true, false, none, some, arith}
use ortus.Common.Int.{pos}
use ortus.Domain.Types.{Coordinate}
use ortus.Domain.Coordinates.{eq_ℤ, srid_wgs84}
use ortus.Domain.Errors.{Error, Result, err, gazetteer_disabled, unsupported_projection}
use ortus.Gazetteer.Salience.{BearingPolicy}
use ortus.Gazetteer.Types.{SpatialIndex}
use ortus.Gazetteer.Compass.{Arithmetic}
use ortus.Gazetteer.Service.{
  Service, ready, require_wgs84, checked, locate, islands, sample_elevation,
}
use ortus.Gazetteer.Bearing.{bearing}

-- The error that a request for the point meets first, if there is one.
pub data Refused (s : Service) (p : Coordinate) : Error → Type 0 where
  off : s.enabled ≡ false → Refused s p gazetteer_disabled
  unwired : s.index ≡ none → Refused s p gazetteer_disabled
  elsewhere :
      (index : SpatialIndex)
      → s.enabled ≡ true
      → s.index ≡ some index
      → eq_ℤ p.srid (pos 0) ≡ false
      → eq_ℤ p.srid srid_wgs84 ≡ false
      → Refused s p unsupported_projection

checked_refuses {ℓ} :
    {A : Type ℓ} {s : Service} {p : Coordinate} {e : Error}
    → Refused s p e
    → (go : SpatialIndex → Result A) → checked s p go ≡ err e
unfolding checked ready require_wgs84
checked_refuses (off h) go = ground (arith, h)
checked_refuses (unwired h) go = ground (arith, h)
checked_refuses (elsewhere index on wired set other) go = ground (arith, on, wired, set, other)

-- A service that is off or has no index, and a point whose projection is given and is not WGS 84:
-- every request ends with the error for it, the first of the two if both hold.
pub locate-Refused :
    (a : Arithmetic) (s : Service) (p : Coordinate) (pol : BearingPolicy) {e : Error}
    → Refused s p e
    → (locate p s ≡ err e)
      × (islands p s ≡ err e)
      × (sample_elevation p s ≡ err e)
      × (bearing a p pol s ≡ err e)
unfolding locate islands sample_elevation bearing
locate-Refused a s p pol r =
    (checked_refuses r _, checked_refuses r _, checked_refuses r _, checked_refuses r _)
