-- ===== src/Gazetteer/Service/Hierarchy.antt =====
-- The hierarchy that `Locate` of internal/application/gazetteer/service.go returns.
use mathlib.Core.List.{Perm}
use ortus.Common.{◌≡◌, true, not, Option, none, some, List, [], ◌∷◌, Str, if◌then◌else◌}
use ortus.Common.Int.{ℤ, negsuc, ltb_ℤ}
use ortus.Domain.Types.{Feature}
use ortus.Gazetteer.Service.Units.{AreUnits, IsOrdered}
use ortus.Gazetteer.Service.Country.{Claim, counts, deeper, IsDeepest}
use ortus.Gazetteer.Types.{AdminUnit, Locality}
use ortus.Gazetteer.Service.{Service, iso_of, level_of}

unfoldable pub claims : Service → List Feature → List Claim
claims s [] = []
claims s (f ∷ fs) = elim (level_of s f) [
  | none ↦ claims s fs
  | some level ↦ (iso_of s f, level) ∷ claims s fs
]

abbrev pub country : Option Claim → Str
country none = []
country (some c) = c.0

abbrev depth : Option Claim → ℤ
depth none = negsuc 0
depth (some c) = c.1

abbrev IsReal : Option Claim → Type 0
IsReal none = Unit
IsReal (some c) = ltb_ℤ (negsuc 0) c.1 ≡ true

-- One round of the loop.
abbrev choose : Claim → Option Claim → Option Claim
choose c best =
    if not (counts c)
    then best
    else elim best [ none ↦ some c | some b ↦ if deeper c b then some c else some b ]

-- What Locate returns for the rows that contain the point.
pub record IsLocality (s : Service) (rows : List Feature) (l : Locality) : Type 0 where
  pub all_units : List AdminUnit
  pub of_rows : AreUnits s rows all_units
  pub complete : Perm l.chain all_units
  pub ordered : IsOrdered l.chain
  pub best : Option Claim
  pub deepest : IsDeepest (claims s rows) best
  pub is_country : l.country_iso ≡ country best
