-- ===== src/Gazetteer/Bearing/Rows.antt =====
-- `countryOf` of internal/application/gazetteer/bearing.go: the order of the rows plays no role.
use ortus.Common.{
  ◌≡◌, Bool, true, not, ◌&&◌, ◌||◌, Option, none, some, List, [], map, Str, str_eq, if◌then◌else◌,
}
use ortus.Common.Int.{ℤ, negsuc, ltb_ℤ}
use ortus.Domain.Types.{Feature}
use ortus.Domain.Coordinates.{eq_ℤ}
use ortus.Gazetteer.Salience.{str_lt, best_of}
use ortus.Gazetteer.Service.{Service, iso_of}
use ortus.Gazetteer.Bearing.{level_or_fill}

-- A country, and the level of the unit that has it.
abbrev pub Claim : Type 0
Claim = Str × ℤ

abbrev pub claim : Service → Feature → Claim
claim s f = (iso_of s f, level_or_fill s f)

abbrev pub has_iso : Claim → Bool
has_iso c = not (str_eq c.0 [])

-- More local, or of the same level and before it in the order of the codes.
unfoldable pub wins : Claim → Claim → Bool
wins c d = ltb_ℤ d.1 c.1 || (eq_ℤ c.1 d.1 && str_lt c.0 d.0)

-- One round of the loop.
abbrev pub choose : Claim → Option Claim → Option Claim
choose c best =
    if not (has_iso c)
    then best
    else elim best [ none ↦ some c | some b ↦ if wins c b then some c else some b ]

best_claim : Service → List Feature → Option Claim → Option Claim
best_claim s fs best = best_of has_iso wins (map (claim s) fs) best

abbrev pub iso : Option Claim → Str
iso none = []
iso (some c) = c.0

abbrev level : Option Claim → ℤ
level none = negsuc 0
level (some c) = c.1

abbrev IsReal : Option Claim → Type 0
IsReal none = Unit
IsReal (some c) = has_iso c ≡ true
