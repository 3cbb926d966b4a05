-- ===== src/Gazetteer/Service/Units.antt =====
-- The units of a chain that `Locate` of internal/application/gazetteer/service.go builds from rows, and
-- their order, by themselves.
use ortus.Common.{
  Bool-cases, false, ◌≡◌, ◌⊎◌, refl, true, Option, none, some, List, [], ◌∷◌, arith, option_cases,
  inl, inr,
}
use ortus.Common.Int.{ℤ, ltb_ℤ}
use ortus.Common.Sort.{All, IsSorted}
use ortus.Domain.Types.{Feature, get_string_property}
use ortus.Domain.Coordinates.{eq_ℤ→eq}
use ortus.Gazetteer.Salience.{str_lt}
use ortus.Gazetteer.Types.{AdminUnit, LevelMeaning}
use ortus.Gazetteer.Service.{
  resolve_name_source, no_meaning, Service, iso_of, level_of, admin_unit, more_local,
}

-- The units of the rows whose level is a number.
unfoldable pub units : Service → List Feature → List AdminUnit
units s [] = []
units s (f ∷ fs) = elim (level_of s f) [
  | none ↦ units s fs
  | some level ↦ admin_unit s f level ∷ units s fs
]

-- What the level reference says of the unit, if it knows the level.
abbrev IsMeant : Option LevelMeaning → AdminUnit → Type 0
IsMeant none u = (u.equivalent ≡ []) × (u.local_term ≡ []) × (u.equivalent_desc ≡ [])
IsMeant (some m) u =
    (u.equivalent ≡ m.equivalent)
    × (u.local_term ≡ m.local_term)
    × (u.equivalent_desc ≡ m.description)

-- The unit has the row's level and names, and what its level means in the row's country.
abbrev IsUnit : Service → Feature → AdminUnit → Type 0
IsUnit s f u =
    (level_of s f ≡ some u.level)
    × (u.name ≡ get_string_property s.manifest.admin_name_column f)
    × (u.name_native ≡ get_string_property s.manifest.name_native_column f)
    × (u.name_source ≡ resolve_name_source (get_string_property s.manifest.name_source_column f) s)
    × IsMeant (s.levels (iso_of s f) u.level) u

-- One unit for each row whose level is a number.
abbrev pub AreUnits : Service → List Feature → List AdminUnit → Type 0
AreUnits s [] us = us ≡ []
AreUnits s (f ∷ fs) us =
    ((level_of s f ≡ none) × AreUnits s fs us)
    ⊎ ((u : AdminUnit) × (rest : List AdminUnit) × (us ≡ u ∷ rest)
        × IsUnit s f u
        × AreUnits s fs rest)

admin_unit-IsUnit :
    (s : Service) (f : Feature) (level : ℤ)
    → level_of s f ≡ some level
    → IsUnit s f (admin_unit s f level)
unfolding admin_unit
admin_unit-IsUnit s f level e = (e, refl, refl, refl, meant (s.levels (iso_of s f) level))
  where
    meant :
        (o : Option LevelMeaning)
        → (let meaning : LevelMeaning = elim o [ none ↦ no_meaning | some m ↦ m ] in
            IsMeant o (record (admin_unit s f level) {
              equivalent = meaning.equivalent;
              local_term = meaning.local_term;
              equivalent_desc = meaning.description;
            }))
    meant none = (refl, refl, refl)
    meant (some m) = (refl, refl, refl)

pub units-AreUnits : (s : Service) (fs : List Feature) → AreUnits s fs (units s fs)
unfolding units
units-AreUnits s [] = refl
units-AreUnits s (f ∷ fs) =
    option_cases (AreUnits s (f ∷ fs)) (level_of s f) (λ e. inl (e, units-AreUnits s fs))
      (λ level e. inr (
        admin_unit s f level,
        units s fs,
        refl,
        admin_unit-IsUnit s f level e,
        units-AreUnits s fs,
      ))

-- The higher level first, and of one level the name that is not greater.
abbrev IsBefore : AdminUnit → AdminUnit → Type 0
IsBefore a b =
    (ltb_ℤ b.level a.level ≡ true) ⊎ ((a.level ≡ b.level) × (str_lt b.name a.name ≡ false))

abbrev pub IsOrdered : List AdminUnit → Type 0
IsOrdered [] = Unit
IsOrdered (u ∷ us) = All (IsBefore u) us × IsOrdered us

more_local-IsBefore : (a b : AdminUnit) → more_local b a ≡ false → IsBefore a b
unfolding more_local
more_local-IsBefore a b h = elim (Bool-cases (ltb_ℤ b.level a.level)) [
  | inl higher ↦ inl higher
  | inr other ↦ inr (eq_ℤ→eq a.level b.level (ground (arith, h, other)), ground (arith, h, other))
]

All-IsBefore :
    (a : AdminUnit) (us : List AdminUnit)
    → All (λ b. more_local b a ≡ false) us
    → All (IsBefore a) us
All-IsBefore a [] h = tt
All-IsBefore a (b ∷ us) h = (more_local-IsBefore a b h.0, All-IsBefore a us h.1)

pub sorted-IsOrdered : (us : List AdminUnit) → IsSorted more_local us → IsOrdered us
sorted-IsOrdered [] h = tt
sorted-IsOrdered (u ∷ us) h = (All-IsBefore u us h.0, sorted-IsOrdered us h.1)
