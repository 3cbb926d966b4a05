-- ===== src/Gazetteer/Manifests.antt =====
-- The files that come with the data: internal/application/gazetteer/manifest.go. What the YAML
-- library reads from a file is a record; its maps have distinct keys, so that each write to a new
-- map adds an entry.
pub mod Complete
pub mod Levels
use ortus.Common.{
  Bool, true, false, not, ◌&&◌, Option, none, some, List, [], ◌∷◌, Str, bytes, str_eq, map,
  if◌then◌else◌,
}
use ortus.Common.Maps.{Map, lookup}
use ortus.Common.Int.{ℤ}
use ortus.Domain.Types.{License}
use ortus.Domain.Coordinates.{eq_ℤ}
use ortus.Domain.Errors.{Error, Result, ok, err, missing_fields, undefined_equivalent}
use ortus.Gazetteer.Salience.{NameProvenance}
use ortus.Gazetteer.Types.{Manifest, LevelMeaning}

pub record PlacesYaml : Type 0 where
  pub layer : Str
  pub name_column : Str
  pub name_native_column : Str
  pub name_source_column : Str
  pub rank_column : Str
  pub admin_fk : Str
  pub country_column : Str
  pub population_column : Str
  pub capital_column : Str
  pub notability_column : Str

pub record AdminYaml : Type 0 where
  pub layer : Str
  pub level_column : Str
  pub name_column : Str
  pub parent_fk : Str
  pub country_column : Str
  pub constraint_tier : Str

pub record IslandsYaml : Type 0 where
  pub layer : Str
  pub name_column : Str

pub record ManifestYaml : Type 0 where
  pub places : PlacesYaml
  pub admin : AdminYaml
  pub islands : IslandsYaml
  pub license : License

abbrev pub is_empty : Str → Bool
is_empty s = str_eq s []

abbrev pub default_constraint_tier : Str
default_constraint_tier = bytes "state"

unfoldable pub manifest_of : ManifestYaml → Manifest
manifest_of y = record {
  places_layer = y.places.layer;
  rank_column = y.places.rank_column;
  name_column = y.places.name_column;
  admin_fk_column = y.places.admin_fk;
  population_column = y.places.population_column;
  capital_column = y.places.capital_column;
  notability_column = y.places.notability_column;
  admin_layer = y.admin.layer;
  level_column = y.admin.level_column;
  admin_name_column = y.admin.name_column;
  parent_fk_column = y.admin.parent_fk;
  islands_layer = y.islands.layer;
  islands_name_column =
      if not (is_empty y.islands.layer) && is_empty y.islands.name_column
      then y.admin.name_column
      else y.islands.name_column;
  country_column =
      if is_empty y.admin.country_column then y.places.country_column else y.admin.country_column;
  name_native_column = y.places.name_native_column;
  name_source_column = y.places.name_source_column;
  constraint_tier =
      if is_empty y.admin.constraint_tier then default_constraint_tier else y.admin.constraint_tier;
  license = y.license;
}

abbrev pub required : Manifest → List (Str × Str)
required m =
    (bytes "places.layer", m.places_layer)
    ∷ (bytes "places.rank_column", m.rank_column)
    ∷ (bytes "places.name_column", m.name_column)
    ∷ (bytes "places.admin_fk", m.admin_fk_column)
    ∷ (bytes "admin.layer", m.admin_layer)
    ∷ (bytes "admin.level_column", m.level_column)
    ∷ (bytes "admin.name_column", m.admin_name_column)
    ∷ (bytes "admin.parent_fk", m.parent_fk_column)
    ∷ (bytes "country_column", m.country_column)
    ∷ []

unfoldable pub missing : List (Str × Str) → List Str
missing [] = []
missing ((name, value) ∷ fields) =
    let others = missing fields in if is_empty value then name ∷ others else others

unfoldable pub validate_manifest : Manifest → Option Error
validate_manifest m = elim (missing (required m)) [
  | [] ↦ none
  | name ∷ names ↦ some (missing_fields (name ∷ names))
]

unfoldable pub parse_manifest : ManifestYaml → Result Manifest
parse_manifest y = elim (validate_manifest (manifest_of y)) [
  | some e ↦ err e
  | none ↦ ok (manifest_of y)
]

-- A level of a country: `name` is the local term.
pub record LevelYaml : Type 0 where
  pub name : Str
  pub equivalent : Str

pub record LevelRefYaml : Type 0 where
  pub equivalent_levels : Map Str
  pub countries : Map (List (ℤ × LevelYaml))

abbrev pub LevelReference : Type 0
LevelReference = Map (List (ℤ × LevelMeaning))

unfoldable pub lookup_level : ℤ → List (ℤ × LevelMeaning) → Option LevelMeaning
lookup_level level [] = none
lookup_level level ((l, m) ∷ ms) = if eq_ℤ l level then some m else lookup_level level ms

-- `levelReference.Resolve`
unfoldable pub resolve_level : LevelReference → Str → ℤ → Option LevelMeaning
resolve_level ref country_iso level = elim (lookup country_iso ref) [
  | none ↦ none
  | some levels ↦ lookup_level level levels
]

unfoldable pub levels_of : Map Str → List (ℤ × LevelYaml) → Result (List (ℤ × LevelMeaning))
levels_of equivalents [] = ok []
levels_of equivalents ((level, d) ∷ ds) =
    let others = levels_of equivalents ds in
    if is_empty d.equivalent then others else elim (lookup d.equivalent equivalents) [
      | none ↦ err (undefined_equivalent d.equivalent)
      | some description ↦ elim others [
        | err e ↦ err e
        | ok ms ↦ ok (
            (
              level,
              record { equivalent = d.equivalent; description = description; local_term = d.name },
            )
            ∷ ms)
      ]
    ]

abbrev pub add_country : Str → List (ℤ × LevelMeaning) → LevelReference → LevelReference
add_country iso [] ref = ref
add_country iso (m ∷ ms) ref = (iso, m ∷ ms) ∷ ref

unfoldable pub countries_of : Map Str → Map (List (ℤ × LevelYaml)) → Result LevelReference
countries_of equivalents [] = ok []
countries_of equivalents ((iso, ds) ∷ countries) =
    let others = countries_of equivalents countries in
    elim (levels_of equivalents ds) [
      | err e ↦ err e
      | ok levels ↦ elim others [ err e ↦ err e | ok ref ↦ ok (add_country iso levels ref) ]
    ]

unfoldable pub parse_level_reference : LevelRefYaml → Result LevelReference
parse_level_reference y = countries_of y.equivalent_levels y.countries

pub record SourceYaml : Type 0 where
  pub short : Str
  pub long : Str
  pub standard : Str

-- `ParseNameSources`, and `nameSourceReference.Resolve`
unfoldable pub parse_name_sources : Map SourceYaml → Map NameProvenance
parse_name_sources [] = []
parse_name_sources ((code, s) ∷ sources) =
    (code, record { code = code; short = s.short; long = s.long; standard = s.standard })
    ∷ parse_name_sources sources

unfoldable pub resolve_source : Map NameProvenance → Str → Option NameProvenance
resolve_source ref code = lookup code ref
