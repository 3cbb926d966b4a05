-- ===== src/Gazetteer/Service.antt =====
-- The gazetteer service, internal/application/gazetteer/service.go, but for the bearing.
pub mod Country
pub mod Hierarchy
pub mod Units
use ortus.Common.{
  ℕ, Bool, true, false, not, ◌&&◌, ◌||◌, Option, none, some, List, [], ◌∷◌, ◌++◌, Str, bytes,
  str_eq, if◌then◌else◌,
}
use ortus.Common.Int.{ℤ, pos, negsuc, ltb_ℤ}
use ortus.Common.Decimal.{atoi}
use ortus.Common.Float.{f_zero}
use ortus.Common.Sort.{sort_stable}
use ortus.Domain.Types.{Coordinate, Feature, get_string_property}
use ortus.Domain.Coordinates.{eq_ℤ, srid_wgs84}
use ortus.Domain.Errors.{
  Error, Result, ok, err, not_found, gazetteer_disabled, unsupported_projection, is_not_found,
}
use ortus.Gazetteer.Salience.{NameProvenance, str_lt, select_ranked}
use ortus.Gazetteer.Types.{
  Manifest, LevelMeaning, AdminUnit, Locality, Island, ElevationMeta, Elevation, ElevationReading,
  ElevationSampler, SpatialIndex, LevelResolver, NameSourceResolver, SalienceStrategy,
}

pub record Service : Type 0 where
  pub index : Option SpatialIndex
  pub manifest : Manifest
  pub levels : LevelResolver
  pub name_sources : Option NameSourceResolver
  pub salience : SalienceStrategy
  pub enabled : Bool
  pub elevation : Option ElevationSampler
  pub elev_meta : ElevationMeta

abbrev pub no_meta : ElevationMeta
no_meta = record {
  vertical_datum = [];
  accuracy_m = f_zero;
  accuracy_basis = [];
  per_point_accuracy_basis = [];
  horizontal_m = f_zero;
  surface_model = [];
}

-- `NewService`; without a resolver no level has a meaning, without a strategy it is RankedSalience.
unfoldable pub new_service :
    Option SpatialIndex → Manifest → Option LevelResolver → Option SalienceStrategy → Bool → Service
new_service index manifest levels strategy enabled = record {
  index = index;
  manifest = manifest;
  levels = elim levels [ none ↦ (λ _ _. none) | some l ↦ l ];
  name_sources = none;
  salience = elim strategy [ none ↦ select_ranked | some s ↦ s ];
  enabled = enabled;
  elevation = none;
  elev_meta = no_meta;
}

-- `SetNameSources` and `SetElevationSampler`
unfoldable pub set_name_sources : NameSourceResolver → Service → Service
set_name_sources r s = record s { name_sources = some r }

unfoldable pub set_elevation_sampler : ElevationSampler → ElevationMeta → Service → Service
set_elevation_sampler sampler meta s = record s { elevation = some sampler; elev_meta = meta }

abbrev pub code_only : Str → NameProvenance
code_only code = record { code = code; short = []; long = []; standard = [] }

unfoldable pub resolve_name_source : Str → Service → NameProvenance
resolve_name_source code s = if str_eq code [] then code_only [] else elim s.name_sources [
  | none ↦ code_only code
  | some resolve ↦ elim (resolve code) [ none ↦ code_only code | some ns ↦ ns ]
]

-- `ready`: the index to ask, if the service is enabled and has one.
unfoldable pub ready : Service → Result SpatialIndex
ready s =
    if not s.enabled
    then err gazetteer_disabled
    else elim s.index [ none ↦ err gazetteer_disabled | some index ↦ ok index ]

unfoldable pub require_wgs84 : Coordinate → Option Error
require_wgs84 p =
    if not (eq_ℤ p.srid (pos 0)) && not (eq_ℤ p.srid srid_wgs84)
    then some unsupported_projection
    else none

-- Both guards, with which every request begins.
unfoldable pub checked {ℓ} :
    {A : Type ℓ} → Service → Coordinate → (SpatialIndex → Result A) → Result A
checked s p go = elim (ready s) [
  | err e ↦ err e
  | ok index ↦ elim (require_wgs84 p) [ some e ↦ err e | none ↦ go index ]
]

abbrev pub iso_of : Service → Feature → Str
iso_of s f = get_string_property s.manifest.country_column f

abbrev pub level_of : Service → Feature → Option ℤ
level_of s f = atoi (get_string_property s.manifest.level_column f)

abbrev pub no_meaning : LevelMeaning
no_meaning = record { equivalent = []; description = []; local_term = [] }

unfoldable pub admin_unit : Service → Feature → ℤ → AdminUnit
admin_unit s f level =
    let meaning : LevelMeaning = elim (s.levels (iso_of s f) level) [
      | none ↦ no_meaning
      | some m ↦ m
    ] in
    record {
      level = level;
      name = get_string_property s.manifest.admin_name_column f;
      name_native = get_string_property s.manifest.name_native_column f;
      name_source = resolve_name_source (get_string_property s.manifest.name_source_column f) s;
      equivalent = meaning.equivalent;
      local_term = meaning.local_term;
      equivalent_desc = meaning.description;
    }

-- The chain, the country and the level that it is of.
pub record Found : Type 0 where
  pub chain : List AdminUnit
  pub country_iso : Str
  pub deepest : ℤ

-- `level > deepest && iso != ""`
abbrev pub is_deeper : ℤ → ℤ → Str → Bool
is_deeper level deepest iso = ltb_ℤ deepest level && not (str_eq iso [])

unfoldable pub locate_loop : Service → List Feature → Found → Found
locate_loop s [] found = found
locate_loop s (f ∷ features) found = locate_loop s features (elim (level_of s f) [
  | none ↦ found
  | some level ↦
      let deeper = is_deeper level found.deepest (iso_of s f) in
      record {
        chain = found.chain ++ (admin_unit s f level ∷ []);
        country_iso = if deeper then iso_of s f else found.country_iso;
        deepest = if deeper then level else found.deepest;
      }
])

unfoldable pub more_local : AdminUnit → AdminUnit → Bool
more_local a b = if not (eq_ℤ a.level b.level) then ltb_ℤ b.level a.level else str_lt a.name b.name

abbrev pub nothing_found : Found
nothing_found = record { chain = []; country_iso = []; deepest = negsuc 0 }

unfoldable pub locality : Service → List Feature → Result Locality
locality s [] = err not_found
locality s (f ∷ features) =
    let found = locate_loop s (f ∷ features) nothing_found in
    ok (record { country_iso = found.country_iso; chain = sort_stable more_local found.chain })

unfoldable pub locate : Coordinate → Service → Result Locality
locate p s = checked s p λ index. elim (index.point_in_polygon s.manifest.admin_layer p) [
  | err e ↦ err e
  | ok features ↦ locality s features
]

unfoldable pub named_islands : Service → List Feature → List Island
named_islands s [] = []
named_islands s (f ∷ features) =
    let name = get_string_property s.manifest.islands_name_column f in
    let others = named_islands s features in
    if str_eq name []
    then others
    else record {
      name = name;
      name_native = get_string_property s.manifest.name_native_column f;
      name_source = resolve_name_source (get_string_property s.manifest.name_source_column f) s;
    }
      ∷ others

abbrev pub name_before : Island → Island → Bool
name_before a b = str_lt a.name b.name

-- No islands are an empty list.
unfoldable pub islands : Coordinate → Service → Result (List Island)
islands p s = checked s p λ index.
    if str_eq s.manifest.islands_layer []
    then ok []
    else elim (index.point_in_polygon s.manifest.islands_layer p) [
      | err e ↦ if is_not_found e then ok [] else err e
      | ok features ↦ ok (sort_stable name_before (named_islands s features))
    ]

unfoldable pub elevation_of : ElevationSampler → ElevationMeta → ElevationReading → Bool → Elevation
elevation_of sampler meta r covered = record {
  meters = r.meters;
  sea_level = not covered;
  horizontal_m = meta.horizontal_m;
  vertical_datum = meta.vertical_datum;
  surface_model = meta.surface_model;
  license = sampler.license;
  accuracy_m =
      if not covered then f_zero else if r.has_accuracy then r.accuracy_m else meta.accuracy_m;
  accuracy_basis =
      if not covered
      then bytes "sea-level convention"
      else if r.has_accuracy
      then meta.per_point_accuracy_basis
      else meta.accuracy_basis;
}

-- `Elevation`; the inner `none` is a response without the block.
unfoldable pub sample_elevation : Coordinate → Service → Result (Option Elevation)
sample_elevation p s = checked s p λ index. elim s.elevation [
  | none ↦ ok none
  | some sampler ↦ elim (sampler.elevation_at p) [
    | err e ↦ if is_not_found e then ok none else err e
    | ok (r, covered) ↦ ok (some (elevation_of sampler s.elev_meta r covered))
  ]
]
