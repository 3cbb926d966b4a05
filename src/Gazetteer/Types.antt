-- ===== src/Gazetteer/Types.antt =====
-- The data of the gazetteer: internal/domain/gazetteer.go, and what
-- internal/application/gazetteer/service.go drives, the spatial index and the elevation sampler of
-- internal/ports/output. Their answers to one request are functions of the arguments.
use ortus.Common.{ℕ, Bool, Option, List, Str}
use ortus.Common.Int.{ℤ}
use ortus.Common.Float.{Float}
use ortus.Domain.Types.{Coordinate, Feature, License}
use ortus.Domain.Errors.{Result}
use ortus.Gazetteer.Salience.{NameProvenance, Place, Candidate, BearingPolicy}

pub record Manifest : Type 0 where
  pub places_layer : Str
  pub rank_column : Str
  pub name_column : Str
  pub admin_fk_column : Str
  pub population_column : Str
  pub capital_column : Str
  pub notability_column : Str
  pub admin_layer : Str
  pub level_column : Str
  pub admin_name_column : Str
  pub parent_fk_column : Str
  pub islands_layer : Str
  pub islands_name_column : Str
  pub country_column : Str
  pub name_native_column : Str
  pub name_source_column : Str
  pub constraint_tier : Str
  pub license : License

pub record LevelMeaning : Type 0 where
  pub equivalent : Str
  pub description : Str
  pub local_term : Str

pub record AdminUnit : Type 0 where
  pub level : ℤ
  pub name : Str
  pub name_native : Str
  pub name_source : NameProvenance
  pub equivalent : Str
  pub local_term : Str
  pub equivalent_desc : Str

pub record Locality : Type 0 where
  pub country_iso : Str
  pub chain : List AdminUnit

pub record Island : Type 0 where
  pub name : Str
  pub name_native : Str
  pub name_source : NameProvenance

pub record ElevationMeta : Type 0 where
  pub vertical_datum : Str
  pub accuracy_m : Float
  pub accuracy_basis : Str
  pub per_point_accuracy_basis : Str
  pub horizontal_m : Float
  pub surface_model : Str

pub record Elevation : Type 0 where
  pub meters : Float
  pub accuracy_m : Float
  pub accuracy_basis : Str
  pub horizontal_m : Float
  pub vertical_datum : Str
  pub sea_level : Bool
  pub surface_model : Str
  pub license : License

pub record Fix : Type 0 where
  pub reference : Place
  pub distance_km : Float
  pub azimuth : Float
  pub compass : Str
  pub label : Str
  pub inside : Bool

pub record ElevationReading : Type 0 where
  pub meters : Float
  pub accuracy_m : Float
  pub has_accuracy : Bool

-- `output.ElevationSampler`: a reading, and whether there are data for the point.
pub record ElevationSampler : Type 0 where
  pub elevation_at : Coordinate → Result (ElevationReading × Bool)
  pub license : License

pub record NearFeature : Type 0 where
  pub feature : Feature
  pub distance_km : Float

pub record Filter : Type 0 where
  pub column : Str
  pub values : List Str

pub record AdminColumns : Type 0 where
  pub parent_fk : Str
  pub level : Str
  pub name : Str
  pub country : Str

pub record AdminRow : Type 0 where
  pub fid : ℤ
  pub parent_fid : ℤ
  pub level : ℤ
  pub name : Str
  pub country_iso : Str

-- `output.SpatialIndex`
pub record SpatialIndex : Type 0 where
  pub query_knn : Str → Coordinate → ℕ → Float → Filter → Result (List NearFeature)
  pub point_in_polygon : Str → Coordinate → Result (List Feature)
  pub resolve_chain : Str → ℤ → AdminColumns → Result (List AdminRow)
  pub azimuth : Coordinate → Coordinate → Result Float

-- `LevelResolver`, `NameSourceResolver` and `SalienceStrategy`
abbrev pub LevelResolver : Type 0
LevelResolver = Str → ℤ → Option LevelMeaning

abbrev pub NameSourceResolver : Type 0
NameSourceResolver = Str → Option NameProvenance

abbrev pub SalienceStrategy : Type 0
SalienceStrategy = List Candidate → BearingPolicy → Option Candidate
