-- ===== src/Registry/Types.antt =====
-- The state of the `SourceRegistry` of internal/application/registry.go, and what it drives: the
-- source adapters (internal/ports/output/spatialsource.go), the object storage, the file system
-- and the clock, over a state `W` of the outside world that every call may change.
use ortus.Common.{ℕ, Bool, Option, List, Str}
use ortus.Common.Maps.{Map}
use ortus.Common.Clock.{Time}
use ortus.Domain.Types.{Source, SourceStatus, Layer, Feature, Coordinate}
use ortus.Domain.Errors.{Error, Result}

-- `output.SpatialSource`. `open` is a reserved word. `prepare` gets the layers of the source that
-- the adapter shares with the registry, and returns them as it leaves them. `query_points` is the
-- optional `output.BatchQuerier`.
pub record SpatialSource (W : Type 0) : Type 0 where
  pub supports : Str → Bool
  pub open_source : Str → W → Result Source × W
  pub prepare : Str → Str → List Layer → W → Option Error × List Layer × W
  pub query_point : Str → Str → Coordinate → W → Result (List Feature)
  pub query_points : Option (Str → Str → List Coordinate → W → Result (List (List Feature)))
  pub close : Str → W → Option Error × W

-- Object storage, `os.Remove`, `time.Now` and `ctx.Err`.
pub record Environment (W : Type 0) : Type 0 where
  pub list_objects : W → Result (List Str) × W
  pub download : Str → Str → W → Option Error × W
  pub remove_file : Str → W → W
  pub now : W → Time
  pub ctx_err : W → Option Error

-- `sourceEntry`. Either pointer may be nil.
pub record SourceEntry (W : Type 0) : Type 0 where
  pub source : Option Source
  pub repo : Option (SpatialSource W)
  pub status : SourceStatus

pub record SourceRegistry (W : Type 0) : Type 0 where
  pub sources : Map (SourceEntry W)
  pub providers : List (SpatialSource W)
  pub local_path : Str
  pub loaded_count : ℕ
  pub ready_count : ℕ
  pub failed_count : ℕ
  pub initial_load_done : Bool
  pub world : W

pub record SyncStats : Type 0 where
  pub added : ℕ
  pub removed : ℕ
