-- ===== src/Fixtures.antt =====
-- A small world for concrete runs: one adapter that opens every .gpkg file as a source with one
-- layer, over a clock that a download advances.
use ortus.Common.{ℕ, ◌+◌, refl, sym, ap, true, false, none, some, [], ◌∷◌, Str, bytes, map}
use ortus.Common.Int.{pos}
use ortus.Common.Float.{f_zero}
use ortus.Domain.Errors.{ok, err, other}
use ortus.Domain.Types.{Source, Layer, Feature, Coordinate, vector, text_value}
use ortus.Domain.Paths.{derive_source_id, has_suffix}
use ortus.Registry.Types.{SpatialSource, Environment}
use ortus.Registry.Loading.{OpensUnderId, ClosesAlways}

abbrev pub origin : Coordinate
origin = record { x = f_zero; y = f_zero; z = f_zero; srid = pos 4326 }

abbrev pub lake_layer : Layer
lake_layer = record {
  name = bytes "lakes";
  description = [];
  geometry_column = bytes "geom";
  geometry_type = bytes "POLYGON";
  srid = pos 4326;
  has_index = false;
  feature_count = pos 2;
  extent = none;
}

abbrev pub lake : Feature
lake = record {
  id = pos 1;
  layer_name = bytes "lakes";
  geometry = record {
    type_name = bytes "POLYGON";
    wkt = [];
    wkb = [];
    srid = pos 4326;
    coordinates = origin;
  };
  properties =
      (bytes "name", text_value (bytes "Stechlin")) ∷ (bytes "depth", text_value (bytes "70")) ∷ [];
}

abbrev pub source_at : Str → Source
source_at path = record {
  id = derive_source_id path;
  name = bytes "Lakes";
  path = path;
  kind = vector;
  size = pos 4096;
  layers = lake_layer ∷ [];
  metadata = record {
    title = [];
    description = [];
    creator = [];
    created_at = 0;
    version = [];
    keywords = [];
    custom = [];
  };
  license = record { name = bytes "ODbL"; url = []; attribution = [] };
  indexed = false;
  loaded_at = 0;
  last_queried = 0;
}

abbrev pub gpkg_adapter : SpatialSource ℕ
gpkg_adapter = record {
  supports = λ path. has_suffix path (bytes ".gpkg");
  open_source = λ path w. (ok (source_at path), w);
  prepare =
      λ id name layers w. (none, map (λ (l : Layer). record l { has_index = true }) layers, w);
  query_point = λ id layer c w. ok (lake ∷ lake ∷ []);
  query_points = none;
  close = λ id w. (none, w);
}

-- The same, but a source cannot be closed.
abbrev pub sticky_adapter : SpatialSource ℕ
sticky_adapter = record gpkg_adapter { close = λ id w. (some (other (bytes "busy")), w) }

abbrev pub storage : Environment ℕ
storage = record {
  list_objects = λ w. (ok (bytes "lakes.gpkg" ∷ []), w);
  download = λ key path w. (none, w + 1);
  remove_file = λ path w. w;
  now = λ w. w;
  ctx_err = λ w. none;
}

pub gpkg_adapter-OpensUnderId : OpensUnderId gpkg_adapter
gpkg_adapter-OpensUnderId path w s opened =
    ap (λ m. elim m [ ok q ↦ q.id | err _ ↦ s.id ]) (sym opened)

pub gpkg_adapter-ClosesAlways : ClosesAlways gpkg_adapter
gpkg_adapter-ClosesAlways id w = refl
