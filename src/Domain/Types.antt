-- ===== src/Domain/Types.antt =====
-- internal/domain/source.go, metadata.go, feature.go and the coordinate types of coordinate.go.
use ortus.Common.{
  ℕ, ◌+◌, Bool, true, false, not, ◌&&◌, Option, none, some, List, [], ◌∷◌, ◌++◌, Str, str_eq,
  length, ltb, if◌then◌else◌,
}
use ortus.Common.Maps.{Map, lookup}
use ortus.Common.Int.{ℤ}
use ortus.Common.Clock.{Time}
use ortus.Common.Float.{Float}

pub record Coordinate : Type 0 where
  pub x : Float
  pub y : Float
  pub z : Float
  pub srid : ℤ

pub record Extent : Type 0 where
  pub min_x : Float
  pub min_y : Float
  pub max_x : Float
  pub max_y : Float
  pub srid : ℤ

pub data SourceKind : Type 0 where
  vector raster : SourceKind

pub data SourceStatus : Type 0 where
  status_loading status_indexing status_ready status_error status_unloading : SourceStatus

pub record Layer : Type 0 where
  pub name : Str
  pub description : Str
  pub geometry_column : Str
  pub geometry_type : Str
  pub srid : ℤ
  pub has_index : Bool
  pub feature_count : ℤ
  pub extent : Option Extent

pub record Metadata : Type 0 where
  pub title : Str
  pub description : Str
  pub creator : Str
  pub created_at : Time
  pub version : Str
  pub keywords : List Str
  pub custom : Map Str

pub record License : Type 0 where
  pub name : Str
  pub url : Str
  pub attribution : Str

pub record Source : Type 0 where
  pub id : Str
  pub name : Str
  pub path : Str
  pub kind : SourceKind
  pub size : ℤ
  pub layers : List Layer
  pub metadata : Metadata
  pub license : License
  pub indexed : Bool
  pub loaded_at : Time
  pub last_queried : Time

-- An `interface{}` attribute value of a feature.
pub data PropValue : Type 0 where
  nil_value : PropValue
  text_value : Str → PropValue
  int_value int64_value : ℤ → PropValue
  float_value float32_value : Float → PropValue
  bool_value : Bool → PropValue
  bytes_value : Str → PropValue

pub record Geometry : Type 0 where
  pub type_name : Str
  pub wkt : Str
  pub wkb : Str
  pub srid : ℤ
  pub coordinates : Coordinate

pub record Feature : Type 0 where
  pub id : ℤ
  pub layer_name : Str
  pub geometry : Geometry
  pub properties : Map PropValue

pub record QueryRequest : Type 0 where
  pub coordinate : Coordinate
  pub source_srid : ℤ
  pub properties : List Str
  pub source_id : Str

pub record QueryResult : Type 0 where
  pub source_id : Str
  pub source_name : Str
  pub features : List Feature
  pub license : License
  pub attribution : Str

pub record QueryResponse : Type 0 where
  pub results : List QueryResult
  pub total_features : ℕ
  pub coordinate : Coordinate

-- `for _, layer := range layers { if !layer.HasIndex { return false } }; return true`
unfoldable pub all_layers_indexed : List Layer → Bool
all_layers_indexed [] = true
all_layers_indexed (l ∷ ls) = if not l.has_index then false else all_layers_indexed ls

-- `Source.IsReady`
unfoldable pub is_ready : Source → Bool
unfolding all_layers_indexed
is_ready s = if not s.indexed then false else all_layers_indexed s.layers

find_layer : Str → List Layer → Option Layer
find_layer name [] = none
find_layer name (l ∷ ls) = if str_eq l.name name then some l else find_layer name ls

unfoldable pub get_layer : Str → Source → Option Layer
unfolding find_layer
get_layer name s = find_layer name s.layers

-- `License.IsEmpty` and `License.String`
unfoldable pub license_is_empty : License → Bool
license_is_empty l = str_eq l.name [] && (str_eq l.url [] && str_eq l.attribution [])

unfoldable pub license_text : License → Str
license_text l = if not (str_eq l.attribution []) then l.attribution else l.name

-- `Feature.GetStringProperty`
unfoldable pub get_string_property : Str → Feature → Str
get_string_property key f = elim (lookup key f.properties) [
  | none ↦ []
  | some v ↦ elim v [ text_value s ↦ s | _ ↦ [] ]
]

-- `QueryResult.FeatureCount`, `HasFeatures`, `QueryResponse.AddResult`
abbrev pub feature_count : QueryResult → ℕ
feature_count r = length r.features

abbrev pub has_features : QueryResult → Bool
has_features r = ltb 0 (length r.features)

unfoldable pub add_result : QueryResult → QueryResponse → QueryResponse
add_result result r = record r {
  results = r.results ++ (result ∷ []);
  total_features = r.total_features + feature_count result;
}
