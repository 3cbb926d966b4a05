-- ===== src/Services/Query.antt =====
-- Point queries, from internal/application/query.go. The answers of the adapters do not depend on
-- when they are asked; tracing, metrics, logs and the time that a query takes are left out. An
-- adapter that is stopped by the deadline reports `deadline_exceeded`.
pub mod Answers
use ortus.Common.{
  ℕ, ◌+◌, Bool, true, false, not, Option, none, some, List, [], ◌∷◌, ◌++◌, map, Str, str_eq, elem,
  length, take, ltb, if◌then◌else◌,
}
use ortus.Common.Maps.{Map}
use ortus.Common.Sort.{select}
use ortus.Common.Int.{ℤ, pos, pos_part, ltb_ℤ, ◌-ℤ◌}
use ortus.Domain.Errors.{Error, Result, ok, err, source_not_found}
use ortus.Domain.Types.{
  Coordinate, Layer, Feature, PropValue, Source, QueryRequest, QueryResult, QueryResponse,
  has_features, add_result,
}
use ortus.Domain.Coordinates.{validate, eq_ℤ}
use ortus.Registry.Types.{SourceRegistry}
use ortus.Registry.Load.{get_source, ready_ids, query}

-- `QueryService`. The transformer is the optional `output.CoordinateTransformer`.
pub record QueryService (W : Type 0) : Type 0 where
  pub registry : SourceRegistry W
  pub transformer : Option (Coordinate → ℤ → Result Coordinate)
  pub max_features : ℤ

module _ {W : Type 0} where
  -- `NewQueryService`
  unfoldable pub new_query_service :
      SourceRegistry W → Option (Coordinate → ℤ → Result Coordinate) → ℤ → QueryService W
  new_query_service r transformer max_features = record {
    registry = r;
    transformer = transformer;
    max_features = if eq_ℤ max_features (pos 0) then pos 1000 else max_features;
  }

  unfoldable pub transform_coordinate : QueryService W → Coordinate → Layer → Option Coordinate
  transform_coordinate s coord layer =
      if eq_ℤ coord.srid layer.srid then some coord else elim s.transformer [
        | none ↦ none
        | some transform ↦ elim (transform coord layer.srid) [ err e ↦ none | ok c ↦ some c ]
      ]

  -- The features to append, and whether the limit is reached.
  unfoldable pub apply_max_features_limit :
      QueryService W → List Feature → List Feature → List Feature × Bool
  apply_max_features_limit s features found =
      if not (ltb_ℤ s.max_features (pos (length found + length features)))
      then (features, false)
      else if ltb_ℤ (pos 0) (s.max_features -ℤ pos (length found))
      then (take (pos_part (s.max_features -ℤ pos (length found))) features, true)
      else ([], true)

unfoldable pub filter_properties : List Feature → List Str → List Feature
filter_properties [] properties = []
filter_properties (f ∷ fs) properties =
    (record f { properties = select (λ (e : Str × PropValue). elem e.0 properties) f.properties })
    ∷ filter_properties fs properties

-- `if result.HasFeatures() { response.AddResult(*result) }`; a failed source is passed over.
unfoldable pub add_source : Result QueryResult → QueryResponse → QueryResponse
add_source (err e) response = response
add_source (ok result) response =
    if has_features result then add_result result response else response

module _ {W : Type 0} (s : QueryService W) where
  -- The features of one layer at a coordinate, or none where the layer is skipped or fails.
  unfoldable pub layer_features : Str → Layer → QueryRequest → Option (List Feature)
  layer_features id layer req = elim (transform_coordinate s req.coordinate layer) [
    | none ↦ none
    | some c ↦ elim (query id layer.name c s.registry) [
      | err e ↦ none
      | ok features ↦ some (
          if ltb 0 (length req.properties)
          then filter_properties features req.properties
          else features)
    ]
  ]

  unfoldable pub query_layer : Str → Layer → QueryRequest → QueryResult → Bool × QueryResult
  query_layer id layer req result = elim (layer_features id layer req) [
    | none ↦ (false, result)
    | some features ↦
        (let (limited, max_reached) = apply_max_features_limit s features result.features in
          (max_reached, record result { features = result.features ++ limited }))
  ]

  -- The loop of `QueryPointInSource`, which ends when the limit is reached.
  unfoldable pub query_layers : Str → List Layer → QueryRequest → QueryResult → QueryResult
  query_layers id [] req result = result
  query_layers id (layer ∷ layers) req result =
      let (max_reached, result') = query_layer id layer req result in
      let rest = query_layers id layers req result' in if max_reached then result' else rest

  abbrev pub empty_result : Source → QueryResult
  empty_result src = record {
    source_id = src.id;
    source_name = src.name;
    features = [];
    license = src.license;
    attribution = [];
  }

  -- The outer `none` is the nil dereference of an entry without a source.
  unfoldable pub query_point_in_source : Str → QueryRequest → Option (Result QueryResult)
  query_point_in_source id req = elim (get_source id s.registry) [
    | err e ↦ some (err e)
    | ok found ↦ elim found [
      | none ↦ none
      | some src ↦ some (ok (query_layers id src.layers req (empty_result src)))
    ]
  ]

  unfoldable pub query_sources : List Str → QueryRequest → QueryResponse → Option QueryResponse
  query_sources [] req response = some response
  query_sources (id ∷ ids) req response = elim (query_point_in_source id req) [
    | none ↦ none
    | some result ↦ query_sources ids req (add_source result response)
  ]

  -- The sources that are asked: all that are ready, or the requested one.
  unfoldable pub requested_sources : QueryRequest → Result (List Str)
  requested_sources req =
      let ids = ready_ids s.registry.sources in
      if str_eq req.source_id []
      then ok ids
      else if elem req.source_id ids
      then ok (req.source_id ∷ [])
      else err source_not_found

  unfoldable pub query_point : QueryRequest → Option (Result QueryResponse)
  query_point req =
      let response : QueryResponse = record {
        results = [];
        total_features = 0;
        coordinate = req.coordinate;
      } in
      elim (validate req.coordinate) [
        | some e ↦ some (err e)
        | none ↦ elim (requested_sources req) [
          | err e ↦ some (err e)
          | ok ids ↦ elim (query_sources ids req response) [ none ↦ none | some r ↦ some (ok r) ]
        ]
      ]
