-- ===== src/Services/Batch.antt =====
-- Batches of points, from internal/application/query_batch.go. The outer `none` of an outcome is a
-- panic: the nil dereference of an entry without a source, or an index behind the adapter's answers.
pub mod Resolve
pub mod Layers
pub mod Answers
use ortus.Common.{
  ℕ, ◌+◌, Bool, true, false, not, ◌||◌, Option, none, some, List, [], ◌∷◌, ◌++◌, map, Str, elem,
  length, ltb, if◌then◌else◌,
}
use ortus.Common.Maps.{Map}
use ortus.Common.Int.{ℤ, pos, ltb_ℤ}
use ortus.Domain.Errors.{Error, Result, ok, err, source_not_found, is_context_err}
use ortus.Domain.Types.{
  Coordinate, Layer, Feature, Source, QueryResult, QueryResponse, has_features, add_result,
}
use ortus.Domain.Coordinates.{validate}
use ortus.Registry.Types.{SourceRegistry, Environment}
use ortus.Registry.Load.{get_source, ready_ids, query_points}
use ortus.Services.Query.{
  QueryService, transform_coordinate, apply_max_features_limit, filter_properties, empty_result,
}

-- The loop of `resolveBatchSources`; `seen` holds what `deduped` holds.
unfoldable pub dedup_sources : List Str → List Str → List Str → Result (List Str)
dedup_sources ready [] deduped = ok deduped
dedup_sources ready (id ∷ ids) deduped =
    let rest =
      dedup_sources ready ids (if elem id deduped then deduped else deduped ++ (id ∷ [])) in
    if not (elem id ready) then err source_not_found else rest

-- The points that ask.
unfoldable pub asking : List (Option Coordinate) → List Coordinate
asking [] = []
asking (none ∷ cs) = asking cs
asking (some c ∷ cs) = c ∷ asking cs

module _ {W : Type 0} (s : QueryService W) where
  unfoldable pub resolve_batch_sources : List Str → Result (List Str)
  resolve_batch_sources [] = ok (ready_ids s.registry.sources)
  resolve_batch_sources (id ∷ ids) = dedup_sources (ready_ids s.registry.sources) (id ∷ ids) []

  -- The coordinate that a point asks the layer at, or none for one that is full, invalid or not
  -- transformable.
  unfoldable pub batch_coordinate : Layer → Coordinate → QueryResult → Option Coordinate
  batch_coordinate layer c result =
      if not (ltb_ℤ (pos (length result.features)) s.max_features)
      then none
      else elim (validate c) [ some e ↦ none | none ↦ transform_coordinate s c layer ]

  unfoldable pub batch_coordinates :
      Layer → List Coordinate → List QueryResult → List (Option Coordinate)
  batch_coordinates layer [] results = []
  batch_coordinates layer (c ∷ cs) [] = []
  batch_coordinates layer (c ∷ cs) (r ∷ rs) =
      batch_coordinate layer c r ∷ batch_coordinates layer cs rs

  unfoldable pub add_features : List Str → List Feature → QueryResult → QueryResult
  add_features properties features result =
      let kept =
        if ltb 0 (length properties) then filter_properties features properties else features in
      record result {
        features = result.features ++ (apply_max_features_limit s kept result.features).0;
      }

  -- `for k, origIdx := range idxs { … feats[k] … }`
  unfoldable pub distribute :
      List Str
      → List (Option Coordinate)
      → List (List Feature)
      → List QueryResult
      → Option (List QueryResult)
  distribute properties [] feats results = some results
  distribute properties (c ∷ cs) feats [] = some []
  distribute properties (none ∷ cs) feats (r ∷ rs) = elim (distribute properties cs feats rs) [
    | none ↦ none
    | some qs ↦ some (r ∷ qs)
  ]
  distribute properties (some c ∷ cs) [] (r ∷ rs) = none
  distribute properties (some c ∷ cs) (f ∷ fs) (r ∷ rs) = elim (distribute properties cs fs rs) [
    | none ↦ none
    | some qs ↦ some (add_features properties f r ∷ qs)
  ]

module _ {W : Type 0} (env : Environment W) (s : QueryService W) where
  unfoldable pub batch_layer :
      Str
      → Layer
      → List Coordinate
      → List Str
      → List QueryResult
      → Option (Result (List QueryResult))
  batch_layer id layer coords properties results =
      let asked = batch_coordinates s layer coords results in
      if not (ltb 0 (length (asking asked)))
      then some (ok results)
      else elim (query_points env id layer.name (asking asked) s.registry) [
        | err e ↦ if is_context_err e then some (err e) else some (ok results)
        | ok feats ↦ elim (distribute s properties asked feats results) [
          | none ↦ none
          | some qs ↦ some (ok qs)
        ]
      ]

  unfoldable pub batch_layers :
      Str
      → List Layer
      → List Coordinate
      → List Str
      → List QueryResult
      → Option (Result (List QueryResult))
  batch_layers id [] coords properties results = some (ok results)
  batch_layers id (layer ∷ layers) coords properties results =
      elim (batch_layer id layer coords properties results) [
        | none ↦ none
        | some m ↦ elim m [
          | err e ↦ some (err e)
          | ok qs ↦ batch_layers id layers coords properties qs
        ]
      ]

abbrev pub empty_response : Coordinate → QueryResponse
empty_response c = record { results = []; total_features = 0; coordinate = c }

-- `if results[i].HasFeatures() { … out[i].AddResult(results[i]) }`
unfoldable pub add_results : List QueryResult → List QueryResponse → List QueryResponse
add_results [] out = out
add_results (r ∷ rs) [] = []
add_results (r ∷ rs) (o ∷ os) = (if has_features r then add_result r o else o) ∷ add_results rs os

module _ {W : Type 0} (env : Environment W) (s : QueryService W) where
  unfoldable pub query_batch_source :
      Str → List Coordinate → List Str → List QueryResponse → Option (Result (List QueryResponse))
  query_batch_source id coords properties out = elim (get_source id s.registry) [
    | err e ↦ some (err e)
    | ok found ↦ elim found [
      | none ↦ none
      | some src ↦
          elim (batch_layers env s id src.layers coords properties
            (map (λ _. empty_result s src) coords)) [
              | none ↦ none
              | some m ↦ elim m [
                | err e ↦ some (err e)
                | ok results ↦ some (ok (add_results results out))
              ]
            ]
    ]
  ]

  unfoldable pub batch_sources :
      List Str
      → List Coordinate
      → List Str
      → List QueryResponse
      → Option (Result (List QueryResponse))
  batch_sources [] coords properties out = some (ok out)
  batch_sources (id ∷ ids) coords properties out =
      elim (query_batch_source id coords properties out) [
        | none ↦ none
        | some m ↦ elim m [
          | err e ↦
              if is_context_err e then some (err e) else batch_sources ids coords properties out
          | ok out' ↦ batch_sources ids coords properties out'
        ]
      ]

  unfoldable pub query_batch :
      List Coordinate → List Str → List Str → Option (Result (List QueryResponse))
  query_batch coords sources properties = elim (resolve_batch_sources s sources) [
    | err e ↦ some (err e)
    | ok ids ↦ batch_sources ids coords properties (map empty_response coords)
  ]
