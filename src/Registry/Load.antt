-- ===== src/Registry/Load.antt =====
-- Loading, unloading and asking, from internal/application/registry.go. Logging and tracing are
-- left out. Operations run one at a time.
use ortus.Common.{
  ℕ, ◌+◌, Bool, true, false, not, Option, none, some, List, [], ◌∷◌, map, Str, str_eq, length,
  if◌then◌else◌,
}
use ortus.Common.Maps.{Map, lookup, insert, delete}
use ortus.Domain.Errors.{
  Error, Result, ok, err, source_not_found, source_id_collision, unsupported_source,
}
use ortus.Domain.Types.{
  Source, SourceStatus, status_indexing, status_ready, status_unloading, Feature, Coordinate,
  all_layers_indexed,
}
use ortus.Domain.Paths.{derive_source_id}
use ortus.Registry.Types.{SpatialSource, Environment, SourceEntry, SourceRegistry}

abbrev pub status_is_ready : SourceStatus → Bool
status_is_ready status_ready = true
status_is_ready _ = false

module _ {W : Type 0} where
  abbrev pub path_of : SourceEntry W → Option Str
  path_of e = elim e.source [ none ↦ none | some s ↦ some s.path ]

  -- `loadedSourcePath`
  unfoldable pub loaded_source_path : Str → SourceRegistry W → Option Str
  loaded_source_path id r = elim (lookup id r.sources) [ none ↦ none | some e ↦ path_of e ]

  unfoldable pub count_ready : Map (SourceEntry W) → ℕ
  count_ready [] = 0
  count_ready ((k, e) ∷ m) = if status_is_ready e.status then count_ready m + 1 else count_ready m

  unfoldable pub update_metrics : SourceRegistry W → SourceRegistry W
  update_metrics r = record r {
    loaded_count = length r.sources;
    ready_count = count_ready r.sources;
  }

  unfoldable pub provider_for : Str → List (SpatialSource W) → Result (SpatialSource W)
  provider_for path [] = err unsupported_source
  provider_for path (p ∷ ps) = if p.supports path then ok p else provider_for path ps

  -- What `UnloadSource` does with the entry that it finds.
  unfoldable pub unload_entry :
      Str → SourceEntry W → SourceRegistry W → Option Error × SourceRegistry W
  unload_entry id e r =
      let unloading = record r {
        sources = insert id (record e { status = status_unloading }) r.sources;
      } in
      elim e.repo [
        | none ↦ (none, update_metrics (record unloading { sources = delete id unloading.sources }))
        | some repo ↦
            (let (failed, w) = repo.close id r.world in
              elim failed [
                | some error ↦ (some error, record unloading { world = w })
                | none ↦ (
                  none,
                  update_metrics
                      (record unloading { sources = delete id unloading.sources; world = w }),
                )
              ])
      ]

  unfoldable pub unload_source : Str → SourceRegistry W → Option Error × SourceRegistry W
  unload_source id r = elim (lookup id r.sources) [
    | none ↦ (none, r)
    | some e ↦ unload_entry id e r
  ]

  -- `for _, layer := range src.Layers { provider.Prepare(…) }`; a failure is only logged.
  unfoldable pub prepare_layers : SpatialSource W → List Str → Source → W → Source × W
  prepare_layers p [] src w = (src, w)
  prepare_layers p (name ∷ names) src w =
      let (failed, layers, w') = p.prepare src.id name src.layers w in
      prepare_layers p names (record src { layers = layers }) w'

  module _ (env : Environment W) where
    -- The last step of `LoadSource`, on the entry that is in the registry by then.
    unfoldable pub mark_ready : Source → SourceRegistry W → SourceRegistry W
    mark_ready src r = elim (lookup src.id r.sources) [
      | none ↦ r
      | some e ↦ record r {
        sources =
            insert src.id
              (record e {
                status = status_ready;
                source = some (record src {
                  loaded_at = env.now r.world;
                  indexed = all_layers_indexed src.layers;
                });
              })
              r.sources;
      }
    ]

    -- From the opened source on.
    unfoldable pub register : SpatialSource W → Source → SourceRegistry W → SourceRegistry W
    register provider src r =
        let r' = record r {
          sources =
              insert src.id
                (record { source = some src; repo = some provider; status = status_indexing })
                r.sources;
        } in
        let (prepared, w) = prepare_layers provider (map (λ l. l.name) src.layers) src r'.world in
        update_metrics (mark_ready prepared (record r' { world = w }))

    -- `LoadSource` once no instance of the source is loaded.
    unfoldable pub load_fresh : Str → SourceRegistry W → Option Error × SourceRegistry W
    load_fresh path r = elim (provider_for path r.providers) [
      | err e ↦ (some e, r)
      | ok provider ↦
          (let (opened, w) = provider.open_source path r.world in
            elim opened [
              | err e ↦ (some e, record r { world = w })
              | ok src ↦ (none, register provider src (record r { world = w }))
            ])
    ]

    unfoldable pub load_source : Str → SourceRegistry W → Option Error × SourceRegistry W
    load_source path r =
        let id = derive_source_id path in
        elim (loaded_source_path id r) [
          | none ↦ load_fresh path r
          | some existing ↦
              if not (str_eq existing path)
              then (some source_id_collision, r)
              else load_fresh path (unload_source id r).1
        ]

  unfoldable pub is_loaded : Str → SourceRegistry W → Bool
  is_loaded id r = elim (lookup id r.sources) [ none ↦ false | some e ↦ true ]

  unfoldable pub get_source : Str → SourceRegistry W → Result (Option Source)
  get_source id r = elim (lookup id r.sources) [
    | none ↦ err source_not_found
    | some e ↦ ok e.source
  ]

  unfoldable pub get_source_status : Str → SourceRegistry W → Result SourceStatus
  get_source_status id r = elim (lookup id r.sources) [
    | none ↦ err source_not_found
    | some e ↦ ok e.status
  ]

  -- `IsReady` of the registry.
  unfoldable pub source_is_ready : Str → SourceRegistry W → Bool
  source_is_ready id r = elim (lookup id r.sources) [
    | none ↦ false
    | some e ↦ status_is_ready e.status
  ]

  unfoldable pub ready_ids : Map (SourceEntry W) → List Str
  ready_ids [] = []
  ready_ids ((id, e) ∷ m) = if status_is_ready e.status then id ∷ ready_ids m else ready_ids m

  unfoldable pub query : Str → Str → Coordinate → SourceRegistry W → Result (List Feature)
  query id layer coord r = elim (lookup id r.sources) [
    | none ↦ err source_not_found
    | some e ↦ elim e.repo [
      | none ↦ err source_not_found
      | some repo ↦ repo.query_point id layer coord r.world
    ]
  ]

  module _ (env : Environment W) where
    -- The fallback of `QueryPoints`: one query for each point, while the context lives.
    unfoldable pub query_each :
        SpatialSource W → Str → Str → List Coordinate → W → Result (List (List Feature))
    query_each repo id layer [] w = ok []
    query_each repo id layer (c ∷ cs) w =
        let rest = query_each repo id layer cs w in
        elim (env.ctx_err w) [
          | some e ↦ err e
          | none ↦ elim (repo.query_point id layer c w) [
            | err e ↦ err e
            | ok feats ↦ elim rest [ err e ↦ err e | ok others ↦ ok (feats ∷ others) ]
          ]
        ]

    unfoldable pub query_points :
        Str → Str → List Coordinate → SourceRegistry W → Result (List (List Feature))
    query_points id layer coords r = elim (lookup id r.sources) [
      | none ↦ err source_not_found
      | some e ↦ elim e.repo [
        | none ↦ err source_not_found
        | some repo ↦ elim repo.query_points [
          | some batch ↦ batch id layer coords r.world
          | none ↦ query_each repo id layer coords r.world
        ]
      ]
    ]
