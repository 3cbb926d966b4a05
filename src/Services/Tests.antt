-- ===== src/Services/Tests.antt =====
-- Concrete runs of the services of internal/application over a registry with one source.
use ortus.Common.{ℕ, ◌≡◌, refl, true, none, some, [], ◌∷◌, Str, bytes, str_eq, elem}
use ortus.Common.Maps.{lookup, insert}
use ortus.Common.Keys.{Distinct}
use ortus.Common.Int.{pos}
use ortus.Common.Float.{float_lt}
use ortus.Domain.Errors.{ok}
use ortus.Domain.Types.{QueryRequest, QueryResponse}
use ortus.Domain.Coordinates.{validate}
use ortus.Domain.Paths.{
  derive_source_id, has_suffix, has_prefix, base_name, last_element, strip_slashes, ext_length,
  find_dot,
}
use ortus.Fixtures.{gpkg_adapter, storage, origin, gpkg_adapter-ClosesAlways}
use ortus.Registry.Types.{SourceRegistry}
use ortus.Registry.Load.{
  load_source, loaded_source_path, load_fresh, provider_for, register, mark_ready, prepare_layers,
  update_metrics, ready_ids, source_is_ready,
}
use ortus.Registry.Sync.{load_all}
use ortus.Registry.Invariant.{IsValid}
use ortus.Registry.Loading.{ClosesAlways}
use ortus.Registry.History.{
  new_source_registry, run, step, load, unload, syncs, run-new_source_registry-IsValid,
}
use ortus.Services.Health.{service_is_ready, ready_after_initial_load}
use ortus.Services.Trigger.{
  SyncService, trigger, tick, passes, new_sync_service, run_events, Spaced, run_events-Spaced,
  seconds,
}
use ortus.Services.Query.{QueryService, query_point, requested_sources}
use ortus.Services.Query.Answers.{AreAnswers, query_point_answers}
use ortus.Services.Batch.{query_batch, resolve_batch_sources, dedup_sources}
use ortus.Services.Batch.Resolve.{resolve_batch_sources_lem}
use ortus.Services.Batch.Layers.{Ends, AnswersEach}
use ortus.Services.Batch.Answers.{AnswersAll, IsContextError, query_batch_answers}

abbrev lakes : Str
lakes = bytes "data/lakes.gpkg"

abbrev fresh : SourceRegistry ℕ
fresh = new_source_registry (gpkg_adapter ∷ []) (bytes "data") 7

fresh-IsValid : IsValid ClosesAlways fresh
unfolding run
fresh-IsValid =
    run-new_source_registry-IsValid storage ClosesAlways (gpkg_adapter ∷ []) (bytes "data") 7 []
      (gpkg_adapter-ClosesAlways, tt)

-- What a load of data/lakes.gpkg leaves.
abbrev loaded : SourceRegistry ℕ
loaded = run storage (load lakes ∷ []) fresh

gpkg_adapter-AnswersEach : AnswersEach gpkg_adapter
gpkg_adapter-AnswersEach batch is = absurd (cc)

loaded-IsValid : IsValid AnswersEach loaded
loaded-IsValid =
    run-new_source_registry-IsValid storage AnswersEach (gpkg_adapter ∷ []) (bytes "data") 7
      (load lakes ∷ []) (gpkg_adapter-AnswersEach, tt)

ready_after_initial_load_example :
    service_is_ready true (
      run storage
        (unload (bytes "lakes") ∷ syncs ∷ unload (bytes "lakes") ∷ [])
        (load_all storage fresh).1)
    ≡ some true
unfolding new_source_registry
ready_after_initial_load_example =
    ready_after_initial_load storage ClosesAlways fresh (bytes "lakes.gpkg" ∷ [])
      (unload (bytes "lakes") ∷ syncs ∷ unload (bytes "lakes") ∷ []) fresh-IsValid refl

abbrev sync_service : SyncService ℕ
sync_service = new_sync_service storage (record fresh { world = seconds 100 }) (seconds 3600)

run_events-Spaced_example :
    Spaced sync_service.last_api_sync
      (run_events storage
        (trigger ∷ passes (seconds 110) ∷ trigger ∷ tick ∷ passes (seconds 150) ∷ trigger ∷ [])
        sync_service).0
run_events-Spaced_example =
    run_events-Spaced storage
      (trigger ∷ passes (seconds 110) ∷ trigger ∷ tick ∷ passes (seconds 150) ∷ trigger ∷ [])
      sync_service

abbrev query_service : QueryService ℕ
query_service = record { registry = loaded; transformer = none; max_features = pos 1 }

abbrev request : Str → QueryRequest
request id = record {
  coordinate = origin;
  source_srid = pos 0;
  properties = bytes "name" ∷ [];
  source_id = id;
}

query_point_answers_example :
    (response : QueryResponse) × (query_point query_service (request (bytes "lakes"))
      ≡ some (ok response))
    × AreAnswers query_service (bytes "lakes" ∷ []) response
unfolding load_source loaded_source_path load_fresh provider_for register mark_ready prepare_layers
    update_metrics has_suffix has_prefix lookup insert str_eq derive_source_id base_name
    last_element strip_slashes ext_length find_dot run step new_source_registry requested_sources
    ready_ids elem validate float_lt
query_point_answers_example =
    query_point_answers query_service AnswersEach loaded-IsValid (request (bytes "lakes"))
      (bytes "lakes" ∷ []) refl refl

resolve_batch_sources_lem_example :
    Distinct (bytes "lakes" ∷ [])
    × ((k : Str) → elem k (bytes "lakes" ∷ []) ≡ true → source_is_ready k loaded ≡ true)
    × ((k : Str) → elem k (bytes "lakes" ∷ []) ≡ elem k (bytes "lakes" ∷ bytes "lakes" ∷ []))
unfolding load_source loaded_source_path load_fresh provider_for register mark_ready prepare_layers
    update_metrics has_suffix has_prefix lookup insert str_eq derive_source_id base_name
    last_element strip_slashes ext_length find_dot run step new_source_registry
    resolve_batch_sources dedup_sources ready_ids elem
resolve_batch_sources_lem_example =
    resolve_batch_sources_lem query_service AnswersEach (bytes "lakes" ∷ bytes "lakes" ∷ [])
      (bytes "lakes" ∷ []) loaded-IsValid refl

query_batch_answers_example :
    Ends
      (AnswersAll query_service (bytes "lakes" ∷ []) (origin ∷ origin ∷ []))
      IsContextError
      (query_batch storage query_service (origin ∷ origin ∷ []) [] [])
unfolding load_source loaded_source_path load_fresh provider_for register mark_ready prepare_layers
    update_metrics has_suffix has_prefix lookup insert str_eq derive_source_id base_name
    last_element strip_slashes ext_length find_dot run step new_source_registry
    resolve_batch_sources ready_ids
query_batch_answers_example =
    query_batch_answers storage query_service (origin ∷ origin ∷ []) [] [] (bytes "lakes" ∷ [])
      loaded-IsValid refl
