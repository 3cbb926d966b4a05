-- ===== src/Registry/Tests.antt =====
-- Concrete runs of the registry of internal/application/registry.go.
use ortus.Common.{ℕ, ◌≡◌, refl, true, false, some, [], ◌∷◌, Str, bytes, str_eq, elem, map}
use ortus.Common.Maps.{lookup, insert}
use ortus.Domain.Types.{status_ready}
use ortus.Domain.Paths.{
  derive_source_id, has_suffix, has_prefix, base_name, last_element, strip_slashes, ext_length,
  find_dot,
}
use ortus.Fixtures.{
  gpkg_adapter, storage, source_at, gpkg_adapter-OpensUnderId, gpkg_adapter-ClosesAlways,
}
use ortus.Registry.Types.{SourceRegistry, SourceEntry, SpatialSource}
use ortus.Registry.Load.{
  load_source, is_loaded, loaded_source_path, load_fresh, provider_for, register, mark_ready,
  prepare_layers, update_metrics,
}
use ortus.Registry.Sync.{
  sync, sync_with, remote_sources, sync_add_new, fetch, find_sources_to_remove, remove_sources,
}
use ortus.Registry.Invariant.{IsValid}
use ortus.Registry.Loading.{ClosesAlways, load_keeps_other_files}
use ortus.Registry.Syncing.{sync_removes_others}
use ortus.Registry.History.{
  new_source_registry, run, step, load, unload, loads_all, syncs, run-new_source_registry-IsValid,
}

abbrev lakes : Str
lakes = bytes "data/lakes.gpkg"

abbrev other_lakes : Str
other_lakes = bytes "more/lakes.gpkg"

abbrev empty_registry : SpatialSource ℕ → SourceRegistry ℕ
empty_registry p = record {
  sources = [];
  providers = p ∷ [];
  local_path = bytes "data";
  loaded_count = 0;
  ready_count = 0;
  failed_count = 0;
  initial_load_done = false;
  world = 7;
}

-- The entry of a source that is loaded from data/lakes.gpkg.
abbrev lakes_entry : SpatialSource ℕ → SourceEntry ℕ
lakes_entry p = record { source = some (source_at lakes); repo = some p; status = status_ready }

abbrev with_lakes : SpatialSource ℕ → SourceRegistry ℕ
with_lakes p = record (empty_registry p) {
  sources = (bytes "lakes", lakes_entry p) ∷ [];
  loaded_count = 1;
  ready_count = 1;
}

run-new_source_registry-IsValid_example : IsValid ClosesAlways (
    run storage
      (loads_all ∷ load other_lakes ∷ unload (bytes "lakes") ∷ syncs ∷ [])
      (new_source_registry (gpkg_adapter ∷ []) (bytes "data") 7))
run-new_source_registry-IsValid_example =
    run-new_source_registry-IsValid storage ClosesAlways (gpkg_adapter ∷ []) (bytes "data") 7
      (loads_all ∷ load other_lakes ∷ unload (bytes "lakes") ∷ syncs ∷ [])
      (gpkg_adapter-ClosesAlways, tt)

load_keeps_other_files_example :
    lookup (bytes "lakes") (load_source storage other_lakes (with_lakes gpkg_adapter)).1.sources
    ≡ some (lakes_entry gpkg_adapter)
unfolding lookup str_eq
load_keeps_other_files_example =
    load_keeps_other_files storage other_lakes (bytes "lakes") (with_lakes gpkg_adapter)
      (lakes_entry gpkg_adapter) (source_at lakes) (gpkg_adapter-OpensUnderId, tt) refl refl refl

-- What a load of data/lakes.gpkg leaves.
abbrev loaded : SourceRegistry ℕ
loaded = run storage (load lakes ∷ []) (new_source_registry (gpkg_adapter ∷ []) (bytes "data") 7)

sync_removes_others_example :
    elem (bytes "lakes") (map derive_source_id (bytes "lakes.gpkg" ∷ [])) ≡ true
unfolding load_source loaded_source_path load_fresh provider_for register mark_ready prepare_layers
    update_metrics has_suffix has_prefix lookup insert str_eq derive_source_id base_name
    last_element strip_slashes ext_length find_dot run step new_source_registry sync sync_with
    remote_sources sync_add_new fetch find_sources_to_remove remove_sources is_loaded
sync_removes_others_example =
    sync_removes_others storage loaded (bytes "lakes.gpkg" ∷ [])
      (run-new_source_registry-IsValid storage ClosesAlways (gpkg_adapter ∷ []) (bytes "data") 7
        (load lakes ∷ []) (gpkg_adapter-ClosesAlways, tt))
      refl (bytes "lakes") refl
