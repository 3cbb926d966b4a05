-- ===== src/Registry/History.antt =====
-- Any sequence of operations on the registry of internal/application/registry.go.
use ortus.Common.{ℕ, refl, true, false, List, [], ◌∷◌, Str, if_cases, option_cases}
use ortus.Common.Sort.{All}
use ortus.Common.Maps.{Map, lookup}
use ortus.Domain.Errors.{Result, result_cases}
use ortus.Domain.Paths.{safe_local_path}
use ortus.Registry.Types.{SpatialSource, Environment, SourceRegistry, SyncStats}
use ortus.Registry.Load.{load_source, unload_source, is_loaded}
use ortus.Registry.Sync.{
  fetch, load_objects, load_all, remote_sources, sync_add_new, remove_sources, sync, sync_with,
}
use ortus.Registry.Invariant.{
  IsValid, Leaves, unload_source-IsValid, load_source-IsValid, world-IsValid,
}

-- `NewSourceRegistry`
unfoldable pub new_source_registry :
    {W : Type 0} → List (SpatialSource W) → Str → W → SourceRegistry W
new_source_registry providers local_path world = record {
  sources = [];
  providers = providers;
  local_path = local_path;
  loaded_count = 0;
  ready_count = 0;
  failed_count = 0;
  initial_load_done = false;
  world = world;
}

-- A property of the registry that loading and unloading one source keep, and that says nothing of
-- the outside world.
pub record IsClosed {ℓ} {W : Type 0} (env : Environment W) (P : SourceRegistry W → Type ℓ)
    : Type ℓ where
  pub load_source : (path : Str) (r : SourceRegistry W) → P r → P (load_source env path r).1
  pub unload_source : (id : Str) (r : SourceRegistry W) → P r → P (unload_source id r).1
  pub world : (w : W) (r : SourceRegistry W) → P r → P (record r { world = w })

module _ {ℓ} {W : Type 0} {env : Environment W} {P : SourceRegistry W → Type ℓ}
    (c : IsClosed env P) where
  fetch-closed : (key : Str) (r : SourceRegistry W) → P r → P (fetch env key r).1
  unfolding fetch
  fetch-closed key r v =
      result_cases (Leaves P) (safe_local_path r.local_path key) (λ e unsafe. v)
        λ path safe.
          let w = (env.download key path r.world).1 in
          let v' = c.world w r v in
          option_cases (Leaves P) (env.download key path r.world).0
            (λ loaded. c.load_source path (record r { world = w }) v') (λ e failed. v')

  load_objects-closed :
      (keys : List Str) (m n : ℕ) (r : SourceRegistry W) → P r → P (load_objects env keys m n r).2
  unfolding load_objects
  load_objects-closed [] m n r v = v
  load_objects-closed (key ∷ keys) m n r v =
      load_objects-closed keys _ _ (fetch env key r).1 (fetch-closed key r v)

  -- The last writes of `LoadAll` are not among those that keep `P` in general.
  pub load_all-closed :
      ((n : ℕ) (r : SourceRegistry W)
        → P r
        → P (record r { failed_count = n; initial_load_done = true }))
      → (r : SourceRegistry W) → P r
      → P (load_all env r).1
  unfolding load_all
  load_all-closed done r v =
      let v' = c.world (env.list_objects r.world).1 r v in
      result_cases (Leaves P) (env.list_objects r.world).0 (λ e failed. v')
        (λ objects listed. done _ _ (load_objects-closed objects 0 0 _ v'))

  pub sync_add_new-closed :
      (m : Map Str) (n : ℕ) (r : SourceRegistry W) → P r → P (sync_add_new env m n r).1
  unfolding sync_add_new
  sync_add_new-closed [] n r v = v
  sync_add_new-closed ((id, key) ∷ m) n r v =
      sync_add_new-closed m _ _
        (if_cases P (is_loaded id r) (λ old. v) (λ new. fetch-closed key r v))

  remove_sources-closed :
      (l : List (Str × Str)) (n : ℕ) (r : SourceRegistry W) → P r → P (remove_sources env l n r).1
  unfolding remove_sources
  remove_sources-closed [] n r v = v
  remove_sources-closed ((id, path) ∷ l) n r v =
      let v' = c.unload_source id r v in
      remove_sources-closed l _ _ (
        option_cases P (unload_source id r).0 (λ closed. c.world _ (unload_source id r).1 v')
          (λ e failed. v'))

  pub sync-closed : (r : SourceRegistry W) → P r → P (sync env r).1
  unfolding sync sync_with
  sync-closed r v =
      let v' = c.world (env.list_objects r.world).1 r v in
      result_cases (λ (q : Result SyncStats × SourceRegistry W). P q.1) (env.list_objects r.world).0
        (λ e failed. v')
        (λ objects listed.
          remove_sources-closed _ _ _ (sync_add_new-closed (remote_sources objects []) 0 _ v'))

-- What the rest of the program asks of the registry.
pub data Operation : Type 0 where
  load unload : Str → Operation
  loads_all syncs : Operation

module _ {W : Type 0} (env : Environment W) where
  unfoldable pub step : Operation → SourceRegistry W → SourceRegistry W
  step (load path) r = (load_source env path r).1
  step (unload id) r = (unload_source id r).1
  step loads_all r = (load_all env r).1
  step syncs r = (sync env r).1

  unfoldable pub run : List Operation → SourceRegistry W → SourceRegistry W
  run [] r = r
  run (o ∷ os) r = run os (step o r)

  module _ {ℓ} {P : SourceRegistry W → Type ℓ} (c : IsClosed env P) where
    pub run-closed :
        ((n : ℕ) (r : SourceRegistry W)
          → P r
          → P (record r { failed_count = n; initial_load_done = true }))
        → (os : List Operation) (r : SourceRegistry W) → P r
        → P (run os r)
    unfolding run step
    run-closed done [] r v = v
    run-closed done (load path ∷ os) r v = run-closed done os _ (c.load_source path r v)
    run-closed done (unload id ∷ os) r v = run-closed done os _ (c.unload_source id r v)
    run-closed done (loads_all ∷ os) r v = run-closed done os _ (load_all-closed c done r v)
    run-closed done (syncs ∷ os) r v = run-closed done os _ (sync-closed c r v)

  pub IsValid-IsClosed : (Q : SpatialSource W → Type 0) → IsClosed env (IsValid Q)
  IsValid-IsClosed Q = record {
    load_source = load_source-IsValid Q env;
    unload_source = unload_source-IsValid Q;
    world = world-IsValid Q;
  }

  pub run-IsValid :
      (Q : SpatialSource W → Type 0) (os : List Operation) (r : SourceRegistry W)
      → IsValid Q r
      → IsValid Q (run os r)
  run-IsValid Q os r v =
      run-closed (IsValid-IsClosed Q)
        (λ n q w. record {
          entries = w.entries;
          distinct = w.distinct;
          counted = w.counted;
          adapters = w.adapters;
        })
        os r v

  -- After any sequence of loads, unloads, initial loads and syncs, with adapters and a storage that
  -- do anything, every entry of the registry is complete and stands under the id of its source, no
  -- id stands twice, and the gauge of loaded sources shows how many there are. Where all adapters
  -- keep a law, so do those of the entries.
  pub run-new_source_registry-IsValid :
      (Q : SpatialSource W → Type 0) (providers : List (SpatialSource W)) (local_path : Str)
      (world : W) (os : List Operation)
      → All Q providers
      → IsValid Q (run os (new_source_registry providers local_path world))
  unfolding new_source_registry lookup
  run-new_source_registry-IsValid Q providers local_path world os laws =
      run-IsValid Q os _
        (record { entries = λ k e h. cc; distinct = tt; counted = refl; adapters = laws })
