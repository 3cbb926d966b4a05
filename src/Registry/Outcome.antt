-- ===== src/Registry/Outcome.antt =====
-- What a successful load leaves of a source, and the outcomes of an unload, from `LoadSource` and
-- `UnloadSource` of internal/application/registry.go.
use ortus.Common.{
  ◌≡◌, refl, sym, subst, ◌∙◌, false, not, Option, none, some, map, Str, str_eq, length, if_cases,
  option_cases,
}
use ortus.Common.Maps.{Map, lookup, insert, delete, lookup-insert_self, lookup-delete_self}
use ortus.Common.Sort.{All}
use ortus.Domain.Errors.{Error, ok, result_cases}
use ortus.Domain.Types.{
  Source, Layer, status_ready, status_indexing, status_unloading, all_layers_indexed,
}
use ortus.Domain.Paths.{derive_source_id}
use ortus.Registry.Types.{SpatialSource, Environment, SourceEntry, SourceRegistry}
use ortus.Registry.Load.{
  update_metrics, count_ready, provider_for, unload_entry, unload_source, mark_ready, register,
  load_fresh, load_source, loaded_source_path, source_is_ready, get_source_status, is_loaded,
}
use ortus.Registry.Invariant.{provider_for-law, prepare_layers-id}
use ortus.Registry.Loading.{OpensUnderId, providers-unload, indexing, prepared}

module _ {W : Type 0} where
  -- The registry has a source under the id of the file, ready, and `indexed` says whether all layers have
  -- their index.
  pub record HasReady (path : Str) (r : SourceRegistry W) : Type 0 where
    pub entry : SourceEntry W
    pub source : Source
    pub found : lookup (derive_source_id path) r.sources ≡ some entry
    pub has_source : entry.source ≡ some source
    pub ready : entry.status ≡ status_ready
    pub id : source.id ≡ derive_source_id path
    pub indexed : source.indexed ≡ all_layers_indexed source.layers

  module _ (env : Environment W) where
    abbrev ready_source : Source → W → Source
    ready_source src w = record src {
      loaded_at = env.now w;
      indexed = all_layers_indexed src.layers;
    }

    abbrev ready_entry : Source → SourceEntry W → W → SourceEntry W
    ready_entry src e w = record e { status = status_ready; source = some (ready_source src w) }

    mark_ready_lem :
        (path : Str) (src : Source) (e : SourceEntry W) (r : SourceRegistry W)
        → lookup src.id r.sources ≡ some e
        → src.id ≡ derive_source_id path
        → HasReady path (mark_ready env src r)
    unfolding mark_ready
    mark_ready_lem path src e r h is_id =
        option_cases (HasReady path) (lookup src.id r.sources) (λ absent. absurd (cc))
          λ f g. record {
            entry = ready_entry src f r.world;
            source = ready_source src r.world;
            found =
                subst (λ k. lookup k (marked f) ≡ some (ready_entry src f r.world)) is_id
                  (lookup-insert_self src.id (ready_entry src f r.world) r.sources);
            has_source = refl;
            ready = refl;
            id = is_id;
            indexed = refl;
          }
      where
        marked : SourceEntry W → Map (SourceEntry W)
        marked f = insert src.id (ready_entry src f r.world) r.sources

    update_metrics-HasReady :
        (path : Str) (r : SourceRegistry W) → HasReady path r → HasReady path (update_metrics r)
    unfolding update_metrics
    update_metrics-HasReady path r h = record {
      entry = h.entry;
      source = h.source;
      found = h.found;
      has_source = h.has_source;
      ready = h.ready;
      id = h.id;
      indexed = h.indexed;
    }

    register-HasReady :
        (path : Str) (p : SpatialSource W) (src : Source) (r : SourceRegistry W)
        → src.id ≡ derive_source_id path
        → HasReady path (register env p src r)
    unfolding register
    register-HasReady path p src r is_id =
        let names = map (λ (l : Layer). l.name) src.layers in
        let same : (prepared env p src r.world).id ≡ src.id =
          prepare_layers-id (λ _. Unit {0}) p names src r.world in
        update_metrics-HasReady path _ (
          mark_ready_lem path (prepared env p src r.world) _ (indexing env p src r)
            (subst
              (λ k.
                lookup k (indexing env p src r).sources
                ≡ some (record { source = some src; repo = some p; status = status_indexing }))
              (sym same) (lookup-insert_self src.id _ r.sources))
            (same ∙ is_id))

    -- What an operation that did not fail leaves.
    abbrev IfLoaded : Str → Option Error × SourceRegistry W → Type 0
    IfLoaded path q = q.0 ≡ none → HasReady path q.1

    load_fresh-HasReady :
        (path : Str) (r : SourceRegistry W)
        → All OpensUnderId r.providers
        → IfLoaded path (load_fresh env path r)
    unfolding load_fresh
    load_fresh-HasReady path r laws =
        result_cases (IfLoaded path) (provider_for path r.providers) (λ e no_adapter. λ done. cc)
          λ p found.
            let w = (p.open_source path r.world).1 in
            result_cases (IfLoaded path) (p.open_source path r.world).0 (λ e failed. λ done. cc)
              λ src opened done.
                let law =
                  provider_for-law OpensUnderId path r.providers laws p found path r.world src
                    opened in
                register-HasReady path p src (record r { world = w }) law

    pub load_source_ready :
        (path : Str) (r : SourceRegistry W)
        → All OpensUnderId r.providers
        → (load_source env path r).0 ≡ none
        → HasReady path (load_source env path r).1
    unfolding load_source
    load_source_ready path r laws =
        let id = derive_source_id path in
        option_cases (IfLoaded path) (loaded_source_path id r)
          (λ fresh. load_fresh-HasReady path r laws)
          λ existing found.
            if_cases (IfLoaded path) (not (str_eq existing path)) (λ other done. cc)
              λ same.
                load_fresh-HasReady path (unload_source id r).1
                  (subst (All OpensUnderId) (sym (providers-unload env id r)) laws)

  -- What an unload of the entry `e` of `r`, whose adapter is `repo`, comes to.
  abbrev pub UnloadOutcomes :
      Str → SpatialSource W → SourceRegistry W → Option Error × SourceRegistry W → Type 0
  UnloadOutcomes id repo r q =
      ((repo.close id r.world).0 ≡ none
        → (q.0 ≡ none)
          × (is_loaded id q.1 ≡ false)
          × (q.1.loaded_count ≡ length q.1.sources)
          × (q.1.ready_count ≡ count_ready q.1.sources))
      × ((error : Error)
          → (repo.close id r.world).0 ≡ some error
          → (q.0 ≡ some error)
            × (get_source_status id q.1 ≡ ok status_unloading)
            × (source_is_ready id q.1 ≡ false)
            × (q.1.ready_count ≡ r.ready_count)
            × (q.1.loaded_count ≡ r.loaded_count))

  unload_entry_outcomes :
      (id : Str) (e : SourceEntry W) (repo : SpatialSource W) (r : SourceRegistry W)
      → UnloadOutcomes id repo r (unload_entry id (record e { repo = some repo }) r)
  unfolding unload_entry update_metrics is_loaded get_source_status source_is_ready
  unload_entry_outcomes id e repo r =
      option_cases (UnloadOutcomes id repo r) (repo.close id r.world).0
        (λ closed.
          (λ _. (refl, rw (is_loaded, gone) refl, refl, refl), λ error failed. absurd (cc)))
        (λ f failed. (
          λ closed. absurd (cc),
          λ error is. (
            sym failed ∙ is,
            rw (get_source_status, found) refl,
            rw (source_is_ready, found) refl,
            refl,
            refl,
          ),
        ))
    where
      unloading : Map (SourceEntry W)
      unloading = insert id (record e { repo = some repo; status = status_unloading }) r.sources

      found : lookup id unloading ≡ some (record e { repo = some repo; status = status_unloading })
      found = lookup-insert_self id _ r.sources

      gone : lookup id (delete id unloading) ≡ none
      gone = lookup-delete_self id unloading

  unload_outcomes :
      (id : Str) (e : SourceEntry W) (repo : SpatialSource W) (r : SourceRegistry W)
      → lookup id r.sources ≡ some e
      → e.repo ≡ some repo
      → UnloadOutcomes id repo r (unload_source id r)
  unfolding unload_source
  unload_outcomes id e repo r h is =
      rw (unload_source, h)
        (subst (λ o. UnloadOutcomes id repo r (unload_entry id (record e { repo = o }) r)) (sym is)
          (unload_entry_outcomes id e repo r))

  -- Unloading a source that its adapter closes reports no error, removes the source and sets the
  -- gauges to what is left.
  pub unload_source_closed :
      (id : Str) (e : SourceEntry W) (repo : SpatialSource W) (r : SourceRegistry W)
      → lookup id r.sources ≡ some e
      → e.repo ≡ some repo
      → (repo.close id r.world).0 ≡ none
      → let q = unload_source id r in
        (q.0 ≡ none)
        × (is_loaded id q.1 ≡ false)
        × (q.1.loaded_count ≡ length q.1.sources)
        × (q.1.ready_count ≡ count_ready q.1.sources)
  unload_source_closed id e repo r h is closed = (unload_outcomes id e repo r h is).0 closed
