-- ===== src/Services/Health.antt =====
-- `ListSources` of internal/application/registry.go and the readiness of
-- internal/application/health.go.
use ortus.Common.{
  ◌≡◌, refl, Bool, true, false, not, Option, none, some, List, [], ◌∷◌, Str, arith, if◌then◌else◌,
  if_cases, option_cases, str_eq, str_eq_refl, str_eq_iff,
}
use ortus.Common.Maps.{Map, lookup}
use ortus.Common.Sort.{All, All-Unit}
use ortus.Common.Keys.{Distinct, keys, lookup_absent}
use ortus.Domain.Errors.{ok, result_cases}
use ortus.Domain.Types.{Source, is_ready}
use ortus.Domain.Paths.{derive_source_id}
use ortus.Registry.Types.{Environment, SourceEntry, SourceRegistry, SpatialSource}
use ortus.Registry.Load.{
  update_metrics, unload_entry, unload_source, mark_ready, register, load_fresh, load_source,
  provider_for, loaded_source_path,
}
use ortus.Registry.Sync.{load_all}
use ortus.Registry.Invariant.{IsValid, Leaves}
use ortus.Registry.History.{
  Operation, load, unload, loads_all, syncs, step, run, run-IsValid, IsClosed, run-closed,
  sync-closed, new_source_registry, run-new_source_registry-IsValid,
}

unfoldable pub any_ready : List Source → Bool
any_ready [] = false
any_ready (s ∷ ss) = if is_ready s then true else any_ready ss

module _ {W : Type 0} where
  -- `ListSources`; `none` is the nil dereference of an entry without a source.
  unfoldable pub list_entries : Map (SourceEntry W) → Option (List Source)
  list_entries [] = some []
  list_entries ((id, e) ∷ m) =
      let rest = list_entries m in
      elim e.source [ none ↦ none | some s ↦ elim rest [ none ↦ none | some ss ↦ some (s ∷ ss) ] ]

  unfoldable pub list_sources : SourceRegistry W → Option (List Source)
  list_sources r = list_entries r.sources

  -- `HealthService.IsReady`, with the service's `readyWhenEmpty`.
  unfoldable pub service_is_ready : Bool → SourceRegistry W → Option Bool
  service_is_ready ready_when_empty r = elim (list_sources r) [
    | none ↦ none
    | some sources ↦ some (
        if any_ready sources
        then true
        else if not r.initial_load_done
        then false
        else ready_when_empty)
  ]

  -- The latch of the initial load.
  abbrev Latched : Bool → SourceRegistry W → Type 0
  Latched b r = r.initial_load_done ≡ b

  unload_source-Latched :
      (b : Bool) (id : Str) (r : SourceRegistry W) → Latched b r → Latched b (unload_source id r).1
  unfolding unload_source unload_entry update_metrics
  unload_source-Latched b id r h = ground (arith, h)

  module _ (env : Environment W) where
    mark_ready-Latched :
        (b : Bool) (src : Source) (r : SourceRegistry W)
        → Latched b r
        → Latched b (mark_ready env src r)
    unfolding mark_ready
    mark_ready-Latched b src r h = ground (arith, h)

    register-Latched :
        (b : Bool) (p : SpatialSource W) (src : Source) (r : SourceRegistry W)
        → Latched b r
        → Latched b (register env p src r)
    unfolding register update_metrics
    register-Latched b p src r h = mark_ready-Latched b _ _ h

    load_fresh-Latched :
        (b : Bool) (path : Str) (r : SourceRegistry W)
        → Latched b r
        → Latched b (load_fresh env path r).1
    unfolding load_fresh
    load_fresh-Latched b path r h =
        result_cases (Leaves (Latched b)) (provider_for path r.providers) (λ e no_adapter. h)
          λ p found.
            result_cases (Leaves (Latched b)) (p.open_source path r.world).0 (λ e failed. h)
              (λ src opened. register-Latched b p src _ h)

    load_source-Latched :
        (b : Bool) (path : Str) (r : SourceRegistry W)
        → Latched b r
        → Latched b (load_source env path r).1
    unfolding load_source
    load_source-Latched b path r h =
        let id = derive_source_id path in
        option_cases (Leaves (Latched b)) (loaded_source_path id r)
          (λ fresh. load_fresh-Latched b path r h)
          λ existing found.
            if_cases (Leaves (Latched b)) (not (str_eq existing path)) (λ other. h)
              (λ same. load_fresh-Latched b path _ (unload_source-Latched b id r h))

    Latched-IsClosed : (b : Bool) → IsClosed env (Latched b)
    Latched-IsClosed b = record {
      load_source = load_source-Latched b;
      unload_source = unload_source-Latched b;
      world = λ w r h. h;
    }

  list_entries_total :
      (m : Map (SourceEntry W))
      → ((k : Str) (e : SourceEntry W) → lookup k m ≡ some e → (s : Source) × (e.source ≡ some s))
      → Distinct (keys m)
      → (l : List Source) × (list_entries m ≡ some l)
  unfolding list_entries lookup
  list_entries_total [] h d = ([], refl)
  list_entries_total ((k, e) ∷ m) h d =
      let absent : lookup k m ≡ none = lookup_absent k m d.0 in
      let (s, is) = h k e (rw (lookup, str_eq_refl k) refl) in
      let (l, eq) =
        list_entries_total m (λ j f q. h j f (ground (arith, q, absent, str_eq_iff k j))) d.1 in
      (s ∷ l, rw is (rw eq refl))

  list_sources_total :
      (Q : SpatialSource W → Type 0) (r : SourceRegistry W)
      → IsValid Q r
      → (l : List Source) × (list_sources r ≡ some l)
  unfolding list_sources
  list_sources_total Q r v =
      list_entries_total r.sources
        (λ k e h. ((v.entries k e h).source, (v.entries k e h).has_source)) v.distinct

  answers_after_load :
      (Q : SpatialSource W → Type 0) (r : SourceRegistry W)
      → IsValid Q r
      → Latched true r
      → service_is_ready true r ≡ some true
  unfolding service_is_ready
  answers_after_load Q r v h =
      let (l, is) = list_sources_total Q r v in rw (service_is_ready, is) (rw h (ground arith))

  answers_before_load :
      (Q : SpatialSource W → Type 0) (r : SourceRegistry W) (empty : Bool)
      → IsValid Q r
      → Latched false r
      → (l : List Source) × (list_sources r ≡ some l)
        × (service_is_ready empty r ≡ some (any_ready l))
  unfolding service_is_ready
  answers_before_load Q r empty v h =
      let (l, is) = list_sources_total Q r v in
      (l, is, rw (service_is_ready, is) (rw h (ground arith)))

  module _ (env : Environment W) where
    load_all-Latched :
        (r : SourceRegistry W) (objects : List Str)
        → (env.list_objects r.world).0 ≡ ok objects
        → Latched true (load_all env r).1
    unfolding load_all
    load_all-Latched r objects listed = rw (load_all, listed) refl

    -- Once an initial load has listed the storage, a service whose policy is to be ready when empty
    -- reports ready after any further operations, whatever fails in them.
    pub ready_after_initial_load :
        (Q : SpatialSource W → Type 0) (r : SourceRegistry W) (objects : List Str)
        (os : List Operation)
        → IsValid Q r
        → (env.list_objects r.world).0 ≡ ok objects
        → service_is_ready true (run env os (load_all env r).1) ≡ some true
    unfolding run step
    ready_after_initial_load Q r objects os v listed =
        let q = (load_all env r).1 in
        answers_after_load Q (run env os q)
          (run-IsValid env Q os q (run-IsValid env Q (loads_all ∷ []) r v))
          (run-closed env (Latched-IsClosed env true) (λ n r' h. refl) os q
            (load_all-Latched r objects listed))

    abbrev pub is_initial_load : Operation → Bool
    is_initial_load loads_all = true
    is_initial_load _ = false

    run-Latched :
        (os : List Operation) (r : SourceRegistry W)
        → All (λ o. is_initial_load o ≡ false) os
        → Latched false r
        → Latched false (run env os r)
    unfolding run step
    run-Latched [] r other h = h
    run-Latched (load path ∷ os) r other h =
        run-Latched os _ other.1 (load_source-Latched env false path r h)
    run-Latched (unload id ∷ os) r other h =
        run-Latched os _ other.1 (unload_source-Latched false id r h)
    run-Latched (loads_all ∷ os) r other h = absurd (cc)
    run-Latched (syncs ∷ os) r other h =
        run-Latched os _ other.1 (sync-closed (Latched-IsClosed env false) r h)

    -- As long as a new registry has had no initial load, whatever the policy, the service reports
    -- ready exactly if some loaded source is.
    pub ready_before_initial_load :
        (providers : List (SpatialSource W)) (local_path : Str) (world : W) (os : List Operation)
        (empty : Bool)
        → All (λ o. is_initial_load o ≡ false) os
        → let r = run env os (new_source_registry providers local_path world) in
          (l : List Source) × (list_sources r ≡ some l)
          × (service_is_ready empty r ≡ some (any_ready l))
    unfolding new_source_registry
    ready_before_initial_load providers local_path world os empty other =
        let r = new_source_registry providers local_path world in
        answers_before_load (λ p. Unit {0}) (run env os r) empty
          (run-new_source_registry-IsValid env (λ p. Unit {0}) providers local_path world os
            (All-Unit providers))
          (run-Latched os r other refl)
