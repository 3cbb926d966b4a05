-- ===== src/Registry/Loading.antt =====
-- What loading and unloading one source of internal/application/registry.go does to the registry.
use ortus.Common.{
  ◌≡◌, refl, sym, subst, ◌∙◌, ap, false, not, none, some, map, Str, arith, str_eq, str_eq_iff,
  if_cases, option_cases, inl, inr, Bool-cases,
}
use ortus.Common.Maps.{lookup, insert, delete, lookup-insert, lookup-delete}
use ortus.Common.Sort.{All}
use ortus.Domain.Errors.{ok, source_id_collision, result_cases}
use ortus.Domain.Types.{Source, status_indexing, status_unloading}
use ortus.Domain.Paths.{derive_source_id}
use ortus.Registry.Types.{SpatialSource, Environment, SourceEntry, SourceRegistry}
use ortus.Registry.Load.{
  update_metrics, provider_for, unload_entry, unload_source, prepare_layers, mark_ready, register,
  load_fresh, load_source, loaded_source_path,
}
use ortus.Registry.Invariant.{Leaves, provider_for-law, prepare_layers-id}

-- What every adapter does when it opens a file: the source has the id that is derived from the
-- file's path. It may be one that was opened before under that id.
abbrev pub OpensUnderId : {W : Type 0} → SpatialSource W → Type 0
OpensUnderId {W} p =
    (path : Str) (w : W) (s : Source)
    → (p.open_source path w).0 ≡ ok s
    → s.id ≡ derive_source_id path

-- Closing a source does not fail.
abbrev pub ClosesAlways : {W : Type 0} → SpatialSource W → Type 0
ClosesAlways {W} p = (id : Str) (w : W) → (p.close id w).0 ≡ none

module _ {W : Type 0} where
  -- The entry of `k` is what it was.
  abbrev pub Keeps : Str → SourceRegistry W → SourceRegistry W → Type 0
  Keeps k r q = lookup k q.sources ≡ lookup k r.sources

  pub unload_source-Keeps :
      (id k : Str) (r : SourceRegistry W) → str_eq id k ≡ false → Keeps k r (unload_source id r).1
  unfolding unload_source unload_entry update_metrics
  unload_source-Keeps id k r ne =
      option_cases (Leaves (Keeps k r)) (lookup id r.sources) (λ absent. refl)
        λ e h.
          let unloading = insert id (record e { status = status_unloading }) r.sources in
          let same : lookup k unloading ≡ lookup k r.sources =
            ground
              (arith, ne, lookup-insert id k (record e { status = status_unloading }) r.sources) in
          let gone : lookup k (delete id unloading) ≡ lookup k r.sources =
            ground (arith, ne, same, lookup-delete id k unloading) in
          option_cases (Leaves (Keeps k r)) e.repo (λ nil. gone)
            λ repo is.
              option_cases (Leaves (Keeps k r)) (repo.close id r.world).0 (λ closed. gone)
                (λ error failed. same)

  loaded_from :
      (id : Str) (r : SourceRegistry W) (e : SourceEntry W) (s : Source)
      → lookup id r.sources ≡ some e
      → e.source ≡ some s
      → loaded_source_path id r ≡ some s.path
  unfolding loaded_source_path
  loaded_from id r e s h is_s = rw (loaded_source_path, h) (rw is_s refl)

  module _ (env : Environment W) where
    mark_ready-Keeps :
        (src : Source) (k : Str) (r : SourceRegistry W)
        → str_eq src.id k ≡ false
        → Keeps k r (mark_ready env src r)
    unfolding mark_ready
    mark_ready-Keeps src k r ne =
        option_cases (Keeps k r) (lookup src.id r.sources) (λ absent. refl)
          λ e h. rw lookup-insert (rw ne refl)

    -- The registry while the source is being prepared.
    abbrev pub indexing : SpatialSource W → Source → SourceRegistry W → SourceRegistry W
    indexing p src r = record r {
      sources =
          insert src.id (record { source = some src; repo = some p; status = status_indexing })
            r.sources;
      world = (prepare_layers p (map (λ l. l.name) src.layers) src r.world).1;
    }

    abbrev pub prepared : SpatialSource W → Source → W → Source
    prepared p src w = (prepare_layers p (map (λ l. l.name) src.layers) src w).0

    register-Keeps :
        (p : SpatialSource W) (src : Source) (k : Str) (r : SourceRegistry W)
        → str_eq src.id k ≡ false
        → Keeps k r (register env p src r)
    unfolding register update_metrics
    register-Keeps p src k r ne =
        mark_ready-Keeps (prepared p src r.world) k (indexing p src r) (
          subst (λ j. str_eq j k ≡ false)
            (sym (prepare_layers-id (λ _. Unit {0}) p (map (λ l. l.name) src.layers) src r.world))
            ne)
        ∙ rw lookup-insert (rw ne refl)

    load_fresh-Keeps :
        (path k : Str) (r : SourceRegistry W)
        → All OpensUnderId r.providers
        → str_eq (derive_source_id path) k ≡ false
        → Keeps k r (load_fresh env path r).1
    unfolding load_fresh
    load_fresh-Keeps path k r laws ne =
        result_cases (Leaves (Keeps k r)) (provider_for path r.providers) (λ e no_adapter. refl)
          λ p found.
            let w = (p.open_source path r.world).1 in
            result_cases (Leaves (Keeps k r)) (p.open_source path r.world).0 (λ e failed. refl)
              λ src opened.
                register-Keeps p src k (record r { world = w })
                  (subst (λ j. str_eq j k ≡ false)
                    (sym (
                      provider_for-law OpensUnderId path r.providers laws p found path r.world src
                        opened))
                    ne)

    pub providers-unload :
        (id : Str) (r : SourceRegistry W) → (unload_source id r).1.providers ≡ r.providers
    unfolding unload_source unload_entry update_metrics
    providers-unload id r = ground arith

    pub load_source-Keeps :
        (path k : Str) (r : SourceRegistry W)
        → All OpensUnderId r.providers
        → str_eq (derive_source_id path) k ≡ false
        → Keeps k r (load_source env path r).1
    unfolding load_source
    load_source-Keeps path k r laws ne =
        let id = derive_source_id path in
        option_cases (Leaves (Keeps k r)) (loaded_source_path id r)
          (λ fresh. load_fresh-Keeps path k r laws ne)
          λ existing found.
            if_cases (Leaves (Keeps k r)) (not (str_eq existing path)) (λ other. refl)
              λ same.
                load_fresh-Keeps path k (unload_source id r).1
                  (subst (All OpensUnderId) (sym (providers-unload id r)) laws) ne
                ∙ unload_source-Keeps id k r ne

    -- Loading a file whose id is that of a source loaded from another file fails with the collision
    -- error and leaves the registry and the outside world as they were.
    load_source_collision :
        (path : Str) (r : SourceRegistry W) (e : SourceEntry W) (s : Source)
        → lookup (derive_source_id path) r.sources ≡ some e
        → e.source ≡ some s
        → str_eq s.path path ≡ false
        → load_source env path r ≡ (some source_id_collision, r)
    unfolding load_source
    load_source_collision path r e s h is_s other =
        let found : loaded_source_path (derive_source_id path) r ≡ some s.path =
          loaded_from (derive_source_id path) r e s h is_s in
        rw (load_source, found) (rw other refl)

    -- With adapters that open a source under the id of its file, loading a file changes
    -- nothing of a source that is loaded from another file, whether the ids collide or not.
    pub load_keeps_other_files :
        (path k : Str) (r : SourceRegistry W) (e : SourceEntry W) (s : Source)
        → All OpensUnderId r.providers
        → lookup k r.sources ≡ some e
        → e.source ≡ some s
        → str_eq s.path path ≡ false
        → lookup k (load_source env path r).1.sources ≡ some e
    load_keeps_other_files path k r e s laws h is_s other =
        elim (Bool-cases (str_eq (derive_source_id path) k)) [
          | inl hit ↦
              let same = (str_eq_iff (derive_source_id path) k).0 hit in
              ap (λ q. lookup k q.1.sources)
                (load_source_collision path r e s (ap (λ j. lookup j r.sources) same ∙ h) is_s
                  other)
              ∙ h
          | inr miss ↦ load_source-Keeps path k r laws miss ∙ h
        ]
