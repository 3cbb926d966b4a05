-- ===== src/Watch/Reload.antt =====
-- The watcher's handler, `handleFileEvent` of internal/app/app.go, over the registry of
-- internal/application/registry.go.
use ortus.Common.{
  ◌≡◌, refl, false, Option, none, Str, str_eq, str_eq_iff, ◌⊎◌, Bool-cases, Option-cases, inl, inr,
}
use ortus.Common.Maps.{lookup}
use ortus.Common.Sort.{All}
use ortus.Domain.Errors.{Error}
use ortus.Domain.Paths.{derive_source_id}
use ortus.Registry.Types.{Environment, SourceRegistry}
use ortus.Registry.Load.{load_source, unload_source, is_loaded}
use ortus.Registry.Invariant.{IsValid}
use ortus.Registry.Loading.{OpensUnderId, ClosesAlways, unload_source-Keeps, load_source-Keeps}
use ortus.Registry.Outcome.{HasReady, load_source_ready, unload_source_closed}
use ortus.Watch.{Operation, op_create, op_modify, op_delete, Event}

module _ {W : Type 0} where
  -- What the handler of an event with that operation leaves.
  abbrev pub Reloaded : Str → Operation → Option Error × SourceRegistry W → Type 0
  Reloaded path op_delete q = (q.0 ≡ none) × (is_loaded (derive_source_id path) q.1 ≡ false)
  Reloaded path _ q = q.0 ≡ none → HasReady path q.1

  unloaded :
      (id : Str) (r : SourceRegistry W)
      → IsValid ClosesAlways r
      → is_loaded id (unload_source id r).1 ≡ false
  unfolding is_loaded unload_source
  unloaded id r v = elim (Option-cases (lookup id r.sources)) [
    | inl absent ↦ rw (absent, unload_source) (rw (absent, is_loaded) refl)
    | inr (e, h) ↦
        let w = v.entries id e h in
        (unload_source_closed id e w.repo r h w.has_repo (w.law id r.world)).1
  ]

module _ {W : Type 0} (env : Environment W) where
  unfoldable pub handle_file_event : Event → SourceRegistry W → Option Error × SourceRegistry W
  handle_file_event e r = elim e.operation [
    | op_create ↦ load_source env e.path r
    | op_modify ↦ load_source env e.path r
    | op_delete ↦ (none, (unload_source (derive_source_id e.path) r).1)
  ]

  unload_source-others :
      (id k : Str) (r : SourceRegistry W)
      → (id ≡ k) ⊎ (lookup k (unload_source id r).1.sources ≡ lookup k r.sources)
  unload_source-others id k r = elim (Bool-cases (str_eq id k)) [
    | inl same ↦ inl ((str_eq_iff id k).0 same)
    | inr other ↦ inr (unload_source-Keeps id k r other)
  ]

  load_source-others :
      (path k : Str) (r : SourceRegistry W)
      → All OpensUnderId r.providers
      → (derive_source_id path ≡ k)
        ⊎ (lookup k (load_source env path r).1.sources ≡ lookup k r.sources)
  load_source-others path k r laws = elim (Bool-cases (str_eq (derive_source_id path) k)) [
    | inl same ↦ inl ((str_eq_iff (derive_source_id path) k).0 same)
    | inr other ↦ inr (load_source-Keeps env path k r laws other)
  ]

  -- Over a valid registry whose adapters open a source under the id of its file and close what they
  -- opened: when the handler of a created or modified file reports no error, a source of the file's
  -- id is loaded and ready; when the file was deleted, the handler reports no error and no source is
  -- loaded under the file's id. Whatever the event, the entry of every other id is what it was.
  pub handle_file_event_lem :
      (e : Event) (k : Str) (r : SourceRegistry W)
      → IsValid ClosesAlways r
      → All OpensUnderId r.providers
      → Reloaded e.path e.operation (handle_file_event e r)
        × ((derive_source_id e.path ≡ k)
            ⊎ (lookup k (handle_file_event e r).1.sources ≡ lookup k r.sources))
  unfolding handle_file_event
  handle_file_event_lem e k r v laws = by_operation e.path e.operation
    where
      by_operation :
          (path : Str) (op : Operation)
          → Reloaded path op (handle_file_event (record { path = path; operation = op }) r)
            × ((derive_source_id path ≡ k)
                ⊎ (lookup k (handle_file_event (record { path = path; operation = op }) r).1.sources
                    ≡ lookup k r.sources))
      by_operation path op_create =
          (load_source_ready env path r laws, load_source-others path k r laws)
      by_operation path op_modify =
          (load_source_ready env path r laws, load_source-others path k r laws)
      by_operation path op_delete = (
        (refl, unloaded (derive_source_id path) r v),
        unload_source-others (derive_source_id path) k r,
      )
