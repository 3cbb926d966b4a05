-- ===== src/Watch/Tests.antt =====
-- Files that come, change and go, under a watcher with the default debounce time.
use ortus.Common.{
  ◌⊎◌, ℕ, ◌*◌, ◌/◌, ◌%◌, ◌≡◌, refl, Bool, true, false, none, some, List, [], ◌∷◌, ◌++◌, Str, bytes,
  str_eq, ◌==◌,
}
use ortus.Common.Maps.{lookup, insert, delete}
use ortus.Common.Int.{pos, ltb_ℤ}
use ortus.Common.Clock.{Time, sub_time}
use ortus.Domain.Paths.{
  is_supported_source_file, has_suffix, has_prefix, derive_source_id, lower_byte,
}
use ortus.Fixtures.{gpkg_adapter, storage, gpkg_adapter-OpensUnderId, gpkg_adapter-ClosesAlways}
use ortus.Registry.Loading.{ClosesAlways}
use ortus.Registry.Types.{SourceRegistry}
use ortus.Registry.History.{new_source_registry, run-new_source_registry-IsValid}
use ortus.Watch.{
  Operation, op_create, op_modify, Flags, new_watcher, add_pending, update_pending_event,
  updated_operation, fsnotify_op_to_operation, handle_fs_event, is_fresh, process_entries,
  process_pending, Step, fs_event, tick, step, run,
}
use ortus.Watch.Tracks.{operations_of, track_run, run-new_watcher-track}
use ortus.Watch.Quiet.{last_seen, called_after_quiet, event_called_once}
use ortus.Watch.Reload.{handle_file_event, Reloaded, handle_file_event_lem}

abbrev has_bit : ℕ → ℕ → Bool
has_bit bit op = (op / bit) % 2 == 1

-- The bits of fsnotify: Create 1, Write 2, Remove 4, Rename 8.
abbrev bits : Flags ℕ
bits = record { has_remove = has_bit 4; has_rename = has_bit 8; has_create = has_bit 1 }

abbrev lakes : Str
lakes = bytes "lakes.gpkg"

abbrev ms : ℕ → Time
ms n = n * 1_000_000

-- A file that is written in pieces, and replaced.
abbrev steps : List (Step ℕ)
steps =
    fs_event lakes 1 (ms 0)
    ∷ fs_event lakes 2 (ms 50)
    ∷ fs_event (bytes "notes.txt") 1 (ms 60)
    ∷ tick (ms 500)
    ∷ tick (ms 600)
    ∷ fs_event lakes 4 (ms 700)
    ∷ fs_event lakes 1 (ms 720)
    ∷ []

supported : is_supported_source_file lakes ≡ true
unfolding is_supported_source_file has_suffix has_prefix lower_byte
supported = refl

run_runs :
    (run bits (steps ++ (tick (ms 1300) ∷ [])) (new_watcher (pos 0))).0
    ≡ record { path = lakes; operation = op_create }
      ∷ record { path = lakes; operation = op_create }
      ∷ []
unfolding run step new_watcher handle_fs_event add_pending update_pending_event updated_operation
    fsnotify_op_to_operation process_pending process_entries is_fresh is_supported_source_file
    has_suffix has_prefix lower_byte lookup insert delete str_eq
run_runs = refl

run-new_watcher-track_example :
    (operations_of lakes (run bits steps (new_watcher (pos 0))).0
      ≡ (track_run bits lakes (new_watcher (pos 0)).debounce steps none).0)
    × (lookup lakes (run bits steps (new_watcher (pos 0))).1.pending
        ≡ (track_run bits lakes (new_watcher (pos 0)).debounce steps none).1)
run-new_watcher-track_example = run-new_watcher-track bits lakes steps (pos 0)

called :
    operations_of lakes (process_pending (ms 1300) (run bits steps (new_watcher (pos 0))).1).0
    ≡ op_create ∷ []
unfolding run step new_watcher handle_fs_event add_pending update_pending_event updated_operation
    fsnotify_op_to_operation process_pending process_entries is_fresh is_supported_source_file
    has_suffix has_prefix lower_byte lookup insert delete str_eq operations_of
called = refl

called_after_quiet_example :
    (t : Time) × (last_seen lakes steps none ≡ some t)
    × (ltb_ℤ (sub_time (ms 1300) t) (new_watcher (pos 0)).debounce ≡ false)
called_after_quiet_example =
    called_after_quiet bits lakes (pos 0) steps (ms 1300) (λ silent. cc (called, silent))

abbrev others : List (Step ℕ)
others = fs_event (bytes "notes.txt") 1 (ms 60) ∷ tick (ms 100) ∷ []

event_called_once_example :
    let w =
      handle_fs_event bits lakes 2
        (ms 40)
        (run bits (fs_event lakes 1 (ms 0) ∷ []) (new_watcher (pos 0))).1 in
    let r = run bits others w in
    let last = process_pending (ms 600) r.1 in
    (o : Operation) × (operations_of lakes (r.0 ++ last.0) ≡ o ∷ [])
    × (lookup lakes last.1.pending ≡ none)
unfolding new_watcher str_eq
event_called_once_example =
    event_called_once bits lakes (pos 0) (fs_event lakes 1 (ms 0) ∷ []) others 2 (ms 40) (ms 600)
      supported (refl, (tt, tt)) refl

abbrev registry : SourceRegistry ℕ
registry = new_source_registry (gpkg_adapter ∷ []) (bytes "data") 7

handle_file_event_lem_example :
    let q = handle_file_event storage (record { path = lakes; operation = op_modify }) registry in
    Reloaded lakes op_modify q
    × ((derive_source_id lakes ≡ bytes "rivers")
        ⊎ (lookup (bytes "rivers") q.1.sources ≡ lookup (bytes "rivers") registry.sources))
unfolding new_source_registry ortus.Registry.History.run
handle_file_event_lem_example =
    handle_file_event_lem storage (record { path = lakes; operation = op_modify }) (bytes "rivers")
      registry
      (run-new_source_registry-IsValid storage ClosesAlways (gpkg_adapter ∷ []) (bytes "data") 7 []
        (gpkg_adapter-ClosesAlways, tt))
      (gpkg_adapter-OpensUnderId, tt)
