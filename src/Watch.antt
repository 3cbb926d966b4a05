-- ===== src/Watch.antt =====
-- The file watcher of internal/adapters/watcher/watcher.go: the pending events of files and their
-- debouncing. The set of flags of an fsnotify event is a parameter, with its tests. `time.Now` is
-- an argument of the handlers, which hold the watcher's lock and run one at a time.
pub mod Tracks
pub mod Quiet
pub mod Presence
pub mod Reload
mod Tests
use ortus.Common.{
  ℕ, ◌≡◌, Bool, true, false, not, Option, none, some, List, [], ◌∷◌, ◌++◌, Str, bytes, ◌==◌,
  if◌then◌else◌,
}
use ortus.Common.Maps.{Map, lookup, insert, delete}
use ortus.Common.Int.{ℤ, pos, ltb_ℤ}
use ortus.Common.Clock.{Time, sub_time}
use ortus.Domain.Paths.{is_supported_source_file}
use ortus.Domain.Coordinates.{eq_ℤ}

pub data Operation : Type 0 where
  op_create op_modify op_delete : Operation

unfoldable pub operation_text : Operation → Str
operation_text op_create = bytes "create"
operation_text op_modify = bytes "modify"
operation_text op_delete = bytes "delete"

pub record Event : Type 0 where
  pub path : Str
  pub operation : Operation

pub record PendingEvent : Type 0 where
  pub timestamp : Time
  pub op : Operation

pub record Watcher : Type 0 where
  pub debounce : ℤ
  pub pending : Map PendingEvent

abbrev pub default_debounce : ℤ
default_debounce = pos 500_000_000

-- `New`
unfoldable pub new_watcher : ℤ → Watcher
new_watcher debounce = record {
  debounce = if eq_ℤ debounce (pos 0) then default_debounce else debounce;
  pending = [];
}

-- The operation of a pending event when another one comes in.
unfoldable pub updated_operation : Operation → Operation → Operation
updated_operation op_delete op_create = op_create
updated_operation existing op_delete = op_delete
updated_operation existing _ = existing

unfoldable pub update_pending_event : Time → PendingEvent → Operation → PendingEvent
unfolding updated_operation
update_pending_event now existing new_op = record existing {
  timestamp = now;
  op = updated_operation existing.op new_op;
}

-- What `handleFsEvent` does with the lock held.
unfoldable pub add_pending : Str → Operation → Time → Watcher → Watcher
add_pending name op now w = record w {
  pending =
      insert name
        (elim (lookup name w.pending) [
          | none ↦ record { timestamp = now; op = op }
          | some existing ↦ update_pending_event now existing op
        ])
        w.pending;
}

-- `fsnotify.Op.Has` for the flags that are asked for.
pub record Flags (Op : Type 0) : Type 0 where
  pub has_remove : Op → Bool
  pub has_rename : Op → Bool
  pub has_create : Op → Bool

module _ {Op : Type 0} (flags : Flags Op) where
  unfoldable pub fsnotify_op_to_operation : Op → Operation
  fsnotify_op_to_operation op =
      if flags.has_remove op
      then op_delete
      else if flags.has_rename op
      then op_delete
      else if flags.has_create op
      then op_create
      else op_modify

  unfoldable pub handle_fs_event : Str → Op → Time → Watcher → Watcher
  handle_fs_event name op now w =
      if not (is_supported_source_file name)
      then w
      else add_pending name (fsnotify_op_to_operation op) now w

-- `now.Sub(pending.timestamp) < w.debounce`
unfoldable pub is_fresh : ℤ → Time → PendingEvent → Bool
is_fresh debounce now p = ltb_ℤ (sub_time now p.timestamp) debounce

-- The loop over the pending events, which deletes the entry that it visits. The events are those
-- that the handler is called for.
unfoldable pub process_entries : Time → Map PendingEvent → Watcher → List Event × Watcher
process_entries now [] w = ([], w)
process_entries now ((path, p) ∷ rest) w = elim (is_fresh w.debounce now p) [
  | true ↦ process_entries now rest w
  | false ↦
      (let (events, w') = process_entries now rest (record w { pending = delete path w.pending }) in
        (record { path = path; operation = p.op } ∷ events, w'))
]

unfoldable pub process_pending : Time → Watcher → List Event × Watcher
process_pending now w = process_entries now w.pending w

-- What the two loops of the watcher get, in the order in which they take the lock.
pub data Step (Op : Type 0) : Type 0 where
  fs_event : Str → Op → Time → Step Op
  tick : Time → Step Op

module _ {Op : Type 0} (flags : Flags Op) where
  unfoldable pub step : Step Op → Watcher → List Event × Watcher
  step (fs_event name op now) w = ([], handle_fs_event flags name op now w)
  step (tick now) w = process_pending now w

  unfoldable pub run : List (Step Op) → Watcher → List Event × Watcher
  run [] w = ([], w)
  run (s ∷ steps) w =
      let (events, w') = step s w in let (later, w'') = run steps w' in (events ++ later, w'')
