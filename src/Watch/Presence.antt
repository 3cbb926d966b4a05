-- ===== src/Watch/Presence.antt =====
-- The operation that the watcher of internal/adapters/watcher/watcher.go reports for several events
-- of a file, held against whether the file exists.
use ortus.Common.{
  ◌≡◌, Bool, true, false, not, Option, none, some, List, [], ◌∷◌, Str, str_eq, if◌then◌else◌,
}
use ortus.Watch.{
  Operation, op_create, op_modify, op_delete, PendingEvent, Flags, fsnotify_op_to_operation, Step,
  fs_event, tick,
}

abbrev is_delete : Operation → Bool
is_delete op_delete = true
is_delete _ = false

-- Whether the file is there after an operation.
abbrev pub exists_after : Operation → Bool → Bool
exists_after op_create b = true
exists_after op_modify b = b
exists_after op_delete b = false

module _ {Op : Type 0} (flags : Flags Op) (file : Str) where
  -- Whether the file is there after the steps, if it was (`b`) before.
  unfoldable pub exists_now : List (Step Op) → Bool → Bool
  exists_now [] b = b
  exists_now (fs_event name op now ∷ steps) b =
      exists_now steps
        (if str_eq name file then exists_after (fsnotify_op_to_operation flags op) b else b)
  exists_now (tick now ∷ steps) b = exists_now steps b

  -- What a file system reports: a file is modified only while it is there.
  abbrev pub IsPossible : List (Step Op) → Bool → Type 0
  IsPossible [] b = Unit
  IsPossible (fs_event name op now ∷ steps) b =
      (str_eq name file ≡ true → fsnotify_op_to_operation flags op ≡ op_modify → b ≡ true)
      × IsPossible steps
          (if str_eq name file then exists_after (fsnotify_op_to_operation flags op) b else b)
  IsPossible (tick now ∷ steps) b = IsPossible steps b

-- What one who believes the operations in turn, and last the pending one, takes the file to be.
abbrev pub believed : Bool → List Operation → Bool
believed b [] = b
believed b (o ∷ ops) = believed (not (is_delete o)) ops

abbrev pub pending_operation : Option PendingEvent → List Operation
pending_operation none = []
pending_operation (some p) = p.op ∷ []
