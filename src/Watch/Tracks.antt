-- ===== src/Watch/Tracks.antt =====
-- The watcher of internal/adapters/watcher/watcher.go seen from one file: its pending event alone.
use ortus.Common.{
  ◌≡◌, refl, ap₂, ◌∙◌, subst, subst₂, if_cases, true, false, not, Option, none, some, List, [], ◌∷◌,
  ◌++◌, Str, str_eq, str_eq_iff, str_eq_refl, elem, arith, if◌then◌else◌, Bool-cases, inl, inr,
}
use ortus.Common.Maps.{Map, lookup, delete, lookup-insert, lookup-insert_self, lookup-delete}
use ortus.Common.Keys.{Distinct, keys, insert-Distinct, delete-Distinct, lookup_absent}
use ortus.Common.Int.{ℤ}
use ortus.Common.Clock.{Time}
use ortus.Domain.Paths.{is_supported_source_file}
use ortus.Watch.{
  Operation, Event, PendingEvent, Watcher, update_pending_event, add_pending, Flags,
  fsnotify_op_to_operation, handle_fs_event, is_fresh, process_entries, process_pending,
  new_watcher, Step, fs_event, tick, step, run,
}

-- The operations of the events for a file.
unfoldable pub operations_of : Str → List Event → List Operation
operations_of file [] = []
operations_of file (e ∷ events) =
    if str_eq e.path file
    then e.operation ∷ operations_of file events
    else operations_of file events

pub operations_of-append :
    (file : Str) (xs ys : List Event)
    → operations_of file (xs ++ ys) ≡ operations_of file xs ++ operations_of file ys
unfolding operations_of
operations_of-append file [] ys = refl
operations_of-append file (e ∷ xs) ys = ground (arith, operations_of-append file xs ys)

-- An operation on the file.
unfoldable pub track_event : Operation → Time → Option PendingEvent → PendingEvent
track_event op now none = record { timestamp = now; op = op }
track_event op now (some p) = update_pending_event now p op

-- A tick.
unfoldable pub track_tick : ℤ → Time → Option PendingEvent → List Operation × Option PendingEvent
track_tick debounce now none = ([], none)
track_tick debounce now (some p) =
    if is_fresh debounce now p then ([], some p) else (p.op ∷ [], none)

module _ {Op : Type 0} (flags : Flags Op) (file : Str) (debounce : ℤ) where
  unfoldable pub track_step : Step Op → Option PendingEvent → List Operation × Option PendingEvent
  track_step (fs_event name op now) t = (
    [],
    if is_supported_source_file name
        then (if str_eq name file
            then some (track_event (fsnotify_op_to_operation flags op) now t)
            else t)
        else t,
  )
  track_step (tick now) t = track_tick debounce now t

  unfoldable pub track_run :
      List (Step Op) → Option PendingEvent → List Operation × Option PendingEvent
  track_run [] t = ([], t)
  track_run (s ∷ steps) t =
      let (ops, t') = track_step s t in let (later, t'') = track_run steps t' in (ops ++ later, t'')

-- What a tick does to one file, seen in the part of the pending events that is left to visit.
record Visits (file : Str) (now : Time) (m : Map PendingEvent) (w : Watcher) : Type 0 where
  operations :
      operations_of file (process_entries now m w).0 ≡ (track_tick w.debounce now (lookup file m)).0
  kept :
      lookup file (process_entries now m w).1.pending
      ≡ elim (track_tick w.debounce now (lookup file m)).0 [
        | [] ↦ lookup file w.pending
        | op ∷ ops ↦ none
      ]
  debounce : (process_entries now m w).1.debounce ≡ w.debounce
  distinct : Distinct (keys (process_entries now m w).1.pending)

absent_after :
    (j k : Str) (m : Map PendingEvent)
    → str_eq j k ≡ true
    → elem j (keys m) ≡ false
    → lookup k m ≡ none
absent_after j k m s h =
    lookup_absent k m (subst (λ i. elem i (keys m) ≡ false) ((str_eq_iff j k).0 s) h)

visits :
    (file : Str) (now : Time) (m : Map PendingEvent) (w : Watcher)
    → Distinct (keys m)
    → Distinct (keys w.pending)
    → Visits file now m w
unfolding process_entries operations_of track_tick lookup
visits file now [] w d e = record { operations = refl; kept = refl; debounce = refl; distinct = e }
visits file now ((path, p) ∷ m) w d e =
    let other = λ (s : str_eq path file ≡ true). absent_after path file m s d.0 in
    elim (Bool-cases (is_fresh w.debounce now p)) [
      | inl fresh ↦
          let v = visits file now m w d.1 e in
          record {
            operations = rw (fresh, process_entries) ground (arith, v.operations, fresh, other);
            kept = rw (fresh, process_entries) ground (arith, v.operations, v.kept, fresh, other);
            debounce = rw (fresh, process_entries) v.debounce;
            distinct = rw (fresh, process_entries) v.distinct;
          }
      | inr due ↦
          let v =
            visits file now m (record w { pending = delete path w.pending }) d.1
              (delete-Distinct path w.pending e) in
          record {
            operations = rw (due, process_entries) ground (arith, v.operations, due, other);
            kept =
                rw (due, process_entries)
                  (ground
                    (arith, v.operations, v.kept, due, other, lookup-delete path file w.pending));
            debounce = rw (due, process_entries) v.debounce;
            distinct = rw (due, process_entries) v.distinct;
          }
    ]

-- What an operation of the watcher does to a file, with its pending event `t` before.
pub record Follows (file : Str) (t : List Operation × Option PendingEvent) (debounce : ℤ)
    (r : List Event × Watcher) : Type 0 where
  pub operations : operations_of file r.0 ≡ t.0
  pub kept : lookup file r.1.pending ≡ t.1
  pub debounce_kept : r.1.debounce ≡ debounce
  pub distinct : Distinct (keys r.1.pending)

pub process_pending-Follows :
    (file : Str) (now : Time) (w : Watcher)
    → Distinct (keys w.pending)
    → Follows file
        (track_tick w.debounce now (lookup file w.pending))
        w.debounce
        (process_pending now w)
unfolding process_pending track_tick
process_pending-Follows file now w d =
    let v = visits file now w.pending w d d in
    record {
      operations = v.operations;
      kept = ground (arith, v.kept);
      debounce_kept = v.debounce;
      distinct = v.distinct;
    }

abbrev after_event : Str → Str → Operation → Time → Watcher → Option PendingEvent
after_event file name op now w =
    if str_eq name file
    then some (track_event op now (lookup file w.pending))
    else lookup file w.pending

add_pending-kept :
    (file name : Str) (op : Operation) (now : Time) (w : Watcher)
    → lookup file (add_pending name op now w).pending ≡ after_event file name op now w
unfolding add_pending track_event
add_pending-kept file name op now w = elim (Bool-cases (str_eq name file)) [
  | inl same ↦
      subst (λ f. lookup f (add_pending name op now w).pending ≡ after_event f name op now w)
        ((str_eq_iff name file).0 same)
        (rw
          (
            lookup-insert_self name (track_event op now (lookup name w.pending)) w.pending,
            str_eq_refl name,
          )
          refl)
  | inr other ↦ rw (lookup-insert name file _ w.pending, other) refl
]

module _ {Op : Type 0} (flags : Flags Op) (file : Str) where
  pub step-Follows :
      (s : Step Op) (w : Watcher)
      → Distinct (keys w.pending)
      → Follows file
          (track_step flags file w.debounce s (lookup file w.pending))
          w.debounce
          (step flags s w)
  unfolding step track_step handle_fs_event operations_of add_pending
  step-Follows (tick now) w d = process_pending-Follows file now w d
  step-Follows (fs_event name op now) w d =
      if_cases
        (λ e.
          Follows file
            (
              [],
              if is_supported_source_file name
                  then after_event file name (fsnotify_op_to_operation flags op) now w
                  else lookup file w.pending,
            )
            w.debounce ([], e))
        (not (is_supported_source_file name))
        (λ skipped. record {
          operations = refl;
          kept = ground (arith, skipped);
          debounce_kept = refl;
          distinct = d;
        })
        (λ seen. record {
          operations = refl;
          kept =
              ground
                (arith, seen, add_pending-kept file name (fsnotify_op_to_operation flags op) now w);
          debounce_kept = refl;
          distinct = insert-Distinct name _ w.pending d;
        })

  pub run-Follows :
      (steps : List (Step Op)) (w : Watcher)
      → Distinct (keys w.pending)
      → Follows file
          (track_run flags file w.debounce steps (lookup file w.pending))
          w.debounce
          (run flags steps w)
  unfolding run track_run operations_of
  run-Follows [] w d = record { operations = refl; kept = refl; debounce_kept = refl; distinct = d }
  run-Follows (s ∷ steps) w d =
      let v = step-Follows s w d in
      let r = run-Follows steps (step flags s w).1 v.distinct in
      let r' =
        subst₂
          (λ d t.
            Follows file (track_run flags file d steps t) d (run flags steps (step flags s w).1))
          v.debounce_kept v.kept r in
      record {
        operations =
            operations_of-append file (step flags s w).0 _ ∙ ap₂ ◌++◌ v.operations r'.operations;
        kept = r'.kept;
        debounce_kept = r'.debounce_kept;
        distinct = r'.distinct;
      }

  -- From the start, whatever comes in: the events that the handler gets for a file, and what is
  -- pending for it, are those of a watcher that watches this file alone.
  pub run-new_watcher-track :
      (steps : List (Step Op)) (debounce : ℤ)
      → let d = (new_watcher debounce).debounce in
        (operations_of file (run flags steps (new_watcher debounce)).0
          ≡ (track_run flags file d steps none).0)
        × (lookup file (run flags steps (new_watcher debounce)).1.pending
            ≡ (track_run flags file d steps none).1)
  unfolding new_watcher lookup
  run-new_watcher-track steps debounce =
      let r = run-Follows steps (new_watcher debounce) tt in (r.operations, r.kept)
