-- ===== src/Watch/Quiet.antt =====
-- When the watcher of internal/adapters/watcher/watcher.go calls its handler: after the debounce
-- time without a further event of the file.
use ortus.Common.{
  ◌≡◌, ◌≢◌, ◌⊎◌, refl, sym, ◌∙◌, ap, ap₂, subst, subst₂, true, false, Option, none, some, List, [],
  ◌∷◌, ◌++◌, Str, str_eq, str_eq_refl, arith, if◌then◌else◌, Bool-cases, inl, inr,
}
use ortus.Common.Maps.{lookup}
use ortus.Common.Keys.{Distinct, keys}
use ortus.Common.Int.{ℤ, ltb_ℤ}
use ortus.Common.Clock.{Time, sub_time}
use ortus.Common.Sort.{All}
use ortus.Domain.Paths.{is_supported_source_file}
use ortus.Watch.{
  Operation, PendingEvent, Watcher, update_pending_event, Flags, fsnotify_op_to_operation, is_fresh,
  handle_fs_event, process_pending, new_watcher, Step, fs_event, tick, step, run,
}
use ortus.Watch.Tracks.{
  operations_of, operations_of-append, step-Follows, track_event, track_tick, track_step, track_run,
  process_pending-Follows, run-Follows,
}

module _ {Op : Type 0} (file : Str) where
  -- The time of the last event of the file among the steps; `t` is that of the steps before.
  unfoldable pub last_seen : List (Step Op) → Option Time → Option Time
  last_seen [] t = t
  last_seen (fs_event name op now ∷ steps) t =
      last_seen steps
        (if is_supported_source_file name then (if str_eq name file then some now else t) else t)
  last_seen (tick now ∷ steps) t = last_seen steps t

  -- No event of the file.
  abbrev pub IsSilent : Step Op → Type 0
  IsSilent (fs_event name op now) = str_eq name file ≡ false
  IsSilent (tick now) = Unit

module _ {Op : Type 0} (flags : Flags Op) (file : Str) (debounce : ℤ) where
  track_run-time :
      (steps : List (Step Op)) (t : Option PendingEvent) (seen : Option Time)
      → ((p : PendingEvent) → t ≡ some p → seen ≡ some p.timestamp)
      → (p : PendingEvent) → (track_run flags file debounce steps t).1 ≡ some p
      → last_seen file steps seen ≡ some p.timestamp
  unfolding track_run track_step track_event update_pending_event last_seen track_tick
  track_run-time [] t seen h p e = h p e
  track_run-time (fs_event name op now ∷ steps) t seen h p e =
      track_run-time steps _ _ (λ q f. ground (arith, f, h q)) p e
  track_run-time (tick now ∷ steps) t seen h p e =
      track_run-time steps _ _ (λ q f. ground (arith, f, h q)) p e

  track_run-idle :
      (steps : List (Step Op))
      → All (IsSilent file) steps
      → track_run flags file debounce steps none ≡ ([], none)
  unfolding track_run track_step track_tick
  track_run-idle [] h = refl
  track_run-idle (fs_event name op now ∷ steps) h = ground (arith, h.0, track_run-idle steps h.1)
  track_run-idle (tick now ∷ steps) h = ground (arith, track_run-idle steps h.1)

  -- Steps without an event of the file keep what is pending or hand it to the handler, once.
  track_run-silent :
      (steps : List (Step Op)) (p : PendingEvent)
      → All (IsSilent file) steps
      → (track_run flags file debounce steps (some p) ≡ ([], some p))
        ⊎ (track_run flags file debounce steps (some p) ≡ (p.op ∷ [], none))
  unfolding track_run track_step track_tick
  track_run-silent [] p h = inl refl
  track_run-silent (fs_event name op now ∷ steps) p h =
      ground (arith, h.0, track_run-silent steps p h.1)
  track_run-silent (tick now ∷ steps) p h =
      ground (arith, track_run-silent steps p h.1, track_run-idle steps h.1)

not_fresh :
    (debounce : ℤ) (now : Time) (p : PendingEvent)
    → is_fresh debounce now p ≡ false
    → ltb_ℤ (sub_time now p.timestamp) debounce ≡ false
unfolding is_fresh
not_fresh debounce now p h = h

fresh_not :
    (debounce : ℤ) (now : Time) (p : PendingEvent)
    → ltb_ℤ (sub_time now p.timestamp) debounce ≡ false
    → is_fresh debounce now p ≡ false
unfolding is_fresh
fresh_not debounce now p h = h

-- What was pending, and has been handed to the handler or not, is so after a late tick.
settled :
    (debounce : ℤ) (now : Time) (p : PendingEvent) (r : List Operation × Option PendingEvent)
    → is_fresh debounce now p ≡ false
    → (r ≡ ([], some p)) ⊎ (r ≡ (p.op ∷ [], none))
    → (r.0 ++ (track_tick debounce now r.1).0 ≡ p.op ∷ [])
      × ((track_tick debounce now r.1).1 ≡ none)
unfolding track_tick
settled debounce now p r late h = ground (arith, late, h)

track_event-time :
    (op : Operation) (now : Time) (t : Option PendingEvent) → (track_event op now t).timestamp ≡ now
unfolding track_event update_pending_event
track_event-time op now none = refl
track_event-time op now (some p) = refl

track_tick-due :
    (debounce : ℤ) (now : Time) (t : Option PendingEvent)
    → (track_tick debounce now t).0 ≢ []
    → (p : PendingEvent) × (t ≡ some p) × (ltb_ℤ (sub_time now p.timestamp) debounce ≡ false)
unfolding track_tick
track_tick-due debounce now none c = absurd (c refl)
track_tick-due debounce now (some p) c = elim (Bool-cases (is_fresh debounce now p)) [
  | inl fresh ↦ absurd (c (rw fresh refl))
  | inr due ↦ (p, refl, not_fresh debounce now p due)
]

module _ {Op : Type 0} (flags : Flags Op) (file : Str) where
  track_step-event :
      (debounce : ℤ) (op : Op) (now : Time) (t : Option PendingEvent)
      → is_supported_source_file file ≡ true
      → track_step flags file debounce (fs_event file op now) t
        ≡ ([], some (track_event (fsnotify_op_to_operation flags op) now t))
  unfolding track_step
  track_step-event debounce op now t h = rw (h, str_eq_refl file) refl

  called_when_late :
      (after : List (Step Op)) (now : Time) (w : Watcher) (p : PendingEvent)
      → Distinct (keys w.pending)
      → lookup file w.pending ≡ some p
      → All (IsSilent file) after
      → is_fresh w.debounce now p ≡ false
      → let r = run flags after w in
        let last = process_pending now r.1 in
        (operations_of file (r.0 ++ last.0) ≡ p.op ∷ []) × (lookup file last.1.pending ≡ none)
  called_when_late after now w p distinct pending silent late =
      let r = run-Follows flags file after w distinct in
      let f = process_pending-Follows file now (run flags after w).1 r.distinct in
      let track = track_run flags file w.debounce after in
      let ended = settled w.debounce now p (track (lookup file w.pending)) late (
        subst (λ t. (track t ≡ ([], some p)) ⊎ (track t ≡ (p.op ∷ [], none))) (sym pending)
          (track_run-silent flags file w.debounce after p silent)) in
      let tick_of = ap₂ (λ d t. track_tick d now t) r.debounce_kept r.kept in
      (
        operations_of-append file _ _
            ∙ ap₂ ◌++◌ r.operations (f.operations ∙ ap (λ x. x.0) tick_of)
            ∙ ended.0,
        f.kept ∙ ap (λ x. x.1) tick_of ∙ ended.1,
      )

module _ {Op : Type 0} (flags : Flags Op) (file : Str) (debounce : ℤ) where
  abbrev started : Watcher
  started = new_watcher debounce

  -- The handler is called for a file only at a tick that comes at least the debounce time after the
  -- last event of the file.
  pub called_after_quiet :
      (steps : List (Step Op)) (now : Time)
      → operations_of file (process_pending now (run flags steps started).1).0 ≢ []
      → (t : Time) × (last_seen file steps none ≡ some t)
        × (ltb_ℤ (sub_time now t) started.debounce ≡ false)
  unfolding new_watcher lookup
  called_after_quiet steps now called =
      let r = run-Follows flags file steps started tt in
      let f = process_pending-Follows file now (run flags steps started).1 r.distinct in
      let e = f.operations ∙ ap₂ (λ d t. (track_tick d now t).0) r.debounce_kept r.kept in
      let (p, pending, due) =
        track_tick-due started.debounce now (track_run flags file started.debounce steps none).1
          (λ silent. called (e ∙ silent)) in
      (
        p.timestamp,
        track_run-time flags file started.debounce steps none none (λ q f. cc) p pending,
        due,
      )

  -- An event of a supported file, after whatever came before, with no other event of the file after
  -- it: once a tick comes at least the debounce time later, the handler has been called for the file
  -- exactly once since the event, and nothing is pending for it.
  pub event_called_once :
      (before after : List (Step Op)) (op : Op) (t now : Time)
      → is_supported_source_file file ≡ true
      → All (IsSilent file) after
      → ltb_ℤ (sub_time now t) started.debounce ≡ false
      → let w = handle_fs_event flags file op t (run flags before started).1 in
        let r = run flags after w in
        let last = process_pending now r.1 in
        (o : Operation) × (operations_of file (r.0 ++ last.0) ≡ o ∷ [])
        × (lookup file last.1.pending ≡ none)
  unfolding new_watcher step handle_fs_event
  event_called_once before after op t now supported silent late =
      let d0 = run-Follows flags file before started tt in
      let w0 = (run flags before started).1 in
      let s = step-Follows flags file (fs_event file op t) w0 d0.distinct in
      let p = track_event (fsnotify_op_to_operation flags op) t (lookup file w0.pending) in
      let called =
        called_when_late flags file after now (handle_fs_event flags file op t w0) p s.distinct
          (s.kept
            ∙ ap (λ x. x.1)
                (track_step-event flags file w0.debounce op t (lookup file w0.pending) supported))
          silent
          (fresh_not _ now p (
            subst₂ (λ d u. ltb_ℤ (sub_time now u) d ≡ false)
              (sym (s.debounce_kept ∙ d0.debounce_kept))
              (sym
                (track_event-time (fsnotify_op_to_operation flags op) t (lookup file w0.pending)))
              late)) in
      (p.op, called.0, called.1)
