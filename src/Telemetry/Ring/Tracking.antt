-- ===== src/Telemetry/Ring/Tracking.antt =====
-- How the spans of one trace are counted and recorded while events of any traces come in, from
-- `OnStart` and `OnEnd` of internal/adapters/telemetry/ringbuffer.go.
use ortus.Common.{
  ℕ, ◌+◌, ◌-◌, ◌<◌, ◌≡◌, refl, subst, ◌∙◌, ap, Bool, false, ◌&&◌, some, List, [], ◌∷◌, Str, arith,
  str_eq, str_eq_iff, length, length-append, if◌then◌else◌,
}
use native.Mathlib.Nat.{add-zero}
use ortus.Common.Maps.{lookup, lookup-insert}
use ortus.Telemetry.Capture.{capture_span}
use ortus.Telemetry.Types.{Span, TraceBuffer, RingBuffer}
use ortus.Telemetry.Ring.{on_start, on_end, is_complete, record_span, buffer_of, recorded}
use ortus.Telemetry.Ring.Finalize.{finalize_lem}
use ortus.Telemetry.Ring.Invariant.{
  Event, started, ended, step, run, on_end_cases, active-finalize, lookup-recorded,
}

abbrev pub concerns : Str → Span → Bool
concerns id s = s.context.is_valid && str_eq s.context.trace_id id

-- What one event does to the open spans of a trace.
abbrev pub open_after : Str → Event → ℕ → ℕ
open_after id (started s) n = if concerns id s then n + 1 else n
open_after id (ended s) n = if concerns id s then n - 1 else n

-- The trace has an open span after each event of the list.
abbrev pub StaysOpen : Str → List Event → ℕ → Type 0
StaysOpen id [] n = Unit
StaysOpen id (e ∷ es) n = (0 < open_after id e n) × StaysOpen id es (open_after id e n)

abbrev pub open_after_all : Str → List Event → ℕ → ℕ
open_after_all id [] n = n
open_after_all id (e ∷ es) n = open_after_all id es (open_after id e n)

-- The spans of the trace that a list of events ends.
abbrev pub ends : Str → List Event → ℕ
ends id [] = 0
ends id (started s ∷ es) = ends id es
ends id (ended s ∷ es) = if concerns id s then ends id es + 1 else ends id es

-- A trace is active, with so many open and so many recorded spans.
pub record Tracked (id : Str) (opened recorded : ℕ) (b : TraceBuffer) (r : RingBuffer)
    : Type 0 where
  pub here : lookup id r.active ≡ some b
  pub opened_lem : b.open_spans ≡ opened
  pub recorded_lem : length b.spans ≡ recorded
  pub enabled : 0 < r.capacity

abbrev pub watch : Str → Event → TraceBuffer → TraceBuffer
watch id (started s) b = if concerns id s then record b { open_spans = b.open_spans + 1 } else b
watch id (ended s) b = if concerns id s then record_span s b else b

pub capacity-step : (e : Event) (r : RingBuffer) → (step e r).capacity ≡ r.capacity
unfolding step on_start recorded
capacity-step (started s) r = ground arith
capacity-step (ended s) r =
    on_end_cases (λ q. q.capacity ≡ r.capacity) s r refl
      (λ _. rw (finalize_lem s.context.trace_id _ (recorded s r)) refl) (λ _. refl)

pub buffer_of_lem :
    (id : Str) (b : TraceBuffer) (r : RingBuffer) → lookup id r.active ≡ some b → buffer_of id r ≡ b
unfolding buffer_of
buffer_of_lem id b r h = ground (arith, h)

open-incomplete : (b : TraceBuffer) → 0 < b.open_spans → is_complete b ≡ false
open-incomplete b h = ground arith

pub lookup-step :
    (id : Str) (e : Event) (b : TraceBuffer) (r : RingBuffer)
    → lookup id r.active ≡ some b
    → 0 < r.capacity
    → is_complete (watch id e b) ≡ false
    → lookup id (step e r).active ≡ some (watch id e b)
unfolding step on_start on_end
lookup-step id (started s) b r h c o =
    let buf = buffer_of s.context.trace_id r in
    ground (
      arith,
      str_eq_iff s.context.trace_id id,
      buffer_of_lem id b r h,
      lookup-insert s.context.trace_id id (record buf { open_spans = buf.open_spans + 1 }) r.active,
    )
lookup-step id (ended s) b r h c o =
    let buf = record_span s (buffer_of s.context.trace_id r) in
    ground (
      arith,
      str_eq_iff s.context.trace_id id,
      buffer_of_lem id b r h,
      lookup-recorded s r id,
      active-finalize s.context.trace_id id buf (recorded s r),
    )

watch-open_spans :
    (id : Str) (e : Event) (b : TraceBuffer)
    → (watch id e b).open_spans ≡ open_after id e b.open_spans
unfolding record_span
watch-open_spans id (started s) b = ground arith
watch-open_spans id (ended s) b = ground arith

watch-spans :
    (id : Str) (e : Event) (b : TraceBuffer)
    → length (watch id e b).spans ≡ length b.spans + ends id (e ∷ [])
unfolding record_span
watch-spans id (started s) b = ground arith
watch-spans id (ended s) b = ground (arith, length-append b.spans (capture_span s ∷ []))

ends-cons :
    (id : Str) (e : Event) (es : List Event) → ends id (e ∷ es) ≡ ends id (e ∷ []) + ends id es
ends-cons id (started s) es = ground arith
ends-cons id (ended s) es = ground arith

abbrev pub watch_all : Str → List Event → TraceBuffer → TraceBuffer
watch_all id [] b = b
watch_all id (e ∷ es) b = watch_all id es (watch id e b)

step-Tracked :
    (id : Str) (e : Event) (m n : ℕ) (b : TraceBuffer) (r : RingBuffer)
    → Tracked id m n b r
    → 0 < open_after id e m
    → Tracked id (open_after id e m) (n + ends id (e ∷ [])) (watch id e b) (step e r)
step-Tracked id e m n b r t o = record {
  here = lookup-step id e b r t.here t.enabled (
      open-incomplete (watch id e b)
        (omega (arith, watch-open_spans id e b, t.opened_lem, ap (open_after id e) t.opened_lem)));
  opened_lem = watch-open_spans id e b ∙ ap (open_after id e) t.opened_lem;
  recorded_lem = omega (arith, watch-spans id e b, t.recorded_lem);
  enabled = rw (capacity-step e r) t.enabled;
}

-- While a trace has an open span it stays among the active traces, whatever else happens, and its
-- buffer counts its open spans and has recorded each span of it that has ended.
pub run-Tracked :
    (id : Str) (es : List Event) (m n : ℕ) (b : TraceBuffer) (r : RingBuffer)
    → Tracked id m n b r
    → StaysOpen id es m
    → Tracked id (open_after_all id es m) (n + ends id es) (watch_all id es b) (run es r)
unfolding run
run-Tracked id [] m n b r t o = rw (add-zero n) t
run-Tracked id (e ∷ es) m n b r t o =
    subst
      (λ k.
        Tracked id (open_after_all id (e ∷ es) m) k (watch_all id es (watch id e b))
          (run es (step e r)))
      (omega (arith, ends-cons id e es))
      (run-Tracked id es (open_after id e m) (n + ends id (e ∷ [])) (watch id e b) (step e r)
        (step-Tracked id e m n b r t o.0) o.1)
