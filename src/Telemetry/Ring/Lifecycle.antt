-- ===== src/Telemetry/Ring/Lifecycle.antt =====
-- When `OnEnd` of internal/adapters/telemetry/ringbuffer.go finishes a trace: at the end of its
-- last open span, whatever the other traces do meanwhile.
use ortus.Common.{
  if◌then◌else◌, ℕ, zero, suc, take, ◌-◌, ◌≤◌, ◌<◌, ◌≡◌, refl, Bool, false, ◌&&◌, ◌||◌, some, List,
  [], ◌∷◌, ◌++◌, Str, arith, str_eq_iff, elem, length, length-append,
}
use ortus.Common.Maps.{lookup}
use ortus.Common.Clock.{Time}
use mathlib.Core.List.{Perm}
use mathlib.Core.List.Perm
use ortus.Telemetry.Types.{CapturedSpan, Span, TraceBuffer, RingBuffer}
use ortus.Telemetry.Ring.{finalize, finish, is_root, record_span}
use ortus.Telemetry.Ring.Finalize.{lookup-finalize}
use ortus.Telemetry.Ring.Invariant.{Event, started, ended, step, run}
use ortus.Telemetry.Ring.Tracking.{concerns, watch, capacity-step, lookup-step, watch_all}

-- A local root of the trace is among the spans that a list of events ends.
abbrev pub root_seen : Str → List Event → Bool
root_seen id [] = false
root_seen id (started s ∷ es) = root_seen id es
root_seen id (ended s ∷ es) = (concerns id s && is_root s) || root_seen id es

watch_all-root_ended :
    (id : Str) (es : List Event) (b : TraceBuffer)
    → (watch_all id es b).root_ended ≡ (b.root_ended || root_seen id es)
unfolding record_span
watch_all-root_ended id [] b = ground arith
watch_all-root_ended id (started s ∷ es) b =
    ground (arith, watch_all-root_ended id es (watch id (started s) b))
watch_all-root_ended id (ended s ∷ es) b =
    ground (arith, watch_all-root_ended id es (watch id (ended s) b))

-- The spans of the trace that a list of events ends, in their order.
abbrev pub ended_spans : Str → List Event → List Span
ended_spans id [] = []
ended_spans id (started s ∷ es) = ended_spans id es
ended_spans id (ended s ∷ es) = if concerns id s then s ∷ ended_spans id es else ended_spans id es

-- What tells a span from the others: its ids, its name and its two times.
abbrev pub Identity : Type 0
Identity = Str × (Str × (Str × (Time × Time)))

abbrev pub span_identity : Span → Identity
span_identity s = (s.context.trace_id, (s.context.span_id, (s.name, (s.start_time, s.end_time))))

abbrev pub captured_identity : CapturedSpan → Identity
captured_identity c = (c.trace_id, (c.span_id, (c.name, (c.start, c.end))))

elem-take_snoc :
    (k : Str) (n : ℕ) (xs : List Str)
    → n ≤ length xs
    → elem k xs ≡ false
    → elem k (take n (xs ++ (k ∷ []))) ≡ false
unfolding elem
elem-take_snoc k zero xs h e = refl
elem-take_snoc k (suc n) [] h e = elim h [ ]
elem-take_snoc k (suc n) (x ∷ xs) h e = ground (arith, elem-take_snoc k n xs)

-- A trace that is not in its pool can be asked for right after it finishes.
pub lookup-finalize_self :
    (id : Str) (buf : TraceBuffer) (r : RingBuffer)
    → 0 < r.capacity
    → elem id r.order_ok ≡ false
    → elem id r.order_err ≡ false
    → lookup id (finalize id buf r).finished ≡ some (finish r.service id buf)
lookup-finalize_self id buf r c new_ok new_err =
    let dropped = λ (xs : List Str). length (xs ++ (id ∷ [])) - r.capacity in
    ground (
      arith,
      lookup-finalize id buf r id,
      str_eq_iff id id,
      elem-take_snoc id (dropped r.order_ok) r.order_ok
          (omega (arith, length-append r.order_ok (id ∷ []))) new_ok,
      elem-take_snoc id (dropped r.order_err) r.order_err
          (omega (arith, length-append r.order_err (id ∷ []))) new_err,
    )

root_seen-cons :
    (id : Str) (e : Event) (es : List Event)
    → root_seen id (e ∷ es) ≡ (root_seen id (e ∷ []) || root_seen id es)
root_seen-cons id (started s) es = refl
root_seen-cons id (ended s) es = ground arith

-- A trace that is active and has no ended root stays active through any events that end no local
-- root of it, also when all its spans have ended.
pub orphan_stays :
    (id : Str) (es : List Event) (b : TraceBuffer) (r : RingBuffer)
    → 0 < r.capacity
    → lookup id r.active ≡ some b
    → b.root_ended ≡ false
    → root_seen id es ≡ false
    → lookup id (run es r).active ≡ some (watch_all id es b)
unfolding run
orphan_stays id [] b r c h n none_seen = h
orphan_stays id (e ∷ es) b r c h n none_seen =
    let none_now : root_seen id (e ∷ []) ≡ false =
      ground (arith, root_seen-cons id e es, none_seen) in
    let none_later : root_seen id es ≡ false = ground (arith, root_seen-cons id e es, none_seen) in
    let open_root : (watch id e b).root_ended ≡ false =
      ground (arith, watch_all-root_ended id (e ∷ []) b, none_now, n) in
    orphan_stays id es (watch id e b) (step e r) (rw (capacity-step e r) c)
      (lookup-step id e b r h c (ground (arith, open_root))) open_root none_later
