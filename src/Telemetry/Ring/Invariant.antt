-- ===== src/Telemetry/Ring/Invariant.antt =====
-- The invariant of the ring buffer, and that every call keeps it.
use ortus.Common.{
  ◌+◌, ◌≤◌, ◌≡◌, refl, true, false, not, ◌||◌, none, some, List, [], ◌∷◌, Str, arith, str_eq, elem,
  elem-append, length, if◌then◌else◌, if_cases, ◌==◌,
}
use ortus.Common.Maps.{lookup, lookup-insert, lookup-delete}
use ortus.Common.Int.{ℤ}
use ortus.Telemetry.Types.{Span, TraceBuffer, RingBuffer}
use ortus.Telemetry.Ring.{
  new_ring_buffer, on_start, on_end, finalize, is_complete, recorded, record_span, buffer_of,
}
use ortus.Telemetry.Ring.Evict.{elem-oldest_or_newest, length-newest-le}
use ortus.Telemetry.Ring.Finalize.{appended, finalize_lem, lookup-finalize}

-- Each pool holds at most `capacity` ids, and no finished trace is kept outside the pools.
pub record IsBounded (r : RingBuffer) : Type 0 where
  pub ok_bound : length r.order_ok ≤ r.capacity
  pub err_bound : length r.order_err ≤ r.capacity
  pub pooled :
      (k : Str) → (elem k r.order_ok || elem k r.order_err) ≡ false → lookup k r.finished ≡ none

-- No trace whose root and spans have all ended is left among the active ones.
abbrev pub IsSettled : RingBuffer → Type 0
IsSettled r = (k : Str) (b : TraceBuffer) → lookup k r.active ≡ some b → is_complete b ≡ false

pub record IsValid (r : RingBuffer) : Type 0 where
  pub bounded : IsBounded r
  pub settled : IsSettled r

module _ (id : Str) (buf : TraceBuffer) (r : RingBuffer) (v : IsBounded r) where
  finalize-pooled :
      (k : Str)
      → (elem k (finalize id buf r).order_ok || elem k (finalize id buf r).order_err) ≡ false
      → lookup k (finalize id buf r).finished ≡ none
  unfolding elem
  finalize-pooled k h = rw (lookup-finalize id buf r k) (
      let h' = rw (finalize_lem id buf r) at h in
      ground (
        arith,
        h',
        elem-oldest_or_newest k r.capacity (appended id buf r),
        elem-append k r.order_ok (id ∷ []),
        elem-append k r.order_err (id ∷ []),
        v.pooled k,
      ))

  finalize-IsBounded : IsBounded (finalize id buf r)
  finalize-IsBounded = record {
    ok_bound =
        rw (finalize_lem id buf r)
          (ground (arith, v.ok_bound, length-newest-le r.capacity (appended id buf r)));
    err_bound =
        rw (finalize_lem id buf r)
          (ground (arith, v.err_bound, length-newest-le r.capacity (appended id buf r)));
    pooled = finalize-pooled;
  }

pub new_ring_buffer-IsValid :
    (capacity : ℤ) (service : Str) → IsValid (new_ring_buffer capacity service)
unfolding new_ring_buffer lookup elem
new_ring_buffer-IsValid capacity service = record {
  bounded = record { ok_bound = omega arith; err_bound = omega arith; pooled = λ k h. refl };
  settled = λ k b h. cc;
}

on_start-IsBounded : (s : Span) (r : RingBuffer) → IsBounded r → IsBounded (on_start s r)
unfolding on_start
on_start-IsBounded s r v =
    if_cases IsBounded (r.capacity == 0) (λ _. v)
      λ _.
        if_cases IsBounded (not s.context.is_valid) (λ _. v)
          λ _. record { ok_bound = v.ok_bound; err_bound = v.err_bound; pooled = v.pooled }

on_start-IsSettled : (s : Span) (r : RingBuffer) → IsSettled r → IsSettled (on_start s r)
unfolding on_start
on_start-IsSettled s r v k b =
    let buf = buffer_of s.context.trace_id r in
    ground (
      arith,
      lookup-insert s.context.trace_id k (record buf { open_spans = buf.open_spans + 1 }) r.active,
      v k b,
    )

-- `OnEnd` ignores the span, or records it, and finalizes its trace if that is complete.
pub on_end_cases {ℓ} :
    (P : RingBuffer → Type ℓ) (s : Span) (r : RingBuffer)
    → P r
    → (is_complete (record_span s (buffer_of s.context.trace_id r)) ≡ true
        → P (
            finalize s.context.trace_id
              (record_span s (buffer_of s.context.trace_id r))
              (recorded s r)))
    → (is_complete (record_span s (buffer_of s.context.trace_id r)) ≡ false → P (recorded s r))
    → P (on_end s r)
unfolding on_end
on_end_cases P s r same complete open_ =
    if_cases P (r.capacity == 0) (λ _. same)
      λ _.
        if_cases P (not s.context.is_valid) (λ _. same)
          λ _.
            if_cases P (is_complete (record_span s (buffer_of s.context.trace_id r))) complete open_

recorded-IsBounded : (s : Span) (r : RingBuffer) → IsBounded r → IsBounded (recorded s r)
unfolding recorded
recorded-IsBounded s r v = record {
  ok_bound = v.ok_bound;
  err_bound = v.err_bound;
  pooled = v.pooled;
}

on_end-IsBounded : (s : Span) (r : RingBuffer) → IsBounded r → IsBounded (on_end s r)
on_end-IsBounded s r v =
    let w = recorded-IsBounded s r v in
    on_end_cases IsBounded s r v (λ _. finalize-IsBounded _ _ (recorded s r) w) (λ _. w)

pub active-finalize :
    (id k : Str) (buf : TraceBuffer) (r : RingBuffer)
    → lookup k (finalize id buf r).active ≡ (if str_eq id k then none else lookup k r.active)
active-finalize id k buf r = rw (finalize_lem id buf r, lookup-delete) refl

pub lookup-recorded :
    (s : Span) (r : RingBuffer) (k : Str)
    → lookup k (recorded s r).active ≡ (
        if str_eq s.context.trace_id k
        then some (record_span s (buffer_of s.context.trace_id r))
        else lookup k r.active)
unfolding recorded
lookup-recorded s r k = lookup-insert s.context.trace_id k _ r.active

on_end-IsSettled : (s : Span) (r : RingBuffer) → IsSettled r → IsSettled (on_end s r)
on_end-IsSettled s r v =
    let id = s.context.trace_id in
    let buf = record_span s (buffer_of id r) in
    on_end_cases IsSettled s r v
      (λ _ k b.
        ground (arith, active-finalize id k buf (recorded s r), lookup-recorded s r k, v k b))
      (λ h k b. ground (arith, h, lookup-recorded s r k, v k b))

-- What the tracing pipeline tells the buffer.
pub data Event : Type 0 where
  started ended : Span → Event

unfoldable pub step : Event → RingBuffer → RingBuffer
step (started s) r = on_start s r
step (ended s) r = on_end s r

unfoldable pub run : List Event → RingBuffer → RingBuffer
run [] r = r
run (e ∷ es) r = run es (step e r)

pub step-IsValid : (e : Event) (r : RingBuffer) → IsValid r → IsValid (step e r)
unfolding step
step-IsValid (started s) r v = record {
  bounded = on_start-IsBounded s r v.bounded;
  settled = on_start-IsSettled s r v.settled;
}
step-IsValid (ended s) r v = record {
  bounded = on_end-IsBounded s r v.bounded;
  settled = on_end-IsSettled s r v.settled;
}

run-IsValid : (es : List Event) (r : RingBuffer) → IsValid r → IsValid (run es r)
unfolding run
run-IsValid [] r v = v
run-IsValid (e ∷ es) r v = run-IsValid es (step e r) (step-IsValid e r v)

-- After any sequence of span starts and ends, in any order and of any traces, each pool holds at
-- most `capacity` ids, every finished trace that is kept has its id in a pool, and no trace whose
-- root has ended and that has no open span is left among the active ones.
pub run-new-IsValid :
    (capacity : ℤ) (service : Str) (es : List Event)
    → IsValid (run es (new_ring_buffer capacity service))
run-new-IsValid capacity service es =
    run-IsValid es (new_ring_buffer capacity service) (new_ring_buffer-IsValid capacity service)
