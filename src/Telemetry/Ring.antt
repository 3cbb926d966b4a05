-- ===== src/Telemetry/Ring.antt =====
-- The `RingBuffer` of internal/adapters/telemetry/ringbuffer.go. Each method runs under the
-- buffer's mutex, so it is one step from state to state.
pub mod Evict
pub mod Refinement
pub mod Tracking
pub mod Lifecycle
pub mod Retention
pub mod Invariant
pub mod Finalize
use ortus.Common.{
  ℕ, ◌+◌, ◌-◌, ◌%◌, ◌^◌, Bool, true, false, ◌&&◌, ◌||◌, not, none, some, List, [], ◌∷◌, ◌++◌, Str,
  bytes, str_eq, length, ltb, ◌==◌, if◌then◌else◌,
}
use ortus.Common.Maps.{Map, lookup, insert, delete}
use ortus.Common.Int.{ℤ, pos, negsuc}
use ortus.Common.Clock.{is_zero, before, after, sub_time, microseconds}
use ortus.Common.Sort.{sort_stable}
use ortus.Telemetry.Types.{Span, CapturedSpan, CapturedTrace, TraceBuffer, RingBuffer}
use ortus.Telemetry.Capture.{capture_span, start_span}

-- `if capacity < 0 { capacity = 0 }`
clamp_capacity : ℤ → ℕ
clamp_capacity (pos n) = n
clamp_capacity (negsuc n) = 0

unfoldable pub new_ring_buffer : ℤ → Str → RingBuffer
unfolding clamp_capacity
new_ring_buffer capacity service = record {
  capacity = clamp_capacity capacity;
  active = [];
  active_spans = [];
  finished = [];
  order_ok = [];
  order_err = [];
  evicted = 0;
  service = service;
}

-- `&traceBuffer{}`
abbrev pub empty_buffer : TraceBuffer
empty_buffer = record {
  spans = [];
  root_ended = false;
  root_name = [];
  start = 0;
  end = 0;
  status_code = [];
  status_msg = [];
  open_spans = 0;
}

-- The buffer of a trace, or a new one.
unfoldable pub buffer_of : Str → RingBuffer → TraceBuffer
buffer_of id r = elim (lookup id r.active) [ none ↦ empty_buffer | some b ↦ b ]

unfoldable pub on_start : Span → RingBuffer → RingBuffer
on_start s r =
    let id = s.context.trace_id in
    let buf = buffer_of id r in
    if r.capacity == 0 then r else if not s.context.is_valid then r else record r {
      active_spans = insert s.context.span_id (start_span s) r.active_spans;
      active = insert id (record buf { open_spans = buf.open_spans + 1 }) r.active;
    }

-- `for len(order) > capacity { … }`: the new order, the traces left, and the eviction count.
unfoldable pub evict_over : ℕ → List Str → Map CapturedTrace → ℕ → List Str × Map CapturedTrace × ℕ
evict_over cap [] finished evicted = ([], finished, evicted)
evict_over cap (victim ∷ rest) finished evicted =
    if ltb cap (length (victim ∷ rest))
    then evict_over cap rest (delete victim finished) ((evicted + 1) % 2 ^ 64)
    else (victim ∷ rest, finished, evicted)

abbrev pub started_before : CapturedSpan → CapturedSpan → Bool
started_before a b = before a.start b.start

unfoldable pub finish : Str → Str → TraceBuffer → CapturedTrace
finish service id buf = record {
  trace_id = id;
  root_name = buf.root_name;
  service = service;
  start = buf.start;
  end = buf.end;
  duration_us = microseconds (sub_time buf.end buf.start);
  status_code = buf.status_code;
  span_count = length (sort_stable started_before buf.spans);
  spans = sort_stable started_before buf.spans;
}

-- `ct.StatusCode == "Error"`
abbrev pub is_error : TraceBuffer → Bool
is_error buf = str_eq buf.status_code (bytes "Error")

unfoldable pub finalize : Str → TraceBuffer → RingBuffer → RingBuffer
finalize id buf r =
    let finished = insert id (finish r.service id buf) r.finished in
    let active = delete id r.active in
    if is_error buf
    then (let (order, left, evicted) =
          evict_over r.capacity (r.order_err ++ (id ∷ [])) finished r.evicted in
        record r { active = active; finished = left; order_err = order; evicted = evicted })
    else (let (order, left, evicted) =
          evict_over r.capacity (r.order_ok ++ (id ∷ [])) finished r.evicted in
        record r { active = active; finished = left; order_ok = order; evicted = evicted })

-- A span is the local root of its trace if it has no parent, or one from elsewhere.
unfoldable pub is_root : Span → Bool
is_root s =
    not s.parent.is_valid
    || (s.parent.is_remote || not (str_eq s.parent.trace_id s.context.trace_id))

-- What `OnEnd` writes into the trace's buffer.
unfoldable pub record_span : Span → TraceBuffer → TraceBuffer
record_span s buf =
    let captured = capture_span s in
    record {
      spans = buf.spans ++ (captured ∷ []);
      root_ended = if is_root s then true else buf.root_ended;
      root_name = if is_root s then captured.name else buf.root_name;
      start =
          if is_zero buf.start || before captured.start buf.start
          then captured.start
          else buf.start;
      end = if after captured.end buf.end then captured.end else buf.end;
      status_code = if is_root s then captured.status_code else buf.status_code;
      status_msg = if is_root s then captured.status_msg else buf.status_msg;
      open_spans = if ltb 0 buf.open_spans then buf.open_spans - 1 else buf.open_spans;
    }

-- `buf.rootEnded && buf.openSpans == 0`
abbrev pub is_complete : TraceBuffer → Bool
is_complete buf = buf.root_ended && (buf.open_spans == 0)

unfoldable pub recorded : Span → RingBuffer → RingBuffer
recorded s r = record r {
  active_spans = delete s.context.span_id r.active_spans;
  active = insert s.context.trace_id (record_span s (buffer_of s.context.trace_id r)) r.active;
}

unfoldable pub on_end : Span → RingBuffer → RingBuffer
on_end s r =
    let id = s.context.trace_id in
    let buf = record_span s (buffer_of id r) in
    if r.capacity == 0
    then r
    else if not s.context.is_valid
    then r
    else if is_complete buf
    then finalize id buf (recorded s r)
    else recorded s r
