-- ===== src/Telemetry/Capture.antt =====
-- `captureSpan`, the span snapshot of `OnStart` and `filterMatch` of
-- internal/adapters/telemetry/ringbuffer.go.
use ortus.Common.{Bool, true, false, ◌&&◌, not, List, [], ◌∷◌, map, Str, str_eq, if◌then◌else◌}
use ortus.Common.Maps.{Map, insert}
use ortus.Common.Int.{ℤ, pos, ltb_ℤ}
use ortus.Common.Clock.{is_zero, before, sub_time, microseconds}
use ortus.Telemetry.Types.{
  AttrValue, SpanContext, SpanEvent, Span, CapturedEvent, CapturedSpan, CapturedTrace, ActiveSpan,
  TraceFilter,
}
use ortus.Telemetry.Fold.{contains_fold}

-- `for _, kv := range s.Attributes() { attrs[kv.Key] = kv.Value }`: a later key wins.
unfoldable pub collect : Map AttrValue → List (Str × AttrValue) → Map AttrValue
collect attrs [] = attrs
collect attrs ((k, v) ∷ kvs) = collect (insert k v attrs) kvs

unfoldable pub parent_id : SpanContext → Str
parent_id p = if p.is_valid then p.span_id else []

unfoldable pub capture_event : SpanEvent → CapturedEvent
capture_event ev = record { name = ev.name; time = ev.time; attributes = collect [] ev.attributes }

unfoldable pub capture_span : Span → CapturedSpan
capture_span s = record {
  trace_id = s.context.trace_id;
  span_id = s.context.span_id;
  parent_span_id = parent_id s.parent;
  name = s.name;
  kind = s.kind;
  start = s.start_time;
  end = s.end_time;
  duration_us = microseconds (sub_time s.end_time s.start_time);
  status_code = s.status_code;
  status_msg = s.status_description;
  attributes = collect [] s.attributes;
  events = map capture_event s.events;
}

-- The `ActiveSpan` that `OnStart` records; its age is set by `ListActive`.
unfoldable pub start_span : Span → ActiveSpan
start_span s = record {
  trace_id = s.context.trace_id;
  span_id = s.context.span_id;
  parent_span_id = parent_id s.parent;
  name = s.name;
  kind = s.kind;
  start = s.start_time;
  age_us = pos 0;
  attributes = collect [] s.attributes;
}

-- `to_ns` is `time.Duration(ms * float64(time.Millisecond))` for a duration `ms` of so many
-- microseconds: the arithmetic is that of floats, and 1001 microseconds give 1000999 nanoseconds.
unfoldable pub filter_match : (ℤ → ℤ) → CapturedTrace → TraceFilter → Bool
filter_match to_ns t f =
    if ltb_ℤ (pos 0) f.min_duration && ltb_ℤ (to_ns t.duration_us) f.min_duration
    then false
    else if not (str_eq f.status []) && not (str_eq t.status_code f.status)
    then false
    else if not (str_eq f.name_contains []) && not (contains_fold t.root_name f.name_contains)
    then false
    else if not (is_zero f.since) && before t.end f.since
    then false
    else true
