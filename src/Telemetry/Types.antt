-- ===== src/Telemetry/Types.antt =====
-- The captured-trace types of internal/ports/input/telemetry.go and the ring buffer's own types.
-- Trace and span ids are their hex texts. A duration in milliseconds, a float64 in the source,
-- is kept as the whole number of microseconds that it is computed from.
use ortus.Common.{ℕ, Bool, List, Str}
use ortus.Common.Maps.{Map}
use ortus.Common.Int.{ℤ}
use ortus.Common.Clock.{Time}

-- What `attribute.Value.AsInterface` returns. A float64 is its IEEE bit pattern.
pub data AttrValue : Type 0 where
  bool_value : Bool → AttrValue
  int_value : ℤ → AttrValue
  float_value : ℕ → AttrValue
  text_value : Str → AttrValue
  bool_slice : List Bool → AttrValue
  int_slice : List ℤ → AttrValue
  float_slice : List ℕ → AttrValue
  text_slice : List Str → AttrValue

-- What the code reads of an OTel span context.
pub record SpanContext : Type 0 where
  pub trace_id : Str
  pub span_id : Str
  pub is_valid : Bool
  pub is_remote : Bool

pub record SpanEvent : Type 0 where
  pub name : Str
  pub time : Time
  pub attributes : List (Str × AttrValue)

-- What the code reads of an OTel span, at its start (ReadWriteSpan) or end (ReadOnlySpan).
pub record Span : Type 0 where
  pub context : SpanContext
  pub parent : SpanContext
  pub name : Str
  pub kind : Str
  pub start_time : Time
  pub end_time : Time
  pub status_code : Str
  pub status_description : Str
  pub attributes : List (Str × AttrValue)
  pub events : List SpanEvent

pub record CapturedEvent : Type 0 where
  pub name : Str
  pub time : Time
  pub attributes : Map AttrValue

pub record CapturedSpan : Type 0 where
  pub trace_id : Str
  pub span_id : Str
  pub parent_span_id : Str
  pub name : Str
  pub kind : Str
  pub start : Time
  pub end : Time
  pub duration_us : ℤ
  pub status_code : Str
  pub status_msg : Str
  pub attributes : Map AttrValue
  pub events : List CapturedEvent

pub record CapturedTrace : Type 0 where
  pub trace_id : Str
  pub root_name : Str
  pub service : Str
  pub start : Time
  pub end : Time
  pub duration_us : ℤ
  pub status_code : Str
  pub span_count : ℕ
  pub spans : List CapturedSpan

pub record ActiveSpan : Type 0 where
  pub trace_id : Str
  pub span_id : Str
  pub parent_span_id : Str
  pub name : Str
  pub kind : Str
  pub start : Time
  pub age_us : ℤ
  pub attributes : Map AttrValue

-- Every field's zero value means "no filter".
pub record TraceFilter : Type 0 where
  pub min_duration : ℤ
  pub status : Str
  pub name_contains : Str
  pub since : Time
  pub limit : ℤ

pub record Stats : Type 0 where
  pub capacity : ℕ
  pub traces_active : ℕ
  pub spans_active : ℕ
  pub traces_stored : ℕ
  pub error_traces_stored : ℕ
  pub evicted : ℕ
  pub oldest_end : Time
  pub newest_end : Time

pub record TraceBuffer : Type 0 where
  pub spans : List CapturedSpan
  pub root_ended : Bool
  pub root_name : Str
  pub start : Time
  pub end : Time
  pub status_code : Str
  pub status_msg : Str
  pub open_spans : ℕ

-- The lists are the FIFO orders, oldest first.
pub record RingBuffer : Type 0 where
  pub capacity : ℕ
  pub active : Map TraceBuffer
  pub active_spans : Map ActiveSpan
  pub finished : Map CapturedTrace
  pub order_ok : List Str
  pub order_err : List Str
  pub evicted : ℕ
  pub service : Str
