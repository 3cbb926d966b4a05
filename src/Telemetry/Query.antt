-- ===== src/Telemetry/Query.antt =====
-- The reading methods of the ring buffer of internal/adapters/telemetry/ringbuffer.go. `cloneTrace`
-- is the identity here: values of the model cannot be changed by who holds them.
pub mod Order
pub mod Ends
use ortus.Common.{
  ℕ, ◌+◌, Bool, true, false, not, ◌&&◌, ◌||◌, Option, none, some, List, [], ◌∷◌, ◌++◌, map, Str,
  ltb, leb, length, if◌then◌else◌,
}
use ortus.Common.Maps.{Map, lookup}
use ortus.Common.Int.{ℤ, pos, ltb_ℤ}
use ortus.Common.Clock.{Time, is_zero, before, after, sub_time, microseconds}
use ortus.Common.Sort.{sort_stable}
use ortus.Telemetry.Types.{CapturedTrace, ActiveSpan, TraceFilter, Stats, RingBuffer}
use ortus.Telemetry.Capture.{filter_match}

-- `trace.TraceIDFromHex` is the OpenTelemetry library's.
unfoldable pub get_trace : (Str → Option Str) → Str → RingBuffer → Option CapturedTrace
get_trace trace_id_from_hex text r = elim (trace_id_from_hex text) [
  | none ↦ none
  | some id ↦ lookup id r.finished
]

-- The finished traces of a pool; an id whose trace is gone is skipped.
unfoldable pub stored : List Str → RingBuffer → List CapturedTrace
stored [] r = []
stored (id ∷ ids) r =
    let rest = stored ids r in elim (lookup id r.finished) [ none ↦ rest | some t ↦ t ∷ rest ]

-- `f.Limit > 0 && len(out) >= f.Limit`
abbrev pub at_limit : TraceFilter → ℕ → Bool
at_limit f n = ltb_ℤ (pos 0) f.limit && not (ltb_ℤ (pos n) f.limit)

abbrev pub ended_after : CapturedTrace → CapturedTrace → Bool
ended_after a b = after a.end b.end

module _ (to_ns : ℤ → ℤ) where
  -- The loop over the merged traces; the number is `len(out)`.
  unfoldable pub matching : TraceFilter → List CapturedTrace → ℕ → List CapturedTrace
  matching f [] n = []
  matching f (t ∷ ts) n =
      let kept = matching f ts (n + 1) in
      let skipped = matching f ts n in
      if filter_match to_ns t f then t ∷ (if at_limit f (n + 1) then [] else kept) else skipped

  unfoldable pub list_traces : TraceFilter → RingBuffer → List CapturedTrace
  list_traces f r =
      matching f (sort_stable ended_after (stored r.order_ok r ++ stored r.order_err r)) 0

abbrev pub started_after : ActiveSpan → ActiveSpan → Bool
started_after a b = after a.start b.start

unfoldable pub list_active : Time → RingBuffer → List ActiveSpan
list_active now r =
    sort_stable started_after
      (map (λ e. record e.1 { age_us = microseconds (sub_time now e.1.start) }) r.active_spans)

-- One trace's end against `s.OldestEnd` and `s.NewestEnd`.
unfoldable pub widen : Time → Time × Time → Time × Time
widen t (oldest, newest) =
    (if is_zero oldest || before t oldest then t else oldest, if after t newest then t else newest)

unfoldable pub span_of_ends : List CapturedTrace → Time × Time → Time × Time
span_of_ends [] s = s
span_of_ends (t ∷ ts) s = span_of_ends ts (widen t.end s)

unfoldable pub stats : RingBuffer → Stats
stats r =
    let ends = span_of_ends (stored r.order_err r) (span_of_ends (stored r.order_ok r) (0, 0)) in
    record {
      capacity = r.capacity;
      traces_active = length r.active;
      spans_active = length r.active_spans;
      traces_stored = length r.order_ok;
      error_traces_stored = length r.order_err;
      evicted = r.evicted;
      oldest_end = ends.0;
      newest_end = ends.1;
    }
