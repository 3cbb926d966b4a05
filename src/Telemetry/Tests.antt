-- ===== src/Telemetry/Tests.antt =====
-- Concrete runs of internal/adapters/telemetry/ringbuffer.go: two traces, one of them in error.
use ortus.Common.{ℕ, ◌≡◌, ◌↔◌, refl, true, false, List, [], ◌∷◌, Str, bytes, str_eq, elem}
use ortus.Common.Int.{ℤ, pos, ◌*ℤ◌}
use ortus.Telemetry.Types.{SpanContext, Span, TraceBuffer, RingBuffer, TraceFilter}
use ortus.Telemetry.Ring.{new_ring_buffer, finish, empty_buffer}
use ortus.Telemetry.Ring.Evict.{newest}
use ortus.Telemetry.Ring.Invariant.{Event, started, ended, run, IsValid, run-new-IsValid}
use ortus.Telemetry.Ring.Refinement.{Represents}
use ortus.Telemetry.Ring.Retention.{finalize_all, traces, retention}
use ortus.Telemetry.Fold.{contains_fold, scan, match_at, fold_byte}
use ortus.Telemetry.Fold.Occurs.{Occurs, contains_fold_iff}

abbrev no_parent : SpanContext
no_parent = record { trace_id = []; span_id = []; is_valid = false; is_remote = false }

abbrev context : Str → Str → SpanContext
context t s = record { trace_id = t; span_id = s; is_valid = true; is_remote = false }

abbrev root_span : Str → Str → ℕ → ℕ → Str → Span
root_span t s from to status = record {
  context = context t s;
  parent = no_parent;
  name = bytes "GET /query";
  kind = bytes "server";
  start_time = from;
  end_time = to;
  status_code = status;
  status_description = [];
  attributes = [];
  events = [];
}

-- The root of trace a0 and a child of it, which ends after its parent.
abbrev root_a : Span
root_a = root_span (bytes "a0") (bytes "01") 1000 5000 (bytes "Ok")

abbrev child_a : Span
child_a = record root_a {
  context = context (bytes "a0") (bytes "02");
  parent = context (bytes "a0") (bytes "01");
  start_time = 2000;
  end_time = 9000;
}

abbrev root_b : Span
root_b = root_span (bytes "b0") (bytes "03") 3000 4000 (bytes "Error")

abbrev fresh : RingBuffer
fresh = record {
  capacity = 1;
  active = [];
  active_spans = [];
  finished = [];
  order_ok = [];
  order_err = [];
  evicted = 0;
  service = bytes "ortus";
}

-- What happens between the start of `root_a` and the end of `child_a`.
abbrev middle : List Event
middle = started child_a ∷ started root_b ∷ ended root_a ∷ ended root_b ∷ []

run-new-IsValid_example : IsValid (run middle (new_ring_buffer (pos 2) (bytes "ortus")))
run-new-IsValid_example = run-new-IsValid (pos 2) (bytes "ortus") middle

abbrev ok_buffer : TraceBuffer
ok_buffer = record empty_buffer { root_ended = true; status_code = bytes "Ok" }

abbrev err_buffer : TraceBuffer
err_buffer = record empty_buffer { root_ended = true; status_code = bytes "Error" }

abbrev history : List (Str × TraceBuffer)
history =
    (bytes "a0", ok_buffer)
    ∷ (bytes "b0", err_buffer)
    ∷ (bytes "c0", ok_buffer)
    ∷ (bytes "d0", ok_buffer)
    ∷ []

retention_example : Represents (finalize_all history (new_ring_buffer (pos 2) [])) (record {
  ok = newest (new_ring_buffer (pos 2) []).capacity (traces [] false history);
  err = newest (new_ring_buffer (pos 2) []).capacity (traces [] true history);
})
unfolding elem str_eq
retention_example = retention (pos 2) [] history (refl, (refl, (refl, (refl, tt))))

abbrev mixed : RingBuffer
mixed = record fresh {
  finished =
      (bytes "a0", finish [] (bytes "a0") ok_buffer)
      ∷ (bytes "b0", finish [] (bytes "b0") err_buffer)
      ∷ [];
  order_ok = bytes "a0" ∷ [];
  order_err = bytes "b0" ∷ [];
}

abbrev errors_only : TraceFilter
errors_only = record {
  min_duration = pos 0;
  status = bytes "Error";
  name_contains = [];
  since = 0;
  limit = pos 1;
}

-- 1000 nanoseconds for each microsecond.
abbrev to_ns : ℤ → ℤ
to_ns us = us *ℤ pos 1000

contains_fold_iff_example :
    (contains_fold (bytes "GET /Query") (bytes "query") ≡ true)
    ↔ Occurs (bytes "query") (bytes "GET /Query")
contains_fold_iff_example = contains_fold_iff (bytes "GET /Query") (bytes "query")

contains_fold_runs :
    (contains_fold (bytes "GET /Query") (bytes "query") ≡ true)
    × (contains_fold (bytes "GET /Query") (bytes "quest") ≡ false)
unfolding contains_fold scan match_at fold_byte
contains_fold_runs = (refl, refl)
