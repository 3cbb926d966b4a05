-- ===== src/Telemetry/Query/Ends.antt =====
-- The oldest and newest end that `Stats` of internal/adapters/telemetry/ringbuffer.go reports.
use ortus.Common.{◌≤◌, ◌<◌, ◌≡◌, refl, List, [], ◌∷◌, ◌++◌, arith}
use ortus.Common.Clock.{Time}
use ortus.Common.Sort.{All}
use ortus.Telemetry.Types.{CapturedTrace, RingBuffer}
use ortus.Telemetry.Query.{stored, widen, span_of_ends, stats}

-- The two ends enclose a set of times that are not Go's zero time.
abbrev Encloses : Time × Time → Time → Type 0
Encloses s t = (s.0 ≤ t) × (t ≤ s.1)

module _ (t : Time) (s : Time × Time) (p : 0 < s.0) (q : 0 < t) where
  widen-starts : 0 < (widen t s).0
  unfolding widen
  widen-starts = ground (arith, p, q)

  widen-covers : Encloses (widen t s) t
  unfolding widen
  widen-covers = (ground (arith, p, q), ground (arith, p, q))

  widen-grows : (u : Time) → Encloses s u → Encloses (widen t s) u
  unfolding widen
  widen-grows u e = (ground (arith, p, q, e), ground (arith, p, q, e))

-- What the loop keeps: it starts from an interval that encloses `u`, if there is one.
pub record Widened (s s' : Time × Time) (ts : List CapturedTrace) : Type 0 where
  pub started : 0 < s'.0
  pub grown : (u : Time) → Encloses s u → Encloses s' u
  pub covers : All (λ t. Encloses s' t.end) ts

span_of_ends-Widened :
    (ts : List CapturedTrace) (s : Time × Time)
    → 0 < s.0
    → All (λ t. 0 < t.end) ts
    → Widened s (span_of_ends ts s) ts
unfolding span_of_ends
span_of_ends-Widened [] s p h = record { started = p; grown = λ u e. e; covers = tt }
span_of_ends-Widened (t ∷ ts) s p h =
    let rest = span_of_ends-Widened ts (widen t.end s) (widen-starts t.end s p h.0) h.1 in
    record {
      started = rest.started;
      grown = λ u e. rest.grown u (widen-grows t.end s p h.0 u e);
      covers = (rest.grown t.end (widen-covers t.end s p h.0), rest.covers);
    }

span_of_ends-append :
    (xs ys : List CapturedTrace) (s : Time × Time)
    → span_of_ends (xs ++ ys) s ≡ span_of_ends ys (span_of_ends xs s)
unfolding span_of_ends
span_of_ends-append [] ys s = refl
span_of_ends-append (x ∷ xs) ys s = span_of_ends-append xs ys (widen x.end s)

widen_first : (t : Time) → 0 < t → (0 < (widen t (0, 0)).0) × Encloses (widen t (0, 0)) t
unfolding widen
widen_first t h = (ground (arith, h), (ground (arith, h), ground (arith, h)))

span_of_ends-covers :
    (ts : List CapturedTrace)
    → All (λ t. 0 < t.end) ts
    → All (λ t. Encloses (span_of_ends ts (0, 0)) t.end) ts
unfolding span_of_ends
span_of_ends-covers [] h = tt
span_of_ends-covers (t ∷ ts) h =
    let first = widen_first t.end h.0 in
    let w = span_of_ends-Widened ts (widen t.end (0, 0)) first.0 h.1 in
    (w.grown t.end first.1, w.covers)

-- If no stored trace has Go's zero time as its end, every stored trace of either pool ends between
-- the `OldestEnd` and the `NewestEnd` of the statistics.
pub stats_enclose :
    (r : RingBuffer)
    → let all = stored r.order_ok r ++ stored r.order_err r in
      All (λ t. 0 < t.end) all
      → All (λ t. ((stats r).oldest_end ≤ t.end) × (t.end ≤ (stats r).newest_end)) all
unfolding stats
stats_enclose r h =
    rw (← span_of_ends-append (stored r.order_ok r) (stored r.order_err r) (0, 0))
      (span_of_ends-covers (stored r.order_ok r ++ stored r.order_err r) h)
