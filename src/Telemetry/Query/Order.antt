-- ===== src/Telemetry/Query/Order.antt =====
-- What `ListTraces` and `Stats` of internal/adapters/telemetry/ringbuffer.go answer.
use ortus.Common.{zero, suc, ◌≡◌, List, [], ◌∷◌, take, ◌⊎◌, ◌≤◌, Bool}
use ortus.Common.Int.{ℤ, pos, negsuc, ◌≤ℤ◌}
use ortus.Common.Sort.{All}
use ortus.Telemetry.Types.{CapturedTrace, TraceFilter}
use ortus.Telemetry.Fold.Occurs.{Occurs}
use ortus.Telemetry.Capture.{filter_match}

-- A limit of 0, or below, is none.
abbrev pub capped {ℓ} : {A : Type ℓ} → ℤ → List A → List A
capped (pos zero) xs = xs
capped (pos (suc n)) xs = take (suc n) xs
capped (negsuc n) xs = xs

-- Each ends no later than those before it.
abbrev pub NewestFirst : List CapturedTrace → Type 0
NewestFirst [] = Unit
NewestFirst (t ∷ ts) = All (λ u. u.end ≤ t.end) ts × NewestFirst ts

-- A condition that a filter leaves empty does not count.
pub record Meets (to_ns : ℤ → ℤ) (f : TraceFilter) (t : CapturedTrace) : Type 0 where
  pub long : (f.min_duration ≤ℤ pos 0) ⊎ (f.min_duration ≤ℤ to_ns t.duration_us)
  pub status : (f.status ≡ []) ⊎ (t.status_code ≡ f.status)
  pub name : (f.name_contains ≡ []) ⊎ Occurs f.name_contains t.root_name
  pub recent : (f.since ≡ 0) ⊎ (f.since ≤ t.end)

module _ (to_ns : ℤ → ℤ) where
  abbrev keeps : TraceFilter → CapturedTrace → Bool
  keeps f t = filter_match to_ns t f
