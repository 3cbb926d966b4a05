-- ===== src/Telemetry/Ring/Evict.antt =====
-- What the eviction loop of `finalizeLocked` leaves: the newest `capacity` ids of the pool.
use ortus.Common.{
  ℕ, zero, suc, ◌+◌, ◌-◌, ◌%◌, ◌^◌, ◌≤◌, ◌<◌, ◌≡◌, refl, subst, ◌||◌, none, List, [], ◌∷◌, Str,
  arith, elem, elem-append, length, take, drop, take-append-drop, length-drop, if◌then◌else◌,
}
use ortus.Common.Maps.{Map, lookup, delete, lookup-delete}
use ortus.Telemetry.Types.{CapturedTrace}
use ortus.Telemetry.Ring.{evict_over}

module _ {ℓ} {A : Type ℓ} where
  -- The last `n` of a list, and what is before them.
  abbrev pub newest : ℕ → List A → List A
  newest n xs = drop (length xs - n) xs

  abbrev pub oldest : ℕ → List A → List A
  oldest n xs = take (length xs - n) xs

-- `delete(r.finished, victim)` for each victim.
pub delete_all : List Str → Map CapturedTrace → Map CapturedTrace
delete_all [] m = m
delete_all (v ∷ vs) m = delete_all vs (delete v m)

-- `r.evicted++` as often, on a uint64.
pub count_up : ℕ → ℕ → ℕ
count_up zero e = e
count_up (suc n) e = count_up n ((e + 1) % 2 ^ 64)

evict_over_from :
    (cap n : ℕ) (order : List Str) (m : Map CapturedTrace) (e : ℕ)
    → n ≡ length order - cap
    → evict_over cap order m e ≡ (drop n order, delete_all (take n order) m, count_up n e)
unfolding evict_over delete_all count_up
evict_over_from cap zero [] m e h = refl
evict_over_from cap zero (v ∷ rest) m e h = ground arith
evict_over_from cap (suc n) [] m e h = absurd (omega arith)
evict_over_from cap (suc n) (v ∷ rest) m e h =
    ground (arith, evict_over_from cap n rest (delete v m) ((e + 1) % 2 ^ 64))

pub evict_over_lem :
    (cap : ℕ) (order : List Str) (m : Map CapturedTrace) (e : ℕ)
    → evict_over cap order m e
      ≡ (newest cap order, delete_all (oldest cap order) m, count_up (length order - cap) e)
evict_over_lem cap order m e = evict_over_from cap (length order - cap) order m e refl

pub lookup-delete_all :
    (k : Str) (vs : List Str) (m : Map CapturedTrace)
    → lookup k (delete_all vs m) ≡ (if elem k vs then none else lookup k m)
unfolding delete_all elem
lookup-delete_all k [] m = refl
lookup-delete_all k (v ∷ vs) m =
    ground (arith, lookup-delete_all k vs (delete v m), lookup-delete v k m)

pub count_up_lem : (n e : ℕ) → e + n < 2 ^ 64 → count_up n e ≡ e + n
unfolding count_up
count_up_lem zero e h = omega arith
count_up_lem (suc n) e h = omega (arith, count_up_lem n ((e + 1) % 2 ^ 64))

-- An id leaves the pool only as an eviction, and an evicted id that stands once is gone from it.
pub elem-oldest_or_newest :
    (k : Str) (n : ℕ) (xs : List Str) → elem k xs ≡ (elem k (oldest n xs) || elem k (newest n xs))
elem-oldest_or_newest k n xs =
    subst (λ ys. elem k ys ≡ (elem k (oldest n xs) || elem k (newest n xs)))
      (take-append-drop (length xs - n) xs) (elem-append k (oldest n xs) (newest n xs))

pub length-newest-le : (n : ℕ) (xs : List Str) → length (newest n xs) ≤ n
length-newest-le n xs = omega (arith, length-drop (length xs - n) xs)
