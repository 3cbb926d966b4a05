-- ===== src/Telemetry/Ring/Retention.antt =====
-- Which traces the ring buffer of internal/adapters/telemetry/ringbuffer.go still has after a
-- history of finished traces, and how the two pools depend on one another.
use ortus.Common.{
  ℕ, ◌+◌, ◌-◌, ◌≤◌, ◌≡◌, refl, subst, ◌∙◌, ap, ap₂, Bool, true, false, none, List, [], ◌∷◌, ◌++◌,
  Str, arith, str_eq, str_eq_iff, elem, elem-append, length, length-append, take, drop, length-drop,
  if◌then◌else◌, inl, inr, Bool-cases, zero, suc,
}
use mathlib.Core.List.{append-nil, append_assoc}
use ortus.Common.Maps.{Map, lookup}
use ortus.Common.Keys.{Distinct, keys, elem-take}
use ortus.Common.Int.{ℤ}
use ortus.Telemetry.Types.{CapturedTrace, TraceBuffer, RingBuffer}
use ortus.Telemetry.Ring.{new_ring_buffer, finalize, finish, is_error}
use ortus.Telemetry.Ring.Evict.{newest}
use ortus.Telemetry.Ring.Finalize.{finalize_lem, lookup-finalize}
use ortus.Telemetry.Ring.Refinement.{
  Pools, retain, Represents, elem-keys-newest, finalize-Represents,
}

-- Traces in the order in which they finish.
abbrev pub History : Type 0
History = Map TraceBuffer

unfoldable pub finalize_all : List (Str × TraceBuffer) → RingBuffer → RingBuffer
finalize_all [] r = r
finalize_all ((id, buf) ∷ h) r = finalize_all h (finalize id buf r)

abbrev ids : List (Str × TraceBuffer) → List Str
ids h = keys h

-- The finished traces of a history that are (or are not) in error.
pub traces : Str → Bool → List (Str × TraceBuffer) → Map CapturedTrace
traces service b [] = []
traces service true ((id, buf) ∷ h) =
    if is_error buf
    then (id, finish service id buf) ∷ traces service true h
    else traces service true h
traces service false ((id, buf) ∷ h) =
    if is_error buf
    then traces service false h
    else (id, finish service id buf) ∷ traces service false h

module _ {ℓ} {A : Type ℓ} where
  drop-append : (n : ℕ) (xs ys : List A) → n ≤ length xs → drop n (xs ++ ys) ≡ drop n xs ++ ys
  drop-append zero xs ys h = refl
  drop-append (suc n) [] ys h = elim h [ ]
  drop-append (suc n) (x ∷ xs) ys h = drop-append n xs ys (omega arith)

  drop-nil : (a : ℕ) → drop {A = A} a [] ≡ []
  drop-nil zero = refl
  drop-nil (suc a) = refl

  drop-drop : (a b c : ℕ) (xs : List A) → c ≡ b + a → drop a (drop b xs) ≡ drop c xs
  drop-drop a zero c xs e = let a-eq-c : a ≡ c = omega arith in ap (λ k. drop k xs) a-eq-c
  drop-drop a (suc b) zero xs e = absurd (omega arith)
  drop-drop a (suc b) (suc c) [] e = drop-nil a
  drop-drop a (suc b) (suc c) (x ∷ xs) e = drop-drop a b c xs (omega arith)

  -- What an earlier eviction dropped, a later one would drop too.
  newest-append : (n : ℕ) (xs ys : List A) → newest n (newest n xs ++ ys) ≡ newest n (xs ++ ys)
  newest-append n xs ys =
      let k = length xs - n in
      rw (← drop-append k xs ys (omega arith)) (
        drop-drop _ k (length (xs ++ ys) - n) (xs ++ ys)
          (omega (arith, length-drop k (xs ++ ys), length-append xs ys)))

  newest_of_le : (n : ℕ) (xs : List A) → length xs ≤ n → newest n xs ≡ xs
  newest_of_le n xs h =
      let none_over : length xs - n ≡ 0 = omega arith in ap (λ k. drop k xs) none_over

-- Pools with the finished traces of a history appended, and the newest of each kept.
abbrev pub after_history : ℕ → Str → List (Str × TraceBuffer) → Pools → Pools
after_history cap service h p = record {
  ok = newest cap (p.ok ++ traces service false h);
  err = newest cap (p.err ++ traces service true h);
}

capacity-finalize :
    (id : Str) (buf : TraceBuffer) (r : RingBuffer)
    → ((finalize id buf r).capacity ≡ r.capacity) × ((finalize id buf r).service ≡ r.service)
capacity-finalize id buf r = rw (finalize_lem id buf r) (refl, refl)

newest-snoc :
    (n : ℕ) (m : Map CapturedTrace) (x : Str × CapturedTrace) (l : Map CapturedTrace)
    → newest n (newest n (m ++ (x ∷ [])) ++ l) ≡ newest n (m ++ (x ∷ l))
newest-snoc n m x l = newest-append n (m ++ (x ∷ [])) l ∙ ap (newest n) (append_assoc m (x ∷ []) l)

module _ (cap : ℕ) (service : Str) where
  after_history-retain :
      (id : Str) (buf : TraceBuffer) (h : List (Str × TraceBuffer)) (p : Pools)
      → after_history cap service h (retain cap (is_error buf) id (finish service id buf) p)
        ≡ after_history cap service ((id, buf) ∷ h) p
  unfolding traces
  after_history-retain id buf h p = elim (Bool-cases (is_error buf)) [
    | inl e ↦ rw e (ap (λ l. record after { err = l }) (newest-snoc cap p.err entry _))
    | inr e ↦ rw e (ap (λ l. record after { ok = l }) (newest-snoc cap p.ok entry _))
  ]
    where
      entry : Str × CapturedTrace
      entry = (id, finish service id buf)

      after : Pools
      after = after_history cap service h p

-- No id of the history is retained before.
abbrev Unused : List (Str × TraceBuffer) → Pools → Type 0
Unused h p =
    (k : Str) → elem k (ids h) ≡ true → (elem k (keys p.ok) ≡ false) × (elem k (keys p.err) ≡ false)

abbrev Fits : ℕ → Pools → Type 0
Fits cap p = (length p.ok ≤ cap) × (length p.err ≤ cap)

length-newest : (n : ℕ) (m : Map CapturedTrace) → length (newest n m) ≤ n
length-newest n m = omega (arith, length-drop (length m - n) m)

retain-Fits :
    (cap : ℕ) (b : Bool) (id : Str) (t : CapturedTrace) (p : Pools)
    → Fits cap p
    → Fits cap (retain cap b id t p)
retain-Fits cap true id t p f = (f.0, length-newest cap _)
retain-Fits cap false id t p f = (length-newest cap _, f.1)

module _ (id : Str) (buf : TraceBuffer) (h : List (Str × TraceBuffer)) (r : RingBuffer) (p : Pools)
    (v : Represents r p) (d : Distinct (ids ((id, buf) ∷ h))) (u : Unused ((id, buf) ∷ h) p) where
  unused_head : (elem id (keys p.ok) ≡ false) × (elem id (keys p.err) ≡ false)
  unfolding elem
  unused_head = u id (ground (arith, str_eq_iff id id))

  retain-Unused : Unused h (retain r.capacity (is_error buf) id (finish r.service id buf) p)
  unfolding elem
  retain-Unused k m = elim (Bool-cases (is_error buf)) [
    | inl e ↦ rw e (old.0, still p.err old.1)
    | inr e ↦ rw e (still p.ok old.0, old.1)
  ]
    where
      old : (elem k (keys p.ok) ≡ false) × (elem k (keys p.err) ≡ false)
      old = u k (ground (arith, m))

      other : str_eq id k ≡ false
      other = ground (arith, m, d.0, str_eq_iff id k)

      still :
          (l : Map CapturedTrace)
          → elem k (keys l) ≡ false
          → elem k (keys (newest r.capacity (l ++ ((id, finish r.service id buf) ∷ [])))) ≡ false
      still l e = elem-keys-newest id buf r p v unused_head.0 unused_head.1 k l e other

finalize_all-Represents :
    (h : List (Str × TraceBuffer)) (r : RingBuffer) (p : Pools)
    → Represents r p
    → Distinct (ids h)
    → Unused h p
    → Fits r.capacity p
    → Represents (finalize_all h r) (after_history r.capacity r.service h p)
unfolding finalize_all traces
finalize_all-Represents [] r p v d u f =
    rw (append-nil, append-nil, newest_of_le _ p.ok f.0, newest_of_le _ p.err f.1) v
finalize_all-Represents ((id, buf) ∷ h) r p v d u f =
    let fresh = unused_head id buf h r p v d u in
    let cap = capacity-finalize id buf r in
    let p' = retain r.capacity (is_error buf) id (finish r.service id buf) p in
    let rest =
      finalize_all-Represents h (finalize id buf r) p'
        (finalize-Represents id buf r p v fresh.0 fresh.1) d.1 (retain-Unused id buf h r p v d u)
        (rw cap.0 (retain-Fits r.capacity (is_error buf) id (finish r.service id buf) p f)) in
    subst (Represents (finalize_all h (finalize id buf r)))
      (ap₂ (λ c s. after_history c s h p') cap.0 cap.1
        ∙ after_history-retain r.capacity r.service id buf h p)
      rest

-- After any history of finished traces with distinct ids, the buffer holds exactly the newest
-- `capacity` successful traces and the newest `capacity` traces in error: the pools list their ids
-- oldest first, and a lookup by id finds a trace exactly if it is one of these.
pub retention :
    (capacity : ℤ) (service : Str) (h : List (Str × TraceBuffer))
    → Distinct (keys h)
    → let r = new_ring_buffer capacity service in
      Represents (finalize_all h r) (record {
        ok = newest r.capacity (traces service false h);
        err = newest r.capacity (traces service true h);
      })
unfolding new_ring_buffer lookup elem
retention capacity service h d =
    finalize_all-Represents h (new_ring_buffer capacity service) (record { ok = []; err = [] })
      (record {
        ok_ids = refl;
        err_ids = refl;
        found = λ k. refl;
        ok_distinct = tt;
        err_distinct = tt;
        disjoint = λ k. refl;
      })
      d (λ k m. (refl, refl)) (omega arith)

-- A successful trace that finishes, whatever its buffer held, leaves every trace in error that has
-- another id and is not also in the successful pool as it was, and still in its pool.
pub errors_survive_successes :
    (id k : Str) (buf : TraceBuffer) (r : RingBuffer)
    → is_error buf ≡ false
    → elem k r.order_err ≡ true
    → elem k r.order_ok ≡ false
    → str_eq id k ≡ false
    → (lookup k (finalize id buf r).finished ≡ lookup k r.finished)
      × (elem k (finalize id buf r).order_err ≡ true)
unfolding elem
errors_survive_successes id k buf r s in_err not_ok other = (
  ground (
    arith,
    s,
    lookup-finalize id buf r k,
    elem-append k r.order_ok (id ∷ []),
    elem-take k (length (r.order_ok ++ (id ∷ [])) - r.capacity) (r.order_ok ++ (id ∷ [])),
  ),
  ground (arith, s, finalize_lem id buf r, in_err),
)

-- When a trace that is the oldest of a full successful pool finishes a second time, the buffer
-- loses it: its id joins the pool again, but no lookup finds the trace.
pub finished_twice_lost :
    (id : Str) (rest : List Str) (buf : TraceBuffer) (r : RingBuffer)
    → is_error buf ≡ false
    → r.order_ok ≡ id ∷ rest
    → length r.order_ok ≡ r.capacity
    → (lookup id (finalize id buf r).finished ≡ none)
      × ((finalize id buf r).order_ok ≡ rest ++ (id ∷ []))
unfolding elem
finished_twice_lost id rest buf r s order full =
    let pool : List Str = id ∷ (rest ++ (id ∷ [])) in
    let one : length pool - r.capacity ≡ 1 =
      omega (arith, ap length order, full, length-append rest (id ∷ [])) in
    (
      ground (
        arith,
        s,
        order,
        lookup-finalize id buf r id,
        ap (λ n. take n pool) one,
        str_eq_iff id id,
      ),
      ground (arith, s, order, finalize_lem id buf r, ap (λ n. drop n pool) one),
    )
