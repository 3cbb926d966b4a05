-- ===== src/Telemetry/Ring/Refinement.antt =====
-- The contract of the two retention pools of internal/adapters/telemetry/ringbuffer.go, and that
-- `finalizeLocked` implements it for trace ids that are not retained already.
use ortus.Common.{
  ℕ, ◌-◌, ◌≡◌, ◌∙◌, ap₂, Bool, true, false, ◌&&◌, none, some, [], ◌∷◌, ◌++◌, Str, arith, str_eq,
  str_eq_iff, elem, elem-append, length, length-append, length-map, drop, if◌then◌else◌, inl, inr,
  Bool-cases,
}
use ortus.Common.Maps.{Map, lookup}
use ortus.Common.Keys.{
  Distinct, keys, elem-drop, drop-Distinct, snoc-Distinct, lookup-append, lookup-drop,
  lookup_absent, keys-append, keys-drop,
}
use ortus.Telemetry.Types.{CapturedTrace, TraceBuffer, RingBuffer}
use ortus.Telemetry.Ring.{finalize, finish, is_error}
use ortus.Telemetry.Ring.Evict.{newest, oldest, elem-oldest_or_newest}
use ortus.Telemetry.Ring.Finalize.{finalize_lem, lookup-finalize}

-- The traces that a client can ask for, oldest first: the successful ones and those in error.
pub record Pools : Type 0 where
  pub ok : Map CapturedTrace
  pub err : Map CapturedTrace

-- A finished trace joins its pool, which keeps the newest `cap`.
abbrev pub retain : ℕ → Bool → Str → CapturedTrace → Pools → Pools
retain cap true id t p = record p { err = newest cap (p.err ++ ((id, t) ∷ [])) }
retain cap false id t p = record p { ok = newest cap (p.ok ++ ((id, t) ∷ [])) }

pub record Represents (r : RingBuffer) (p : Pools) : Type 0 where
  pub ok_ids : r.order_ok ≡ keys p.ok
  pub err_ids : r.order_err ≡ keys p.err
  pub found : (k : Str) → lookup k r.finished ≡ lookup k (p.ok ++ p.err)
  pub ok_distinct : Distinct (keys p.ok)
  pub err_distinct : Distinct (keys p.err)
  pub disjoint : (k : Str) → (elem k (keys p.ok) && elem k (keys p.err)) ≡ false

module _ (n : ℕ) (m : Map CapturedTrace) (id : Str) (t : CapturedTrace) where
  length-keys : length (m ++ ((id, t) ∷ [])) ≡ length (keys m ++ (id ∷ []))
  length-keys = omega (
    arith,
    length-append m ((id, t) ∷ []),
    length-append (keys m) (id ∷ []),
    length-map m (λ e. e.0),
  )

  keys-newest : keys (newest n (m ++ ((id, t) ∷ []))) ≡ newest n (keys m ++ (id ∷ []))
  keys-newest =
      keys-drop (length (m ++ ((id, t) ∷ [])) - n) (m ++ ((id, t) ∷ []))
      ∙ ap₂ (λ k l. drop (k - n) l) length-keys (keys-append m ((id, t) ∷ []))

  module _ (d : Distinct (keys m)) (fresh : elem id (keys m) ≡ false) where
    newest-Distinct : Distinct (keys (newest n (m ++ ((id, t) ∷ []))))
    newest-Distinct = rw keys-newest (drop-Distinct _ _ (snoc-Distinct id (keys m) fresh d))

    lookup-newest :
        (k : Str)
        → lookup k (newest n (m ++ ((id, t) ∷ []))) ≡ (
            if elem k (oldest n (keys m ++ (id ∷ [])))
            then none
            else if str_eq id k
            then some t
            else lookup k m)
    unfolding lookup
    lookup-newest k =
        lookup-drop k _ (m ++ ((id, t) ∷ [])) (rw keys-append (snoc-Distinct id (keys m) fresh d))
        ∙ rw (keys-append, length-keys, lookup-append)
            (ground (arith, str_eq_iff id k, lookup_absent id m fresh))

module _ (id : Str) (buf : TraceBuffer) (r : RingBuffer) (p : Pools) (v : Represents r p)
    (new_ok : elem id (keys p.ok) ≡ false) (new_err : elem id (keys p.err) ≡ false) where
  found_ok :
      (k : Str)
      → is_error buf ≡ false
      → lookup k (finalize id buf r).finished
        ≡ lookup k (newest r.capacity (p.ok ++ ((id, finish r.service id buf) ∷ [])) ++ p.err)
  unfolding lookup elem
  found_ok k e = ground (
    arith,
    e,
    lookup-finalize id buf r k,
    v.ok_ids,
    v.found k,
    lookup-append k p.ok p.err,
    lookup-append k (newest r.capacity (p.ok ++ ((id, finish r.service id buf) ∷ []))) p.err,
    lookup-newest r.capacity p.ok id (finish r.service id buf) v.ok_distinct new_ok k,
    str_eq_iff id k,
    elem-oldest_or_newest k r.capacity (keys p.ok ++ (id ∷ [])),
    elem-append k (keys p.ok) (id ∷ []),
    v.disjoint k,
    lookup_absent k p.err,
  )

  found_err :
      (k : Str)
      → is_error buf ≡ true
      → lookup k (finalize id buf r).finished
        ≡ lookup k (p.ok ++ newest r.capacity (p.err ++ ((id, finish r.service id buf) ∷ [])))
  unfolding lookup elem
  found_err k e = ground (
    arith,
    e,
    lookup-finalize id buf r k,
    v.err_ids,
    v.found k,
    lookup-append k p.ok p.err,
    lookup-append k p.ok (newest r.capacity (p.err ++ ((id, finish r.service id buf) ∷ []))),
    lookup-newest r.capacity p.err id (finish r.service id buf) v.err_distinct new_err k,
    str_eq_iff id k,
    elem-oldest_or_newest k r.capacity (keys p.err ++ (id ∷ [])),
    elem-append k (keys p.err) (id ∷ []),
    v.disjoint k,
    lookup_absent k p.ok,
  )

  -- An id of a pool after the step was there before, or is the new one.
  pub elem-keys-newest :
      (k : Str) (m : Map CapturedTrace)
      → elem k (keys m) ≡ false
      → str_eq id k ≡ false
      → elem k (keys (newest r.capacity (m ++ ((id, finish r.service id buf) ∷ [])))) ≡ false
  unfolding elem
  elem-keys-newest k m h ne = rw (keys-newest r.capacity m id (finish r.service id buf)) (
      elem-drop k (length (keys m ++ (id ∷ [])) - r.capacity) (keys m ++ (id ∷ []))
        (ground (arith, elem-append k (keys m) (id ∷ []))))

  finalize-Represents_ok :
      is_error buf ≡ false
      → Represents
          (finalize id buf r)
          (record p { ok = newest r.capacity (p.ok ++ ((id, finish r.service id buf) ∷ [])) })
  finalize-Represents_ok e = record {
    ok_ids = ground (
      arith,
      finalize_lem id buf r,
      e,
      v.ok_ids,
      keys-newest r.capacity p.ok id (finish r.service id buf),
    );
    err_ids = ground (arith, finalize_lem id buf r, e, v.err_ids);
    found = λ k. found_ok k e;
    ok_distinct = newest-Distinct r.capacity p.ok id (finish r.service id buf) v.ok_distinct new_ok;
    err_distinct = v.err_distinct;
    disjoint = λ k. ground (arith, v.disjoint k, elem-keys-newest k p.ok, str_eq_iff id k);
  }

  finalize-Represents_err :
      is_error buf ≡ true
      → Represents
          (finalize id buf r)
          (record p { err = newest r.capacity (p.err ++ ((id, finish r.service id buf) ∷ [])) })
  finalize-Represents_err e = record {
    ok_ids = ground (arith, finalize_lem id buf r, e, v.ok_ids);
    err_ids = ground (
      arith,
      finalize_lem id buf r,
      e,
      v.err_ids,
      keys-newest r.capacity p.err id (finish r.service id buf),
    );
    found = λ k. found_err k e;
    ok_distinct = v.ok_distinct;
    err_distinct =
        newest-Distinct r.capacity p.err id (finish r.service id buf) v.err_distinct new_err;
    disjoint = λ k. ground (arith, v.disjoint k, elem-keys-newest k p.err, str_eq_iff id k);
  }

  -- One finalization of a trace that is not retained is one `retain` of the pools.
  pub finalize-Represents :
      Represents
        (finalize id buf r)
        (retain r.capacity (is_error buf) id (finish r.service id buf) p)
  finalize-Represents = elim (Bool-cases (is_error buf)) [
    | inl e ↦ rw e (finalize-Represents_err e)
    | inr e ↦ rw e (finalize-Represents_ok e)
  ]
