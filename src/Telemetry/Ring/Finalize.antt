-- ===== src/Telemetry/Ring/Finalize.antt =====
-- `finalizeLocked` field by field: the pool that it appends to, what it keeps and what it drops.
use ortus.Common.{
  ◌-◌, ◌≡◌, refl, none, some, List, [], ◌∷◌, ◌++◌, Str, str_eq, elem, length, if◌then◌else◌, inl,
  inr, Bool-cases,
}
use ortus.Common.Maps.{lookup, insert, delete, lookup-insert}
use ortus.Telemetry.Types.{TraceBuffer, RingBuffer}
use ortus.Telemetry.Ring.{finalize, finish, is_error}
use ortus.Telemetry.Ring.Evict.{
  newest, oldest, delete_all, count_up, evict_over_lem, lookup-delete_all,
}

-- The pool that a finished trace goes to, with its id at the end.
abbrev pub appended : Str → TraceBuffer → RingBuffer → List Str
appended id buf r = (if is_error buf then r.order_err else r.order_ok) ++ (id ∷ [])

module _ (id : Str) (buf : TraceBuffer) (r : RingBuffer) where
  pub finalize_lem : finalize id buf r ≡ record r {
    active = delete id r.active;
    finished =
        delete_all
          (oldest r.capacity (appended id buf r))
          (insert id (finish r.service id buf) r.finished);
    order_ok = if is_error buf then r.order_ok else newest r.capacity (appended id buf r);
    order_err = if is_error buf then newest r.capacity (appended id buf r) else r.order_err;
    evicted = count_up (length (appended id buf r) - r.capacity) r.evicted;
  }
  unfolding finalize
  finalize_lem = elim (Bool-cases (is_error buf)) [
    | inl e ↦ rw (e, evict_over_lem) refl
    | inr e ↦ rw (e, evict_over_lem) refl
  ]

  -- The traces that can be asked for afterwards.
  pub lookup-finalize :
      (k : Str)
      → lookup k (finalize id buf r).finished ≡ (
          if elem k (oldest r.capacity (appended id buf r))
          then none
          else if str_eq id k
          then some (finish r.service id buf)
          else lookup k r.finished)
  lookup-finalize k = rw (finalize_lem, lookup-delete_all, lookup-insert) refl
