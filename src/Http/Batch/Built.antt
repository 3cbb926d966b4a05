-- ===== src/Http/Batch/Built.antt =====
-- The objects that buildBatchItems of internal/adapters/http/batch.go makes of the points.
use ortus.Common.{
  subst, ℕ, suc, ◌≡◌, refl, sym, ap, Bool, true, false, if_cases, Option, none, some, List, [], ◌∷◌,
  Str, get_or, drop,
}
use ortus.Common.Int.{ℤ}
use ortus.Domain.Types.{Coordinate, QueryResponse}
use ortus.Domain.Errors.{Error, ok, err, result_cases}
use ortus.Services.Query.Answers.{AreAnswers}
use ortus.Services.Batch.Answers.{AnswersAll}
use ortus.Http.Batch.{
  BatchPoint, BatchInputs, BatchServer, BatchItem, error_item, result_item, coordinate, id_or,
  wgs84_or_log, resolve_points, tail_blocks, head_block, build_items, stream_batch_items,
}
use ortus.Http.Batch.Placed.{
  IsId, IsPlace, IsInside, IsUnplaced, IsWgs84, IsPlaced, id_or-IsId, coordinate-IsPlaced,
  wgs84_or_log-IsWgs84,
}
use ortus.Http.Batch.Scatter.{align}

module _ {W G : Type 0} (s : BatchServer W G) (ids : List Str) (srid : ℤ) where
  -- The object answers the point with the index `i`.
  abbrev pub Match : ℕ → BatchPoint → BatchItem G → Type 0
  Match i p (error_item id e) = IsId i p id × IsUnplaced p srid e
  Match i p (result_item id r w g) =
      IsId i p id
      × IsPlace p srid r.coordinate
      × IsInside r.coordinate
      × AreAnswers s.query_service ids r
      × IsWgs84 s r.coordinate w

  -- One object for each point, in their order.
  abbrev pub Matches : ℕ → List BatchPoint → List (BatchItem G) → Type 0
  Matches i [] [] = Unit
  Matches i (p ∷ points) (item ∷ items) = Match i p item × Matches (suc i) points items
  Matches i _ _ = ⊥

  -- One object for each point, up to the first that is not written.
  abbrev pub Streams : (ℕ → Bool) → ℕ → List BatchPoint → List (BatchItem G) → Type 0
  Streams writes i [] [] = Unit
  Streams writes i (p ∷ points) [] = writes i ≡ false
  Streams writes i (p ∷ points) (item ∷ items) =
      (writes i ≡ true) × Match i p item × Streams writes (suc i) points items
  Streams writes i [] _ = ⊥

  pub stream_batch_items-Streams :
      (writes : ℕ → Bool) (i : ℕ) (points : List BatchPoint) (items : List (BatchItem G))
      → Matches i points items
      → Streams writes i points (stream_batch_items writes i items)
  unfolding stream_batch_items
  stream_batch_items-Streams writes i [] [] m = tt
  stream_batch_items-Streams writes i [] (item ∷ items) m = absurd m
  stream_batch_items-Streams writes i (p ∷ points) [] m = absurd m
  stream_batch_items-Streams writes i (p ∷ points) (item ∷ items) m =
      if_cases (Streams writes i (p ∷ points)) (writes i)
        (λ h. (h, m.0, stream_batch_items-Streams writes (suc i) points items m.1)) (λ h. h)

  abbrev pub Built : ℕ → List BatchPoint → Option (List (BatchItem G)) → Type 0
  Built i points o = (items : List (BatchItem G)) × (o ≡ some items) × Matches i points items

  -- An object in front of those of the other points.
  abbrev pub Continues : ℕ → List BatchPoint → BatchInputs → Type 0
  Continues i points q =
      (sub : List QueryResponse) (gaz : List (Option G))
      → AnswersAll s.query_service ids q.valid sub
      → Built i points (build_items i points q.items q.wgs (align q.items sub) gaz)

  failed-Built :
      (i : ℕ) (p : BatchPoint) (points : List BatchPoint) (q : BatchInputs) (e : Error)
      → IsUnplaced p srid e
      → Continues (suc i) points q
      → Continues i (p ∷ points) (record q { items = err e ∷ q.items; wgs = none ∷ q.wgs })
  unfolding build_items align
  failed-Built i p points q e unplaced next sub gaz a =
      let (items, built, matches) = next sub (tail_blocks gaz) a in
      (error_item (id_or p i) e ∷ items, rw built refl, ((id_or-IsId i p, unplaced), matches))

  found-Built :
      (i : ℕ) (p : BatchPoint) (points : List BatchPoint) (q : BatchInputs) (c : Coordinate) (k : ℕ)
      → IsPlace p srid c
      → IsInside c
      → Continues (suc i) points q
      → Continues i (p ∷ points) (record {
        items = ok c ∷ q.items;
        wgs = wgs84_or_log s c ∷ q.wgs;
        valid = c ∷ q.valid;
        valid_idx = k ∷ q.valid_idx;
      })
  unfolding build_items align
  found-Built i p points q c k is inside next [] gaz a = absurd (cc)
  found-Built i p points q c k is inside next (r ∷ sub) gaz a =
      let (items, built, matches) = next sub (tail_blocks gaz) (ap (drop 1) a.0, a.1.1) in
      let same : r.coordinate ≡ c = ap (λ l. get_or l 0 c) a.0 in
      (
        result_item (id_or p i) r (wgs84_or_log s c) (head_block gaz) ∷ items,
        rw built refl,
        (
          (
            id_or-IsId i p,
            subst (IsPlace p srid) (sym same) is,
            subst IsInside (sym same) inside,
            a.1.0,
            subst (λ k. IsWgs84 s k (wgs84_or_log s c)) (sym same) (wgs84_or_log-IsWgs84 s c),
          ),
          matches,
        ),
      )

  pub build_items-Built :
      (i : ℕ) (points : List BatchPoint) → Continues i points (resolve_points s srid i points)
  unfolding resolve_points build_items
  build_items-Built i [] = λ sub gaz a. ([], refl, tt)
  build_items-Built i (p ∷ points) =
      let next = build_items-Built (suc i) points in
      result_cases (Continues i (p ∷ points)) (coordinate p srid)
        (λ e failed.
          failed-Built i p points (resolve_points s srid (suc i) points) e
            (subst (IsPlaced p srid) failed (coordinate-IsPlaced p srid)) next)
        (λ c found.
          let placed = subst (IsPlaced p srid) found (coordinate-IsPlaced p srid) in
          found-Built i p points (resolve_points s srid (suc i) points) c i placed.0 placed.1 next)
