-- ===== src/Http/Batch.antt =====
-- The batch endpoint: internal/adapters/http/batch.go and batch_render.go, with `wgs84OrLog` and
-- `toWGS84` of enrich.go and gazetteer.go and the status codes of `handleQueryError` of handlers.go.
-- Decoding the body with its limit of bytes is a parameter, as are the gazetteer block of a point,
-- of a type `G`, the points at which the enrichment goes on: it stops at one where the context
-- has ended, and the items of a stream that are written. A text of an error is the error itself, and is not empty.
pub mod Scatter
pub mod Built
pub mod Items
pub mod Placed
use ortus.Common.{
  ℕ, zero, suc, Bool, true, false, not, ◌&&◌, ◌||◌, Option, none, some, List, [], ◌∷◌, ◌++◌, Str,
  bytes, str_eq, length, set, replicate, ltb, ◌==◌, if◌then◌else◌,
}
use ortus.Common.Int.{ℤ, pos, ltb_ℤ}
use ortus.Common.Decimal.{itoa}
use ortus.Common.Float.{Float, f_zero}
use ortus.Domain.Types.{Coordinate, QueryResponse}
use ortus.Domain.Coordinates.{eq_ℤ, srid_wgs84, validate}
use ortus.Domain.Errors.{
  Error, Result, ok, err, source_not_found, source_id_collision, unsupported_source,
  invalid_coordinate, unsupported_projection, gazetteer_disabled, canceled, deadline_exceeded,
  other,
}
use ortus.Domain.Paths.{has_prefix}
use ortus.Registry.Types.{Environment}
use ortus.Services.Query.{QueryService}
use ortus.Services.Batch.{query_batch}

-- A pointer to a number may be nil.
pub record BatchPoint : Type 0 where
  pub id : Str
  pub lon : Option Float
  pub lat : Option Float
  pub x : Option Float
  pub y : Option Float
  pub srid : Option ℤ

pub record BatchRequest : Type 0 where
  pub srid : ℤ
  pub sources : List Str
  pub properties : List Str
  pub with_gazetteer : Bool
  pub points : List BatchPoint

-- `firstPositive`
unfoldable pub first_positive : ℤ → ℤ → ℤ
first_positive v default = if ltb_ℤ (pos 0) v then v else default

abbrev pub both : Option Float → Option Float → Option (Float × Float)
both (some a) (some b) = some (a, b)
both _ _ = none

abbrev pub srid_of : BatchPoint → ℤ → ℤ
srid_of p default_srid =
    let srid : ℤ = elim p.srid [ none ↦ default_srid | some s ↦ s ] in
    if eq_ℤ srid (pos 0) then srid_wgs84 else srid

abbrev pub coordinates_required : Error
coordinates_required = other (bytes "coordinates required: provide lon/lat or x/y")

abbrev pub validated : Coordinate → Result Coordinate
validated c = elim (validate c) [ some e ↦ err e | none ↦ ok c ]

-- `batchPoint.coordinate`
unfoldable pub coordinate : BatchPoint → ℤ → Result Coordinate
coordinate p default_srid =
    let at : Float × Float → Result Coordinate =
      λ q. validated (record { x = q.0; y = q.1; z = f_zero; srid = srid_of p default_srid }) in
    elim (both p.lon p.lat) [
      | some q ↦ at q
      | none ↦ elim (both p.x p.y) [ some q ↦ at q | none ↦ err coordinates_required ]
    ]

unfoldable pub id_or : BatchPoint → ℕ → Str
id_or p index = if not (str_eq p.id []) then p.id else itoa index

-- `strings.Contains(s, t)`
unfoldable pub contains : Str → Str → Bool
contains [] t = has_prefix [] t
contains (c ∷ s) t = has_prefix (c ∷ s) t || contains s t

unfoldable pub prefers_ndjson : Str → Bool
prefers_ndjson accept = contains accept (bytes "application/x-ndjson")

-- `handleQueryError`
unfoldable pub status_of : Error → ℕ
status_of (invalid_coordinate field) = 400
status_of source_not_found = 404
status_of source_id_collision = 400
status_of unsupported_source = 422
status_of unsupported_projection = 422
status_of gazetteer_disabled = 503
status_of deadline_exceeded = 504
status_of canceled = 499
status_of _ = 500

-- `batchInputs`: for each point its error or coordinate and, unless it has an error, its place in
-- WGS 84, if that is known; and the coordinates that are valid, with their indices.
pub record BatchInputs : Type 0 where
  pub items : List (Result Coordinate)
  pub wgs : List (Option Coordinate)
  pub valid : List Coordinate
  pub valid_idx : List ℕ

-- The configuration of a server, and the parts that it calls.
pub record BatchServer (W G : Type 0) : Type 0 where
  pub query_service : QueryService W
  pub transformer : Option (Coordinate → ℤ → Result Coordinate)
  pub is_supported : ℤ → ℤ → Bool
  pub sections : Option (Coordinate → Result G)
  pub batch_max_points : ℕ
  pub batch_max_sync : ℕ

-- One object of the response.
pub data BatchItem (G : Type 0) : Type 0 where
  error_item : Str → Error → BatchItem G
  result_item : Str → QueryResponse → Option Coordinate → Option G → BatchItem G

pub data BatchReply (G : Type 0) : Type 0 where
  refusal : ℕ → BatchReply G
  json streamed : List (BatchItem G) → BatchReply G

-- `parseBatchRequest` on a limited body.
pub data Body : Type 0 where
  too_large invalid_json : Body
  decoded : BatchRequest → Body

-- `toWGS84` as `wgs84OrLog` takes it: none is a failure.
module _ {W G : Type 0} (s : BatchServer W G) where
  unfoldable pub wgs84_or_log : Coordinate → Option Coordinate
  wgs84_or_log c =
      if eq_ℤ c.srid (pos 0) || eq_ℤ c.srid srid_wgs84
      then some (record { x = c.x; y = c.y; z = f_zero; srid = srid_wgs84 })
      else elim s.transformer [
        | none ↦ none
        | some transform ↦
            if not (s.is_supported c.srid srid_wgs84)
            then none
            else elim (transform c srid_wgs84) [ err e ↦ none | ok w ↦ some w ]
      ]

  -- The loop of `resolveBatchInputs`, from the index `i` on.
  unfoldable pub resolve_points : ℤ → ℕ → List BatchPoint → BatchInputs
  resolve_points srid i [] = record { items = []; wgs = []; valid = []; valid_idx = [] }
  resolve_points srid i (p ∷ points) =
      let rest = resolve_points srid (suc i) points in
      elim (coordinate p srid) [
        | err e ↦ record rest { items = err e ∷ rest.items; wgs = none ∷ rest.wgs }
        | ok c ↦ record {
          items = ok c ∷ rest.items;
          wgs = wgs84_or_log c ∷ rest.wgs;
          valid = c ∷ rest.valid;
          valid_idx = i ∷ rest.valid_idx;
        }
      ]

  abbrev pub resolve_batch_inputs : BatchRequest → BatchInputs
  resolve_batch_inputs req = resolve_points req.srid 0 req.points

-- `for k, origIdx := range in.validIdx { responses[origIdx] = sub[k] }`
unfoldable pub scatter :
    List ℕ → List QueryResponse → List (Option QueryResponse) → List (Option QueryResponse)
scatter [] sub responses = responses
scatter (i ∷ is) [] responses = responses
scatter (i ∷ is) (r ∷ sub) responses = scatter is sub (set responses i (some r))

module _ {W G : Type 0} (s : BatchServer W G) (goes_on : ℕ → Bool) where
  -- `enrichGazetteerPoint`
  abbrev pub enrich : (Coordinate → Result G) → Coordinate → Option G
  enrich sections w = elim (sections w) [ err e ↦ none | ok g ↦ some g ]

  -- The loop of `batchGazetteer`: a point that is not in WGS 84, or has an error, gets no block.
  unfoldable pub enrich_points :
      (Coordinate → Result G) → ℕ → List (Option Coordinate) → List (Option G)
  enrich_points sections i [] = []
  enrich_points sections i (none ∷ wgs) = none ∷ enrich_points sections (suc i) wgs
  enrich_points sections i (some w ∷ wgs) = elim (goes_on i) [
    | false ↦ replicate (suc (length wgs)) none
    | true ↦ enrich sections w ∷ enrich_points sections (suc i) wgs
  ]

  unfoldable pub batch_gazetteer : BatchRequest → List (Option Coordinate) → List (Option G)
  batch_gazetteer req wgs =
      if not req.with_gazetteer
      then []
      else elim s.sections [ none ↦ [] | some sections ↦ enrich_points sections 0 wgs ]

-- The block of the next point: the list may be shorter than that of the points.
abbrev pub head_block {ℓ} : {G : Type ℓ} → List (Option G) → Option G
head_block [] = none
head_block (g ∷ gs) = g

abbrev pub tail_blocks {ℓ} : {G : Type ℓ} → List (Option G) → List (Option G)
tail_blocks [] = []
tail_blocks (g ∷ gs) = gs

-- The loop of `buildBatchItems`, from the index `i` on. `none` is the panic on a missing response,
-- or on a list that is too short.
unfoldable pub build_items :
    {G : Type 0}
    → ℕ
    → List BatchPoint
    → List (Result Coordinate)
    → List (Option Coordinate)
    → List (Option QueryResponse)
    → List (Option G)
    → Option (List (BatchItem G))
build_items i [] items wgs responses gaz = some []
build_items i (p ∷ points) (err e ∷ items) (w ∷ wgs) (r ∷ responses) gaz =
    elim (build_items (suc i) points items wgs responses (tail_blocks gaz)) [
      | none ↦ none
      | some built ↦ some (error_item (id_or p i) e ∷ built)
    ]
build_items i (p ∷ points) (ok c ∷ items) (w ∷ wgs) (some r ∷ responses) gaz =
    elim (build_items (suc i) points items wgs responses (tail_blocks gaz)) [
      | none ↦ none
      | some built ↦ some (result_item (id_or p i) r w (head_block gaz) ∷ built)
    ]
build_items i (p ∷ points) _ _ _ gaz = none

-- `streamBatchItems`, from the item `i` on: `writes` tells for each item whether the context of the
-- request goes on and the item can be written.
unfoldable pub stream_batch_items {ℓ} : {A : Type ℓ} → (ℕ → Bool) → ℕ → List A → List A
stream_batch_items writes i [] = []
stream_batch_items writes i (item ∷ items) =
    if writes i then item ∷ stream_batch_items writes (suc i) items else []

module _ {W G : Type 0} (env : Environment W) (s : BatchServer W G)
    (goes_on writes : ℕ → Bool) where
  -- What follows on the answer of the query service; `none` is a panic.
  unfoldable pub answer_batch :
      BatchRequest → Bool → BatchInputs → Result (List QueryResponse) → Option (BatchReply G)
  answer_batch req stream inputs (err e) = some (refusal (status_of e))
  answer_batch req stream inputs (ok sub) =
      if not (length sub == length inputs.valid)
      then some (refusal 500)
      else elim (build_items 0 req.points inputs.items inputs.wgs
          (scatter inputs.valid_idx sub (replicate (length req.points) none))
          (batch_gazetteer s goes_on req inputs.wgs)) [
            | none ↦ none
            | some items ↦
                some (if stream then streamed (stream_batch_items writes 0 items) else json items)
          ]

  -- `handleQueryBatch`, for a client that sends the header `Accept`.
  unfoldable pub handle_query_batch : Body → Str → Option (BatchReply G)
  handle_query_batch too_large accept = some (refusal 413)
  handle_query_batch invalid_json accept = some (refusal 400)
  handle_query_batch (decoded req) accept =
      let n = length req.points in
      let stream = prefers_ndjson accept in
      let inputs = resolve_batch_inputs s req in
      if n == 0
      then some (refusal 400)
      else if ltb s.batch_max_points n
      then some (refusal 400)
      else if not stream && ltb s.batch_max_sync n
      then some (refusal 413)
      else elim (query_batch env s.query_service inputs.valid req.sources req.properties) [
        | none ↦ none
        | some answer ↦ answer_batch req stream inputs answer
      ]
