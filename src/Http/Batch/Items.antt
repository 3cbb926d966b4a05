-- ===== src/Http/Batch/Items.antt =====
-- What the batch endpoint of internal/adapters/http/batch.go answers.
use ortus.Common.{
  ℕ, ◌≡◌, ◌⊎◌, refl, sym, ap, ◌∙◌, ◌≤◌, ◌<◌, Bool, true, false, not, ◌&&◌, if_cases, Option, none,
  some, List, [], Str, length, length-map, ltb, ◌==◌, arith, if◌then◌else◌,
}
use ortus.Domain.Types.{QueryResponse}
use ortus.Domain.Errors.{Error, Result, ok, err, is_context_err}
use ortus.Registry.Types.{Environment}
use ortus.Registry.Invariant.{IsValid}
use ortus.Services.Batch.{query_batch, resolve_batch_sources}
use ortus.Services.Batch.Layers.{Meets, AnswersEach}
use ortus.Services.Batch.Answers.{AnswersAll, IsContextError, query_batch_answers}
use ortus.Http.Batch.{
  BatchRequest, BatchServer, BatchItem, BatchReply, refusal, json, streamed, decoded,
  prefers_ndjson, status_of, resolve_batch_inputs, batch_gazetteer, build_items, stream_batch_items,
  answer_batch, handle_query_batch,
}
use ortus.Http.Batch.Built.{Matches, Streams, stream_batch_items-Streams, build_items-Built}
use ortus.Http.Batch.Scatter.{scatter-align}

-- What a client gets: an object for each point at once, or the lines that are written, or the status
-- of the error.
abbrev pub Replies :
    {W G : Type 0}
    → BatchServer W G
    → (ℕ → Bool)
    → List Str
    → BatchRequest
    → Bool
    → BatchReply G
    → Type 0
Replies s writes ids req stream (refusal code) = (code ≡ 504) ⊎ (code ≡ 499)
Replies s writes ids req stream (json items) =
    (stream ≡ false) × Matches s ids req.srid 0 req.points items
Replies s writes ids req stream (streamed items) =
    (stream ≡ true) × Streams s ids req.srid writes 0 req.points items

module _ {W G : Type 0} (env : Environment W) (s : BatchServer W G)
    (goes_on writes : ℕ → Bool) where
  answer_batch-Replies :
      (req : BatchRequest) (stream : Bool) (ids : List Str) (sub : List QueryResponse)
      → AnswersAll s.query_service ids (resolve_batch_inputs s req).valid sub
      → (reply : BatchReply G) × (answer_batch env s goes_on writes req stream
            (resolve_batch_inputs s req)
            (ok sub)
          ≡ some reply)
        × Replies s writes ids req stream reply
  unfolding answer_batch
  answer_batch-Replies req stream ids sub a =
      let inputs = resolve_batch_inputs s req in
      let gaz = batch_gazetteer s goes_on req inputs.wgs in
      let long : length sub ≡ length inputs.valid =
        sym (length-map sub (λ (o : QueryResponse). o.coordinate)) ∙ ap length a.0 in
      let placed = scatter-align s req.srid req.points [] 0 refl sub long in
      let (items, built, matches) = build_items-Built s ids req.srid 0 req.points sub gaz a in
      (
        if stream then streamed (stream_batch_items writes 0 items) else json items,
        finished (length sub) (length inputs.valid) _ items long
            (ap (λ r. build_items 0 req.points inputs.items inputs.wgs r gaz) placed ∙ built),
        if_cases (Replies s writes ids req stream) stream
            (λ h. (h, stream_batch_items-Streams s ids req.srid writes 0 req.points items matches))
            (λ h. (h, matches)),
      )
    where
      finished :
          (m n : ℕ) (o : Option (List (BatchItem G))) (items : List (BatchItem G))
          → m ≡ n
          → o ≡ some items
          → (if not (m == n) then some (refusal 500) else elim o [
            | none ↦ none
            | some items ↦
                some (if stream then streamed (stream_batch_items writes 0 items) else json items)
          ])
            ≡ some (if stream then streamed (stream_batch_items writes 0 items) else json items)
      finished m n o items h k = ground (arith, h, k)

  context_status : (e : Error) → IsContextError e → (status_of e ≡ 504) ⊎ (status_of e ≡ 499)
  unfolding is_context_err status_of
  context_status e h = ground (arith, h)

  answered-Replies :
      (req : BatchRequest) (stream : Bool) (ids : List Str) (m : Result (List QueryResponse))
      → Meets (AnswersAll s.query_service ids (resolve_batch_inputs s req).valid) IsContextError m
      → (reply : BatchReply G) × (answer_batch env s goes_on writes req stream
            (resolve_batch_inputs s req)
            m
          ≡ some reply)
        × Replies s writes ids req stream reply
  unfolding answer_batch
  answered-Replies req stream ids (err e) h = (refusal (status_of e), refl, context_status e h)
  answered-Replies req stream ids (ok sub) a = answer_batch-Replies req stream ids sub a

  -- A batch within the limits, over a valid registry whose adapters answer a batch with one list for
  -- each coordinate, with known sources: the handler does not panic. The client may get the status of
  -- an overdue or canceled request. Otherwise it gets one object for each point, in their order; as
  -- NDJSON only up to the first that is not written. An object has the point's id, or the index of a
  -- point without id. It is an error exactly if the point has neither lon and lat nor x and y, or lies
  -- beyond the bounds of WGS 84; otherwise it has answers of the sources at lon and lat, or at x and y
  -- if one of these is missing, in the reference system of the point or else of the request, and its
  -- place in WGS 84, if it can be converted.
  pub handle_query_batch_lem :
      (req : BatchRequest) (accept : Str) (ids : List Str)
      → IsValid AnswersEach s.query_service.registry
      → resolve_batch_sources s.query_service req.sources ≡ ok ids
      → 0 < length req.points
      → length req.points ≤ s.batch_max_points
      → (prefers_ndjson accept ≡ true) ⊎ (length req.points ≤ s.batch_max_sync)
      → (reply : BatchReply G) × (handle_query_batch env s goes_on writes (decoded req) accept
          ≡ some reply)
        × Replies s writes ids req (prefers_ndjson accept) reply
  unfolding handle_query_batch
  handle_query_batch_lem req accept ids v known some_points few sync =
      let inputs = resolve_batch_inputs s req in
      let (answer, is, meets) =
        query_batch_answers env s.query_service inputs.valid req.sources req.properties ids v
          known in
      let (reply, answered, replies) =
        answered-Replies req (prefers_ndjson accept) ids answer meets in
      (
        reply,
        passes (query_batch env s.query_service inputs.valid req.sources req.properties) answer is
            ∙ answered,
        replies,
      )
    where
      passes :
          (o : Option (Result (List QueryResponse))) (m : Result (List QueryResponse))
          → o ≡ some m
          → (if length req.points == 0
              then some (refusal 400)
              else if ltb s.batch_max_points (length req.points)
              then some (refusal 400)
              else if not (prefers_ndjson accept) && ltb s.batch_max_sync (length req.points)
              then some (refusal 413)
              else elim o [
                | none ↦ none
                | some answer ↦
                    answer_batch env s goes_on writes req
                      (prefers_ndjson accept)
                      (resolve_batch_inputs s req)
                      answer
              ])
            ≡ answer_batch env s goes_on writes req
                (prefers_ndjson accept)
                (resolve_batch_inputs s req)
                m
      passes o m e = ground (arith, some_points, few, sync, e)
