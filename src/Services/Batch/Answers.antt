-- ===== src/Services/Batch/Answers.antt =====
-- What `QueryBatch` of internal/application/query_batch.go answers.
use ortus.Common.{
  suc, ◌≡◌, refl, subst, ◌∙◌, ap, true, some, List, [], ◌∷◌, map, Str, arith, str_eq_refl, elem,
  drop, get_or, ap₂, if◌then◌else◌, if_cases, inl, inr, Option-cases,
}
use ortus.Common.Maps.{lookup}
use ortus.Common.Sort.{All}
use ortus.Domain.Errors.{Error, Result, ok, err, source_not_found, is_context_err}
use ortus.Domain.Types.{Coordinate, Source, QueryResult, QueryResponse, add_result}
use ortus.Registry.Types.{Environment}
use ortus.Registry.Load.{get_source}
use ortus.Registry.Invariant.{IsValid}
use ortus.Services.Query.{QueryService, empty_result, add_source}
use ortus.Services.Query.Answers.{ok_injective, IsWithin, add_result_answers, AreAnswers}
use ortus.Services.Batch.{
  resolve_batch_sources, batch_layers, add_results, query_batch_source, batch_sources, query_batch,
  empty_response,
}
use ortus.Services.Batch.Layers.{
  Meets, Ends, Ends-bind, Ends-ok, AnswersEach, AnyError, Fine, batch_layers-Ends,
}

abbrev pub IsContextError : Error → Type 0
IsContextError e = is_context_err e ≡ true

module _ {W : Type 0} (s : QueryService W) where
  -- One response for each coordinate, in order, each with answers of the sources.
  abbrev pub AnswersAll : List Str → List Coordinate → List QueryResponse → Type 0
  AnswersAll ids coords out =
      (map (λ (o : QueryResponse). o.coordinate) out ≡ coords) × All (AreAnswers s ids) out

module _ {W : Type 0} (env : Environment W) (s : QueryService W) where
  add_source-coordinate :
      (m : Result QueryResult) (o : QueryResponse) → (add_source m o).coordinate ≡ o.coordinate
  unfolding add_source add_result
  add_source-coordinate (err e) o = refl
  add_source-coordinate (ok r) o = ground arith

  add_results-answers :
      (ids : List Str) (id : Str) (coords : List Coordinate) (results : List QueryResult)
      (out : List QueryResponse)
      → elem id ids ≡ true
      → Fine s id coords results
      → AnswersAll s ids coords out
      → AnswersAll s ids coords (add_results results out)
  unfolding add_results add_source
  add_results-answers ids id coords [] out asked h a = a
  add_results-answers ids id coords (r ∷ rs) [] asked h a = a
  add_results-answers ids id [] (r ∷ rs) (o ∷ os) asked h a = absurd (ground (arith, h.0))
  add_results-answers ids id (c ∷ cs) (r ∷ rs) (o ∷ os) asked h a =
      let rest =
        add_results-answers ids id cs rs os asked (ground (arith, h.0), h.1.1)
          (ap (drop 1) a.0, a.1.1) in
      let same : (add_source (ok r) o).coordinate ≡ c =
        add_source-coordinate (ok r) o ∙ ap (λ l. get_or l 0 c) a.0 in
      let answer : AreAnswers s ids (add_source (ok r) o) =
        add_result_answers s ids id (ok r) o asked
          (λ q is. subst (λ p. IsWithin s p × (p.source_id ≡ id)) (ok_injective is) h.1.0) a.1.0 in
      (ap₂ ◌∷◌ same rest.0, (answer, rest.1))

  start-Fine :
      (id : Str) (src : Source) (coords : List Coordinate)
      → src.id ≡ id
      → Fine s id coords (map (λ (_ : Coordinate). empty_result s src) coords)
  start-Fine id src [] is = (refl, tt)
  start-Fine id src (c ∷ cs) is =
      let rest = start-Fine id src cs is in (ap suc rest.0, ((ground (arith), is), rest.1))

  query_batch_source-Ends :
      (ids : List Str) (id : Str) (coords : List Coordinate) (properties : List Str)
      (out : List QueryResponse)
      → IsValid AnswersEach s.registry
      → elem id ids ≡ true
      → AnswersAll s ids coords out
      → Ends (AnswersAll s ids coords) AnyError (query_batch_source env s id coords properties out)
  unfolding query_batch_source get_source
  query_batch_source-Ends ids id coords properties out v asked a =
      elim (Option-cases (lookup id s.registry.sources)) [
        | inl absent ↦ (err source_not_found, rw (query_batch_source, get_source, absent) refl, tt)
        | inr (e, h) ↦
            let entry = v.entries id e h in
            let start = map (λ (_ : Coordinate). empty_result s entry.source) coords in
            let layers = batch_layers env s id entry.source.layers coords properties start in
            rw (query_batch_source, get_source, h)
              (rw entry.has_source (
                Ends-bind (AnswersAll s ids coords) AnyError layers
                  (λ m. elim m [
                    | err e ↦ some (err e)
                    | ok results ↦ some (ok (add_results results out))
                  ])
                  (batch_layers-Ends env s id entry.source.layers coords properties start v
                    (start-Fine id entry.source coords entry.keyed))
                  (λ m. Ends-ok (AnswersAll s ids coords) m (λ results fine. (
                    ok (add_results results out),
                    refl,
                    add_results-answers ids id coords results out asked fine a,
                  )))))
      ]

  batch_sources-Ends :
      (ids todo : List Str) (coords : List Coordinate) (properties : List Str)
      (out : List QueryResponse)
      → IsValid AnswersEach s.registry
      → ((k : Str) → elem k todo ≡ true → elem k ids ≡ true)
      → AnswersAll s ids coords out
      → Ends
          (AnswersAll s ids coords)
          IsContextError
          (batch_sources env s todo coords properties out)
  unfolding batch_sources elem
  batch_sources-Ends ids [] coords properties out v t a = (ok out, refl, a)
  batch_sources-Ends ids (id ∷ todo) coords properties out v t a =
      let (m, is, h) =
        query_batch_source-Ends ids id coords properties out v
          (t id (ground (arith, str_eq_refl id))) a in
      let rest : (o : List QueryResponse)
          → AnswersAll s ids coords o
          → Ends (AnswersAll s ids coords) IsContextError
              (batch_sources env s todo coords properties o) =
        λ o b.
          batch_sources-Ends ids todo coords properties o v (λ k e. t k (ground (arith, e))) b in
      rw (batch_sources, is) (after m h (rest out a) rest)
    where
      after :
          (m : Result (List QueryResponse))
          → Meets (AnswersAll s ids coords) AnyError m
          → Ends
              (AnswersAll s ids coords)
              IsContextError
              (batch_sources env s todo coords properties out)
          → ((o : List QueryResponse)
              → AnswersAll s ids coords o
              → Ends
                  (AnswersAll s ids coords)
                  IsContextError
                  (batch_sources env s todo coords properties o))
          → Ends (AnswersAll s ids coords) IsContextError (elim m [
            | err e ↦
                if is_context_err e
                then some (err e)
                else batch_sources env s todo coords properties out
            | ok out' ↦ batch_sources env s todo coords properties out'
          ])
      after (err e) h others rest =
          if_cases (Ends (AnswersAll s ids coords) IsContextError) (is_context_err e)
            (λ ended. (err e, refl, ended)) (λ isolated. others)
      after (ok o) h others rest = rest o h

  start-answers :
      (ids : List Str) (coords : List Coordinate)
      → AnswersAll s ids coords (map empty_response coords)
  start-answers ids [] = (refl, tt)
  start-answers ids (c ∷ cs) =
      let rest = start-answers ids cs in (ap (λ l. c ∷ l) rest.0, ((tt, refl), rest.1))

  -- Over a valid registry whose adapters answer a batch with one list for each coordinate, a batch
  -- with known sources never panics: it ends with one response for each coordinate, in their order,
  -- with answers of those sources within the limit and the right totals, or with the error of a
  -- canceled or overdue context.
  pub query_batch_answers :
      (coords : List Coordinate) (sources properties ids : List Str)
      → IsValid AnswersEach s.registry
      → resolve_batch_sources s sources ≡ ok ids
      → Ends (AnswersAll s ids coords) IsContextError (query_batch env s coords sources properties)
  unfolding query_batch
  query_batch_answers coords sources properties ids v known =
      rw (query_batch, known)
        (batch_sources-Ends ids ids coords properties (map empty_response coords) v (λ k e. e)
          (start-answers ids coords))
