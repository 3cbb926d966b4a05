-- ===== src/Services/Query/Answers.antt =====
-- What `QueryPoint` of internal/application/query.go answers.
use ortus.Common.{
  ℕ, ◌+◌, ◌≤◌, ◌<◌, ◌≡◌, ◌≢◌, refl, sym, subst, ◌∙◌, ap, Bool, true, false, not, none, some, List,
  [], ◌∷◌, ◌++◌, Str, arith, str_eq, str_eq_refl, str_eq_iff, elem, length, if◌then◌else◌, if_cases,
  option_cases, inl, inr, Option-cases, length-append, length-take,
}
use ortus.Common.Maps.{Map, lookup}
use ortus.Common.Keys.{Distinct, keys, lookup_absent}
use ortus.Common.Sort.{All, All-append}
use ortus.Common.Int.{pos, pos_part, ltb_ℤ, ◌-ℤ◌}
use ortus.Domain.Errors.{Result, ok, err, source_not_found}
use ortus.Domain.Types.{
  Layer, Feature, QueryRequest, QueryResult, QueryResponse, has_features, add_result,
}
use ortus.Domain.Coordinates.{validate}
use ortus.Registry.Types.{SourceEntry, SpatialSource}
use ortus.Registry.Load.{get_source, ready_ids, source_is_ready, status_is_ready}
use ortus.Registry.Invariant.{IsValid}
use ortus.Services.Query.{
  QueryService, apply_max_features_limit, layer_features, query_layer, query_layers,
  query_point_in_source, add_source, query_sources, requested_sources, query_point, empty_result,
}

pub ok_injective : {A : Type 0} {a b : A} → ok a ≡ ok b → a ≡ b
ok_injective {a} e = ap (λ m. elim m [ ok x ↦ x | err _ ↦ a ]) e

abbrev pub total : List QueryResult → ℕ
total [] = 0
total (r ∷ rs) = length r.features + total rs

total-append : (rs qs : List QueryResult) → total (rs ++ qs) ≡ total rs + total qs
total-append [] qs = ground arith
total-append (r ∷ rs) qs = ground (arith, total-append rs qs)

pub elem-ready_ids :
    {W : Type 0} (k : Str) (m : Map (SourceEntry W))
    → Distinct (keys m)
    → elem k (ready_ids m) ≡ elim (lookup k m) [ none ↦ false | some e ↦ status_is_ready e.status ]
unfolding ready_ids elem lookup
elem-ready_ids k [] d = refl
elem-ready_ids k ((j, e) ∷ m) d =
    ground (arith, elem-ready_ids k m d.1, lookup_absent j m d.0, str_eq_iff j k)

module _ {W : Type 0} (s : QueryService W) where
  abbrev pub IsWithin : QueryResult → Type 0
  IsWithin r = length r.features ≤ pos_part s.max_features

  pub apply_max_features_limit-within :
      (features found : List Feature)
      → length found ≤ pos_part s.max_features
      → length (found ++ (apply_max_features_limit s features found).0) ≤ pos_part s.max_features
  unfolding apply_max_features_limit ◌-ℤ◌
  apply_max_features_limit-within features found h =
      subst (λ n. n ≤ pos_part s.max_features) (sym (length-append found _))
        (if_cases Fits (not (ltb_ℤ s.max_features (pos (length found + length features))))
          (λ below. ground (arith, below))
          (λ above.
            if_cases Fits (ltb_ℤ (pos 0) (s.max_features -ℤ pos (length found)))
              (λ room.
                ground (
                  arith,
                  h,
                  length-take (pos_part (s.max_features -ℤ pos (length found))) features,
                ))
              (λ full. ground (arith, h))))
    where
      Fits : List Feature × Bool → Type 0
      Fits q = length found + length q.0 ≤ pos_part s.max_features

  -- A layer adds to the features, within the limit, and leaves the rest of the result.
  abbrev Extends : QueryResult → QueryResult → Type 0
  Extends r q = IsWithin q × (q.source_id ≡ r.source_id)

  query_layer-Extends :
      (id : Str) (layer : Layer) (req : QueryRequest) (r : QueryResult)
      → IsWithin r
      → Extends r (query_layer s id layer req r).1
  unfolding query_layer
  query_layer-Extends id layer req r h =
      option_cases (λ (q : Bool × QueryResult). Extends r q.1) (layer_features s id layer req)
        (λ skipped. (h, refl))
        (λ features found. (apply_max_features_limit-within features r.features h, refl))

  query_layers-Extends :
      (id : Str) (layers : List Layer) (req : QueryRequest) (r : QueryResult)
      → IsWithin r
      → Extends r (query_layers s id layers req r)
  unfolding query_layers
  query_layers-Extends id [] req r h = (h, refl)
  query_layers-Extends id (layer ∷ layers) req r h =
      let first = query_layer-Extends id layer req r h in
      let rest = query_layers-Extends id layers req (query_layer s id layer req r).1 first.0 in
      if_cases (Extends r) (query_layer s id layer req r).0 (λ reached. first)
        (λ below. (rest.0, rest.1 ∙ first.1))

  -- A result of one of the sources, with features, within the limit.
  abbrev pub IsAnswer : List Str → QueryResult → Type 0
  IsAnswer ids r =
      (elem r.source_id ids ≡ true)
      × (0 < length r.features)
      × (length r.features ≤ pos_part s.max_features)

  abbrev pub AreAnswers : List Str → QueryResponse → Type 0
  AreAnswers ids response =
      All (IsAnswer ids) response.results × (response.total_features ≡ total response.results)

  add_source-answers :
      (ids : List Str) (result : QueryResult) (response : QueryResponse)
      → elem result.source_id ids ≡ true
      → IsWithin result
      → AreAnswers ids response
      → AreAnswers ids (add_source (ok result) response)
  unfolding add_source add_result
  add_source-answers ids result response asked within h =
      if_cases (AreAnswers ids) (has_features result)
        (λ some_features. (
          All-append (IsAnswer ids) response.results _ h.0
              ((asked, ground (arith, some_features), within), tt),
          ground (arith, h.1, total-append response.results (result ∷ [])),
        ))
        (λ empty. h)

  pub add_result_answers :
      (ids : List Str) (id : Str) (m : Result QueryResult) (response : QueryResponse)
      → elem id ids ≡ true
      → ((r : QueryResult) → m ≡ ok r → IsWithin r × (r.source_id ≡ id))
      → AreAnswers ids response
      → AreAnswers ids (add_source m response)
  unfolding add_source
  add_result_answers ids id (err e) response asked within h = h
  add_result_answers ids id (ok r) response asked within h =
      let w = within r refl in
      add_source-answers ids r response (subst (λ k. elem k ids ≡ true) (sym w.1) asked) w.0 h

  module _ (Q : SpatialSource W → Type 0) (v : IsValid Q s.registry) where
    -- Asking one source never fails on a missing pointer.
    in_source :
        (id : Str) (req : QueryRequest)
        → (m : Result QueryResult) × (query_point_in_source s id req ≡ some m)
          × ((r : QueryResult) → m ≡ ok r → IsWithin r × (r.source_id ≡ id))
    unfolding query_point_in_source get_source
    in_source id req = elim (Option-cases (lookup id s.registry.sources)) [
      | inl absent ↦ (
        err source_not_found,
        rw (query_point_in_source, get_source, absent) refl,
        λ r is. absurd (cc),
      )
      | inr (e, h) ↦
          let entry = v.entries id e h in
          let src = entry.source in
          let ends = query_layers-Extends id src.layers req (empty_result s src) (ground arith) in
          (
            ok (query_layers s id src.layers req (empty_result s src)),
            rw (query_point_in_source, get_source, h) (rw entry.has_source refl),
            λ r is.
                subst (λ q. IsWithin q × (q.source_id ≡ id)) (ok_injective is)
                  (ends.0, ends.1 ∙ entry.keyed),
          )
    ]

    query_sources-answers :
        (ids todo : List Str) (req : QueryRequest) (response : QueryResponse)
        → All (λ id. elem id ids ≡ true) todo
        → AreAnswers ids response
        → (q : QueryResponse) × (query_sources s todo req response ≡ some q) × AreAnswers ids q
    unfolding query_sources
    query_sources-answers ids [] req response t h = (response, refl, h)
    query_sources-answers ids (id ∷ todo) req response t h =
        let (m, is, within) = in_source id req in
        let next : AreAnswers ids (add_source m response) =
          add_result_answers ids id m response t.0 within h in
        let (q, done, answers) =
          query_sources-answers ids todo req (add_source m response) t.1 next in
        (q, rw (query_sources, is) done, answers)

    All-elem :
        (ids todo : List Str)
        → ((k : Str) → elem k todo ≡ true → elem k ids ≡ true)
        → All (λ id. elem id ids ≡ true) todo
    unfolding elem
    All-elem ids [] h = tt
    All-elem ids (x ∷ todo) h =
        (h x (ground (arith, str_eq_refl x)), All-elem ids todo (λ k t. h k (ground (arith, t))))

    -- Over a valid registry, a query at a valid coordinate for which there are sources to ask always
    -- has a response: its results are of sources that were asked, none is empty or longer than the
    -- limit, and the total counts their features.
    pub query_point_answers :
        (req : QueryRequest) (ids : List Str)
        → validate req.coordinate ≡ none
        → requested_sources s req ≡ ok ids
        → (response : QueryResponse) × (query_point s req ≡ some (ok response))
          × AreAnswers ids response
    unfolding query_point
    query_point_answers req ids valid asked =
        let start : QueryResponse = record {
          results = [];
          total_features = 0;
          coordinate = req.coordinate;
        } in
        let (q, done, answers) =
          query_sources-answers ids ids req start (All-elem ids ids (λ k t. t)) (tt, refl) in
        (q, rw (query_point, valid) (rw asked (rw done refl)), answers)

    -- Over a valid registry, a query that names a source asks that source alone if it is ready, and
    -- fails with the error of an unknown source if it is not.
    pub named_source :
        (req : QueryRequest)
        → req.source_id ≢ []
        → requested_sources s req ≡ (
            if source_is_ready req.source_id s.registry
            then ok (req.source_id ∷ [])
            else err source_not_found)
    unfolding requested_sources source_is_ready
    named_source req named =
        let unnamed : str_eq req.source_id [] ≡ false =
          ground (arith, str_eq_iff req.source_id []) in
        rw (requested_sources, unnamed)
          (rw (elem-ready_ids req.source_id s.registry.sources v.distinct) refl)
