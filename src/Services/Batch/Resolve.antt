-- ===== src/Services/Batch/Resolve.antt =====
-- The sources of a batch: `resolveBatchSources` of internal/application/query_batch.go.
use ortus.Common.{
  ◌≡◌, refl, sym, subst, ◌∙◌, true, false, ◌||◌, List, [], ◌∷◌, ◌++◌, Str, arith, str_eq_iff, elem,
  elem-append, if_cases, inl, inr, Bool-cases,
}
use ortus.Common.Maps.{Map}
use ortus.Common.Keys.{Distinct, keys, snoc-Distinct}
use ortus.Domain.Errors.{ok}
use ortus.Registry.Types.{SourceEntry, SpatialSource}
use ortus.Registry.Load.{ready_ids, source_is_ready, status_is_ready}
use ortus.Registry.Invariant.{IsValid}
use ortus.Services.Query.{QueryService}
use ortus.Services.Query.Answers.{elem-ready_ids, ok_injective}
use ortus.Services.Batch.{dedup_sources, resolve_batch_sources}

-- The ids are those already taken and those that follow, once each, and stand among `ready`.
abbrev IsDeduped : List Str → List Str → List Str → List Str → Type 0
IsDeduped ready deduped ids l =
    Distinct l
    × ((k : Str) → elem k l ≡ (elem k deduped || elem k ids))
    × ((k : Str) → elem k l ≡ true → elem k ready ≡ true)

dedup_sources_lem :
    (ready ids deduped l : List Str)
    → Distinct deduped
    → ((k : Str) → elem k deduped ≡ true → elem k ready ≡ true)
    → dedup_sources ready ids deduped ≡ ok l
    → IsDeduped ready deduped ids l
unfolding dedup_sources elem
dedup_sources_lem ready [] deduped l d h is =
    subst (IsDeduped ready deduped []) (ok_injective is) (d, λ k. ground arith, h)
dedup_sources_lem ready (id ∷ ids) deduped l d h is = elim (Bool-cases (elem id ready)) [
  | inl known ↦ elim (Bool-cases (elem id deduped)) [
    | inl seen ↦
        let rest = dedup_sources_lem ready ids deduped l d h (ground (arith, known, seen, is)) in
        (rest.0, λ k. ground (arith, rest.1 k, str_eq_iff id k, seen), rest.2)
    | inr new ↦
        let rest =
          dedup_sources_lem ready ids (deduped ++ (id ∷ [])) l (snoc-Distinct id deduped new d)
            (λ k t. ground (arith, t, elem-append k deduped (id ∷ []), h k, str_eq_iff id k, known))
            (ground (arith, known, new, is)) in
        (rest.0, λ k. ground (arith, rest.1 k, elem-append k deduped (id ∷ [])), rest.2)
  ]
  | inr unknown ↦ absurd (ground (arith, unknown, is))
]

module _ {W : Type 0} where
  ready_ids_absent :
      (k : Str) (m : Map (SourceEntry W)) → elem k (keys m) ≡ false → elem k (ready_ids m) ≡ false
  unfolding ready_ids elem
  ready_ids_absent k [] h = refl
  ready_ids_absent k ((j, e) ∷ m) h = ground (arith, h, ready_ids_absent k m)

  ready_ids-Distinct : (m : Map (SourceEntry W)) → Distinct (keys m) → Distinct (ready_ids m)
  unfolding ready_ids
  ready_ids-Distinct [] d = tt
  ready_ids-Distinct ((j, e) ∷ m) d =
      let rest = ready_ids-Distinct m d.1 in
      if_cases Distinct (status_is_ready e.status) (λ ready. (ready_ids_absent j m d.0, rest))
        (λ other. rest)

module _ {W : Type 0} (s : QueryService W) where
  -- The sources that are meant: those of the request, or all that are ready.
  abbrev pub requested : List Str → List Str
  requested [] = ready_ids s.registry.sources
  requested (id ∷ sources) = id ∷ sources

  -- Over a valid registry, the sources of a batch are all ready and stand once each, and are those
  -- of the request, or all that are ready if it names none.
  pub resolve_batch_sources_lem :
      (Q : SpatialSource W → Type 0) (sources ids : List Str)
      → IsValid Q s.registry
      → resolve_batch_sources s sources ≡ ok ids
      → Distinct ids
        × ((k : Str) → elem k ids ≡ true → source_is_ready k s.registry ≡ true)
        × ((k : Str) → elem k ids ≡ elem k (requested sources))
  unfolding resolve_batch_sources source_is_ready elem
  resolve_batch_sources_lem Q [] ids v is =
      subst
        (λ l.
          Distinct l
          × ((k : Str) → elem k l ≡ true → source_is_ready k s.registry ≡ true)
          × ((k : Str) → elem k l ≡ elem k (ready_ids s.registry.sources)))
        (ok_injective is)
        (
          ready_ids-Distinct s.registry.sources v.distinct,
          λ k h. sym (elem-ready_ids k s.registry.sources v.distinct) ∙ h,
          λ k. refl,
        )
  resolve_batch_sources_lem Q (id ∷ sources) ids v is =
      let ready = ready_ids s.registry.sources in
      let l = dedup_sources_lem ready (id ∷ sources) [] ids tt (λ k h. absurd (cc)) is in
      (l.0, λ k h. sym (elem-ready_ids k s.registry.sources v.distinct) ∙ l.2 k h, λ k. l.1 k)
