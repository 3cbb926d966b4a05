-- ===== src/Services/Batch/Layers.antt =====
-- The layers of one source for all points: `batchLayer` and the loop over it, of
-- internal/application/query_batch.go.
use ortus.Common.{
  suc, ◌≡◌, refl, subst, ap, not, Option, none, some, List, [], ◌∷◌, Str, arith, length, ltb,
  if_cases, option_cases, inl, inr, Option-cases,
}
use ortus.Common.Maps.{lookup}
use ortus.Common.Sort.{All}
use ortus.Domain.Errors.{Error, Result, ok, err, is_context_err, result_cases}
use ortus.Domain.Types.{Coordinate, Layer, Feature, QueryResult}
use ortus.Registry.Types.{SpatialSource, Environment}
use ortus.Registry.Load.{query_points, query_each}
use ortus.Registry.Invariant.{IsValid}
use ortus.Services.Query.{QueryService}
use ortus.Services.Query.Answers.{IsWithin, apply_max_features_limit-within}
use ortus.Services.Batch.{
  asking, add_features, distribute, batch_layer, batch_layers, batch_coordinates,
}

-- An outcome that is no panic: a result for which `P` holds, or an error for which `E` does.
abbrev pub Meets : {A : Type 0} → (A → Type 0) → (Error → Type 0) → Result A → Type 0
Meets P E (ok a) = P a
Meets P E (err e) = E e

abbrev pub Ends : {A : Type 0} → (A → Type 0) → (Error → Type 0) → Option (Result A) → Type 0
Ends {A} P E o = (m : Result A) × (o ≡ some m) × Meets P E m

pub Ends-bind :
    {A B : Type 0} {P : A → Type 0} {E : Error → Type 0} (Q : B → Type 0) (F : Error → Type 0)
    (o : Option (Result A)) (k : Result A → Option (Result B))
    → Ends P E o
    → ((m : Result A) → Meets P E m → Ends Q F (k m))
    → Ends Q F (elim o [ none ↦ none | some m ↦ k m ])
Ends-bind Q F o k (m, is, h) next = rw is (next m h)

-- An error ends it, as it does in Go's `if err != nil { return err }`.
pub Ends-ok :
    {A B : Type 0} {P : A → Type 0} {E : Error → Type 0} (Q : B → Type 0) (m : Result A)
    {k : A → Option (Result B)}
    → ((a : A) → P a → Ends Q E (k a))
    → Meets P E m
    → Ends Q E (elim m [ err e ↦ some (err e) | ok a ↦ k a ])
Ends-ok Q (err e) next h = (err e, refl, h)
Ends-ok Q (ok a) next h = next a h

-- An adapter that has a batch query answers it with one list for each coordinate.
abbrev pub AnswersEach : {W : Type 0} → SpatialSource W → Type 0
AnswersEach {W} p =
    (batch : Str → Str → List Coordinate → W → Result (List (List Feature)))
    → p.query_points ≡ some batch
    → (id layer : Str) (coords : List Coordinate) (w : W) (feats : List (List Feature))
    → batch id layer coords w ≡ ok feats
    → length feats ≡ length coords

abbrev pub AnyError : Error → Type 0
AnyError e = Unit

-- One list of features for each coordinate, if there is no error.
abbrev pub OneEach : List Coordinate → Result (List (List Feature)) → Type 0
OneEach coords = Meets (λ feats. length feats ≡ length coords) AnyError

module _ {W : Type 0} (s : QueryService W) where
  -- The results of a source so far, one for each point.
  abbrev pub Fine : Str → List Coordinate → List QueryResult → Type 0
  Fine id coords results =
      (length results ≡ length coords)
      × All (λ (r : QueryResult). IsWithin s r × (r.source_id ≡ id)) results

module _ {W : Type 0} (env : Environment W) (s : QueryService W) where
  query_each_lem :
      (p : SpatialSource W) (id layer : Str) (coords : List Coordinate) (w : W)
      → OneEach coords (query_each env p id layer coords w)
  unfolding query_each
  query_each_lem p id layer [] w = refl
  query_each_lem p id layer (c ∷ cs) w =
      option_cases (OneEach (c ∷ cs)) (env.ctx_err w)
        (λ alive.
          result_cases (OneEach (c ∷ cs)) (p.query_point id layer c w) (λ e failed. tt)
            λ feats answered.
              result_cases (OneEach (c ∷ cs)) (query_each env p id layer cs w) (λ e failed. tt)
                (λ others done. ap suc (subst (OneEach cs) done (query_each_lem p id layer cs w))))
        (λ e stopped. tt)

  query_points_lem :
      (id layer : Str) (coords : List Coordinate)
      → IsValid AnswersEach s.registry
      → OneEach coords (query_points env id layer coords s.registry)
  unfolding query_points
  query_points_lem id layer coords v = elim (Option-cases (lookup id s.registry.sources)) [
    | inl absent ↦ rw (query_points, absent) tt
    | inr (e, h) ↦
        let entry = v.entries id e h in
        let w = s.registry.world in
        rw (query_points, h)
          (rw entry.has_repo (
            option_cases (OneEach coords) entry.repo.query_points
              (λ each. query_each_lem entry.repo id layer coords w)
              (λ batch is.
                each_answered (batch id layer coords w) (entry.law batch is id layer coords w))))
  ]
    where
      each_answered :
          (m : Result (List (List Feature)))
          → ((feats : List (List Feature)) → m ≡ ok feats → length feats ≡ length coords)
          → OneEach coords m
      each_answered (ok feats) law = law feats refl
      each_answered (err e) law = tt

  add_features-Fine :
      (id : Str) (properties : List Str) (features : List Feature) (r : QueryResult)
      → IsWithin s r × (r.source_id ≡ id)
      → IsWithin s (add_features s properties features r)
        × ((add_features s properties features r).source_id ≡ id)
  unfolding add_features
  add_features-Fine id properties features r h =
      (apply_max_features_limit-within s _ r.features h.0, h.1)

  length-batch_coordinates :
      (layer : Layer) (coords : List Coordinate) (results : List QueryResult)
      → length results ≡ length coords
      → length (batch_coordinates s layer coords results) ≡ length coords
  unfolding batch_coordinates
  length-batch_coordinates layer [] results h = refl
  length-batch_coordinates layer (c ∷ cs) [] h = ground (arith, h)
  length-batch_coordinates layer (c ∷ cs) (r ∷ rs) h =
      ap suc (length-batch_coordinates layer cs rs (ground (arith, h)))

  distribute-Fine :
      (id : Str) (properties : List Str) (coords : List Coordinate)
      (asked : List (Option Coordinate)) (feats : List (List Feature)) (results : List QueryResult)
      → length asked ≡ length coords
      → length feats ≡ length (asking asked)
      → Fine s id coords results
      → (qs : List QueryResult) × (distribute s properties asked feats results ≡ some qs)
        × Fine s id coords qs
  unfolding distribute asking
  distribute-Fine id properties coords [] feats results n m h = (results, refl, h)
  distribute-Fine id properties coords (a ∷ more) feats [] n m h = ([], refl, h)
  distribute-Fine id properties [] (a ∷ more) feats (r ∷ rs) n m h = absurd (ground (arith, n))
  distribute-Fine id properties (c ∷ cs) (none ∷ more) feats (r ∷ rs) n m h =
      let (qs, is, fine) =
        distribute-Fine id properties cs more feats rs (ground (arith, n)) m
          (ground (arith, h.0), h.1.1) in
      (r ∷ qs, rw is refl, (ap suc fine.0, (h.1.0, fine.1)))
  distribute-Fine id properties (c ∷ cs) (some q ∷ more) [] (r ∷ rs) n m h =
      absurd (ground (arith, m))
  distribute-Fine id properties (c ∷ cs) (some q ∷ more) (f ∷ fs) (r ∷ rs) n m h =
      let (qs, is, fine) =
        distribute-Fine id properties cs more fs rs (ground (arith, n)) (ground (arith, m))
          (ground (arith, h.0), h.1.1) in
      (
        add_features s properties f r ∷ qs,
        rw is refl,
        (ap suc fine.0, (add_features-Fine id properties f r h.1.0, fine.1)),
      )

  batch_layer-Ends :
      (id : Str) (layer : Layer) (coords : List Coordinate) (properties : List Str)
      (results : List QueryResult)
      → IsValid AnswersEach s.registry
      → Fine s id coords results
      → Ends (Fine s id coords) AnyError (batch_layer env s id layer coords properties results)
  unfolding batch_layer
  batch_layer-Ends id layer coords properties results v h =
      let asked = batch_coordinates s layer coords results in
      let answers = query_points_lem id layer.name (asking asked) v in
      if_cases (Ends (Fine s id coords) AnyError) (not (ltb 0 (length (asking asked))))
        (λ nobody. (ok results, refl, h))
        (λ somebody.
          result_cases (Ends (Fine s id coords) AnyError)
            (query_points env id layer.name (asking asked) s.registry)
            (λ e failed.
              if_cases (Ends (Fine s id coords) AnyError) (is_context_err e)
                (λ ended. (err e, refl, tt)) (λ other. (ok results, refl, h)))
            (λ feats answered.
              let (qs, is, fine) =
                distribute-Fine id properties coords asked feats results
                  (length-batch_coordinates layer coords results h.0)
                  (subst (OneEach (asking asked)) answered answers) h in
              (ok qs, rw is refl, fine)))

  pub batch_layers-Ends :
      (id : Str) (layers : List Layer) (coords : List Coordinate) (properties : List Str)
      (results : List QueryResult)
      → IsValid AnswersEach s.registry
      → Fine s id coords results
      → Ends (Fine s id coords) AnyError (batch_layers env s id layers coords properties results)
  unfolding batch_layers
  batch_layers-Ends id [] coords properties results v h = (ok results, refl, h)
  batch_layers-Ends id (layer ∷ layers) coords properties results v h =
      Ends-bind (Fine s id coords) AnyError (batch_layer env s id layer coords properties results)
        (λ m. elim m [
          | err e ↦ some (err e)
          | ok qs ↦ batch_layers env s id layers coords properties qs
        ])
        (batch_layer-Ends id layer coords properties results v h)
        (λ m.
          Ends-ok (Fine s id coords) m
            (λ qs fine. batch_layers-Ends id layers coords properties qs v fine))
