-- ===== src/Http/Query/Sections.antt =====
-- When gazetteerSections of internal/adapters/http/gazetteer.go fails.
use mathlib.Core.Option.{some-injective}
use ortus.Common.{
  subst, ◌≡◌, refl, sym, ap, ◌∙◌, ◌⊎◌, inl, inr, false, Option, none, some, List, if_cases,
  option_cases,
}
use ortus.Domain.Types.{Coordinate}
use ortus.Domain.Errors.{Error, Result, ok, err, is_not_found, result_cases}
use ortus.Gazetteer.Salience.{BearingPolicy}
use ortus.Gazetteer.Types.{Fix, Island, Locality}
use ortus.Gazetteer.Service.{Service, locate, islands, sample_elevation}
use ortus.Gazetteer.Compass.{Arithmetic}
use ortus.Gazetteer.Bearing.{bearing}
use ortus.Http.Query.{GazetteerSections, found_or_none, remaining_sections, gazetteer_sections}

ok-err : {A : Type 0} (x : A) (e : Error) → ok x ≡ err e → ⊥
ok-err x e h = cc

module _ {A : Type 0} where
  err-injective : (d e : Error) (r q : Result A) → r ≡ err d → q ≡ err e → r ≡ q → d ≡ e
  err-injective d e r q is_d is_e h =
      ap (λ r. elim r [ ok _ ↦ d | err x ↦ x ]) (sym is_d ∙ (h ∙ is_e))

-- A part fails with an error that is not that of finding nothing.
abbrev pub Breaks {ℓ} : {A : Type ℓ} → Result A → Error → Type ℓ
Breaks r e = (r ≡ err e) × (is_not_found e ≡ false)

err_or_none : {A : Type 0} (r : Result A) (e : Error) → found_or_none r ≡ err e → Breaks r e
err_or_none (ok a) e h = absurd (ok-err _ e h)
err_or_none {A = A} (err d) e h =
    if_cases (λ (q : Result (Option A)). q ≡ err e → Breaks {A = A} (err d) e) (is_not_found d)
      (λ missing k. absurd (ok-err none e k))
      (λ broken k.
        let same = err-injective d e _ _ refl refl k in
        (ap err same, subst (λ d. is_not_found d ≡ false) same broken))
      h

module _ {E : Type 0} (a : Arithmetic) (s : Service) (policy : BearingPolicy)
    (exposure_at : Coordinate → Result (Option E)) (p : Coordinate) where
  abbrev Tail : Error → Type 0
  Tail e = (exposure_at p ≡ err e) ⊎ (sample_elevation p s ≡ err e)

  remaining_sections_error :
      (admin : Option Locality) (island_list : List Island) (fix : Option Fix) (e : Error)
      → remaining_sections a s policy exposure_at admin island_list fix p ≡ err e
      → Tail e
  unfolding remaining_sections
  remaining_sections_error admin island_list fix e =
      let Fails = λ (r : Result (GazetteerSections E)). r ≡ err e → Tail e in
      result_cases Fails (exposure_at p)
        (λ d failed h. inl (failed ∙ ap err (err-injective d e _ _ refl refl h)))
        (λ exposure done.
          result_cases Fails (sample_elevation p s)
            (λ d failed h. inr (failed ∙ ap err (err-injective d e _ _ refl refl h)))
            (λ elevation sampled h. absurd (ok-err _ e h)))

  -- The block of the gazetteer fails only with the error of one of its parts, and not because the
  -- admin chain or the bearing finds nothing.
  pub gazetteer_sections_error :
      (e : Error)
      → gazetteer_sections a s policy exposure_at p ≡ some (err e)
      → Breaks (locate p s) e
        ⊎ ((islands p s ≡ err e)
            ⊎ (Breaks (bearing a p policy s) e
                ⊎ ((exposure_at p ≡ err e) ⊎ (sample_elevation p s ≡ err e))))
  unfolding gazetteer_sections
  gazetteer_sections_error e =
      let Cause =
        Breaks (locate p s) e
        ⊎ ((islands p s ≡ err e) ⊎ (Breaks (bearing a p policy s) e ⊎ Tail e)) in
      let Fails = λ (r : Option (Result (GazetteerSections E))). r ≡ some (err e) → Cause in
      result_cases Fails (found_or_none (locate p s))
        (λ d failed h. inl (
          err_or_none (locate p s) e
            (failed ∙ ap err (err-injective d e _ _ refl refl (some-injective _ _ h)))))
        (λ admin located.
          result_cases Fails (islands p s)
            (λ d failed h.
              inr (inl (failed ∙ ap err (err-injective d e _ _ refl refl (some-injective _ _ h)))))
            (λ island_list listed.
              result_cases Fails (found_or_none (bearing a p policy s))
                (λ d failed h. inr (
                  inr (
                    inl (
                      err_or_none (bearing a p policy s) e (
                        failed
                        ∙ ap err (err-injective d e _ _ refl refl (some-injective _ _ h)))))))
                (λ found borne.
                  option_cases Fails found
                    (λ nothing h. inr (
                      inr (
                        inr (
                          remaining_sections_error admin island_list none e
                            (some-injective _ _ h)))))
                    (λ fix some_fix.
                      option_cases Fails fix (λ panic h. cc)
                        (λ f is h. inr (
                          inr (
                            inr (
                              remaining_sections_error admin island_list (some f) e
                                (some-injective _ _ h)))))))))
