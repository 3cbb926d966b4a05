-- ===== src/Gazetteer/Bearing/Ranked.antt =====
-- RankedSalience of internal/application/gazetteer/salience.go chooses among the candidates.
use ortus.Common.{
  ℕ, zero, suc, ◌≡◌, ◌⊎◌, ◌∙◌, Bool, not, Option, none, some, List, [], ◌∷◌, get_elem?,
  if◌then◌else◌, inl, inr, if_cases, option_cases,
}
use ortus.Common.Float.{float_le, f_zero}
use ortus.Gazetteer.Salience.{
  Candidate, best_of, nearest_prominent, most_salient, select_ranked, prominent, eligible, nearer,
  more_salient,
}
use ortus.Gazetteer.Bearing.Anchors.{Selects}

-- An element of the list, or the one that the loop began with.
abbrev From {ℓ} : {A : Type ℓ} → List A → Option A → A → Type ℓ
From xs best c = (best ≡ some c) ⊎ ((i : ℕ) × (get_elem? xs i ≡ some c))

module _ {A : Type 0} (okay : A → Bool) (better : A → A → Bool) where
  next : A → Option A → Option A
  next x best =
      if not (okay x)
      then best
      else elim best [ none ↦ some x | some b ↦ if better x b then some x else some b ]

  next_from :
      (x : A) (best : Option A) (c : A) → next x best ≡ some c → (best ≡ some c) ⊎ (some x ≡ some c)
  unfolding next
  next_from x none c =
      if_cases (λ o. o ≡ some c → (none ≡ some c) ⊎ (some x ≡ some c)) (not (okay x)) (λ _ e. inl e)
        (λ _ e. inr e)
  next_from x (some b) c =
      if_cases (λ o. o ≡ some c → (some b ≡ some c) ⊎ (some x ≡ some c)) (not (okay x))
        (λ _ e. inl e)
        (λ _.
          if_cases (λ o. o ≡ some c → (some b ≡ some c) ⊎ (some x ≡ some c)) (better x b)
            (λ _ e. inr e) (λ _ e. inl e))

  best_of-From :
      (xs : List A) (best : Option A) (c : A)
      → best_of okay better xs best ≡ some c
      → From xs best c
  unfolding best_of next
  best_of-From [] best c e = inl e
  best_of-From (x ∷ xs) best c e = elim (best_of-From xs (next x best) c e) [
    | inr (i, found) ↦ inr (suc i, found)
    | inl chosen ↦ elim (next_from x best c chosen) [
      | inl before ↦ inl before
      | inr here ↦ inr (zero, here)
    ]
  ]

  best_of-member :
      (xs : List A) (c : A)
      → best_of okay better xs none ≡ some c
      → (i : ℕ) × (get_elem? xs i ≡ some c)
  best_of-member xs c e = elim (best_of-From xs none c e) [
    | inl absent ↦ absurd (cc)
    | inr found ↦ found
  ]

pub select_ranked-Selects : Selects select_ranked
unfolding select_ranked nearest_prominent most_salient
select_ranked-Selects cands pol c =
    let Member = λ (o : Option Candidate). o ≡ some c → (i : ℕ) × (get_elem? cands i ≡ some c) in
    option_cases Member (nearest_prominent cands pol)
      (λ absent. best_of-member (eligible pol) more_salient cands c)
      (λ near found e. prominent_member (found ∙ e))
  where
    prominent_member : nearest_prominent cands pol ≡ some c → (i : ℕ) × (get_elem? cands i ≡ some c)
    prominent_member =
        if_cases (λ o. o ≡ some c → (i : ℕ) × (get_elem? cands i ≡ some c))
          (float_le pol.prefer_nearest_km f_zero) (λ off e. absurd (cc))
          (λ on. best_of-member (prominent pol) nearer cands c)
