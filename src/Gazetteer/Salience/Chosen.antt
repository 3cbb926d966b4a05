-- ===== src/Gazetteer/Salience/Chosen.antt =====
-- What RankedSalience of internal/application/gazetteer/salience.go chooses.
use ortus.Common.{
  subst, ◌≡◌, ◌⊎◌, Bool, true, false, Option, none, some, List, [], ◌∷◌, arith, get_elem?, ℕ,
  if_cases, if◌then◌else◌, Bool-cases, inl, inr,
}
use ortus.Common.Sort.{All, All-get_elem?, select}
use ortus.Common.Float.{float_le, f_zero}
use ortus.Gazetteer.Salience.{
  Candidate, BearingPolicy, nearer, more_salient, eligible, prominent, nearest_prominent,
  most_salient, select_ranked, best_of,
}
use ortus.Gazetteer.Salience.Candidates.{
  IsEligible, IsProminent, IsOver, IsNotBeyond, eligible_iff, prominent_iff, nearer-IsNotBeyond,
  more_salient-IsOver,
}
use ortus.Gazetteer.Salience.Best.{IsBest, best_of_lem}
use ortus.Gazetteer.Salience.Order.{IsMeasured, nearer-IsOrderOn, more_salient-IsOrderOn}

abbrev IsNearest : BearingPolicy → List Candidate → Candidate → Type 0
IsNearest p cands b =
    (float_le p.prefer_nearest_km f_zero ≡ false)
    × IsProminent p b
    × All (λ c. (IsProminent p c → ⊥) ⊎ IsNotBeyond b c) cands

abbrev NoneProminent : BearingPolicy → List Candidate → Type 0
NoneProminent p cands = All (λ c. IsProminent p c → ⊥) cands

abbrev IsLargest : BearingPolicy → List Candidate → Candidate → Type 0
IsLargest p cands b =
    ((float_le p.prefer_nearest_km f_zero ≡ true) ⊎ NoneProminent p cands)
    × IsEligible p b
    × All
        (λ c.
          (IsEligible p c → ⊥)
          ⊎ (IsOver b.place.class c.place.class
              ⊎ ((b.place.class ≡ c.place.class) × IsNotBeyond b c)))
        cands

-- The nearest of the prominent candidates, or the largest of the eligible ones.
abbrev pub IsChosen : BearingPolicy → List Candidate → Option Candidate → Type 0
IsChosen p cands none = All (λ c. IsEligible p c → ⊥) cands
IsChosen p cands (some b) =
    ((i : ℕ) × (get_elem? cands i ≡ some b)) × (IsNearest p cands b ⊎ IsLargest p cands b)

-- What holds of the candidates that pass and are not better, and of those that do not pass.
All-others :
    (Q : Candidate → Type 0) (ok : Candidate → Bool) (b : Candidate)
    (better : Candidate → Candidate → Bool)
    → ((c : Candidate) → IsMeasured c → better c b ≡ false → Q c)
    → ((c : Candidate) → ok c ≡ false → Q c)
    → (xs : List Candidate) → All IsMeasured xs
    → All (λ c. better c b ≡ false) (select ok xs)
    → All Q xs
unfolding select
All-others Q ok b better h k [] m a = tt
All-others Q ok b better h k (x ∷ xs) m a = elim (Bool-cases (ok x)) [
  | inl passed ↦
      let (here, rest) : (better x b ≡ false) × All (λ c. better c b ≡ false) (select ok xs) =
        subst (λ t. All (λ c. better c b ≡ false) (if t then x ∷ select ok xs else select ok xs))
          passed a in
      (h x m.0 here, All-others Q ok b better h k xs m.1 rest)
  | inr failed ↦
      let rest =
        subst (λ t. All (λ c. better c b ≡ false) (if t then x ∷ select ok xs else select ok xs))
          failed a in
      (k x failed, All-others Q ok b better h k xs m.1 rest)
]

All-failed :
    (Q : Candidate → Type 0) (ok : Candidate → Bool)
    → ((c : Candidate) → ok c ≡ false → Q c)
    → (xs : List Candidate) → select ok xs ≡ []
    → All Q xs
unfolding select
All-failed Q ok k [] e = tt
All-failed Q ok k (x ∷ xs) e = elim (Bool-cases (ok x)) [
  | inl passed ↦ absurd (ground (arith, e, passed))
  | inr failed ↦ (k x failed, All-failed Q ok k xs (ground (arith, e, failed)))
]

module _ (p : BearingPolicy) (cands : List Candidate) (measured : All IsMeasured cands) where
  not_eligible : (c : Candidate) → eligible p c ≡ false → IsEligible p c → ⊥
  not_eligible c h e = let is = (eligible_iff p c).1 e in cc (h, is)

  not_prominent : (c : Candidate) → prominent p c ≡ false → IsProminent p c → ⊥
  not_prominent c h e = let is = (prominent_iff p c).1 e in cc (h, is)

  largest :
      (far : Option Candidate)
      → IsBest (eligible p) more_salient cands far
      → (float_le p.prefer_nearest_km f_zero ≡ true) ⊎ NoneProminent p cands
      → IsChosen p cands far
  largest none h none_near = All-failed _ (eligible p) not_eligible cands h
  largest (some b) h none_near =
      let m = All-get_elem? IsMeasured cands h.1.0 measured h.1.1 in
      (
        h.1,
        inr (
          none_near,
          (eligible_iff p b).0 h.0,
          All-others _ (eligible p) b more_salient (λ c n k. inr (more_salient-IsOver b c m n k))
              (λ c k. inl (not_eligible c k)) cands measured h.2,
        ),
      )

  nearest :
      (near far : Option Candidate)
      → IsBest (prominent p) nearer cands near
      → IsBest (eligible p) more_salient cands far
      → float_le p.prefer_nearest_km f_zero ≡ false
      → IsChosen p cands (elim near [ some c ↦ some c | none ↦ far ])
  nearest none far h k on = largest far k (inr (All-failed _ (prominent p) not_prominent cands h))
  nearest (some b) far h k on =
      let m = All-get_elem? IsMeasured cands h.1.0 measured h.1.1 in
      (
        h.1,
        inl (
          on,
          (prominent_iff p b).0 h.0,
          All-others _ (prominent p) b nearer (λ c n k. inr (nearer-IsNotBeyond b c m n k))
              (λ c k. inl (not_prominent c k)) cands measured h.2,
        ),
      )

-- Among candidates whose distances are numbers, RankedSalience chooses one of them. If its radius for
-- near places is more than zero and an eligible town or city lies within it, it takes one of these
-- that is not farther than another of these; otherwise an eligible candidate of the highest class,
-- city over town over village, and of those one that is not farther than another. Of equal distances
-- the least name decides. It takes none only if none is eligible: within the positive reach of its
-- class.
pub select_ranked_lem :
    (cands : List Candidate) (p : BearingPolicy)
    → All IsMeasured cands
    → IsChosen p cands (select_ranked cands p)
unfolding select_ranked nearest_prominent most_salient
select_ranked_lem cands p measured =
    let near = best_of_lem IsMeasured (prominent p) nearer nearer-IsOrderOn cands measured in
    let far =
      best_of_lem IsMeasured (eligible p) more_salient more_salient-IsOrderOn cands measured in
    if_cases
      (λ (o : Option Candidate).
        IsChosen p cands
          (elim o [ some c ↦ some c | none ↦ best_of (eligible p) more_salient cands none ]))
      (float_le p.prefer_nearest_km f_zero) (λ off. largest p cands measured _ far (inl off))
      (λ on. nearest p cands measured _ _ near far on)
