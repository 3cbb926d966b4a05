-- ===== src/Gazetteer/Salience/Best.antt =====
-- The best of a list by an order that holds among the elements with `P`.
use ortus.Common.{
  ℕ, zero, suc, ◌≡◌, refl, sym, ap, subst, Bool, true, false, not, Option, none, some, List, [],
  ◌∷◌, get_elem?, ◌⊎◌, inl, inr, Bool-cases, if◌then◌else◌,
}
use ortus.Common.Sort.{All, select}
use ortus.Gazetteer.Salience.{best_of}

pub record IsOrderOn {ℓ} {A : Type ℓ} (P : A → Type 0) (better : A → A → Bool) : Type ℓ where
  pub asym : (x y : A) → P x → P y → better x y ≡ true → better y x ≡ false
  pub trans :
      (x y z : A) → P x → P y → P z → better y x ≡ false → better z y ≡ false → better z x ≡ false

module _ {A : Type 0} (ok : A → Bool) (better : A → A → Bool) where
  -- The best element is one of the list that passes `ok`, and no other that does is better; there is
  -- none only if none passes.
  abbrev pub IsBest : List A → Option A → Type 0
  IsBest xs none = select ok xs ≡ []
  IsBest xs (some b) =
      (ok b ≡ true)
      × ((i : ℕ) × (get_elem? xs i ≡ some b))
      × All (λ y. better y b ≡ false) (select ok xs)

module _ {A : Type 0} (P : A → Type 0) (ok : A → Bool) (better : A → A → Bool) where
  module _ (order : IsOrderOn P better) where
    irreflexive : (x : A) → P x → better x x ≡ false
    irreflexive x p = elim (Bool-cases (better x x)) [
      | inl wins ↦ order.asym x x p p wins
      | inr loses ↦ loses
    ]

    found_from :
        {x : A} (c : A) (cs : List A)
        → (c ≡ x) ⊎ ((i : ℕ) × (get_elem? cs i ≡ some x))
        → (i : ℕ) × (get_elem? (c ∷ cs) i ≡ some x)
    found_from c cs (inl e) = (zero, ap some e)
    found_from c cs (inr (i, e)) = (suc i, e)

    skipped :
        (c : A) (cs : List A) (o : Option A)
        → ok c ≡ false
        → IsBest ok better cs o
        → IsBest ok better (c ∷ cs) o
    unfolding select
    skipped c cs none failed h = rw (select, failed) h
    skipped c cs (some b) failed h = (h.0, (suc h.1.0, h.1.1), rw (select, failed) h.2)

    -- From an element `b` on, that is not of the list.
    record Beats (b : A) (xs : List A) : Type 0 where
      best : A
      computed : best_of ok better xs (some b) ≡ some best
      passes : ok best ≡ true
      has : P best
      from : (b ≡ best) ⊎ ((i : ℕ) × (get_elem? xs i ≡ some best))
      first : better b best ≡ false
      others : All (λ y. better y best ≡ false) (select ok xs)

    beats : (b : A) (xs : List A) → P b → ok b ≡ true → better b b ≡ false → All P xs → Beats b xs
    unfolding best_of select
    beats b [] p okay self h = record {
      best = b;
      computed = refl;
      passes = okay;
      has = p;
      from = inl refl;
      first = self;
      others = tt;
    }
    beats b (c ∷ cs) p okay self h = elim (Bool-cases (ok c)) [
      | inr failed ↦
          let r = beats b cs p okay self h.1 in
          record {
            best = r.best;
            computed = rw failed r.computed;
            passes = r.passes;
            has = r.has;
            from = later r.from;
            first = r.first;
            others = rw failed r.others;
          }
      | inl passed ↦ elim (Bool-cases (better c b)) [
        | inl wins ↦
            let r = beats c cs h.0 passed (irreflexive c h.0) h.1 in
            record {
              best = r.best;
              computed = rw passed (rw wins r.computed);
              passes = r.passes;
              has = r.has;
              from = inr (found_from c cs r.from);
              first = order.trans r.best c b r.has h.0 p r.first (order.asym c b h.0 p wins);
              others = rw passed (r.first, r.others);
            }
        | inr loses ↦
            let r = beats b cs p okay self h.1 in
            record {
              best = r.best;
              computed = rw passed (rw loses r.computed);
              passes = r.passes;
              has = r.has;
              from = later r.from;
              first = r.first;
              others = rw passed (order.trans r.best b c r.has p h.0 r.first loses, r.others);
            }
      ]
    ]
      where
        later :
            {x : A}
            → (b ≡ x) ⊎ ((i : ℕ) × (get_elem? cs i ≡ some x))
            → (b ≡ x) ⊎ ((i : ℕ) × (get_elem? (c ∷ cs) i ≡ some x))
        later (inl e) = inl e
        later (inr (i, e)) = inr (suc i, e)

    pub best_of_lem : (xs : List A) → All P xs → IsBest ok better xs (best_of ok better xs none)
    unfolding best_of select
    best_of_lem [] h = refl
    best_of_lem (c ∷ cs) h = elim (Bool-cases (ok c)) [
      | inr failed ↦
          subst
            (λ b. IsBest ok better (c ∷ cs) (best_of ok better cs (if not b then none else some c)))
            (sym failed) (skipped c cs (best_of ok better cs none) failed (best_of_lem cs h.1))
      | inl passed ↦
          let r = beats c cs h.0 passed (irreflexive c h.0) h.1 in
          subst
            (λ b. IsBest ok better (c ∷ cs) (best_of ok better cs (if not b then none else some c)))
            (sym passed)
            (subst (IsBest ok better (c ∷ cs)) (sym r.computed)
              (r.passes, found_from c cs r.from, rw (select, passed) (r.first, r.others)))
    ]
