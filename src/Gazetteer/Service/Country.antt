-- ===== src/Gazetteer/Service/Country.antt =====
-- The country that the loop of `Locate` in internal/application/gazetteer/service.go ends with: that
-- of the first of the most local rows.
use ortus.Common.{
  subst, ◌≡◌, ◌≢◌, ◌⊎◌, refl, sym, ap, ◌∙◌, Bool, true, false, not, ◌&&◌, Option, none, some, List,
  [], ◌∷◌, ◌++◌, Str, str_eq, str_eq_iff, arith, if◌then◌else◌, Bool-cases, inl, inr,
}
use ortus.Common.Int.{ℤ, pos, negsuc, ltb_ℤ}
use ortus.Common.Sort.{All}
use ortus.Gazetteer.Salience.{best_of}

-- A country code, and the level of the row.
abbrev pub Claim : Type 0
Claim = Str × ℤ

-- The row has a code, and its level is not negative.
abbrev pub counts : Claim → Bool
counts c = ltb_ℤ (negsuc 0) c.1 && not (str_eq c.0 [])

abbrev pub deeper : Claim → Claim → Bool
deeper c d = ltb_ℤ d.1 c.1

abbrev IsIgnored : Claim → Type 0
IsIgnored d = (d.0 ≡ []) ⊎ (ltb_ℤ d.1 (pos 0) ≡ true)

abbrev IsLower : Claim → Claim → Type 0
IsLower c d = IsIgnored d ⊎ (ltb_ℤ d.1 c.1 ≡ true)

abbrev IsNotDeeper : Claim → Claim → Type 0
IsNotDeeper c d = IsIgnored d ⊎ (ltb_ℤ c.1 d.1 ≡ false)

-- Of the claims with a code and a level that is not negative: those before this one are of lower
-- levels, and none behind it is of a higher level.
abbrev IsFirst : List Claim → Claim → Type 0
IsFirst cs c =
    (before after : List Claim) × (cs ≡ before ++ (c ∷ after))
    × (c.0 ≢ [])
    × (ltb_ℤ c.1 (pos 0) ≡ false)
    × All (IsLower c) before
    × All (IsNotDeeper c) after

-- The first of the deepest claims, or none if all are ignored.
abbrev pub IsDeepest : List Claim → Option Claim → Type 0
IsDeepest cs none = All IsIgnored cs
IsDeepest cs (some c) = IsFirst cs c

ignored : (c : Claim) → counts c ≡ false → IsIgnored c
ignored c h = ground (arith, h, str_eq_iff c.0 [])

-- The search went on from a claim that stands before all of these.
abbrev IsFrom : Claim → List Claim → Claim → Type 0
IsFrom b cs r = ((r ≡ b) × All (IsNotDeeper b) cs) ⊎ ((ltb_ℤ b.1 r.1 ≡ true) × IsFirst cs r)

later_first :
    (c : Claim) (cs : List Claim) (r : Claim) → IsLower r c → IsFirst cs r → IsFirst (c ∷ cs) r
later_first c cs r low (before, after, e, code, level, lower, others) =
    (c ∷ before, after, ap (◌∷◌ c) e, code, level, (low, lower), others)

here_first :
    (c : Claim) (cs : List Claim) → counts c ≡ true → All (IsNotDeeper c) cs → IsFirst (c ∷ cs) c
here_first c cs h others =
    ([], cs, refl, ground (arith, h, str_eq_iff c.0 []), ground (arith, h), tt, others)

abbrev Reaches : Claim → List Claim → Type 0
Reaches b cs = (r : Claim) × (best_of counts deeper cs (some b) ≡ some r) × IsFrom b cs r

-- A claim that does not take the place of the one so far.
keeps :
    (b c : Claim) (cs : List Claim)
    → best_of counts deeper (c ∷ cs) (some b) ≡ best_of counts deeper cs (some b)
    → IsNotDeeper b c
    → Reaches b cs
    → Reaches b (c ∷ cs)
keeps b c cs same above (r, is, inl (e, others)) = (r, same ∙ is, inl (e, (above, others)))
keeps b c cs same above (r, is, inr (deep, first)) =
    (r, same ∙ is, inr (deep, later_first c cs r (ground (arith, above, deep)) first))

takes :
    (b c : Claim) (cs : List Claim)
    → counts c ≡ true
    → deeper c b ≡ true
    → best_of counts deeper (c ∷ cs) (some b) ≡ best_of counts deeper cs (some c)
    → Reaches c cs
    → Reaches b (c ∷ cs)
takes b c cs counted wins same (r, is, inl (e, others)) =
    (c, same ∙ (is ∙ ap some e), inr (wins, here_first c cs counted others))
takes b c cs counted wins same (r, is, inr (deep, first)) =
    (r, same ∙ is, inr (ground (arith, wins, deep), later_first c cs r (inr deep) first))

found_from : (b : Claim) (cs : List Claim) → Reaches b cs
unfolding best_of
found_from b [] = (b, refl, inl (refl, tt))
found_from b (c ∷ cs) = elim (Bool-cases (counts c)) [
  | inr failed ↦ keeps b c cs (rw failed refl) (inl (ignored c failed)) (found_from b cs)
  | inl counted ↦ elim (Bool-cases (deeper c b)) [
    | inl wins ↦ takes b c cs counted wins (rw counted (rw wins refl)) (found_from c cs)
    | inr loses ↦ keeps b c cs (rw counted (rw loses refl)) (inr loses) (found_from b cs)
  ]
]

skipped :
    (c : Claim) (cs : List Claim) (o : Option Claim)
    → counts c ≡ false
    → IsDeepest cs o
    → IsDeepest (c ∷ cs) o
skipped c cs none failed h = (ignored c failed, h)
skipped c cs (some r) failed h = later_first c cs r (inl (ignored c failed)) h

started :
    (c : Claim) (cs : List Claim) (r : Claim) → counts c ≡ true → IsFrom c cs r → IsFirst (c ∷ cs) r
started c cs r counted (inl (e, others)) =
    subst (IsFirst (c ∷ cs)) (sym e) (here_first c cs counted others)
started c cs r counted (inr (deep, first)) = later_first c cs r (inr deep) first

pub best_of-IsDeepest : (cs : List Claim) → IsDeepest cs (best_of counts deeper cs none)
unfolding best_of
best_of-IsDeepest [] = tt
best_of-IsDeepest (c ∷ cs) =
    let Rest = λ (b : Bool).
      IsDeepest (c ∷ cs) (best_of counts deeper cs (if not b then none else some c)) in
    elim (Bool-cases (counts c)) [
      | inr failed ↦
          subst Rest (sym failed)
            (skipped c cs (best_of counts deeper cs none) failed (best_of-IsDeepest cs))
      | inl counted ↦
          let (r, is, from) = found_from c cs in
          subst Rest (sym counted)
            (subst (IsDeepest (c ∷ cs)) (sym is) (started c cs r counted from))
    ]
