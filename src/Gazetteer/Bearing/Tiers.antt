-- ===== src/Gazetteer/Bearing/Tiers.antt =====
-- The units of a tier in internal/application/gazetteer/bearing.go: that of a point, and those of a
-- place.
use mathlib.Core.Option.{some-injective}
use ortus.Common.{
  ℕ, zero, suc, ◌≡◌, ◌↔◌, refl, sym, ◌∙◌, subst, ap, Bool, true, false, Option, none, some, List,
  [], ◌∷◌, Str, str_eq, str_eq_iff, ◌⊎◌, arith, get_elem?, if_cases, option_cases, Bool-cases, inl,
  inr, Option-cases,
}
use ortus.Common.Int.{ℤ, pos}
use ortus.Domain.Types.{Feature}
use ortus.Domain.Coordinates.{eq_ℤ, eq_ℤ→eq}
use ortus.Domain.Errors.{Result, ok, err, result_cases}
use ortus.Gazetteer.Salience.{Place}
use ortus.Gazetteer.Types.{AdminRow, SpatialIndex, LevelMeaning}
use ortus.Gazetteer.Service.{Service, iso_of, level_of}
use ortus.Gazetteer.Bearing.{
  is_permitted, same_tier, is_tier, tier_unit, reaches, admin_columns, constraint_ancestor_in,
}

-- The level of the country stands for the tier.
abbrev Means : Service → Str → ℤ → Str → Type 0
Means s iso level tier = (m : LevelMeaning) × (s.levels iso level ≡ some m) × (m.equivalent ≡ tier)

is_tier_iff :
    (s : Service) (iso : Str) (level : ℤ) (tier : Str)
    → (is_tier s iso level tier ≡ true) ↔ Means s iso level tier
unfolding is_tier
is_tier_iff s iso level tier = (
  λ h. elim (Option-cases (s.levels iso level)) [
    | inl e ↦ absurd (ground (arith, h, e))
    | inr (m, e) ↦ (m, e, (str_eq_iff m.equivalent tier).0 (ground (arith, h, e)))
  ],
  λ (m, e, same). ground (arith, e, (str_eq_iff m.equivalent tier).1 same),
)

-- One of the place's own units is of the tier, and is the unit.
abbrev InUnit : Service → SpatialIndex → Str → ℤ → Place → Type 0
InUnit s index tier unit place =
    (rows : List AdminRow) × (i : ℕ) × (row : AdminRow) × (index.resolve_chain
        s.manifest.admin_layer place.admin_id (admin_columns s)
      ≡ ok rows)
    × (get_elem? rows i ≡ some row)
    × Means s row.country_iso row.level tier
    × (row.fid ≡ unit)

abbrev InAncestor : Service → SpatialIndex → Str → Option ℤ → Place → Type 0
InAncestor s index tier none place = Unit
InAncestor s index tier (some unit) place = InUnit s index tier unit place

reaches-row :
    (s : Service) (tier : Str) (unit : ℤ) (rows : List AdminRow)
    → reaches s tier unit rows ≡ true
    → (i : ℕ) × (row : AdminRow) × (get_elem? rows i ≡ some row)
      × Means s row.country_iso row.level tier
      × (row.fid ≡ unit)
unfolding reaches
reaches-row s tier unit [] h = cc
reaches-row s tier unit (r ∷ rows) h = elim (Bool-cases (is_tier s r.country_iso r.level tier)) [
  | inl here ↦ (
    zero,
    r,
    refl,
    (is_tier_iff s r.country_iso r.level tier).0 here,
    eq_ℤ→eq r.fid unit (ground (arith, h, here)),
  )
  | inr there ↦
      let (i, row, found, is, same) = reaches-row s tier unit rows (ground (arith, h, there)) in
      (suc i, row, found, is, same)
]

in_ancestor :
    (s : Service) (index : SpatialIndex) (tier : Str) (ancestor : Option ℤ) (place : Place)
    → is_permitted s index ancestor tier place ≡ ok true
    → InAncestor s index tier ancestor place
unfolding is_permitted same_tier
in_ancestor s index tier none place h = tt
in_ancestor s index tier (some unit) place h =
    let Same = λ (r : Result Bool). r ≡ ok true → InUnit s index tier unit place in
    if_cases Same (eq_ℤ place.admin_id (pos 0)) (λ unknown k. cc)
      (λ known.
        result_cases Same
          (index.resolve_chain s.manifest.admin_layer place.admin_id (admin_columns s))
          (λ e failed k. cc)
          (λ rows is k.
            let (i, row, found, tiered, same) =
              reaches-row s tier unit rows (ap (λ r. elim r [ ok b ↦ b | err _ ↦ false ]) k) in
            (rows, i, row, is, found, tiered, same)))
      h

-- The row has a level, which stands for the tier.
abbrev HasTier : Service → Str → Feature → Type 0
HasTier s tier f = (level : ℤ) × (level_of s f ≡ some level) × Means s (iso_of s f) level tier

-- The first of the rows that has the tier, if one has, is a unit of the place.
abbrev InTier : Service → SpatialIndex → Str → List Feature → Place → Type 0
InTier s index tier [] place = Unit
InTier s index tier (f ∷ fs) place =
    (HasTier s tier f × InUnit s index tier f.id place)
    ⊎ ((HasTier s tier f → ⊥) × InTier s index tier fs place)

-- No tier is asked for, or the first row of the tier is a unit of the place.
abbrev pub IsConstrained : Service → SpatialIndex → Str → List Feature → Place → Type 0
IsConstrained s index tier rows place = (tier ≡ []) ⊎ InTier s index tier rows place

ancestor-InTier :
    (s : Service) (index : SpatialIndex) (tier : Str) (place : Place) (fs : List Feature)
    → InAncestor s index tier (tier_unit s tier fs) place
    → InTier s index tier fs place
unfolding tier_unit
ancestor-InTier s index tier place [] = λ h. tt
ancestor-InTier s index tier place (f ∷ fs) =
    let Tiered =
      λ (o : Option ℤ). InAncestor s index tier o place → InTier s index tier (f ∷ fs) place in
    option_cases Tiered (level_of s f)
      (λ no_level h.
        inr (λ (level, is, _). cc (no_level, is), ancestor-InTier s index tier place fs h))
      (λ level is.
        if_cases Tiered (is_tier s (iso_of s f) level tier)
          (λ tiered h. inl ((level, is, (is_tier_iff s (iso_of s f) level tier).0 tiered), h))
          (λ other h. inr (
            λ (l, found, means).
                let same : l ≡ level = some-injective _ _ (sym found ∙ is) in
                let tiered =
                  (is_tier_iff s (iso_of s f) level tier).1
                    (subst (λ k. Means s (iso_of s f) k tier) same means) in
                cc (tiered, other),
            ancestor-InTier s index tier place fs h,
          )))

pub permitted-IsConstrained :
    (s : Service) (index : SpatialIndex) (tier : Str) (containing : List Feature) (place : Place)
    → is_permitted s index (constraint_ancestor_in s containing tier) tier place ≡ ok true
    → IsConstrained s index tier containing place
unfolding constraint_ancestor_in
permitted-IsConstrained s index tier containing place =
    let Constrained = λ (o : Option ℤ).
      is_permitted s index o tier place ≡ ok true → IsConstrained s index tier containing place in
    if_cases Constrained (str_eq tier []) (λ no_tier h. inl ((str_eq_iff tier []).0 no_tier))
      (λ some_tier h. inr (
        ancestor-InTier s index tier place containing
          (in_ancestor s index tier (tier_unit s tier containing) place h)))
