-- ===== src/Gazetteer/Salience/Candidates.antt =====
-- What makes a candidate of internal/application/gazetteer/salience.go eligible, and larger or nearer
-- than another, by classes, reaches, distances and names.
use ortus.Common.{◌≡◌, ◌⊎◌, ◌↔◌, refl, ap, true, false, some, ltb, arith, Option-cases, inl, inr}
use ortus.Common.Float.{Float, float_lt, float_eq, float_le, f_zero}
use ortus.Gazetteer.Salience.{
  PlaceClass, class_unknown, class_village, class_town, class_city, rank, Candidate, BearingPolicy,
  str_lt, reach_km, nearer, more_salient, eligible, prominent,
}
use ortus.Gazetteer.Salience.Order.{IsMeasured}

-- The policy has a reach for the class, which is positive, and the place lies within it.
abbrev pub IsEligible : BearingPolicy → Candidate → Type 0
IsEligible p c =
    (r : Float) × (p.reach c.place.class ≡ some r)
    × (float_lt f_zero r ≡ true)
    × (float_le c.distance_km r ≡ true)

abbrev IsTown : PlaceClass → Type 0
IsTown class_city = Unit
IsTown class_town = Unit
IsTown _ = ⊥

-- An eligible town or city within the radius for near places.
abbrev pub IsProminent : BearingPolicy → Candidate → Type 0
IsProminent p c =
    IsTown c.place.class × IsEligible p c × (float_lt p.prefer_nearest_km c.distance_km ≡ false)

-- Cities are over towns, these over villages, and these over what has no class.
abbrev pub IsOver : PlaceClass → PlaceClass → Type 0
IsOver class_city class_city = ⊥
IsOver class_city _ = Unit
IsOver class_town class_village = Unit
IsOver class_town class_unknown = Unit
IsOver class_village class_unknown = Unit
IsOver _ _ = ⊥

-- It is nearer, or as near with a name that is not greater.
abbrev pub IsNotBeyond : Candidate → Candidate → Type 0
IsNotBeyond b c =
    (float_lt b.distance_km c.distance_km ≡ true)
    ⊎ ((float_eq b.distance_km c.distance_km ≡ true) × (str_lt c.place.name b.place.name ≡ false))

zero_not_positive : float_lt f_zero f_zero ≡ false
unfolding float_lt
zero_not_positive = refl

pub eligible_iff : (p : BearingPolicy) (c : Candidate) → (eligible p c ≡ true) ↔ IsEligible p c
unfolding eligible reach_km
eligible_iff p c = (
  λ h. elim (Option-cases (p.reach c.place.class)) [
    | inl e ↦ absurd (ground (arith, h, e, zero_not_positive))
    | inr (r, e) ↦ (r, e, ground (arith, h, e), ground (arith, h, e))
  ],
  λ (r, e, positive, within). ground (arith, e, positive, within),
)

rank-IsTown : (k : PlaceClass) → (ltb (rank k) (rank class_town) ≡ false) ↔ IsTown k
rank-IsTown class_unknown = ground arith
rank-IsTown class_village = ground arith
rank-IsTown class_town = ground arith
rank-IsTown class_city = ground arith

pub prominent_iff : (p : BearingPolicy) (c : Candidate) → (prominent p c ≡ true) ↔ IsProminent p c
unfolding prominent
prominent_iff p c = (
  λ h. (
    (rank-IsTown c.place.class).0 (ground (arith, h)),
    (eligible_iff p c).0 (ground (arith, h)),
    ground (arith, h),
  ),
  λ (town, able, near).
      let is_town = (rank-IsTown c.place.class).1 town in
      let is_able = (eligible_iff p c).1 able in ground (arith, is_town, is_able, near),
)

no_higher : (j k : PlaceClass) → ltb (rank j) (rank k) ≡ false → IsOver j k ⊎ (j ≡ k)
no_higher class_unknown class_unknown h = inr refl
no_higher class_unknown class_village h = absurd (cc)
no_higher class_unknown class_town h = absurd (cc)
no_higher class_unknown class_city h = absurd (cc)
no_higher class_village class_unknown h = inl tt
no_higher class_village class_village h = inr refl
no_higher class_village class_town h = absurd (cc)
no_higher class_village class_city h = absurd (cc)
no_higher class_town class_unknown h = inl tt
no_higher class_town class_village h = inl tt
no_higher class_town class_town h = inr refl
no_higher class_town class_city h = absurd (cc)
no_higher class_city class_unknown h = inl tt
no_higher class_city class_village h = inl tt
no_higher class_city class_town h = inl tt
no_higher class_city class_city h = inr refl

pub nearer-IsNotBeyond :
    (b c : Candidate) → IsMeasured b → IsMeasured c → nearer c b ≡ false → IsNotBeyond b c
unfolding nearer float_eq float_lt
nearer-IsNotBeyond b c m n h = ground (arith, m, n, h)

pub more_salient-IsOver :
    (b c : Candidate)
    → IsMeasured b
    → IsMeasured c
    → more_salient c b ≡ false
    → IsOver b.place.class c.place.class ⊎ ((b.place.class ≡ c.place.class) × IsNotBeyond b c)
unfolding more_salient
more_salient-IsOver b c m n h = elim (no_higher b.place.class c.place.class (ground (arith, h))) [
  | inl over ↦ inl over
  | inr same ↦ inr (same, nearer-IsNotBeyond b c m n (ground (arith, h, ap rank same)))
]
