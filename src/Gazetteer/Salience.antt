-- ===== src/Gazetteer/Salience.antt =====
-- Places and the choice of the one that a bearing refers to: RankedSalience of
-- internal/application/gazetteer/salience.go, with its types of internal/domain/gazetteer.go.
pub mod Order
pub mod Best
pub mod Candidates
pub mod Chosen
use ortus.Common.{
  ℕ, Bool, true, false, not, ◌&&◌, ◌||◌, Option, none, some, List, [], ◌∷◌, Str, ltb, ◌==◌,
  if◌then◌else◌,
}
use ortus.Common.Int.{ℤ}
use ortus.Common.Float.{Float, float_lt, float_le, float_eq, f_zero}
use ortus.Domain.Types.{Coordinate}

pub data PlaceClass : Type 0 where
  class_unknown class_village class_town class_city : PlaceClass

abbrev pub rank : PlaceClass → ℕ
rank class_unknown = 0
rank class_village = 1
rank class_town = 2
rank class_city = 3

pub record NameProvenance : Type 0 where
  pub code : Str
  pub short : Str
  pub long : Str
  pub standard : Str

pub record Place : Type 0 where
  pub name : Str
  pub name_native : Str
  pub name_source : NameProvenance
  pub class : PlaceClass
  pub admin_id : ℤ
  pub country_iso : Str
  pub at : Coordinate
  pub population : ℤ
  pub capital : Str
  pub wikidata : Str

pub record Candidate : Type 0 where
  pub place : Place
  pub distance_km : Float

-- `reach` is a map; a class may be missing.
pub record BearingPolicy : Type 0 where
  pub reach : PlaceClass → Option Float
  pub prefer_nearest_km : Float
  pub constraint_tier : Str
  pub inside_label_km : Float
  pub compass_points : ℤ
  pub candidate_radius_km : Float

unfoldable pub reach_km : BearingPolicy → PlaceClass → Float
reach_km p c = elim (p.reach c) [ none ↦ f_zero | some r ↦ r ]

unfoldable pub gather_radius_km : BearingPolicy → PlaceClass → Float
gather_radius_km p c =
    if float_lt f_zero p.candidate_radius_km then p.candidate_radius_km else reach_km p c

unfoldable pub candidate_limit : BearingPolicy → ℕ
candidate_limit p = if float_lt f_zero p.candidate_radius_km then 250 else 10

unfoldable pub eligible : BearingPolicy → Candidate → Bool
eligible p c =
    let reach = reach_km p c.place.class in float_lt f_zero reach && float_le c.distance_km reach

-- `a < b` on texts.
unfoldable pub str_lt : Str → Str → Bool
str_lt [] [] = false
str_lt [] (y ∷ ys) = true
str_lt (x ∷ xs) [] = false
str_lt (x ∷ xs) (y ∷ ys) = ltb x y || ((x == y) && str_lt xs ys)

unfoldable pub nearer : Candidate → Candidate → Bool
nearer a b =
    if not (float_eq a.distance_km b.distance_km)
    then float_lt a.distance_km b.distance_km
    else str_lt a.place.name b.place.name

unfoldable pub more_salient : Candidate → Candidate → Bool
more_salient a b =
    if not (rank a.place.class == rank b.place.class)
    then ltb (rank b.place.class) (rank a.place.class)
    else nearer a b

-- The loop of both selections: the best of the candidates that pass `ok`.
unfoldable pub best_of {ℓ} :
    {A : Type ℓ} → (A → Bool) → (A → A → Bool) → List A → Option A → Option A
best_of ok better [] best = best
best_of ok better (c ∷ cs) best = best_of ok better cs (
    if not (ok c)
    then best
    else elim best [ none ↦ some c | some b ↦ if better c b then some c else some b ])

-- A town or larger that is eligible and near enough to be named whatever else there is.
unfoldable pub prominent : BearingPolicy → Candidate → Bool
prominent p c =
    not (ltb (rank c.place.class) (rank class_town))
    && (eligible p c && not (float_lt p.prefer_nearest_km c.distance_km))

unfoldable pub nearest_prominent : List Candidate → BearingPolicy → Option Candidate
nearest_prominent cands p =
    if float_le p.prefer_nearest_km f_zero then none else best_of (prominent p) nearer cands none

unfoldable pub most_salient : List Candidate → BearingPolicy → Option Candidate
most_salient cands p = best_of (eligible p) more_salient cands none

-- `RankedSalience.Select`
unfoldable pub select_ranked : List Candidate → BearingPolicy → Option Candidate
select_ranked cands p = elim (nearest_prominent cands p) [
  | some c ↦ some c
  | none ↦ most_salient cands p
]
