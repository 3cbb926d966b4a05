-- ===== src/Gazetteer/Bearing.antt =====
-- The bearing of internal/application/gazetteer/bearing.go.
pub mod Anchors
pub mod Gathered
pub mod Rows
pub mod Tiers
pub mod Guards
pub mod Ranked
use ortus.Common.{
  Bool, true, false, not, ◌&&◌, ◌||◌, Option, none, some, List, [], ◌∷◌, ◌++◌, Str, bytes, str_eq,
  if◌then◌else◌,
}
use ortus.Common.Int.{ℤ, pos, negsuc, ltb_ℤ}
use ortus.Common.Float.{float_lt, float_le, f_zero}
use ortus.Domain.Types.{Coordinate, Feature}
use ortus.Domain.Coordinates.{eq_ℤ}
use ortus.Domain.Errors.{Result, ok, err, not_found}
use ortus.Gazetteer.Salience.{
  PlaceClass, class_village, class_town, class_city, Place, Candidate, BearingPolicy,
  gather_radius_km, candidate_limit, str_lt,
}
use ortus.Gazetteer.Types.{Fix, NearFeature, AdminColumns, AdminRow, SpatialIndex}
use ortus.Gazetteer.Compass.{Arithmetic, compass, round_distance_km, format_bearing_label}
use ortus.Gazetteer.Places.{class_text, place_from_feature}
use ortus.Gazetteer.Service.{Service, checked, iso_of, level_of}

abbrev pub salience_classes : List PlaceClass
salience_classes = class_city ∷ class_town ∷ class_village ∷ []

-- `m, ok := s.levels.Resolve(iso, level); ok && m.Equivalent == tier`
unfoldable pub is_tier : Service → Str → ℤ → Str → Bool
is_tier s iso level tier = elim (s.levels iso level) [
  | none ↦ false
  | some m ↦ str_eq m.equivalent tier
]

unfoldable pub tier_unit : Service → Str → List Feature → Option ℤ
tier_unit s tier [] = none
tier_unit s tier (f ∷ features) =
    let others = tier_unit s tier features in
    elim (level_of s f) [
      | none ↦ others
      | some level ↦ if is_tier s (iso_of s f) level tier then some f.id else others
    ]

-- `constraintAncestorIn`: the unit, if the search is constrained.
unfoldable pub constraint_ancestor_in : Service → List Feature → Str → Option ℤ
constraint_ancestor_in s containing tier =
    if str_eq tier [] then none else tier_unit s tier containing

-- The level of a coverage fill is -1.
abbrev pub level_or_fill : Service → Feature → ℤ
level_or_fill s f = elim (level_of s f) [ none ↦ negsuc 0 | some level ↦ level ]

-- `best == "" || level > bestLevel || (level == bestLevel && iso < best)`
abbrev pub is_better : Str → ℤ → Str → ℤ → Bool
is_better iso level best best_level =
    str_eq best [] || (ltb_ℤ best_level level || (eq_ℤ level best_level && str_lt iso best))

unfoldable pub country_loop : Service → List Feature → Str → ℤ → Str
country_loop s [] best best_level = best
country_loop s (f ∷ features) best best_level =
    let iso = iso_of s f in
    let level = level_or_fill s f in
    let better = not (str_eq iso []) && is_better iso level best best_level in
    country_loop s features (if better then iso else best) (if better then level else best_level)

unfoldable pub country_of : Service → List Feature → Str
country_of s containing = country_loop s containing [] (negsuc 0)

unfoldable pub has_id : ℤ → List Feature → Bool
has_id fid [] = false
has_id fid (f ∷ features) = if eq_ℤ f.id fid then true else has_id fid features

unfoldable pub contains_admin_unit : List Feature → ℤ → Bool
contains_admin_unit containing admin_fid =
    if eq_ℤ admin_fid (pos 0) then false else has_id admin_fid containing

abbrev pub admin_columns : Service → AdminColumns
admin_columns s = record {
  parent_fk = s.manifest.parent_fk_column;
  level = s.manifest.level_column;
  name = s.manifest.admin_name_column;
  country = s.manifest.country_column;
}

unfoldable pub reaches : Service → Str → ℤ → List AdminRow → Bool
reaches s tier ancestor [] = false
reaches s tier ancestor (r ∷ rows) =
    if is_tier s r.country_iso r.level tier
    then eq_ℤ r.fid ancestor
    else reaches s tier ancestor rows

-- Outside the country of the point, if that is known.
abbrev pub abroad : Str → Place → Bool
abroad country place = not (str_eq country []) && not (str_eq place.country_iso country)

module _ (s : Service) (index : SpatialIndex) where
  unfoldable pub same_tier : ℤ → ℤ → Str → Result Bool
  same_tier admin_id ancestor tier =
      if eq_ℤ admin_id (pos 0)
      then ok false
      else elim (index.resolve_chain s.manifest.admin_layer admin_id (admin_columns s)) [
        | err e ↦ err e
        | ok rows ↦ ok (reaches s tier ancestor rows)
      ]

  -- Whether a place is in the unit that constrains the search, if there is one.
  unfoldable pub is_permitted : Option ℤ → Str → Place → Result Bool
  is_permitted none tier place = ok true
  is_permitted (some ancestor) tier place = same_tier place.admin_id ancestor tier

module _ (a : Arithmetic) (s : Service) (index : SpatialIndex) where
  unfoldable pub candidates_of :
      BearingPolicy → Option ℤ → Str → List NearFeature → Result (List Candidate)
  candidates_of pol ancestor country [] = ok []
  candidates_of pol ancestor country (n ∷ near) =
      let others = candidates_of pol ancestor country near in
      elim (place_from_feature a s n.feature) [
        | none ↦ others
        | some place ↦
            if abroad country place
            then others
            else elim (is_permitted s index ancestor pol.constraint_tier place) [
              | err e ↦ err e
              | ok false ↦ others
              | ok true ↦ elim others [
                | err e ↦ err e
                | ok cs ↦ ok (record { place = place; distance_km = n.distance_km } ∷ cs)
              ]
            ]
      ]

  unfoldable pub candidates_in_class :
      Coordinate → PlaceClass → BearingPolicy → Option ℤ → Str → Result (List Candidate)
  candidates_in_class p class pol ancestor country =
      elim (index.query_knn s.manifest.places_layer p (candidate_limit pol)
        (gather_radius_km pol class)
        (record { column = s.manifest.rank_column; values = class_text class ∷ [] })) [
          | err e ↦ err e
          | ok near ↦ candidates_of pol ancestor country near
        ]

  unfoldable pub gather_classes :
      Coordinate → BearingPolicy → Option ℤ → Str → List PlaceClass → Result (List Candidate)
  gather_classes p pol ancestor country [] = ok []
  gather_classes p pol ancestor country (class ∷ classes) =
      let others = gather_classes p pol ancestor country classes in
      if float_le (gather_radius_km pol class) f_zero
      then others
      else elim (candidates_in_class p class pol ancestor country) [
        | err e ↦ err e
        | ok cs ↦ elim others [ err e ↦ err e | ok more ↦ ok (cs ++ more) ]
      ]

  abbrev pub gather_candidates :
      Coordinate → BearingPolicy → Option ℤ → Str → Result (List Candidate)
  gather_candidates p pol ancestor country = gather_classes p pol ancestor country salience_classes

  -- The fix as it stands before its label is known.
  abbrev pub plain_fix : Candidate → Fix
  plain_fix best = record {
    reference = best.place;
    distance_km = best.distance_km;
    azimuth = f_zero;
    compass = [];
    label = bytes "prope " ++ best.place.name;
    inside = false;
  }

  -- `none` is a panic of `Compass`.
  unfoldable pub build_fix : Coordinate → Candidate → BearingPolicy → Bool → Option Fix
  build_fix p best pol inside =
      let name = best.place.name in
      if inside
      then some (record (plain_fix best) { inside = true; label = bytes "in " ++ name })
      else if float_lt best.distance_km pol.inside_label_km
      then some (plain_fix best)
      else elim (index.azimuth best.place.at p) [
        | err e ↦ some (plain_fix best)
        | ok az ↦ elim (compass a az pol.compass_points) [
          | none ↦ none
          | some point ↦ some (record (plain_fix best) {
            azimuth = az;
            compass = point;
            label = format_bearing_label a (round_distance_km a best.distance_km) point name;
          })
        ]
      ]

  -- `Bearing` behind its guards.
  unfoldable pub bearing_from : Coordinate → BearingPolicy → List Feature → Result (Option Fix)
  bearing_from p pol containing =
      elim (gather_candidates p pol (constraint_ancestor_in s containing pol.constraint_tier)
        (country_of s containing)) [
          | err e ↦ err e
          | ok cands ↦ elim (s.salience cands pol) [
            | none ↦ err not_found
            | some best ↦
                ok (build_fix p best pol (contains_admin_unit containing best.place.admin_id))
          ]
        ]

module _ (a : Arithmetic) where
  unfoldable pub bearing : Coordinate → BearingPolicy → Service → Result (Option Fix)
  bearing p pol s = checked s p λ index. elim (index.point_in_polygon s.manifest.admin_layer p) [
    | err e ↦ err e
    | ok containing ↦ bearing_from a s index p pol containing
  ]
