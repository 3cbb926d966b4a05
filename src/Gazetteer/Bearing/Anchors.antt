-- ===== src/Gazetteer/Bearing/Anchors.antt =====
-- The place that a bearing of internal/application/gazetteer/bearing.go refers to.
use ortus.Common.{
  ℕ, ◌≡◌, refl, sym, ◌∙◌, subst, ap, Bool, false, Option, none, some, List, [], Str, str_eq_iff,
  ◌⊎◌, arith, get_elem?, if_cases, option_cases,
}
use ortus.Common.Float.{float_lt}
use ortus.Common.Sort.{All-get_elem?}
use ortus.Domain.Types.{Coordinate, Feature}
use ortus.Domain.Errors.{Result, ok, err, result_cases}
use ortus.Gazetteer.Salience.{Place, Candidate, BearingPolicy}
use ortus.Gazetteer.Types.{SpatialIndex, Fix, SalienceStrategy}
use ortus.Gazetteer.Compass.{Arithmetic, compass}
use ortus.Gazetteer.Service.{Service, ready, checked, require_wgs84}
use ortus.Gazetteer.Bearing.{
  abroad, constraint_ancestor_in, country_of, build_fix, contains_admin_unit, gather_candidates,
  salience_classes, bearing_from, bearing,
}
use ortus.Gazetteer.Bearing.Tiers.{IsConstrained, permitted-IsConstrained}
use ortus.Gazetteer.Bearing.Gathered.{AllOk, IsAnchor, IsAllowed, gather_classes-IsAnchor}

-- A strategy chooses one of the candidates.
abbrev pub Selects : SalienceStrategy → Type 0
Selects select =
    (cands : List Candidate) (pol : BearingPolicy) (c : Candidate)
    → select cands pol ≡ some c
    → (i : ℕ) × (get_elem? cands i ≡ some c)

abbrev reference_or : Place → Option Fix → Place
reference_or place none = place
reference_or place (some fix) = fix.reference

build_fix-reference :
    (a : Arithmetic) (s : Service) (index : SpatialIndex) (p : Coordinate) (best : Candidate)
    (pol : BearingPolicy) (inside : Bool)
    → reference_or best.place (build_fix a s index p best pol inside) ≡ best.place
unfolding build_fix
build_fix-reference a s index p best pol inside =
    let Same = λ (o : Option Fix). reference_or best.place o ≡ best.place in
    if_cases Same inside (λ inner. refl)
      λ outer.
        if_cases Same (float_lt best.distance_km pol.inside_label_km) (λ near. refl)
          λ far.
            result_cases Same (index.azimuth best.place.at p) (λ e failed. refl)
              (λ az found.
                option_cases Same (compass a az pol.compass_points) (λ panic. refl)
                  (λ point named. refl))

ready-index : (s : Service) (index : SpatialIndex) → ready s ≡ ok index → s.index ≡ some index
unfolding ready
ready-index s index h = ground (arith, h)

module _ (a : Arithmetic) (s : Service) (p : Coordinate) (pol : BearingPolicy) (fix : Fix) where
  bearing_from-IsAllowed :
      (index : SpatialIndex) (containing : List Feature)
      → Selects s.salience
      → bearing_from a s index p pol containing ≡ ok (some fix)
      → IsAllowed s index pol
          (constraint_ancestor_in s containing pol.constraint_tier)
          (country_of s containing)
          fix.reference
  unfolding bearing_from
  bearing_from-IsAllowed index containing selects =
      let ancestor = constraint_ancestor_in s containing pol.constraint_tier in
      let country = country_of s containing in
      let Allowed = λ (r : Result (Option Fix)).
        r ≡ ok (some fix) → IsAllowed s index pol ancestor country fix.reference in
      let gathered = gather_classes-IsAnchor s index pol ancestor country a p salience_classes in
      result_cases Allowed (gather_candidates a s index p pol ancestor country)
        (λ e failed. λ h. cc)
        λ cands is.
          option_cases Allowed (s.salience cands pol) (λ absent h. cc)
            λ best chosen h.
              let inside = contains_admin_unit containing best.place.admin_id in
              let found = selects cands pol best chosen in
              subst (IsAllowed s index pol ancestor country)
                (sym (build_fix-reference a s index p best pol inside)
                  ∙ ap (λ r. reference_or best.place (elim r [ ok o ↦ o | err _ ↦ none ])) h)
                (All-get_elem? (IsAnchor s index pol ancestor country) cands found.0
                  (subst (AllOk (IsAnchor s index pol ancestor country)) is gathered) found.1)

  bearing-IsAllowed :
      Selects s.salience
      → bearing a p pol s ≡ ok (some fix)
      → (index : SpatialIndex) × (containing : List Feature) × (s.index ≡ some index)
        × (index.point_in_polygon s.manifest.admin_layer p ≡ ok containing)
        × IsAllowed s index pol
            (constraint_ancestor_in s containing pol.constraint_tier)
            (country_of s containing)
            fix.reference
  unfolding bearing checked
  bearing-IsAllowed selects =
      let Allowed = λ (r : Result (Option Fix)).
        r ≡ ok (some fix)
        → (index : SpatialIndex) × (containing : List Feature) × (s.index ≡ some index)
          × (index.point_in_polygon s.manifest.admin_layer p ≡ ok containing)
          × IsAllowed s index pol (constraint_ancestor_in s containing pol.constraint_tier)
              (country_of s containing) fix.reference in
      result_cases Allowed (ready s) (λ e inert h. cc)
        λ index is_ready.
          option_cases Allowed (require_wgs84 p)
            (λ projected.
              result_cases Allowed (index.point_in_polygon s.manifest.admin_layer p)
                (λ e failed h. cc)
                λ containing found h. (
                  index,
                  containing,
                  ready-index s index is_ready,
                  found,
                  bearing_from-IsAllowed index containing selects h,
                ))
            (λ e unsupported h. cc)

-- The country is unknown, or the place's.
abbrev pub IsHome : Str → Place → Type 0
IsHome country place = (country ≡ []) ⊎ (place.country_iso ≡ country)

abroad-IsHome :
    (country : Str) (place : Place) → abroad country place ≡ false → IsHome country place
abroad-IsHome country place h =
    ground (arith, h, str_eq_iff country [], str_eq_iff place.country_iso country)

module _ (a : Arithmetic) (s : Service) (p : Coordinate) (pol : BearingPolicy) (fix : Fix) where
  -- A strategy that chooses among the candidates: the place of a bearing lies in the country of the
  -- point, unless no unit that contains the point has a country; and if the policy names a tier and
  -- one of these units is of it, the first such unit is among the place's own units of the tier.
  pub bearing_anchor :
      Selects s.salience
      → bearing a p pol s ≡ ok (some fix)
      → (index : SpatialIndex) × (containing : List Feature) × (s.index ≡ some index)
        × (index.point_in_polygon s.manifest.admin_layer p ≡ ok containing)
        × IsHome (country_of s containing) fix.reference
        × IsConstrained s index pol.constraint_tier containing fix.reference
  bearing_anchor selects h =
      let (index, containing, has_index, found, (home, permitted)) =
        bearing-IsAllowed a s p pol fix selects h in
      (
        index,
        containing,
        has_index,
        found,
        abroad-IsHome (country_of s containing) fix.reference home,
        permitted-IsConstrained s index pol.constraint_tier containing fix.reference permitted,
      )
