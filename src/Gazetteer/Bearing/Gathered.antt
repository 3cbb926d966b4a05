-- ===== src/Gazetteer/Bearing/Gathered.antt =====
-- The candidates that internal/application/gazetteer/bearing.go gathers.
use ortus.Common.{
  ◌≡◌, refl, Bool, true, false, Option, List, [], ◌∷◌, ◌++◌, Str, if_cases, option_cases,
}
use ortus.Common.Int.{ℤ}
use ortus.Common.Float.{float_le, f_zero}
use ortus.Common.Sort.{All, All-append}
use ortus.Domain.Types.{Coordinate}
use ortus.Domain.Errors.{Result, ok, err, result_cases}
use ortus.Gazetteer.Salience.{PlaceClass, Place, Candidate, BearingPolicy, gather_radius_km}
use ortus.Gazetteer.Types.{NearFeature, SpatialIndex}
use ortus.Gazetteer.Compass.{Arithmetic}
use ortus.Gazetteer.Places.{place_from_feature}
use ortus.Gazetteer.Service.{Service}
use ortus.Gazetteer.Bearing.{
  abroad, is_permitted, candidates_of, candidates_in_class, gather_classes,
}

-- What holds of all elements of a list that a call may return.
abbrev pub AllOk : {A : Type 0} → (A → Type 0) → Result (List A) → Type 0
AllOk P (err e) = Unit
AllOk P (ok xs) = All P xs

AllOk-cons :
    {A : Type 0} (P : A → Type 0) (x : A) (r : Result (List A))
    → P x
    → AllOk P r
    → AllOk P (elim r [ err e ↦ err e | ok xs ↦ ok (x ∷ xs) ])
AllOk-cons P x (err e) h hs = tt
AllOk-cons P x (ok xs) h hs = (h, hs)

AllOk-append :
    {A : Type 0} (P : A → Type 0) (q r : Result (List A))
    → AllOk P q
    → AllOk P r
    → AllOk P (elim q [ err e ↦ err e | ok xs ↦ elim r [ err e ↦ err e | ok ys ↦ ok (xs ++ ys) ] ])
AllOk-append P (err e) r h k = tt
AllOk-append P (ok xs) (err e) h k = tt
AllOk-append P (ok xs) (ok ys) h k = All-append P xs ys h k

module _ (s : Service) (index : SpatialIndex) (pol : BearingPolicy) (ancestor : Option ℤ)
    (country : Str) where
  -- Not abroad, and in the unit that constrains the search.
  abbrev pub IsAllowed : Place → Type 0
  IsAllowed place =
      (abroad country place ≡ false)
      × (is_permitted s index ancestor pol.constraint_tier place ≡ ok true)

  abbrev pub IsAnchor : Candidate → Type 0
  IsAnchor c = IsAllowed c.place

  module _ (a : Arithmetic) where
    candidates_of-IsAnchor :
        (near : List NearFeature)
        → AllOk IsAnchor (candidates_of a s index pol ancestor country near)
    unfolding candidates_of
    candidates_of-IsAnchor [] = tt
    candidates_of-IsAnchor (n ∷ near) =
        let others = candidates_of-IsAnchor near in
        option_cases (AllOk IsAnchor) (place_from_feature a s n.feature) (λ unreadable. others)
          λ place read.
            if_cases (AllOk IsAnchor) (abroad country place) (λ foreign. others)
              λ home.
                permitted place n home others
                  (is_permitted s index ancestor pol.constraint_tier place) refl
      where
        permitted :
            (place : Place) (n : NearFeature)
            → abroad country place ≡ false
            → AllOk IsAnchor (candidates_of a s index pol ancestor country near)
            → (answer : Result Bool)
            → is_permitted s index ancestor pol.constraint_tier place ≡ answer
            → AllOk IsAnchor (elim answer [
              | err e ↦ err e
              | ok false ↦ candidates_of a s index pol ancestor country near
              | ok true ↦ elim (candidates_of a s index pol ancestor country near) [
                | err e ↦ err e
                | ok cs ↦ ok (record { place = place; distance_km = n.distance_km } ∷ cs)
              ]
            ])
        permitted place n home others (err e) is = tt
        permitted place n home others (ok false) is = others
        permitted place n home others (ok true) is = AllOk-cons IsAnchor _ _ (home, is) others

    candidates_in_class-IsAnchor :
        (p : Coordinate) (class : PlaceClass)
        → AllOk IsAnchor (candidates_in_class a s index p class pol ancestor country)
    unfolding candidates_in_class
    candidates_in_class-IsAnchor p class =
        result_cases (AllOk IsAnchor) (index.query_knn _ p _ _ _) (λ e failed. tt)
          (λ near found. candidates_of-IsAnchor near)

    pub gather_classes-IsAnchor :
        (p : Coordinate) (classes : List PlaceClass)
        → AllOk IsAnchor (gather_classes a s index p pol ancestor country classes)
    unfolding gather_classes
    gather_classes-IsAnchor p [] = tt
    gather_classes-IsAnchor p (class ∷ classes) =
        if_cases (AllOk IsAnchor) (float_le (gather_radius_km pol class) f_zero)
          (λ unreachable. gather_classes-IsAnchor p classes)
          (λ reachable.
            AllOk-append IsAnchor _ _ (candidates_in_class-IsAnchor p class)
              (gather_classes-IsAnchor p classes))
