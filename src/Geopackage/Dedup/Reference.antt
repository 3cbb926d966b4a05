-- ===== src/Geopackage/Dedup/Reference.antt =====
-- dedupFeaturesByProperties of internal/adapters/geopackage/repository.go beside a map from each key
-- to the feature that is kept for it.
use ortus.Common.{
  ℕ, suc, ◌≡◌, refl, sym, ap, ◌∙◌, subst, true, Option, none, some, List, [], ◌∷◌, ◌++◌, map, Str,
  str_eq, str_eq_iff, length, length-map, get_elem?, set, if◌then◌else◌, ltb, arith, if_cases,
  Option-cases, Bool-cases, inl, inr,
}
use ortus.Common.Maps.{Map, lookup, insert, lookup-insert}
use ortus.Domain.Types.{Feature}
use ortus.Geopackage.Dedup.{better_representative, dedup_loop, dedup_features}

module _ (key : Feature → Str) where
  -- The features that are kept, by their keys, in the order of first appearance.
  unfoldable pub representatives : List Feature → Map Feature → Map Feature
  representatives [] m = m
  representatives (f ∷ fs) m = elim (lookup (key f) m) [
    | none ↦ representatives fs (insert (key f) f m)
    | some kept ↦
        representatives fs (if better_representative f kept then insert (key f) f m else m)
  ]

abbrev pub values : Map Feature → List Feature
values m = map (λ e. e.1) m

-- The position of a key in a map.
unfoldable pub position : Str → Map Feature → Option ℕ
position k [] = none
position k ((j, v) ∷ m) =
    if str_eq j k then some 0 else elim (position k m) [ none ↦ none | some i ↦ some (suc i) ]

lookup-position :
    (k : Str) (m : Map Feature)
    → elim (position k m) [ none ↦ none | some i ↦ get_elem? (values m) i ] ≡ lookup k m
unfolding position lookup
lookup-position k [] = refl
lookup-position k ((j, v) ∷ m) = ground (arith, lookup-position k m)

values-insert :
    (k : Str) (f : Feature) (m : Map Feature)
    → values (insert k f m)
      ≡ elim (position k m) [ none ↦ values m ++ (f ∷ []) | some i ↦ set (values m) i f ]
unfolding position insert
values-insert k f [] = refl
values-insert k f ((j, v) ∷ m) = ground (arith, values-insert k f m)

position-insert :
    (j k : Str) (f : Feature) (m : Map Feature)
    → position j (insert k f m) ≡ elim (position j m) [
      | none ↦ (if str_eq k j then some (length m) else none)
      | some i ↦ some i
    ]
unfolding position insert
position-insert j k f [] = ground arith
position-insert j k f ((i, v) ∷ m) =
    ground (arith, str_eq_iff i k, str_eq_iff i j, str_eq_iff k j, position-insert j k f m)

position-none : (k : Str) (m : Map Feature) → lookup k m ≡ none → position k m ≡ none
unfolding position lookup
position-none k [] h = refl
position-none k ((j, v) ∷ m) h = ground (arith, h, position-none k m)

values_new :
    (k : Str) (f : Feature) (m : Map Feature)
    → position k m ≡ none
    → values (insert k f m) ≡ values m ++ (f ∷ [])
values_new k f m nowhere =
    values-insert k f m
    ∙ ap (λ p. elim p [ none ↦ values m ++ (f ∷ []) | some i ↦ set (values m) i f ]) nowhere

values_replaced :
    (k : Str) (f : Feature) (m : Map Feature) (i : ℕ)
    → position k m ≡ some i
    → values (insert k f m) ≡ set (values m) i f
values_replaced k f m i there =
    values-insert k f m
    ∙ ap (λ p. elim p [ none ↦ values m ++ (f ∷ []) | some i ↦ set (values m) i f ]) there

position-some :
    (k : Str) (m : Map Feature) (kept : Feature)
    → lookup k m ≡ some kept
    → (i : ℕ) × (position k m ≡ some i) × (get_elem? (values m) i ≡ some kept)
position-some k m kept found = elim (Option-cases (position k m)) [
  | inl nowhere ↦ cc (lookup-position k m, nowhere, found)
  | inr (i, there) ↦ (
    i,
    there,
    sym (ap (λ p. elim p [ none ↦ none | some i ↦ get_elem? (values m) i ]) there)
        ∙ (lookup-position k m ∙ found),
  )
]

not_few : (n : ℕ) → ltb (suc (suc n)) 2 ≡ true → ⊥
not_few n h = ground arith

module _ (key : Feature → Str) where
  -- The positions in the list are those in the map.
  abbrev Agree : Map ℕ → Map Feature → Type 0
  Agree positions m = (k : Str) → lookup k positions ≡ position k m

  Agree-insert :
      (k : Str) (f : Feature) (positions : Map ℕ) (m : Map Feature)
      → lookup k m ≡ none
      → Agree positions m
      → Agree (insert k (length (values m)) positions) (insert k f m)
  Agree-insert k f positions m absent agree j = ground (
    arith,
    lookup-insert k j (length (values m)) positions,
    position-insert j k f m,
    agree j,
    length-map m (λ e. e.1),
    position-none k m absent,
    str_eq_iff k j,
  )

  Agree-replace :
      (k : Str) (f kept : Feature) (positions : Map ℕ) (m : Map Feature)
      → lookup k m ≡ some kept
      → Agree positions m
      → Agree positions (insert k f m)
  Agree-replace k f kept positions m found agree j =
      ground (arith, position-insert j k f m, agree j, lookup-position k m, found, str_eq_iff k j)

  dedup_loop-representatives :
      (fs : List Feature) (positions : Map ℕ) (m : Map Feature)
      → Agree positions m
      → dedup_loop key fs positions (values m) ≡ some (values (representatives key fs m))
  unfolding dedup_loop representatives
  dedup_loop-representatives [] positions m agree = refl
  dedup_loop-representatives (f ∷ fs) positions m agree = elim (Option-cases (lookup (key f) m)) [
    | inl absent ↦
        let nowhere = position-none (key f) m absent in
        rw (agree (key f) ∙ nowhere, dedup_loop)
          (rw (absent, representatives)
            (subst
              (λ out.
                dedup_loop key fs (insert (key f) (length (values m)) positions) out
                ≡ some (values (representatives key fs (insert (key f) f m))))
              (values_new (key f) f m nowhere)
              (dedup_loop-representatives fs _ (insert (key f) f m)
                (Agree-insert (key f) f positions m absent agree))))
    | inr (kept, found) ↦
        let (i, there, at) = position-some (key f) m kept found in
        rw (agree (key f) ∙ there, dedup_loop)
          (rw (at, found, representatives)
            (elim (Bool-cases (better_representative f kept)) [
              | inl better ↦ rw (better) (
                  subst
                    (λ out.
                      dedup_loop key fs positions out
                      ≡ some (values (representatives key fs (insert (key f) f m))))
                    (values_replaced (key f) f m i there)
                    (dedup_loop-representatives fs positions (insert (key f) f m)
                      (Agree-replace (key f) f kept positions m found agree)))
              | inr worse ↦ rw (worse) (dedup_loop-representatives fs positions m agree)
            ]))
  ]

  pub dedup_features-representatives :
      (fs : List Feature) → dedup_features key fs ≡ some (values (representatives key fs []))
  unfolding dedup_features representatives lookup insert position
  dedup_features-representatives [] = refl
  dedup_features-representatives (f ∷ []) = refl
  dedup_features-representatives (f ∷ g ∷ fs) =
      if_cases (λ o. o ≡ some (values (representatives key (f ∷ g ∷ fs) [])))
        (ltb (length (f ∷ g ∷ fs)) 2) (λ few. absurd (not_few (length fs) few))
        (λ many. dedup_loop-representatives (f ∷ g ∷ fs) [] [] (λ k. refl))
