-- ===== src/Geopackage/Dedup/Chosen.antt =====
-- Which features dedupFeaturesByProperties of internal/adapters/geopackage/repository.go keeps.
use mathlib.Core.Option.{some-injective}
use ortus.Common.{
  ℕ, suc, ◌≡◌, refl, sym, ap, ◌∙◌, subst, true, false, none, some, List, [], ◌∷◌, Str, str_eq,
  str_eq_iff, get_elem?, if◌then◌else◌, arith, if_cases, ◌+◌, option_cases, Option-cases,
  Bool-cases, inl, inr,
}
use ortus.Common.Maps.{Map, lookup, insert, lookup-insert, lookup-insert_self}
use ortus.Common.Keys.{Distinct, keys, insert-Distinct}
use ortus.Common.Sort.{All}
use ortus.Domain.Types.{PropValue, Feature}
use ortus.Gazetteer.Salience.Order.{str_lt_asym, str_lt_trans}
use ortus.Geopackage.Dedup.{
  better_representative, feature_property_key, dedup_features_by_properties,
}
use ortus.Geopackage.Dedup.Reference.{representatives, values, dedup_features-representatives}

better_asym : (f g : Feature) → better_representative f g ≡ true → better_representative g f ≡ false
unfolding better_representative
better_asym f g h = ground (arith, h, str_lt_asym f.geometry.wkt g.geometry.wkt)

better_trans :
    (f g h : Feature)
    → better_representative f g ≡ false
    → better_representative g h ≡ false
    → better_representative f h ≡ false
unfolding better_representative
better_trans f g h a b =
    ground (arith, a, b, str_lt_trans h.geometry.wkt g.geometry.wkt f.geometry.wkt)

better_irrefl : (f : Feature) → better_representative f f ≡ false
better_irrefl f = elim (Bool-cases (better_representative f f)) [
  | inl better ↦ cc (better_asym f f better)
  | inr worse ↦ worse
]

module _ (key : Feature → Str) where
  -- The feature that is kept for the key of `f` is no worse than `f`.
  abbrev pub IsKept : Map Feature → Feature → Type 0
  IsKept m f = (g : Feature) × (lookup (key f) m ≡ some g) × (better_representative f g ≡ false)

  -- The feature of a key is no worse than `g`.
  abbrev Has : Str → Feature → Map Feature → Type 0
  Has k g m = (g' : Feature) × (lookup k m ≡ some g') × (better_representative g g' ≡ false)

  Has-self : (k : Str) (g : Feature) (m : Map Feature) → lookup k m ≡ some g → Has k g m
  Has-self k g m found = (g, found, better_irrefl g)

  Has-worse :
      (k : Str) (g h : Feature) (m : Map Feature)
      → better_representative g h ≡ false
      → Has k h m
      → Has k g m
  Has-worse k g h m worse (h', found, least) = (h', found, better_trans g h h' worse least)

  -- A new key, and a better feature for an old one, leave no key with a worse feature.
  lookup-insert_new :
      (j k : Str) (f g : Feature) (m : Map Feature)
      → lookup j m ≡ none
      → lookup k m ≡ some g
      → lookup k (insert j f m) ≡ some g
  lookup-insert_new j k f g m absent found =
      ground (arith, lookup-insert j k f m, absent, found, str_eq_iff j k)

  insert-Has :
      (j k : Str) (f kept g : Feature) (m : Map Feature)
      → lookup j m ≡ some kept
      → better_representative f kept ≡ true
      → lookup k m ≡ some g
      → Has k g (insert j f m)
  insert-Has j k f kept g m was better found = elim (Bool-cases (str_eq j k)) [
    | inl same ↦
        let is =
          some-injective kept g
            (sym was ∙ (ap (λ j. lookup j m) ((str_eq_iff j k).0 same) ∙ found)) in
        (
          f,
          lookup-insert j k f m ∙ ap (λ b. if b then some f else lookup k m) same,
          better_asym f g (subst (λ g. better_representative f g ≡ true) is better),
        )
    | inr other ↦
        Has-self k g (insert j f m)
          (lookup-insert j k f m ∙ (ap (λ b. if b then some f else lookup k m) other ∙ found))
  ]

  representatives-Has :
      (fs : List Feature) (k : Str) (g : Feature) (m : Map Feature)
      → lookup k m ≡ some g
      → Has k g (representatives key fs m)
  unfolding representatives
  representatives-Has [] k g m found = Has-self k g m found
  representatives-Has (f ∷ fs) k g m found = elim (Option-cases (lookup (key f) m)) [
    | inl absent ↦
        rw (absent, representatives)
          (representatives-Has fs k g (insert (key f) f m)
            (lookup-insert_new (key f) k f g m absent found))
    | inr (kept, was) ↦
        rw (was, representatives)
          (if_cases (λ (m' : Map Feature). Has k g (representatives key fs m'))
            (better_representative f kept)
            (λ better.
              let (h, now, least) = insert-Has (key f) k f kept g m was better found in
              Has-worse k g h _ least (representatives-Has fs k h (insert (key f) f m) now))
            (λ worse. representatives-Has fs k g m found))
  ]

  representatives-cons :
      (f : Feature) (fs : List Feature) (m : Map Feature)
      → (m' : Map Feature) × (representatives key (f ∷ fs) m ≡ representatives key fs m')
        × Has (key f) f m'
  unfolding representatives
  representatives-cons f fs m = elim (Option-cases (lookup (key f) m)) [
    | inl absent ↦
        let m' = insert (key f) f m in
        (
          m',
          rw (absent, representatives) refl,
          Has-self (key f) f m' (lookup-insert_self (key f) f m),
        )
    | inr (kept, was) ↦ elim (Bool-cases (better_representative f kept)) [
      | inl better ↦
          let m' = insert (key f) f m in
          (
            m',
            rw (was, better, representatives) refl,
            Has-self (key f) f m' (lookup-insert_self (key f) f m),
          )
      | inr worse ↦ (m, rw (was, worse, representatives) refl, (kept, was, worse))
    ]
  ]

  representatives-IsKept :
      (fs : List Feature) (m : Map Feature) → All (IsKept (representatives key fs m)) fs
  representatives-IsKept [] m = tt
  representatives-IsKept (f ∷ fs) m =
      let (m', same, (g, has, worse)) = representatives-cons f fs m in
      subst (λ r. All (IsKept r) (f ∷ fs)) (sym same)
        (
          Has-worse (key f) f g _ worse (representatives-Has fs (key f) g m' has),
          representatives-IsKept fs m',
        )

  representatives-Distinct :
      (fs : List Feature) (m : Map Feature)
      → Distinct (keys m)
      → Distinct (keys (representatives key fs m))
  unfolding representatives
  representatives-Distinct [] m d = d
  representatives-Distinct (f ∷ fs) m d =
      let new = representatives-Distinct fs (insert (key f) f m) (insert-Distinct (key f) f m d) in
      option_cases (λ (m' : Map Feature). Distinct (keys m')) (lookup (key f) m) (λ absent. new)
        (λ kept was.
          if_cases (λ (m' : Map Feature). Distinct (keys (representatives key fs m')))
            (better_representative f kept) (λ better. new)
            (λ worse. representatives-Distinct fs m d))

  -- An entry has the key of its feature, which is one of those given.
  abbrev pub IsFrom : List Feature → Str × Feature → Type 0
  IsFrom features e = (key e.1 ≡ e.0) × ((i : ℕ) × (get_elem? features i ≡ some e.1))

  insert-IsFrom :
      (features : List Feature) (f : Feature) (m : Map Feature)
      → IsFrom features (key f, f)
      → All (IsFrom features) m
      → All (IsFrom features) (insert (key f) f m)
  unfolding insert
  insert-IsFrom features f [] new h = (new, tt)
  insert-IsFrom features f ((j, g) ∷ m) new h =
      if_cases (All (IsFrom features)) (str_eq j (key f)) (λ same. (new, h.1))
        (λ other. (h.0, insert-IsFrom features f m new h.1))

  representatives-IsFrom :
      (features fs : List Feature) (m : Map Feature)
      → All (λ f. (i : ℕ) × (get_elem? features i ≡ some f)) fs
      → All (IsFrom features) m
      → All (IsFrom features) (representatives key fs m)
  unfolding representatives
  representatives-IsFrom features [] m given h = h
  representatives-IsFrom features (f ∷ fs) m given h =
      let new =
        representatives-IsFrom features fs (insert (key f) f m) given.1
          (insert-IsFrom features f m (refl, given.0) h) in
      option_cases (All (IsFrom features)) (lookup (key f) m) (λ absent. new)
        (λ kept was.
          if_cases (λ (m' : Map Feature). All (IsFrom features) (representatives key fs m'))
            (better_representative f kept) (λ better. new)
            (λ worse. representatives-IsFrom features fs m given.1 h))

-- Every element of a list has an index.
all_found :
    (xs ys : List Feature) (n : ℕ)
    → ((i : ℕ) → get_elem? ys i ≡ get_elem? xs (n + i))
    → All (λ f. (i : ℕ) × (get_elem? xs i ≡ some f)) ys
all_found xs [] n h = tt
all_found xs (y ∷ ys) n h =
    ((n + 0, sym (h 0)), all_found xs ys (suc n) (λ i. h (suc i) ∙ ap (get_elem? xs) (omega arith)))

-- The result is a list of features with different keys: each is one of those given, and for each of
-- those given the one of its key is kept, than which it is not better.
pub dedup_features_by_properties_lem :
    (render : PropValue → Str) (features : List Feature)
    → (m : Map Feature) × (dedup_features_by_properties render features ≡ some (values m))
      × Distinct (keys m)
      × All (IsFrom (feature_property_key render) features) m
      × All (IsKept (feature_property_key render) m) features
unfolding dedup_features_by_properties
dedup_features_by_properties_lem render features =
    let key = feature_property_key render in
    (
      representatives key features [],
      dedup_features-representatives key features,
      representatives-Distinct key features [] tt,
      representatives-IsFrom key features features []
          (all_found features features 0 (λ i. ap (get_elem? features) (omega arith))) tt,
      representatives-IsKept key features [],
    )
