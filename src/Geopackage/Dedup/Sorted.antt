-- ===== src/Geopackage/Dedup/Sorted.antt =====
-- The sorted properties of featurePropertyKey in internal/adapters/geopackage/repository.go: what
-- stands in them under each name, and that this determines them.
use ortus.Common.{
  subst, ◌≡◌, refl, sym, ap, ap₂, ◌∙◌, ◌||◌, Bool, true, false, none, some, [], ◌∷◌, map, Str,
  str_eq, str_eq_iff, str_eq_refl, elem, arith, if◌then◌else◌, Bool-cases, inl, inr,
}
use ortus.Common.Maps.{Map, lookup}
use ortus.Common.Keys.{Distinct, keys}
use ortus.Common.Sort.{All, insert_stable, sort_stable, All-insert_stable}
use ortus.Domain.Types.{PropValue}
use ortus.Gazetteer.Salience.{str_lt}
use ortus.Gazetteer.Salience.Order.{str_lt_asym, str_lt_trans, str_lt_total}

abbrev pub by_name : Str × PropValue → Str × PropValue → Bool
by_name a b = str_lt a.0 b.0

str_lt_irrefl : (s : Str) → str_lt s s ≡ false
unfolding str_lt
str_lt_irrefl [] = refl
str_lt_irrefl (x ∷ xs) = ground (arith, str_lt_irrefl xs)

elem-keys-insert_stable :
    (j : Str) (e : Str × PropValue) (m : Map PropValue)
    → elem j (keys (insert_stable by_name e m)) ≡ (str_eq e.0 j || elem j (keys m))
unfolding insert_stable elem
elem-keys-insert_stable j e [] = refl
elem-keys-insert_stable j e (d ∷ m) = ground (arith, elem-keys-insert_stable j e m)

elem-keys-sort_stable :
    (j : Str) (m : Map PropValue) → elem j (keys (sort_stable by_name m)) ≡ elem j (keys m)
unfolding sort_stable elem
elem-keys-sort_stable j [] = refl
elem-keys-sort_stable j (e ∷ m) =
    ground (arith, elem-keys-insert_stable j e (sort_stable by_name m), elem-keys-sort_stable j m)

-- Each name is less than those behind it.
abbrev Ascends : Map PropValue → Type 0
Ascends [] = Unit
Ascends (e ∷ m) = All (λ (d : Str × PropValue). str_lt e.0 d.0 ≡ true) m × Ascends m

less_all :
    (j k : Str) (m : Map PropValue)
    → str_lt j k ≡ true
    → All (λ (d : Str × PropValue). str_lt k d.0 ≡ true) m
    → All (λ (d : Str × PropValue). str_lt j d.0 ≡ true) m
less_all j k [] h a = tt
less_all j k (d ∷ m) h a =
    (ground (arith, h, a.0, str_lt_asym k d.0, str_lt_trans k d.0 j), less_all j k m h a.1)

insert_stable-Ascends :
    (e : Str × PropValue) (m : Map PropValue)
    → elem e.0 (keys m) ≡ false
    → Ascends m
    → Ascends (insert_stable by_name e m)
unfolding insert_stable elem
insert_stable-Ascends e [] h a = (tt, tt)
insert_stable-Ascends e (d ∷ m) h a = elim (Bool-cases (by_name d e)) [
  | inl less ↦
      rw (less, insert_stable)
        (
          All-insert_stable by_name (λ (c : Str × PropValue). str_lt d.0 c.0 ≡ true) e m less a.0,
          insert_stable-Ascends e m (ground (arith, h)) a.1,
        )
  | inr not_less ↦
      let first : str_lt e.0 d.0 ≡ true =
        ground (arith, not_less, h, str_lt_total d.0 e.0, str_eq_iff d.0 e.0) in
      rw (not_less, insert_stable) ((first, less_all e.0 d.0 m first a.0), a)
]

sort_stable-Ascends : (m : Map PropValue) → Distinct (keys m) → Ascends (sort_stable by_name m)
unfolding sort_stable
sort_stable-Ascends [] d = tt
sort_stable-Ascends (e ∷ m) d =
    insert_stable-Ascends e (sort_stable by_name m) (elem-keys-sort_stable e.0 m ∙ d.0)
      (sort_stable-Ascends m d.1)

module _ (render : PropValue → Str) where
  -- The names and rendered values of the properties, in their order.
  abbrev pub rendered : Map PropValue → Map Str
  rendered properties = map (λ e. (e.0, render e.1)) properties

  lookup-rendered_absent :
      (j : Str) (m : Map PropValue) → elem j (keys m) ≡ false → lookup j (rendered m) ≡ none
  unfolding lookup elem
  lookup-rendered_absent j [] h = refl
  lookup-rendered_absent j (e ∷ m) h = ground (arith, lookup-rendered_absent j m, h)

  lookup-insert_stable :
      (j : Str) (e : Str × PropValue) (m : Map PropValue)
      → elem e.0 (keys m) ≡ false
      → lookup j (rendered (insert_stable by_name e m))
        ≡ (if str_eq e.0 j then some (render e.1) else lookup j (rendered m))
  unfolding insert_stable lookup elem
  lookup-insert_stable j e [] h = refl
  lookup-insert_stable j e (d ∷ m) h =
      ground (
        arith,
        h,
        lookup-insert_stable j e m,
        str_eq_iff e.0 j,
        str_eq_iff d.0 j,
        str_eq_iff d.0 e.0,
      )

  -- Sorting by name leaves what stands under each name.
  pub lookup-sort_stable :
      (j : Str) (m : Map PropValue)
      → Distinct (keys m)
      → lookup j (rendered (sort_stable by_name m)) ≡ lookup j (rendered m)
  unfolding sort_stable lookup
  lookup-sort_stable j [] d = refl
  lookup-sort_stable j (e ∷ m) d =
      lookup-insert_stable j e (sort_stable by_name m) (elem-keys-sort_stable e.0 m ∙ d.0)
      ∙ ap (λ o. if str_eq e.0 j then some (render e.1) else o) (lookup-sort_stable j m d.1)

  lookup_less :
      (j : Str) (m : Map PropValue)
      → All (λ (d : Str × PropValue). str_lt j d.0 ≡ true) m
      → lookup j (rendered m) ≡ none
  unfolding lookup
  lookup_less j [] h = refl
  lookup_less j (d ∷ m) h =
      ground (arith, h.0, lookup_less j m h.1, str_eq_iff d.0 j, str_lt_irrefl j)

  -- The same text, or none, stands under each name.
  abbrev pub SameTexts : Map PropValue → Map PropValue → Type 0
  SameTexts m n = (name : Str) → lookup name (rendered m) ≡ lookup name (rendered n)

  -- Behind their least names, two lists that agree still agree.
  rest-SameTexts :
      (k : Str) (v w : PropValue) (m n : Map PropValue)
      → Ascends ((k, v) ∷ m)
      → Ascends ((k, w) ∷ n)
      → SameTexts ((k, v) ∷ m) ((k, w) ∷ n)
      → SameTexts m n
  unfolding lookup
  rest-SameTexts k v w m n a b same name = elim (Bool-cases (str_eq k name)) [
    | inl e ↦
        let is : k ≡ name = (str_eq_iff k name).0 e in
        subst (λ j. lookup j (rendered m) ≡ lookup j (rendered n)) is
          (lookup_less k m a.0 ∙ sym (lookup_less k n b.0))
    | inr e ↦ ground (arith, e, same name)
  ]

  missing_first :
      (k : Str) (v : PropValue) (m n : Map PropValue)
      → All (λ (d : Str × PropValue). str_lt k d.0 ≡ true) n
      → SameTexts ((k, v) ∷ m) n
      → ⊥
  unfolding lookup
  missing_first k v m n less same = cc (same k, lookup_less k n less, str_eq_refl k)

  equal_first :
      (k : Str) (v w : PropValue) (m n : Map PropValue)
      → (SameTexts m n → rendered m ≡ rendered n)
      → Ascends ((k, v) ∷ m)
      → Ascends ((k, w) ∷ n)
      → SameTexts ((k, v) ∷ m) ((k, w) ∷ n)
      → rendered ((k, v) ∷ m) ≡ rendered ((k, w) ∷ n)
  unfolding lookup
  equal_first k v w m n rest a b same =
      let text : render v ≡ render w = ground (arith, same k, str_eq_refl k) in
      ap₂ (λ t r. (k, t) ∷ r) text (rest (rest-SameTexts k v w m n a b same))

  SameTexts-rendered :
      (m n : Map PropValue) → Ascends m → Ascends n → SameTexts m n → rendered m ≡ rendered n
  SameTexts-rendered [] [] a b same = refl
  SameTexts-rendered [] ((j, w) ∷ n) a b same =
      absurd (missing_first j w n [] tt (λ name. sym (same name)))
  SameTexts-rendered ((k, v) ∷ m) [] a b same = absurd (missing_first k v m [] tt same)
  SameTexts-rendered ((k, v) ∷ m) ((j, w) ∷ n) a b same = elim (Bool-cases (str_lt k j)) [
    | inl less ↦ absurd (missing_first k v m ((j, w) ∷ n) (less, less_all k j n less b.0) same)
    | inr not_less ↦ elim (Bool-cases (str_lt j k)) [
      | inl less ↦ absurd (
          missing_first j w n ((k, v) ∷ m) (less, less_all j k m less a.0)
            (λ name. sym (same name)))
      | inr not_above ↦
          subst
            (λ i.
              Ascends ((i, w) ∷ n)
              → SameTexts ((k, v) ∷ m) ((i, w) ∷ n)
              → rendered ((k, v) ∷ m) ≡ rendered ((i, w) ∷ n))
            (str_lt_total k j not_less not_above)
            (equal_first k v w m n (SameTexts-rendered m n a.1 b.1) a) b same
    ]
  ]

  -- Sorted by name, properties with the same texts are rendered the same.
  pub sorted-SameTexts :
      (m n : Map PropValue)
      → Distinct (keys m)
      → Distinct (keys n)
      → SameTexts m n
      → rendered (sort_stable by_name m) ≡ rendered (sort_stable by_name n)
  sorted-SameTexts m n d e same =
      SameTexts-rendered (sort_stable by_name m) (sort_stable by_name n) (sort_stable-Ascends m d)
        (sort_stable-Ascends n e)
        (λ name. lookup-sort_stable name m d ∙ (same name ∙ sym (lookup-sort_stable name n e)))
