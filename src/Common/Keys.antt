-- ===== src/Common/Keys.antt =====
-- Lists of entries with distinct keys: what a lookup finds in a part of one.
use ortus.Common.Base.{
  ℕ, zero, suc, ◌≡◌, refl, ap, subst, true, false, ◌||◌, inl, inr, none, some, List, [], ◌∷◌, ◌++◌,
  map, arith,
}
use ortus.Common.Tests.{if◌then◌else◌, Bool-cases}
use ortus.Common.Lists.{length, take, drop}
use ortus.Common.Bytes.{str_eq, str_eq→eq, Str, str_eq_iff, elem, elem-append}
use ortus.Common.Maps.{Map, lookup, insert, delete}

abbrev pub Distinct : List Str → Type 0
Distinct [] = Unit
Distinct (x ∷ xs) = (elem x xs ≡ false) × Distinct xs

pub elem-drop : (k : Str) (n : ℕ) (xs : List Str) → elem k xs ≡ false → elem k (drop n xs) ≡ false
unfolding elem
elem-drop k zero xs h = h
elem-drop k (suc n) [] h = refl
elem-drop k (suc n) (x ∷ xs) h = ground (arith, elem-drop k n xs)

pub elem-take : (k : Str) (n : ℕ) (xs : List Str) → elem k xs ≡ false → elem k (take n xs) ≡ false
unfolding elem
elem-take k zero xs h = refl
elem-take k (suc n) [] h = refl
elem-take k (suc n) (x ∷ xs) h = ground (arith, elem-take k n xs)

pub drop-Distinct : (n : ℕ) (xs : List Str) → Distinct xs → Distinct (drop n xs)
drop-Distinct zero xs d = d
drop-Distinct (suc n) [] d = tt
drop-Distinct (suc n) (x ∷ xs) d = drop-Distinct n xs d.1

pub snoc-Distinct :
    (k : Str) (xs : List Str) → elem k xs ≡ false → Distinct xs → Distinct (xs ++ (k ∷ []))
unfolding elem
snoc-Distinct k [] h d = (refl, tt)
snoc-Distinct k (x ∷ xs) h d = (
  ground (arith, elem-append x xs (k ∷ []), str_eq_iff x k, str_eq_iff k x),
  snoc-Distinct k xs (ground arith) d.1,
)

module _ {ℓ} {V : Type ℓ} where
  abbrev pub keys : Map V → List Str
  keys = map (λ e. e.0)

  pub lookup_absent : (k : Str) (m : Map V) → elem k (keys m) ≡ false → lookup k m ≡ none
  unfolding lookup elem
  lookup_absent k [] h = refl
  lookup_absent k ((j, v) ∷ m) h = ground (arith, lookup_absent k m)

  pub lookup-append :
      (k : Str) (m n : Map V)
      → lookup k (m ++ n) ≡ elim (lookup k m) [ none ↦ lookup k n | some v ↦ some v ]
  unfolding lookup
  lookup-append k [] n = refl
  lookup-append k ((j, v) ∷ m) n = ground (arith, lookup-append k m n)

  pub lookup-drop :
      (k : Str) (n : ℕ) (m : Map V)
      → Distinct (keys m)
      → lookup k (drop n m) ≡ (if elem k (take n (keys m)) then none else lookup k m)
  unfolding lookup elem
  lookup-drop k zero m d = refl
  lookup-drop k (suc n) [] d = refl
  lookup-drop k (suc n) ((j, v) ∷ m) d =
      ground (arith, lookup-drop k n m d.1, str_eq_iff j k, lookup_absent k m)

  pub keys-append : (m n : Map V) → keys (m ++ n) ≡ keys m ++ keys n
  keys-append [] n = refl
  keys-append (e ∷ m) n = ap (◌∷◌ e.0) (keys-append m n)

  pub keys-drop : (n : ℕ) (m : Map V) → keys (drop n m) ≡ drop n (keys m)
  keys-drop zero m = refl
  keys-drop (suc n) [] = refl
  keys-drop (suc n) (e ∷ m) = keys-drop n m

module _ {ℓ} {V : Type ℓ} where
  pub elem-keys-insert :
      (j k : Str) (v : V) (m : Map V)
      → elem j (keys (insert k v m)) ≡ (str_eq k j || elem j (keys m))
  unfolding insert elem
  elem-keys-insert j k v [] = refl
  elem-keys-insert j k v ((i, w) ∷ m) = ground (arith, str_eq_iff i k, elem-keys-insert j k v m)

  pub elem-keys-delete :
      (j k : Str) (m : Map V) → elem j (keys m) ≡ false → elem j (keys (delete k m)) ≡ false
  unfolding delete elem
  elem-keys-delete j k [] h = refl
  elem-keys-delete j k ((i, w) ∷ m) h = ground (arith, elem-keys-delete j k m)

  pub insert-Distinct :
      (k : Str) (v : V) (m : Map V) → Distinct (keys m) → Distinct (keys (insert k v m))
  unfolding insert elem
  insert-Distinct k v [] d = (refl, tt)
  insert-Distinct k v ((i, w) ∷ m) d = elim (Bool-cases (str_eq i k)) [
    | inl e ↦ rw (e, insert) (subst (λ j. elem j (keys m) ≡ false) (str_eq→eq i k e) d.0, d.1)
    | inr e ↦
        rw (e, insert)
          (
            ground (arith, elem-keys-insert i k v m, str_eq_iff k i, str_eq_iff i k, d.0, e),
            insert-Distinct k v m d.1,
          )
  ]

  pub delete-Distinct : (k : Str) (m : Map V) → Distinct (keys m) → Distinct (keys (delete k m))
  unfolding delete
  delete-Distinct k [] d = tt
  delete-Distinct k ((i, w) ∷ m) d = elim (Bool-cases (str_eq i k)) [
    | inl e ↦ rw (e, delete) (delete-Distinct k m d.1)
    | inr e ↦ rw (e, delete) (elem-keys-delete i k m d.0, delete-Distinct k m d.1)
  ]

  -- Writing to a key that is there changes the size of no map.
  pub length-insert :
      (k : Str) (v : V) (m : Map V) → elem k (keys m) ≡ true → length (insert k v m) ≡ length m
  unfolding insert elem
  length-insert k v [] h = cc
  length-insert k v ((i, w) ∷ m) h = ground (arith, length-insert k v m)

  pub lookup_present : (k : Str) (m : Map V) {v : V} → lookup k m ≡ some v → elem k (keys m) ≡ true
  lookup_present k m {v} h = elim (Bool-cases (elem k (keys m))) [
    | inl e ↦ e
    | inr e ↦ cc (h, lookup_absent k m e)
  ]
