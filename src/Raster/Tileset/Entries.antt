-- ===== src/Raster/Tileset/Entries.antt =====
-- The entries of internal/adapters/raster/tileset.go by their keys.
use mathlib.Core.Option.{some-injective}
use ortus.Common.{
  ℕ, suc, ◌-◌, ◌≡◌, refl, sym, ap, ap₂, ◌∙◌, subst, ◌↔◌, true, false, Option, none, some, List, [],
  ◌∷◌, length, arith, if_cases, Bool-cases, inl, inr,
}
use ortus.Common.Sort.{All, All-Unit}
use ortus.Domain.Coordinates.{eq_ℤ→eq, eq_ℤ_refl}
use ortus.Raster.Tileset.{Key, key_eq, LruEntry, by_key, remove, unpin}
use ortus.Raster.Tileset.Evict.{Differs, Apart}

pub key_eq_iff : (a b : Key) → (key_eq a b ≡ true) ↔ (a ≡ b)
unfolding key_eq
key_eq_iff a b = (
  λ h.
      ap₂ (λ x y. (x, y)) (eq_ℤ→eq a.0 b.0 (ground (arith, h)))
        (eq_ℤ→eq a.1 b.1 (ground (arith, h))),
  λ e. subst (λ b. key_eq a b ≡ true) e (rw (eq_ℤ_refl a.0, eq_ℤ_refl a.1) refl),
)

-- The tile of the entry of a key.
unfoldable pub tile_of : Key → List LruEntry → Option ℕ
tile_of k ll = elim (by_key k ll) [ none ↦ none | some e ↦ some e.tile ]

pub remove-All :
    (P : LruEntry → Type 0) (k : Key) (ll : List LruEntry) → All P ll → All P (remove k ll)
unfolding remove
remove-All P k [] h = tt
remove-All P k (x ∷ ll) h =
    if_cases (All P) (key_eq x.key k) (λ here. h.1) (λ there. (h.0, remove-All P k ll h.1))

pub unpin-All :
    (P : LruEntry → Type 0) (k : Key) (ll : List LruEntry)
    → ((e : LruEntry) → P e → P (record e { refs = e.refs - 1 }))
    → All P ll
    → All P (unpin k ll)
unfolding unpin
unpin-All P k [] f h = tt
unpin-All P k (x ∷ ll) f h =
    if_cases (All P) (key_eq x.key k) (λ here. (f x h.0, h.1))
      (λ there. (h.0, unpin-All P k ll f h.1))

-- What holds of all entries holds of the one that is found, whose key is the one looked for.
pub by_key-All :
    (P : LruEntry → Type 0) (k : Key) (ll : List LruEntry) (e : LruEntry)
    → by_key k ll ≡ some e
    → All P ll
    → P e × (e.key ≡ k)
unfolding by_key
by_key-All P k [] e h p = cc
by_key-All P k (x ∷ ll) e h p =
    if_cases (λ o. o ≡ some e → P e × (e.key ≡ k)) (key_eq x.key k)
      (λ here same.
        let is = some-injective x e same in
        (subst P is p.0, ap (λ x. x.key) (sym is) ∙ (key_eq_iff x.key k).0 here))
      (λ there found. by_key-All P k ll e found p.1) h

pub by_key-none :
    (k : Key) (ll : List LruEntry) → by_key k ll ≡ none → All (λ x. key_eq x.key k ≡ false) ll
unfolding by_key
by_key-none k [] h = tt
by_key-none k (x ∷ ll) h =
    if_cases (λ o. o ≡ none → All (λ x. key_eq x.key k ≡ false) (x ∷ ll)) (key_eq x.key k)
      (λ here found. cc) (λ there absent. (there, by_key-none k ll absent)) h

Differs-sym : (a b : LruEntry) → Differs a b → Differs b a
Differs-sym a b (k, t) =
    (ground (arith, k, key_eq_iff a.key b.key, key_eq_iff b.key a.key), ground (arith, t))

-- The others differ from the entry that is found.
pub remove-Differs :
    (k : Key) (ll : List LruEntry) (e : LruEntry)
    → by_key k ll ≡ some e
    → Apart ll
    → All (Differs e) (remove k ll)
unfolding by_key remove
remove-Differs k [] e h a = cc
remove-Differs k (x ∷ ll) e h a = elim (Bool-cases (key_eq x.key k)) [
  | inl here ↦
      let is = some-injective x e (sym (rw (here, by_key) refl) ∙ h) in
      rw (here, remove) (subst (λ e. All (Differs e) ll) is a.0)
  | inr there ↦
      let found = sym (rw (there, by_key) refl) ∙ h in
      rw (there, remove)
        (
          Differs-sym x e (by_key-All (Differs x) k ll e found a.0).0,
          remove-Differs k ll e found a.1,
        )
]

pub remove-Apart : (k : Key) (ll : List LruEntry) → Apart ll → Apart (remove k ll)
unfolding remove
remove-Apart k [] a = tt
remove-Apart k (x ∷ ll) a =
    if_cases Apart (key_eq x.key k) (λ here. a.1)
      (λ there. (remove-All (Differs x) k ll a.0, remove-Apart k ll a.1))

pub unpin-Apart : (k : Key) (ll : List LruEntry) → Apart ll → Apart (unpin k ll)
unfolding unpin
unpin-Apart k [] a = tt
unpin-Apart k (x ∷ ll) a =
    if_cases Apart (key_eq x.key k) (λ here. a)
      (λ there. (unpin-All (Differs x) k ll (λ e d. d) a.0, unpin-Apart k ll a.1))

pub key_of : (k : Key) (ll : List LruEntry) (e : LruEntry) → by_key k ll ≡ some e → e.key ≡ k
key_of k ll e h = (by_key-All (λ x. Unit) k ll e h (All-Unit ll)).1

pub tile_of_found :
    (k : Key) (ll : List LruEntry) (e : LruEntry)
    → by_key k ll ≡ some e
    → tile_of k ll ≡ some e.tile
unfolding tile_of
tile_of_found k ll e h = rw (h, tile_of) refl

-- Releasing a tile, or moving its entry to the front, changes the tile of no key.
pub tile_of-unpin : (j k : Key) (ll : List LruEntry) → tile_of j (unpin k ll) ≡ tile_of j ll
unfolding tile_of by_key unpin
tile_of-unpin j k [] = refl
tile_of-unpin j k (x ∷ ll) = ground (arith, tile_of-unpin j k ll)

tile_of-remove :
    (j k : Key) (ll : List LruEntry) → key_eq k j ≡ false → tile_of j (remove k ll) ≡ tile_of j ll
unfolding tile_of by_key remove
tile_of-remove j k [] d = refl
tile_of-remove j k (x ∷ ll) d =
    ground
      (arith, d, tile_of-remove j k ll d, key_eq_iff x.key k, key_eq_iff x.key j, key_eq_iff k j)

pub tile_of_front :
    (j k : Key) (ll : List LruEntry) (e : LruEntry)
    → by_key k ll ≡ some e
    → tile_of j (record e { refs = suc e.refs } ∷ remove k ll) ≡ tile_of j ll
unfolding tile_of by_key
tile_of_front j k ll e h = elim (Bool-cases (key_eq e.key j)) [
  | inl here ↦
      let same = sym ((key_eq_iff e.key j).0 here) ∙ key_of k ll e h in
      rw (here, tile_of, by_key) (sym (ap (λ j. tile_of j ll) same ∙ tile_of_found k ll e h))
  | inr there ↦
      rw (there, tile_of, by_key)
        (tile_of-remove j k ll (subst (λ k. key_eq k j ≡ false) (key_of k ll e h) there))
]

pub tile_of_head :
    (k : Key) (e : LruEntry) (ll : List LruEntry) → e.key ≡ k → tile_of k (e ∷ ll) ≡ some e.tile
unfolding tile_of by_key
tile_of_head k e ll same = ground (arith, key_eq_iff e.key k, same)

pub length-unpin : (k : Key) (ll : List LruEntry) → length (unpin k ll) ≡ length ll
unfolding unpin
length-unpin k [] = refl
length-unpin k (x ∷ ll) = ground (arith, length-unpin k ll)

pub length-remove :
    (k : Key) (ll : List LruEntry) (e : LruEntry)
    → by_key k ll ≡ some e
    → suc (length (remove k ll)) ≡ length ll
unfolding by_key remove
length-remove k [] e h = cc
length-remove k (x ∷ ll) e h = ground (arith, h, length-remove k ll e)
