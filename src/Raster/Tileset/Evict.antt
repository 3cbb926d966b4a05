-- ===== src/Raster/Tileset/Evict.antt =====
-- What an eviction keeps and closes: `evictLocked` of internal/adapters/raster/tileset.go.
use mathlib.Core.Option.{some-injective}
use ortus.Common.{
  sym, ap, ◌∙◌, ℕ, suc, ◌+◌, ◌≤◌, ◌≡◌, refl, ◌⊎◌, inl, inr, Bool, true, false, ◌&&◌, some, List, [],
  ◌∷◌, ◌++◌, length, length-append, if◌then◌else◌, if_cases, ltb, ◌==◌, arith, Bool-cases,
}
use ortus.Common.Sort.{All}
use ortus.Raster.Tileset.{Key, key_eq, LruEntry, by_key, evict}

abbrev pub is_in : ℕ → List ℕ → Bool
is_in h [] = false
is_in h (x ∷ xs) = if x == h then true else is_in h xs

is_in-snoc :
    (h x : ℕ) (xs : List ℕ) → is_in h (xs ++ (x ∷ [])) ≡ (if x == h then true else is_in h xs)
is_in-snoc h x [] = refl
is_in-snoc h x (y ∷ xs) = ground (arith, is_in-snoc h x xs)

-- Another key and another tile.
abbrev pub Differs : LruEntry → LruEntry → Type 0
Differs a b = (key_eq b.key a.key ≡ false) × ((b.tile == a.tile) ≡ false)

abbrev pub Apart : List LruEntry → Type 0
Apart [] = Unit
Apart (e ∷ ll) = All (Differs e) ll × Apart ll

abbrev Evicted : Type 0
Evicted = List LruEntry × List ℕ

-- Whether the eviction drops the entry: it is not read, and the entries are still too many.
abbrev drops : ℕ → ℕ → LruEntry → List LruEntry → Bool
drops limit front e older =
    ltb limit (front + suc (length (evict limit (suc front) older).0)) && (e.refs == 0)

pub evict-All :
    (P : LruEntry → Type 0) (limit front : ℕ) (ll : List LruEntry)
    → All P ll
    → All P (evict limit front ll).0
unfolding evict
evict-All P limit front [] h = tt
evict-All P limit front (e ∷ older) h =
    if_cases (λ (q : Evicted). All P q.0) (drops limit front e older)
      (λ drop. evict-All P limit (suc front) older h.1)
      (λ keep. (h.0, evict-All P limit (suc front) older h.1))

pub evict-Apart : (limit front : ℕ) (ll : List LruEntry) → Apart ll → Apart (evict limit front ll).0
unfolding evict
evict-Apart limit front [] h = tt
evict-Apart limit front (e ∷ older) h =
    if_cases (λ (q : Evicted). Apart q.0) (drops limit front e older)
      (λ drop. evict-Apart limit (suc front) older h.1)
      (λ keep. (
        evict-All (Differs e) limit (suc front) older h.0,
        evict-Apart limit (suc front) older h.1,
      ))

-- Only tiles of the entries are closed.
pub evict_others :
    (h limit front : ℕ) (ll : List LruEntry)
    → All (λ e. (e.tile == h) ≡ false) ll
    → is_in h (evict limit front ll).1 ≡ false
unfolding evict
evict_others h limit front [] k = refl
evict_others h limit front (e ∷ older) k =
    if_cases (λ (q : Evicted). is_in h q.1 ≡ false) (drops limit front e older)
      (λ drop. ground (
        arith,
        is_in-snoc h e.tile (evict limit (suc front) older).1,
        evict_others h limit (suc front) older k.1,
        k.0,
      ))
      (λ keep. evict_others h limit (suc front) older k.1)

pub All-map {ℓ} :
    {A : Type ℓ} (P Q : A → Type 0) (ll : List A) → ((e : A) → P e → Q e) → All P ll → All Q ll
All-map P Q [] f h = tt
All-map P Q (e ∷ ll) f h = (f e h.0, All-map P Q ll f h.1)

All-snoc :
    (e : LruEntry) (closed : List ℕ) (ll : List LruEntry)
    → All (Differs e) ll
    → All (λ x. is_in x.tile closed ≡ false) ll
    → All (λ x. is_in x.tile (closed ++ (e.tile ∷ [])) ≡ false) ll
All-snoc e closed [] d h = tt
All-snoc e closed (x ∷ ll) d h =
    (ground (arith, is_in-snoc x.tile e.tile closed, h.0, d.0.1), All-snoc e closed ll d.1 h.1)

-- The tile of an entry that stays is not closed.
pub evict_kept :
    (limit front : ℕ) (ll : List LruEntry)
    → Apart ll
    → All (λ e. is_in e.tile (evict limit front ll).1 ≡ false) (evict limit front ll).0
unfolding evict
evict_kept limit front [] h = tt
evict_kept limit front (e ∷ older) h =
    let q = evict limit (suc front) older in
    let rest = evict_kept limit (suc front) older h.1 in
    if_cases (λ (q : Evicted). All (λ e. is_in e.tile q.1 ≡ false) q.0) (drops limit front e older)
      (λ drop. All-snoc e q.1 q.0 (evict-All (Differs e) limit (suc front) older h.0) rest)
      (λ keep. (
        evict_others e.tile limit (suc front) older
            (All-map (Differs e) (λ x. (x.tile == e.tile) ≡ false) older (λ x d. d.1) h.0),
        rest,
      ))

unread : (x e : LruEntry) → x ≡ e → (e.refs == 0) ≡ false → (x.refs == 0) ≡ true → ⊥
unread x e same r s = cc (ap (λ x. x.refs == 0) same, r, s)

-- An entry that is read stays.
pub evict_pinned :
    (limit front : ℕ) (k : Key) (ll : List LruEntry) (e : LruEntry)
    → by_key k ll ≡ some e
    → (e.refs == 0) ≡ false
    → by_key k (evict limit front ll).0 ≡ some e
unfolding evict by_key
evict_pinned limit front k [] e h r = h
evict_pinned limit front k (x ∷ older) e h r =
    let rest = evict_pinned limit (suc front) k older e in
    if_cases (λ (q : Evicted). by_key k q.0 ≡ some e) (drops limit front x older)
      (λ drop. elim (Bool-cases (key_eq x.key k)) [
        | inl here ↦
            let same = some-injective x e (sym (rw (here, by_key) refl) ∙ h) in
            absurd (unread x e same r (ground (arith, drop)))
        | inr there ↦ rest (sym (rw (there, by_key) refl) ∙ h) r
      ])
      (λ keep. elim (Bool-cases (key_eq x.key k)) [
        | inl here ↦ rw (here, by_key) (sym (rw (here, by_key) refl) ∙ h)
        | inr there ↦ rw (there, by_key) (rest (sym (rw (there, by_key) refl) ∙ h) r)
      ])

-- After an eviction the entries are no more than the limit, or all of them are read.
pub evict_bound :
    (limit front : ℕ) (ll : List LruEntry)
    → (front + length (evict limit front ll).0 ≤ limit)
      ⊎ All (λ e. (e.refs == 0) ≡ false) (evict limit front ll).0
unfolding evict
evict_bound limit front [] = inr tt
evict_bound limit front (e ∷ older) =
    let rest = evict_bound limit (suc front) older in
    if_cases (λ (q : Evicted). (front + length q.0 ≤ limit) ⊎ All (λ e. (e.refs == 0) ≡ false) q.0)
      (drops limit front e older)
      (λ drop. elim rest [ inl few ↦ inl (omega (arith, few)) | inr busy ↦ inr busy ])
      (λ keep. elim (Bool-cases (e.refs == 0)) [
        | inl free ↦ inl (ground (arith, keep, free))
        | inr read ↦ elim rest [ inl few ↦ inl (omega (arith, few)) | inr busy ↦ inr (read, busy) ]
      ])

pub length-evict :
    (limit front : ℕ) (ll : List LruEntry)
    → length (evict limit front ll).0 + length (evict limit front ll).1 ≡ length ll
unfolding evict
length-evict limit front [] = refl
length-evict limit front (e ∷ older) =
    let (kept, closed) = evict limit (suc front) older in
    let rest = length-evict limit (suc front) older in
    if_cases (λ (q : Evicted). length q.0 + length q.1 ≡ suc (length older))
      (drops limit front e older) (λ drop. omega (arith, rest, length-append closed (e.tile ∷ [])))
      (λ keep. omega (arith, rest))

pub is_in-append :
    (h : ℕ) (xs ys : List ℕ) → is_in h (xs ++ ys) ≡ (if is_in h xs then true else is_in h ys)
is_in-append h [] ys = refl
is_in-append h (x ∷ xs) ys = ground (arith, is_in-append h xs ys)
