-- ===== src/Raster/Tileset/Readers.antt =====
-- The readers of the tiles of internal/adapters/raster/tileset.go, and how many each entry counts.
use ortus.Common.{
  ℕ, suc, ◌-◌, ◌≡◌, refl, ap, subst, false, none, some, List, [], ◌∷◌, if◌then◌else◌, ◌==◌, arith,
  if_cases, Bool-cases, inl, inr,
}
use ortus.Common.Sort.{All}
use ortus.Raster.Tileset.{Key, key_eq, LruEntry, by_key, remove, unpin, Readers, readers_of, leave}
use ortus.Raster.Tileset.Evict.{Differs, Apart}
use ortus.Raster.Tileset.Entries.{
  key_eq_iff, tile_of, by_key-All, by_key-none, remove-All, remove-Differs,
}

-- The entry counts its readers.
abbrev pub Counts : Readers → LruEntry → Type 0
Counts readers e = e.refs ≡ readers_of e.key readers

-- The reader's tile is that of the entry of its cell.
abbrev pub Holds : List LruEntry → Key × ℕ → Type 0
Holds ll r = tile_of r.0 ll ≡ some r.1

-- Another reader of another key changes no count.
Counts-others :
    (key : Key) (tile : ℕ) (readers : Readers) (ll : List LruEntry)
    → All (λ x. key_eq x.key key ≡ false) ll
    → All (Counts readers) ll
    → All (Counts ((key, tile) ∷ readers)) ll
unfolding readers_of
Counts-others key tile readers [] d h = tt
Counts-others key tile readers (x ∷ ll) d h = (
  ground (arith, d.0, h.0, key_eq_iff x.key key, key_eq_iff key x.key),
  Counts-others key tile readers ll d.1 h.1,
)

differ_keys :
    (e : LruEntry) (key : Key) (ll : List LruEntry)
    → e.key ≡ key
    → All (Differs e) ll
    → All (λ x. key_eq x.key key ≡ false) ll
differ_keys e key [] same d = tt
differ_keys e key (x ∷ ll) same d =
    (subst (λ k. key_eq x.key k ≡ false) same d.0.0, differ_keys e key ll same d.1)

pub Counts-remove :
    (key : Key) (readers : Readers) (ll : List LruEntry) (e : LruEntry)
    → by_key key ll ≡ some e
    → Apart ll
    → All (Counts readers) ll
    → All (Counts ((key, e.tile) ∷ readers)) (record e { refs = suc e.refs } ∷ remove key ll)
unfolding readers_of
Counts-remove key readers ll e found apart h =
    let (counted, same) = by_key-All (Counts readers) key ll e found h in
    (
      ground (arith, counted, key_eq_iff key e.key, same),
      Counts-others key e.tile readers (remove key ll)
          (differ_keys e key (remove key ll) same (remove-Differs key ll e found apart))
          (remove-All (Counts readers) key ll h),
    )

-- A cell without an entry has no readers.
no_readers :
    (key : Key) (ll : List LruEntry) (readers : Readers)
    → tile_of key ll ≡ none
    → All (Holds ll) readers
    → readers_of key readers ≡ 0
unfolding readers_of
no_readers key ll [] absent h = refl
no_readers key ll (r ∷ rs) absent h = elim (Bool-cases (key_eq r.0 key)) [
  | inl same ↦ cc (h.0, absent, ap (λ k. tile_of k ll) ((key_eq_iff r.0 key).0 same))
  | inr other ↦ rw (other, readers_of) (no_readers key ll rs absent h.1)
]

pub Counts-push :
    (key : Key) (tile : ℕ) (readers : Readers) (ll : List LruEntry)
    → by_key key ll ≡ none
    → All (Holds ll) readers
    → All (Counts readers) ll
    → All (Counts ((key, tile) ∷ readers)) (record { key = key; tile = tile; refs = 1 } ∷ ll)
unfolding readers_of tile_of
Counts-push key tile readers ll absent held h = (
  ground (arith, key_eq_iff key key, no_readers key ll readers (rw (absent, tile_of) refl) held),
  Counts-others key tile readers ll (by_key-none key ll absent) h,
)

readers_of-leave :
    (j key : Key) (readers : Readers)
    → (if key_eq j key then readers_of j readers - 1 else readers_of j readers)
      ≡ readers_of j (leave key readers)
unfolding readers_of leave
readers_of-leave j key [] = ground arith
readers_of-leave j key (r ∷ rs) =
    ground
      (arith, readers_of-leave j key rs, key_eq_iff r.0 key, key_eq_iff r.0 j, key_eq_iff j key)

Counts-leave :
    (key : Key) (readers : Readers) (ll : List LruEntry)
    → All (λ x. key_eq x.key key ≡ false) ll
    → All (Counts readers) ll
    → All (Counts (leave key readers)) ll
Counts-leave key readers [] d h = tt
Counts-leave key readers (x ∷ ll) d h = (
  ground (arith, d.0, h.0, readers_of-leave x.key key readers),
  Counts-leave key readers ll d.1 h.1,
)

pub Counts-unpin :
    (key : Key) (readers : Readers) (ll : List LruEntry)
    → Apart ll
    → All (Counts readers) ll
    → All (Counts (leave key readers)) (unpin key ll)
unfolding unpin
Counts-unpin key readers [] apart h = tt
Counts-unpin key readers (x ∷ ll) apart h =
    if_cases (All (Counts (leave key readers))) (key_eq x.key key)
      (λ here. (
        ground (arith, here, h.0, readers_of-leave x.key key readers),
        Counts-leave key readers ll (differ_keys x key ll ((key_eq_iff x.key key).0 here) apart.0)
            h.1,
      ))
      (λ there. (
        ground (arith, there, h.0, readers_of-leave x.key key readers),
        Counts-unpin key readers ll apart.1 h.1,
      ))

pub leave-All :
    (P : Key × ℕ → Type 0) (key : Key) (readers : Readers)
    → All P readers
    → All P (leave key readers)
unfolding leave
leave-All P key [] h = tt
leave-All P key (r ∷ rs) h =
    if_cases (All P) (key_eq r.0 key) (λ here. h.1) (λ there. (h.0, leave-All P key rs h.1))

-- A reader is counted.
pub reader_counted :
    (r : Key × ℕ) (key : Key) (readers : Readers)
    → r.0 ≡ key
    → (readers_of key (r ∷ readers) == 0) ≡ false
unfolding readers_of
reader_counted r key readers same = ground (arith, key_eq_iff r.0 key, same)
