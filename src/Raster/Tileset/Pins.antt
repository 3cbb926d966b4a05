-- ===== src/Raster/Tileset/Pins.antt =====
-- The invariant of internal/adapters/raster/tileset.go: a tile that is read stays open.
use ortus.Common.{
  ℕ, suc, ◌+◌, ◌<◌, ◌≤◌, ◌≡◌, refl, sym, ap, ◌∙◌, subst, false, none, some, List, [], ◌∷◌, ◌++◌,
  ◌==◌, arith, Option-cases, inl, inr, length, length-append,
}
use ortus.Common.Sort.{All}
use ortus.Raster.Tileset.{
  Key, key_eq, LruEntry, by_key, remove, unpin, Readers, readers_of, leave, Tileset, evict,
  evict_locked, release,
}
use ortus.Raster.Tileset.Evict.{
  Differs, Apart, is_in, All-map, evict-All, evict-Apart, evict_kept, evict_others, evict_pinned,
  length-evict, is_in-append,
}
use ortus.Raster.Tileset.Entries.{
  key_eq_iff, tile_of, tile_of_front, tile_of_found, tile_of_head, length-unpin, length-remove,
  tile_of-unpin, by_key-All, by_key-none, remove-All, remove-Apart, remove-Differs, unpin-All,
  unpin-Apart,
}
use ortus.Raster.Tileset.Readers.{
  Counts, Holds, Counts-remove, Counts-push, Counts-unpin, leave-All, reader_counted,
}

-- The tile was opened, and is not closed.
abbrev pub IsOpen : ℕ → List ℕ → LruEntry → Type 0
IsOpen opened closed e = (e.tile < opened) × (is_in e.tile closed ≡ false)

pub record IsSound (t : Tileset) (readers : Readers) : Type 0 where
  pub counted : All (Counts readers) t.ll
  pub apart : Apart t.ll
  pub open_tiles : All (IsOpen t.opened t.closed) t.ll
  pub past : (h : ℕ) → t.opened ≤ h → is_in h t.closed ≡ false
  pub held : All (Holds t.ll) readers
  pub balance : t.opened ≡ length t.ll + length t.closed

Holds-same :
    (l m : List LruEntry) (readers : Readers)
    → ((k : Key) → tile_of k m ≡ tile_of k l)
    → All (Holds l) readers
    → All (Holds m) readers
Holds-same l m [] same h = tt
Holds-same l m (r ∷ rs) same h = (same r.0 ∙ h.0, Holds-same l m rs same h.1)

pub pin-IsSound :
    (key : Key) (t : Tileset) (readers : Readers) (e : LruEntry)
    → by_key key t.ll ≡ some e
    → IsSound t readers
    → IsSound
        (record t { ll = record e { refs = suc e.refs } ∷ remove key t.ll })
        ((key, e.tile) ∷ readers)
pin-IsSound key t readers e found s =
    let fresh = by_key-All (IsOpen t.opened t.closed) key t.ll e found s.open_tiles in
    record {
      counted = Counts-remove key readers t.ll e found s.apart s.counted;
      apart = (remove-Differs key t.ll e found s.apart, remove-Apart key t.ll s.apart);
      open_tiles = (fresh.0, remove-All (IsOpen t.opened t.closed) key t.ll s.open_tiles);
      past = s.past;
      held = (
        tile_of_front key key t.ll e found ∙ tile_of_found key t.ll e found,
        Holds-same t.ll _ readers (λ j. tile_of_front j key t.ll e found) s.held,
      );
      balance = omega (arith, s.balance, length-remove key t.ll e found);
    }

pub release-IsSound :
    (key : Key) (t : Tileset) (readers : Readers)
    → IsSound t readers
    → IsSound (release key t) (leave key readers)
unfolding release
release-IsSound key t readers s = record {
  counted = Counts-unpin key readers t.ll s.apart s.counted;
  apart = unpin-Apart key t.ll s.apart;
  open_tiles = unpin-All (IsOpen t.opened t.closed) key t.ll (λ e h. h) s.open_tiles;
  past = s.past;
  held =
      Holds-same t.ll (unpin key t.ll) (leave key readers) (λ j. tile_of-unpin j key t.ll)
        (leave-All (Holds t.ll) key readers s.held);
  balance = omega (arith, s.balance, length-unpin key t.ll);
}

-- The state before the eviction, with the new tile in front.
abbrev pub pushed : Key → Tileset → Tileset
pushed key t = record t {
  ll = record { key = key; tile = t.opened; refs = 1 } ∷ t.ll;
  opened = suc t.opened;
}

new_tiles :
    (key : Key) (opened : ℕ) (closed : List ℕ) (ll : List LruEntry)
    → All (λ x. key_eq x.key key ≡ false) ll
    → All (IsOpen opened closed) ll
    → All (Differs (record { key = key; tile = opened; refs = 1 })) ll
new_tiles key opened closed [] d h = tt
new_tiles key opened closed (x ∷ ll) d h =
    ((d.0, ground (arith, h.0.0)), new_tiles key opened closed ll d.1 h.1)

tile_of-pushed :
    (key : Key) (tile : ℕ) (ll : List LruEntry) (readers : Readers)
    → by_key key ll ≡ none
    → All (Holds ll) readers
    → All (Holds (record { key = key; tile = tile; refs = 1 } ∷ ll)) readers
unfolding tile_of by_key
tile_of-pushed key tile ll [] absent h = tt
tile_of-pushed key tile ll (r ∷ rs) absent h =
    (ground (arith, h.0, key_eq_iff key r.0, absent), tile_of-pushed key tile ll rs absent h.1)

pub pushed-IsSound :
    (key : Key) (t : Tileset) (readers : Readers)
    → by_key key t.ll ≡ none
    → IsSound t readers
    → IsSound (pushed key t) ((key, t.opened) ∷ readers)
pushed-IsSound key t readers absent s = record {
  counted = Counts-push key t.opened readers t.ll absent s.held s.counted;
  apart =
      (new_tiles key t.opened t.closed t.ll (by_key-none key t.ll absent) s.open_tiles, s.apart);
  open_tiles = (
    (omega arith, s.past t.opened (omega arith)),
    All-map (IsOpen t.opened t.closed) (IsOpen (suc t.opened) t.closed) t.ll
        (λ e h. (omega (arith, h.0), h.1)) s.open_tiles,
  );
  past = λ h k. s.past h (omega (arith, k));
  held = (tile_of_head key _ t.ll refl, tile_of-pushed key t.opened t.ll readers absent s.held);
  balance = omega (arith, s.balance);
}

-- Every reader is counted at its cell.
all_counted : (readers : Readers) → All (λ r. (readers_of r.0 readers == 0) ≡ false) readers
unfolding readers_of
all_counted [] = tt
all_counted (r ∷ rs) = (
  reader_counted r r.0 rs refl,
  All-map (λ x. (readers_of x.0 rs == 0) ≡ false) (λ x. (readers_of x.0 (r ∷ rs) == 0) ≡ false) rs
      (λ x h. ground (arith, h)) (all_counted rs),
)

-- The eviction keeps the tiles of the readers.
evict-Holds :
    (cap : ℕ) (ll : List LruEntry) (readers some_readers : Readers)
    → All (Counts readers) ll
    → All (λ r. (readers_of r.0 readers == 0) ≡ false) some_readers
    → All (Holds ll) some_readers
    → All (Holds (evict cap 0 ll).0) some_readers
unfolding tile_of
evict-Holds cap ll readers [] counts counted h = tt
evict-Holds cap ll readers (r ∷ rs) counts counted h = (
  elim (Option-cases (by_key r.0 ll)) [
    | inl absent ↦
        let none_found : tile_of r.0 ll ≡ none = rw (absent, tile_of) refl in cc (h.0, none_found)
    | inr (e, found) ↦
        let (count, same) = by_key-All (Counts readers) r.0 ll e found counts in
        let pinned : (e.refs == 0) ≡ false =
          subst (λ n. (n == 0) ≡ false) (sym (count ∙ ap (λ k. readers_of k readers) same))
            counted.0 in
        tile_of_found r.0 _ e (evict_pinned cap 0 r.0 ll e found pinned)
        ∙ (sym (tile_of_found r.0 ll e found) ∙ h.0)
  ],
  evict-Holds cap ll readers rs counts counted.1 h.1,
)

IsOpen-append :
    (opened : ℕ) (closed more : List ℕ) (ll : List LruEntry)
    → All (IsOpen opened closed) ll
    → All (λ e. is_in e.tile more ≡ false) ll
    → All (IsOpen opened (closed ++ more)) ll
IsOpen-append opened closed more [] h k = tt
IsOpen-append opened closed more (e ∷ ll) h k = (
  (h.0.0, ground (arith, h.0.1, k.0, is_in-append e.tile closed more)),
  IsOpen-append opened closed more ll h.1 k.1,
)

pub evict_locked-IsSound :
    (t : Tileset) (readers : Readers) → IsSound t readers → IsSound (evict_locked t) readers
unfolding evict_locked
evict_locked-IsSound t readers s = record {
  counted = evict-All (Counts readers) t.cap 0 t.ll s.counted;
  apart = evict-Apart t.cap 0 t.ll s.apart;
  open_tiles =
      IsOpen-append t.opened t.closed (evict t.cap 0 t.ll).1 (evict t.cap 0 t.ll).0
        (evict-All (IsOpen t.opened t.closed) t.cap 0 t.ll s.open_tiles)
        (evict_kept t.cap 0 t.ll s.apart);
  past = λ h k. ground (
    arith,
    is_in-append h t.closed (evict t.cap 0 t.ll).1,
    s.past h k,
    evict_others h t.cap 0 t.ll (
        All-map (IsOpen t.opened t.closed) (λ e. (e.tile == h) ≡ false) t.ll
          (λ e o. ground (arith, o.0, k)) s.open_tiles),
  );
  held = evict-Holds t.cap t.ll readers readers s.counted (all_counted readers) s.held;
  balance =
      omega (
        arith,
        s.balance,
        length-evict t.cap 0 t.ll,
        length-append t.closed (evict t.cap 0 t.ll).1,
      );
}
