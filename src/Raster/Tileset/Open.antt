-- ===== src/Raster/Tileset/Open.antt =====
-- Runs of the operations of internal/adapters/raster/tileset.go.
use mathlib.Core.Option.{some-injective}
use ortus.Common.{
  ℕ, ◌+◌, ◌≤◌, ◌≡◌, refl, sym, ◌∙◌, subst, ◌⊎◌, false, Option, none, List, [], ◌∷◌, ◌==◌, arith,
  if_cases, option_cases, Option-cases, inl, inr, length,
}
use ortus.Common.Int.{ℤ}
use ortus.Common.Sort.{All}
use ortus.Domain.Errors.{Error, Result, ok, err}
use ortus.Raster.Tileset.{
  Key, by_key, Readers, readers_of, Tileset, new_tileset, evict_locked, push_tile, acquire, Step,
  acquires, releases, step, run,
}
use ortus.Raster.Tileset.Evict.{is_in, evict_bound}
use ortus.Raster.Tileset.Entries.{tile_of, tile_of_found, by_key-All}
use ortus.Raster.Tileset.Readers.{Holds}
use ortus.Raster.Tileset.Pins.{
  IsOpen, IsSound, pushed, pin-IsSound, release-IsSound, pushed-IsSound, evict_locked-IsSound,
}

acquire-IsSound :
    (failure : Option Error) (key : Key) (t : Tileset) (readers : Readers)
    → IsSound t readers
    → let q = step (acquires failure key) (t, readers) in IsSound q.0 q.1
unfolding step acquire push_tile
acquire-IsSound failure key t readers s =
    let After = λ (a : Result ℕ × Tileset).
      IsSound a.1 (elim a.0 [ err e ↦ readers | ok tile ↦ (key, tile) ∷ readers ]) in
    option_cases After (by_key key t.ll)
      (λ absent.
        option_cases After failure
          (λ works.
            evict_locked-IsSound (pushed key t) ((key, t.opened) ∷ readers)
              (pushed-IsSound key t readers absent s))
          (λ e fails. s))
      (λ e found. pin-IsSound key t readers e found s)

step-IsSound :
    (s : Step) (q : Tileset × Readers) → IsSound q.0 q.1 → IsSound (step s q).0 (step s q).1
unfolding step
step-IsSound (acquires failure key) (t, readers) h = acquire-IsSound failure key t readers h
step-IsSound (releases key) (t, readers) h =
    if_cases (λ (q : Tileset × Readers). IsSound q.0 q.1) (readers_of key readers == 0) (λ idle. h)
      (λ busy. release-IsSound key t readers h)

run-IsSound :
    (steps : List Step) (q : Tileset × Readers)
    → IsSound q.0 q.1
    → IsSound (run steps q).0 (run steps q).1
unfolding run
run-IsSound [] q h = h
run-IsSound (s ∷ steps) q h = run-IsSound steps (step s q) (step-IsSound s q h)

new_tileset-IsSound : (cache_size : ℤ) → IsSound (new_tileset cache_size) []
unfolding new_tileset
new_tileset-IsSound cache_size = record {
  counted = tt;
  apart = tt;
  open_tiles = tt;
  past = λ h k. refl;
  held = tt;
  balance = refl;
}

held_open :
    (t : Tileset) (readers : Readers)
    → All (IsOpen t.opened t.closed) t.ll
    → All (Holds t.ll) readers
    → All (λ r. is_in r.1 t.closed ≡ false) readers
unfolding tile_of
held_open t [] open_tiles h = tt
held_open t (r ∷ rs) open_tiles h = (
  elim (Option-cases (by_key r.0 t.ll)) [
    | inl absent ↦
        let none_found : tile_of r.0 t.ll ≡ none = rw (absent, tile_of) refl in cc (h.0, none_found)
    | inr (e, found) ↦
        let is = some-injective e.tile r.1 (sym (tile_of_found r.0 t.ll e found) ∙ h.0) in
        subst (λ tile. is_in tile t.closed ≡ false) is
          (by_key-All (IsOpen t.opened t.closed) r.0 t.ll e found open_tiles).0.1
  ],
  held_open t rs open_tiles h.1,
)

-- After any calls of acquire and release on a new tile set, the tile of every reader that has not
-- released it is open, and every file handle that was opened is either that of an entry or closed.
pub run-new_tileset-open :
    (cache_size : ℤ) (steps : List Step)
    → let q = run steps (new_tileset cache_size, []) in
      All (λ r. is_in r.1 q.0.closed ≡ false) q.1 × (q.0.opened ≡ length q.0.ll + length q.0.closed)
run-new_tileset-open cache_size steps =
    let s = run-IsSound steps (new_tileset cache_size, []) (new_tileset-IsSound cache_size) in
    let q = run steps (new_tileset cache_size, []) in
    (held_open q.0 q.1 s.open_tiles s.held, s.balance)

-- An acquire that opens a tile leaves at most as many entries as the cap, or each entry that it
-- leaves has a reader.
pub acquire_bound :
    (key : Key) (t : Tileset)
    → by_key key t.ll ≡ none
    → let after = (acquire none key t).1 in
      (length after.ll ≤ after.cap) ⊎ All (λ e. (e.refs == 0) ≡ false) after.ll
unfolding acquire push_tile evict_locked
acquire_bound key t absent =
    rw (absent, acquire)
      (elim (evict_bound t.cap 0 (pushed key t).ll) [
        | inl few ↦ inl (omega (arith, few))
        | inr busy ↦ inr busy
      ])
