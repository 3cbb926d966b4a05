-- ===== src/Raster/Tests.antt =====
-- Runs of a set of tiles of internal/adapters/raster/tileset.go with room for one open tile.
use ortus.Common.{◌≡◌, refl, false, none, List, [], ◌∷◌, length, ◌⊎◌, ◌≤◌, ◌+◌, ◌==◌}
use ortus.Common.Int.{pos, negsuc}
use ortus.Common.Sort.{All}
use ortus.Raster.Tileset.{
  Key, key_eq, by_key, unpin, evict, evict_locked, push_tile, acquire, release, close, new_tileset,
  Tileset, Step, acquires, releases, step, run, readers_of, leave,
}
use ortus.Raster.Tileset.Evict.{is_in}
use ortus.Raster.Tileset.Open.{run-new_tileset-open, acquire_bound}

abbrev alps : Key
alps = (pos 47, pos 11)

abbrev andes : Key
andes = (negsuc 32, negsuc 70)

-- Two readers, of two cells: the second tile is opened while the first is read.
abbrev steps : List Step
steps = acquires none alps ∷ acquires none andes ∷ []

both_open : (run steps (new_tileset (pos 1), [])).1 ≡ (andes, 1) ∷ (alps, 0) ∷ []
unfolding run step acquire push_tile evict_locked evict new_tileset by_key key_eq
both_open = refl

-- The first reader is done, and a third acquire closes its tile.
closed_later :
    (run
      (acquires none alps ∷ releases alps ∷ acquires none andes ∷ [])
      (new_tileset (pos 1), [])).0.closed
    ≡ 0 ∷ []
unfolding run step acquire release unpin readers_of leave push_tile evict_locked evict new_tileset
    by_key key_eq
closed_later = refl

-- Closing the set closes the tiles that are read, too.
close_closes : (close (run steps (new_tileset (pos 1), [])).0).closed ≡ 1 ∷ 0 ∷ []
unfolding run step acquire push_tile evict_locked evict new_tileset by_key key_eq close
close_closes = refl

run-new_tileset-open_example :
    let q = run steps (new_tileset (pos 1), []) in
    All (λ r. is_in r.1 q.0.closed ≡ false) q.1 × (q.0.opened ≡ length q.0.ll + length q.0.closed)
run-new_tileset-open_example = run-new_tileset-open (pos 1) steps

abbrev crowded : Tileset
crowded = record {
  cap = 1;
  ll = record { key = alps; tile = 0; refs = 0 } ∷ [];
  opened = 1;
  closed = [];
}

acquire_bound_example :
    let after = (acquire none andes crowded).1 in
    (length after.ll ≤ after.cap) ⊎ All (λ e. (e.refs == 0) ≡ false) after.ll
unfolding by_key key_eq
acquire_bound_example = acquire_bound andes crowded refl
