-- ===== src/Raster/Tileset.antt =====
-- The open tiles of a raster layer: internal/adapters/raster/tileset.go.
pub mod Entries
pub mod Evict
pub mod Open
pub mod Pins
pub mod Readers
use ortus.Common.{
  ℕ, zero, suc, ◌+◌, ◌-◌, Bool, true, false, not, ◌&&◌, Option, none, some, List, [], ◌∷◌, ◌++◌,
  map, Str, elem, length, if◌then◌else◌, ltb, ◌==◌,
}
use ortus.Common.Int.{ℤ, pos, ltb_ℤ, pos_part}
use ortus.Domain.Coordinates.{eq_ℤ}
use ortus.Domain.Errors.{Error, Result, ok, err}

-- The latitude and longitude of the corner of a cell.
abbrev pub Key : Type 0
Key = ℤ × ℤ

unfoldable pub key_eq : Key → Key → Bool
key_eq a b = eq_ℤ a.0 b.0 && eq_ℤ a.1 b.1

-- An open tile is the number of its file handle.
pub record LruEntry : Type 0 where
  pub key : Key
  pub tile : ℕ
  pub refs : ℕ

-- The open tiles of a set; where its files are and how samples are decoded is left out.
-- `ll` has the most recently used entry first. `byKey`, which has the element of each entry of `ll` at
-- its key and no others, is the search for the key in `ll`. The last two fields are the state of the
-- file handles: how many were opened, and which of them are closed.
pub record Tileset : Type 0 where
  pub cap : ℕ
  pub ll : List LruEntry
  pub opened : ℕ
  pub closed : List ℕ

abbrev pub default_tile_cache_size : ℕ
default_tile_cache_size = 64

-- `newTileset`, for a process that has opened no file yet.
unfoldable pub new_tileset : ℤ → Tileset
new_tileset cache_size = record {
  cap = if not (ltb_ℤ (pos 0) cache_size) then default_tile_cache_size else pos_part cache_size;
  ll = [];
  opened = 0;
  closed = [];
}

-- `byKey[key]`
unfoldable pub by_key : Key → List LruEntry → Option LruEntry
by_key key [] = none
by_key key (e ∷ ll) = if key_eq e.key key then some e else by_key key ll

unfoldable pub remove : Key → List LruEntry → List LruEntry
remove key [] = []
remove key (e ∷ ll) = if key_eq e.key key then ll else e ∷ remove key ll

-- `evictLocked` on the entries that have `front` more in front of them: it visits the oldest first.
-- The result has the entries that stay and the tiles that are closed.
unfoldable pub evict : ℕ → ℕ → List LruEntry → List LruEntry × List ℕ
evict cap front [] = ([], [])
evict cap front (e ∷ older) =
    let (kept, closed) = evict cap (suc front) older in
    if ltb cap (front + suc (length kept)) && (e.refs == 0)
    then (kept, closed ++ (e.tile ∷ []))
    else (e ∷ kept, closed)

unfoldable pub evict_locked : Tileset → Tileset
evict_locked t =
    let (kept, closed) = evict t.cap 0 t.ll in record t { ll = kept; closed = t.closed ++ closed }

-- What `acquire` does on a miss, with the new tile.
unfoldable pub push_tile : Key → Tileset → Tileset
push_tile key t = evict_locked (record t {
  ll = record { key = key; tile = t.opened; refs = 1 } ∷ t.ll;
  opened = suc t.opened;
})

-- `acquire`, which moves an entry that is there to the front and pins it. `failure` is the error of
-- `openTile`, if it fails: it then closes the file that it opened.
unfoldable pub acquire : Option Error → Key → Tileset → Result ℕ × Tileset
acquire failure key t = elim (by_key key t.ll) [
  | some e ↦ (ok e.tile, record t { ll = record e { refs = suc e.refs } ∷ remove key t.ll })
  | none ↦ elim failure [ some e ↦ (err e, t) | none ↦ (ok t.opened, push_tile key t) ]
]

-- `if e.refs > 0 { e.refs-- }`, for the entry of the key
unfoldable pub unpin : Key → List LruEntry → List LruEntry
unpin key [] = []
unpin key (e ∷ ll) =
    if key_eq e.key key then record e { refs = e.refs - 1 } ∷ ll else e ∷ unpin key ll

unfoldable pub release : Key → Tileset → Tileset
release key t = record t { ll = unpin key t.ll }

-- `close`
unfoldable pub close : Tileset → Tileset
close t = record t { ll = []; closed = t.closed ++ map (λ e. e.tile) t.ll }

-- The readers of a layer, each with the cell and the tile that `acquire` gave it, and what they do:
-- `queryTiled` acquires a tile, and releases it when it has read. A release is that of a reader of
-- the cell.
abbrev pub Readers : Type 0
Readers = List (Key × ℕ)

pub data Step : Type 0 where
  acquires : Option Error → Key → Step
  releases : Key → Step

unfoldable pub readers_of : Key → Readers → ℕ
readers_of key [] = 0
readers_of key (r ∷ rs) = if key_eq r.0 key then suc (readers_of key rs) else readers_of key rs

unfoldable pub leave : Key → Readers → Readers
leave key [] = []
leave key (r ∷ rs) = if key_eq r.0 key then rs else r ∷ leave key rs

unfoldable pub step : Step → Tileset × Readers → Tileset × Readers
step (acquires failure key) (t, readers) =
    let (answer, t') = acquire failure key t in
    (t', elim answer [ err e ↦ readers | ok tile ↦ (key, tile) ∷ readers ])
step (releases key) (t, readers) =
    if readers_of key readers == 0 then (t, readers) else (release key t, leave key readers)

unfoldable pub run : List Step → Tileset × Readers → Tileset × Readers
run [] q = q
run (s ∷ steps) q = run steps (step s q)
