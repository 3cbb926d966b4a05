-- ===== src/Registry/Sync.antt =====
-- `LoadAll` and `Sync` of internal/application/registry.go.
use ortus.Common.{ℕ, ◌+◌, true, not, Option, none, some, List, [], ◌∷◌, Str, str_eq, if◌then◌else◌}
use ortus.Common.Maps.{Map, lookup, insert}
use ortus.Domain.Errors.{Error, Result, ok, err}
use ortus.Domain.Paths.{derive_source_id, safe_local_path}
use ortus.Registry.Types.{Environment, SourceEntry, SourceRegistry, SyncStats}
use ortus.Registry.Load.{load_source, unload_source, is_loaded, path_of}

-- `remoteSources[sourceID] = obj.Key`
unfoldable pub remote_sources : List Str → Map Str → Map Str
remote_sources [] m = m
remote_sources (key ∷ keys) m = remote_sources keys (insert (derive_source_id key) key m)

module _ {W : Type 0} where
  unfoldable pub find_sources_to_remove : Map Str → Map (SourceEntry W) → List (Str × Str)
  find_sources_to_remove remote [] = []
  find_sources_to_remove remote ((id, e) ∷ m) =
      let rest = find_sources_to_remove remote m in
      elim (lookup id remote) [
        | some _ ↦ rest
        | none ↦ (id, elim (path_of e) [ none ↦ [] | some path ↦ path ]) ∷ rest
      ]

module _ {W : Type 0} (env : Environment W) where
  -- One object: its path, its download, its load.
  unfoldable pub fetch : Str → SourceRegistry W → Option Error × SourceRegistry W
  fetch key r = elim (safe_local_path r.local_path key) [
    | err e ↦ (some e, r)
    | ok path ↦
        (let (failed, w) = env.download key path r.world in
          elim failed [
            | some e ↦ (some e, record r { world = w })
            | none ↦ load_source env path (record r { world = w })
          ])
  ]

  -- The loop of `LoadAll`, with its `loaded` and `failed`.
  unfoldable pub load_objects : List Str → ℕ → ℕ → SourceRegistry W → ℕ × ℕ × SourceRegistry W
  load_objects [] loaded failed r = (loaded, failed, r)
  load_objects (key ∷ keys) loaded failed r =
      let (e, r') = fetch key r in
      load_objects keys (elim e [ none ↦ loaded + 1 | some _ ↦ loaded ])
        (elim e [ none ↦ failed | some _ ↦ failed + 1 ]) r'

  unfoldable pub load_all : SourceRegistry W → Option Error × SourceRegistry W
  load_all r =
      let (listed, w) = env.list_objects r.world in
      elim listed [
        | err e ↦ (some e, record r { world = w })
        | ok objects ↦
            (let (loaded, failed, r') = load_objects objects 0 0 (record r { world = w }) in
              (none, record r' { failed_count = failed; initial_load_done = true }))
      ]

  unfoldable pub sync_add_new : Map Str → ℕ → SourceRegistry W → ℕ × SourceRegistry W
  sync_add_new [] added r = (added, r)
  sync_add_new ((id, key) ∷ m) added r =
      let (e, r') = fetch key r in
      let loaded = is_loaded id r in
      sync_add_new m (if loaded then added else (elim e [ none ↦ added + 1 | some _ ↦ added ]))
        (if loaded then r else r')

  unfoldable pub remove_sources : List (Str × Str) → ℕ → SourceRegistry W → ℕ × SourceRegistry W
  remove_sources [] removed r = (removed, r)
  remove_sources ((id, path) ∷ l) removed r =
      let (e, r') = unload_source id r in
      let gone = record r' {
        world = if not (str_eq path []) then env.remove_file path r'.world else r'.world;
      } in
      remove_sources l (elim e [ none ↦ removed + 1 | some _ ↦ removed ])
        (elim e [ none ↦ gone | some _ ↦ r' ])

  -- `Sync` from the listed objects on.
  unfoldable pub sync_with : List Str → SourceRegistry W → Result SyncStats × SourceRegistry W
  sync_with objects r =
      let remote = remote_sources objects [] in
      let (added, r1) = sync_add_new remote 0 r in
      let (removed, r2) = remove_sources (find_sources_to_remove remote r1.sources) 0 r1 in
      (ok (record { added = added; removed = removed }), r2)

  unfoldable pub sync : SourceRegistry W → Result SyncStats × SourceRegistry W
  sync r =
      let (listed, w) = env.list_objects r.world in
      elim listed [
        | err e ↦ (err e, record r { world = w })
        | ok objects ↦ sync_with objects (record r { world = w })
      ]
