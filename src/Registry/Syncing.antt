-- ===== src/Registry/Syncing.antt =====
-- What `Sync` and `LoadAll` of internal/application/registry.go leave in the registry.
use ortus.Common.{
  ℕ, ◌≡◌, ◌≢◌, refl, sym, subst, ◌∙◌, true, false, none, List, [], ◌∷◌, map, Str, arith, str_eq,
  str_eq_iff, elem, option_cases, inl, inr, Bool-cases, Option-cases,
}
use ortus.Common.Maps.{Map, lookup, lookup-insert}
use ortus.Domain.Errors.{ok}
use ortus.Domain.Paths.{derive_source_id}
use ortus.Registry.Types.{Environment, SourceEntry, SourceRegistry}
use ortus.Registry.Load.{unload_source, is_loaded}
use ortus.Registry.Sync.{
  remote_sources, sync_add_new, find_sources_to_remove, remove_sources, sync, sync_with,
}
use ortus.Registry.Invariant.{IsValid, unload_source-IsValid, world-IsValid}
use ortus.Registry.Loading.{ClosesAlways, unload_source-Keeps}
use ortus.Registry.Outcome.{unload_source_closed}
use ortus.Registry.History.{sync_add_new-closed, IsValid-IsClosed}

remote_sources_absent :
    (k : Str) (keys : List Str) (m : Map Str)
    → lookup k m ≡ none
    → elem k (map derive_source_id keys) ≡ false
    → lookup k (remote_sources keys m) ≡ none
unfolding remote_sources elem
remote_sources_absent k [] m h absent = h
remote_sources_absent k (key ∷ keys) m h absent =
    remote_sources_absent k keys _
      (ground (arith, lookup-insert (derive_source_id key) k key m, h, absent))
      (ground (arith, absent))

module _ {W : Type 0} where
  abbrev Absent : Str → SourceRegistry W → Type 0
  Absent k r = lookup k r.sources ≡ none

  -- Every source that the storage has no object for is on the list.
  find_sources_to_remove_complete :
      (remote : Map Str) (k : Str) (m : Map (SourceEntry W))
      → lookup k remote ≡ none
      → lookup k m ≢ none
      → elem k (map (λ e. e.0) (find_sources_to_remove remote m)) ≡ true
  unfolding find_sources_to_remove lookup elem
  find_sources_to_remove_complete remote k [] absent h = absurd (h refl)
  find_sources_to_remove_complete remote k ((j, e) ∷ m) absent h = elim (Bool-cases (str_eq j k)) [
    | inl s ↦
        let here : lookup j remote ≡ none =
          subst (λ i. lookup i remote ≡ none) (sym ((str_eq_iff j k).0 s)) absent in
        option_cases (λ l. elem k (map (λ (q : Str × Str). q.0) l) ≡ true) (lookup j remote)
          (λ gone. rw (elem, s) refl) (λ key there. absurd (cc))
    | inr s ↦
        let rest : elem k (map (λ e. e.0) (find_sources_to_remove remote m)) ≡ true =
          find_sources_to_remove_complete remote k m absent (λ a. h (ground (arith, s, a))) in
        option_cases (λ l. elem k (map (λ (q : Str × Str). q.0) l) ≡ true) (lookup j remote)
          (λ gone. ground (arith, rest)) (λ key there. rest)
  ]

  is_loaded-Absent : (k : Str) (r : SourceRegistry W) → is_loaded k r ≡ false → Absent k r
  unfolding is_loaded sync lookup
  is_loaded-Absent k r h = ground (arith, h)

  unload_source_clears :
      (id : Str) (r : SourceRegistry W) → IsValid ClosesAlways r → Absent id (unload_source id r).1
  unfolding unload_source
  unload_source_clears id r v = elim (Option-cases (lookup id r.sources)) [
    | inl absent ↦ rw (unload_source, absent) absent
    | inr (e, h) ↦
        let entry = v.entries id e h in
        is_loaded-Absent id (unload_source id r).1
          (unload_source_closed id e entry.repo r h entry.has_repo (entry.law id r.world)).1
  ]

  unload_source-Absent :
      (id k : Str) (r : SourceRegistry W) → Absent k r → Absent k (unload_source id r).1
  unfolding unload_source
  unload_source-Absent id k r h = elim (Bool-cases (str_eq id k)) [
    | inl s ↦
        let here : lookup id r.sources ≡ none =
          subst (λ i. lookup i r.sources ≡ none) (sym ((str_eq_iff id k).0 s)) h in
        rw (unload_source, here) h
    | inr s ↦ unload_source-Keeps id k r s ∙ h
  ]

  module _ (env : Environment W) where
    remove_sources-Absent :
        (k : Str) (l : List (Str × Str)) (n : ℕ) (r : SourceRegistry W)
        → Absent k r
        → Absent k (remove_sources env l n r).1
    unfolding remove_sources
    remove_sources-Absent k [] n r h = h
    remove_sources-Absent k ((id, path) ∷ l) n r h =
        let h' = unload_source-Absent id k r h in
        remove_sources-Absent k l _ _
          (option_cases (Absent k) (unload_source id r).0 (λ closed. h') (λ e failed. h'))

    remove_sources_clears :
        (k : Str) (l : List (Str × Str)) (n : ℕ) (r : SourceRegistry W)
        → IsValid ClosesAlways r
        → elem k (map (λ e. e.0) l) ≡ true
        → Absent k (remove_sources env l n r).1
    unfolding remove_sources elem
    remove_sources_clears k [] n r v h = cc
    remove_sources_clears k ((id, path) ∷ l) n r v h =
        let v' = unload_source-IsValid ClosesAlways id r v in
        let cleared = unload_source_clears id r v in
        elim (Bool-cases (str_eq id k)) [
          | inl s ↦
              let here =
                subst (λ i. Absent i (unload_source id r).1) ((str_eq_iff id k).0 s) cleared in
              remove_sources-Absent k l _ _
                (option_cases (Absent k) (unload_source id r).0 (λ closed. here) (λ e failed. here))
          | inr s ↦
              remove_sources_clears k l _ _
                (option_cases (IsValid ClosesAlways) (unload_source id r).0
                  (λ closed. world-IsValid ClosesAlways _ (unload_source id r).1 v')
                  (λ e failed. v'))
                (ground (arith, s, h))
        ]

module _ {W : Type 0} (env : Environment W) where
  sync_clears :
      (r : SourceRegistry W) (objects : List Str) (k : Str)
      → IsValid ClosesAlways r
      → elem k (map derive_source_id objects) ≡ false
      → Absent k (sync_with env objects r).1
  unfolding sync_with lookup
  sync_clears r objects k v absent =
      let remote = remote_sources objects [] in
      let r1 = (sync_add_new env remote 0 r).1 in
      let v1 = sync_add_new-closed (IsValid-IsClosed env ClosesAlways) remote 0 r v in
      let gone = find_sources_to_remove remote r1.sources in
      elim (Option-cases (lookup k r1.sources)) [
        | inl not_loaded ↦ remove_sources-Absent env k gone 0 r1 not_loaded
        | inr (e, h) ↦ remove_sources_clears env k gone 0 r1 v1 (
            find_sources_to_remove_complete remote k r1.sources
              (remote_sources_absent k objects [] refl absent) (λ a. absurd (ground (arith, a, h))))
      ]

  -- With adapters that close what they opened, a sync with a storage that lists its objects leaves
  -- no source loaded whose id is not that of a listed object.
  pub sync_removes_others :
      (r : SourceRegistry W) (objects : List Str)
      → IsValid ClosesAlways r
      → (env.list_objects r.world).0 ≡ ok objects
      → (k : Str) → is_loaded k (sync env r).1 ≡ true
      → elem k (map derive_source_id objects) ≡ true
  unfolding is_loaded sync lookup
  sync_removes_others r objects v listed k loaded =
      elim (Bool-cases (elem k (map derive_source_id objects))) [
        | inl there ↦ there
        | inr absent ↦
            let r0 = record r { world = (env.list_objects r.world).1 } in
            let gone : Absent k (sync env r).1 =
              rw (sync, listed)
                (sync_clears r0 objects k (world-IsValid ClosesAlways _ r v) absent) in
            absurd (ground (arith, loaded, gone))
      ]
