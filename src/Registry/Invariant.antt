-- ===== src/Registry/Invariant.antt =====
-- The invariant of the registry of internal/application/registry.go.
use ortus.Common.{
  ◌≡◌, refl, sym, subst, subst₂, ◌∙◌, not, Option, some, List, [], ◌∷◌, Str, arith, str_eq,
  str_eq_iff, length, if_cases, option_cases, inl, inr, Bool-cases,
}
use ortus.Common.Maps.{Map, lookup, insert, delete, lookup-insert, lookup-delete}
use ortus.Common.Keys.{
  Distinct, keys, insert-Distinct, delete-Distinct, length-insert, lookup_present,
}
use ortus.Common.Sort.{All}
use ortus.Domain.Errors.{Error, ok, result_cases}
use ortus.Domain.Types.{Source, status_unloading}
use ortus.Domain.Paths.{derive_source_id}
use ortus.Registry.Types.{SpatialSource, Environment, SourceEntry, SourceRegistry}
use ortus.Registry.Load.{
  update_metrics, provider_for, unload_entry, unload_source, prepare_layers, mark_ready, register,
  load_fresh, load_source, loaded_source_path,
}

pub provider_for-law :
    {W : Type 0} (Q : SpatialSource W → Type 0) (path : Str) (ps : List (SpatialSource W))
    → All Q ps
    → (p : SpatialSource W) → provider_for path ps ≡ ok p
    → Q p
unfolding provider_for
provider_for-law Q path [] h p e = cc
provider_for-law Q path (x ∷ ps) h p e = elim (Bool-cases (x.supports path)) [
  | inl s ↦ subst Q (ground (arith, s, e)) h.0
  | inr s ↦ provider_for-law Q path ps h.1 p (ground (arith, s, e))
]

-- A property of the registry that an operation leaves behind.
abbrev pub Leaves {ℓ} :
    {W : Type 0} → (SourceRegistry W → Type ℓ) → Option Error × SourceRegistry W → Type ℓ
Leaves P q = P q.1

-- The adapters may be held to a law `Q`.
module _ {W : Type 0} (Q : SpatialSource W → Type 0) where
  -- The entry holds a source of that id, and the adapter that opened it.
  pub record IsEntry (k : Str) (e : SourceEntry W) : Type 0 where
    pub source : Source
    pub repo : SpatialSource W
    pub has_source : e.source ≡ some source
    pub has_repo : e.repo ≡ some repo
    pub keyed : source.id ≡ k
    pub law : Q repo

  abbrev pub Entries : Map (SourceEntry W) → Type 0
  Entries m = (k : Str) (e : SourceEntry W) → lookup k m ≡ some e → IsEntry k e

  -- Every entry is complete and stands under its source's id, once, and the gauge of loaded sources
  -- shows their number.
  pub record IsValid (r : SourceRegistry W) : Type 0 where
    pub entries : Entries r.sources
    pub distinct : Distinct (keys r.sources)
    pub counted : r.loaded_count ≡ length r.sources
    pub adapters : All Q r.providers

  insert-Entries :
      (k : Str) (e : SourceEntry W) (m : Map (SourceEntry W))
      → IsEntry k e
      → Entries m
      → Entries (insert k e m)
  insert-Entries k e m h v j f p = elim (Bool-cases (str_eq k j)) [
    | inl s ↦ subst₂ IsEntry ((str_eq_iff k j).0 s) (ground (arith, s, lookup-insert k j e m, p)) h
    | inr s ↦ v j f (ground (arith, s, lookup-insert k j e m, p))
  ]

  delete-Entries : (k : Str) (m : Map (SourceEntry W)) → Entries m → Entries (delete k m)
  delete-Entries k m v j f p = v j f (ground (arith, lookup-delete k j m, p))

  -- What holds between the steps of an operation: the gauge is set at its end.
  pub record IsSound (r : SourceRegistry W) : Type 0 where
    pub entries : Entries r.sources
    pub distinct : Distinct (keys r.sources)
    pub adapters : All Q r.providers

  update_metrics-IsValid : (r : SourceRegistry W) → IsSound r → IsValid (update_metrics r)
  unfolding update_metrics
  update_metrics-IsValid r v = record {
    entries = v.entries;
    distinct = v.distinct;
    counted = refl;
    adapters = v.adapters;
  }

  unload_entry-IsValid :
      (id : Str) (e : SourceEntry W) (r : SourceRegistry W)
      → lookup id r.sources ≡ some e
      → IsValid r
      → IsValid (unload_entry id e r).1
  unfolding unload_entry
  unload_entry-IsValid id e r h v =
      option_cases (Leaves IsValid) e.repo (λ nil. gone r.world)
        λ repo is.
          option_cases (Leaves IsValid) (repo.close id r.world).0
            (λ closed. gone (repo.close id r.world).1)
            (λ error failed. stuck (repo.close id r.world).1)
    where
      unloading : Map (SourceEntry W)
      unloading = insert id (record e { status = status_unloading }) r.sources

      still : IsEntry id (record e { status = status_unloading })
      still =
          let w = v.entries id e h in
          record {
            source = w.source;
            repo = w.repo;
            has_source = w.has_source;
            has_repo = w.has_repo;
            keyed = w.keyed;
            law = w.law;
          }

      entries : Entries unloading
      entries = insert-Entries id _ r.sources still v.entries

      distinct : Distinct (keys unloading)
      distinct = insert-Distinct id _ r.sources v.distinct

      gone :
          (w : W) → IsValid (update_metrics (record r { sources = delete id unloading; world = w }))
      gone w = update_metrics-IsValid _ (record {
        entries = delete-Entries id unloading entries;
        distinct = delete-Distinct id unloading distinct;
        adapters = v.adapters;
      })

      stuck : (w : W) → IsValid (record r { sources = unloading; world = w })
      stuck w = record {
        entries = entries;
        distinct = distinct;
        counted = v.counted ∙ sym (length-insert id _ r.sources (lookup_present id r.sources h));
        adapters = v.adapters;
      }

  pub unload_source-IsValid :
      (id : Str) (r : SourceRegistry W) → IsValid r → IsValid (unload_source id r).1
  unfolding unload_source
  unload_source-IsValid id r v =
      option_cases (Leaves IsValid) (lookup id r.sources) (λ absent. v)
        (λ e h. unload_entry-IsValid id e r h v)

  pub prepare_layers-id :
      (p : SpatialSource W) (names : List Str) (src : Source) (w : W)
      → (prepare_layers p names src w).0.id ≡ src.id
  unfolding prepare_layers
  prepare_layers-id p [] src w = refl
  prepare_layers-id p (name ∷ names) src w = prepare_layers-id p names _ _

  pub world-IsValid : (w : W) (r : SourceRegistry W) → IsValid r → IsValid (record r { world = w })
  world-IsValid w r v = record {
    entries = v.entries;
    distinct = v.distinct;
    counted = v.counted;
    adapters = v.adapters;
  }

  module _ (env : Environment W) where
    mark_ready-IsSound :
        (src : Source) (r : SourceRegistry W) → IsSound r → IsSound (mark_ready env src r)
    unfolding mark_ready
    mark_ready-IsSound src r v =
        option_cases IsSound (lookup src.id r.sources) (λ absent. v)
          λ e h. record {
            entries =
                insert-Entries src.id _ r.sources
                  (record {
                    source = _;
                    repo = (v.entries src.id e h).repo;
                    has_source = refl;
                    has_repo = (v.entries src.id e h).has_repo;
                    keyed = refl;
                    law = (v.entries src.id e h).law;
                  })
                  v.entries;
            distinct = insert-Distinct src.id _ r.sources v.distinct;
            adapters = v.adapters;
          }

    register-IsValid :
        (p : SpatialSource W) (src : Source) (r : SourceRegistry W)
        → Q p
        → IsValid r
        → IsValid (register env p src r)
    unfolding register
    register-IsValid p src r law v = update_metrics-IsValid _ (
        mark_ready-IsSound _ _ (record {
          entries =
              insert-Entries src.id _ r.sources
                (record {
                  source = src;
                  repo = p;
                  has_source = refl;
                  has_repo = refl;
                  keyed = refl;
                  law = law;
                })
                v.entries;
          distinct = insert-Distinct src.id _ r.sources v.distinct;
          adapters = v.adapters;
        }))

    load_fresh-IsValid :
        (path : Str) (r : SourceRegistry W) → IsValid r → IsValid (load_fresh env path r).1
    unfolding load_fresh
    load_fresh-IsValid path r v =
        result_cases (Leaves IsValid) (provider_for path r.providers) (λ e no_adapter. v)
          λ p found.
            let w = (p.open_source path r.world).1 in
            let v' = world-IsValid w r v in
            result_cases (Leaves IsValid) (p.open_source path r.world).0 (λ e failed. v')
              λ src opened.
                register-IsValid p src (record r { world = w })
                  (provider_for-law Q path r.providers v.adapters p found) v'

    pub load_source-IsValid :
        (path : Str) (r : SourceRegistry W) → IsValid r → IsValid (load_source env path r).1
    unfolding load_source
    load_source-IsValid path r v =
        let id = derive_source_id path in
        option_cases (Leaves IsValid) (loaded_source_path id r)
          (λ fresh. load_fresh-IsValid path r v)
          λ existing found.
            if_cases (Leaves IsValid) (not (str_eq existing path)) (λ other. v)
              λ same. load_fresh-IsValid path (unload_source id r).1 (unload_source-IsValid id r v)
