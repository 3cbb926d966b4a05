-- ===== src/Services/Trigger.antt =====
-- internal/application/sync_service.go: manual and scheduled syncs. The mutexes make each event run
-- alone; `passes` stands for everything else that happens between two events, the time included.
use ortus.Common.{
  ℕ, ◌+◌, ◌-◌, ◌*◌, ◌≤◌, ◌≡◌, subst, Bool, false, List, [], ◌∷◌, arith, length, if◌then◌else◌, inl,
  inr, Bool-cases,
}
use ortus.Common.Clock.{Time, sub_time}
use ortus.Common.Int.{pos, ltb_ℤ}
use ortus.Domain.Errors.{Result, ok, err, rate_limited}
use ortus.Registry.Types.{Environment, SourceRegistry}
use ortus.Registry.Sync.{sync}

-- Nanoseconds.
abbrev pub seconds : ℕ → ℕ
seconds n = n * 1000000000

pub record SyncService (W : Type 0) : Type 0 where
  pub registry : SourceRegistry W
  pub interval : ℕ
  pub last_api_sync : Time
  pub next_sync : Time

-- `input.SyncResult`
pub record SyncResult : Type 0 where
  pub sources_added : ℕ
  pub sources_removed : ℕ
  pub sources_total : ℕ
  pub synced_at : Time
  pub next_scheduled_at : Time

pub data Event (W : Type 0) : Type 0 where
  starts trigger tick : Event W
  passes : W → Event W

-- Each time is at least 30 seconds behind the one before it, the first one behind `last`.
abbrev pub Spaced : Time → List Time → Type 0
Spaced last [] = Unit
Spaced last (t ∷ ts) = (last + seconds 30 ≤ t) × Spaced t ts

module _ {W : Type 0} (env : Environment W) where
  unfoldable pub new_sync_service : SourceRegistry W → ℕ → SyncService W
  new_sync_service r interval = record {
    registry = r;
    interval = interval;
    last_api_sync = env.now r.world - seconds 31;
    next_sync = 0;
  }

  unfoldable pub do_sync_with_result : SyncService W → Result SyncResult × SyncService W
  do_sync_with_result s =
      let (synced, r) = sync env s.registry in
      let s' = record s { registry = r } in
      elim synced [
        | err e ↦ (err e, s')
        | ok stats ↦ (
          ok (record {
            sources_added = stats.added;
            sources_removed = stats.removed;
            sources_total = length r.sources;
            synced_at = env.now r.world;
            next_scheduled_at = s.next_sync;
          }),
          s',
        )
      ]

  -- The cooldown test of `TriggerSync`.
  unfoldable pub is_rate_limited : SyncService W → Bool
  is_rate_limited s = ltb_ℤ (sub_time (env.now s.registry.world) s.last_api_sync) (pos (seconds 30))

  unfoldable pub trigger_sync : SyncService W → Result SyncResult × SyncService W
  trigger_sync s =
      if is_rate_limited s
      then (err rate_limited, s)
      else do_sync_with_result (record s { last_api_sync = env.now s.registry.world })

  -- The start of `run`.
  unfoldable pub start : SyncService W → SyncService W
  start s = record s { next_sync = env.now s.registry.world + s.interval }

  -- A tick of `run`.
  unfoldable pub scheduled_sync : SyncService W → SyncService W
  scheduled_sync s =
      let r = (sync env s.registry).1 in
      record s { registry = r; next_sync = env.now r.world + s.interval }

  -- The state after some events, and the times at which triggers were let through.
  unfoldable pub run_events : List (Event W) → SyncService W → List Time × SyncService W
  run_events [] s = ([], s)
  run_events (trigger ∷ es) s =
      let (times, s') = run_events es (trigger_sync s).1 in
      (if is_rate_limited s then times else env.now s.registry.world ∷ times, s')
  run_events (starts ∷ es) s = run_events es (start s)
  run_events (tick ∷ es) s = run_events es (scheduled_sync s)
  run_events (passes w ∷ es) s =
      run_events es (record s { registry = record s.registry { world = w } })

  let_through :
      (s : SyncService W)
      → is_rate_limited s ≡ false
      → s.last_api_sync + seconds 30 ≤ env.now s.registry.world
  unfolding is_rate_limited
  let_through s h = ground (arith, h)

  last_api_sync-do_sync_with_result :
      (s : SyncService W) → (do_sync_with_result s).1.last_api_sync ≡ s.last_api_sync
  unfolding do_sync_with_result
  last_api_sync-do_sync_with_result s = ground arith

  -- In any history of triggers, ticks and whatever happens between them, a clock that is set back
  -- included, two triggers that are let through are at least 30 seconds apart, and the first one is
  -- so from the last one before, whether their syncs succeed or fail.
  pub run_events-Spaced :
      (es : List (Event W)) (s : SyncService W) → Spaced s.last_api_sync (run_events es s).0
  unfolding run_events trigger_sync scheduled_sync start
  run_events-Spaced [] s = tt
  run_events-Spaced (trigger ∷ es) s = elim (Bool-cases (is_rate_limited s)) [
    | inl limited ↦ rw (trigger_sync, limited) (run_events-Spaced es s)
    | inr through ↦
        let synced =
          (do_sync_with_result (record s { last_api_sync = env.now s.registry.world })).1 in
        rw (trigger_sync, through)
          (
            let_through s through,
            subst (λ t. Spaced t (run_events es synced).0)
                (last_api_sync-do_sync_with_result
                  (record s { last_api_sync = env.now s.registry.world }))
                (run_events-Spaced es synced),
          )
  ]
  run_events-Spaced (starts ∷ es) s = run_events-Spaced es (start s)
  run_events-Spaced (tick ∷ es) s = run_events-Spaced es (scheduled_sync s)
  run_events-Spaced (passes w ∷ es) s =
      run_events-Spaced es (record s { registry = record s.registry { world = w } })
