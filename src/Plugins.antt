-- ===== src/Plugins.antt =====
-- plugins.go, periodic.go, and the cron loop of oban.go: what one tick of the Pruner, the Lifeline, the
-- CronPlugin and the engine's scheduler does. Errors that are only logged are dropped.
pub mod Firing
use oban.Prelude.{
  ℕ, zero, suc, ℤ, pos, leb_ℤ, ◌-ℤ◌, Bool, true, false, List, [], ◌∷◌, Option, none, some,
  if◌then◌else◌,
}
use oban.Errors.{Err, Result, ok, err}
use oban.Job.{State, completed, discarded, cancelled, Job, new_job, is_zero, before, after}
use oban.Store.{MemStore}
use oban.Store.Caps.{delete_finished_before, rescue_executing}
use oban.Engine.{Periodic}

abbrev pub default_prune_states : List State
default_prune_states = completed ∷ discarded ∷ cancelled ∷ []

abbrev pub default_prune_limit : ℤ
default_prune_limit = pos 10000

abbrev or_default_states : List State → List State
or_default_states [] = default_prune_states
or_default_states (s ∷ ss) = s ∷ ss

-- One pass of the Pruner on an InMemoryStore, for its `MaxAge`, `States` and `Limit`.
unfoldable pub prune_pass : ℤ → List State → ℤ → ℤ → MemStore → MemStore
prune_pass max_age states limit now s =
    (delete_finished_before (or_default_states states) (now -ℤ max_age)
      (if leb_ℤ limit (pos 0) then default_prune_limit else limit) s).1

-- One pass of the Lifeline, for its `RescueAfter`.
unfoldable pub rescue_pass : ℤ → ℤ → MemStore → MemStore
rescue_pass rescue_after now s = (rescue_executing (now -ℤ rescue_after) now s).1

-- `cronEntry`, with the `Next` of its schedule.
pub record CronEntry : Type 0 where
  pub periodic : Periodic
  pub schedule : ℤ → ℤ
  pub next_at : ℤ

-- `heap.Pop` by `Less`: an entry with the least next time, and the others. Among several of them
-- container/heap takes any.
unfoldable pub pop_least : List CronEntry → Option (CronEntry × List CronEntry)
pop_least [] = none
pop_least (e ∷ es) = elim (pop_least es) [
  | none ↦ some (e, [])
  | some (m, rest) ↦ if before m.next_at e.next_at then some (m, e ∷ rest) else some (e, es)
]

-- The condition of the loops: the first entry, if its time has passed.
abbrev pub due_only : ℤ → Option (CronEntry × List CronEntry) → Option (CronEntry × List CronEntry)
due_only now none = none
due_only now (some (e, rest)) = if after e.next_at now then none else some (e, rest)

-- `buildHeap`: entries without a schedule or without a next time are left out.
abbrev add_entry : Periodic → Option (ℤ → ℤ) → ℤ → List CronEntry → List CronEntry
add_entry p none now rest = rest
add_entry p (some schedule) now rest =
    if is_zero (schedule now)
    then rest
    else record { periodic = p; schedule = schedule; next_at = schedule now } ∷ rest

unfoldable pub build_heap : ℤ → List Periodic → List CronEntry
build_heap now [] = []
build_heap now (p ∷ ps) = add_entry p p.schedule now (build_heap now ps)

abbrev pub rescheduled : ℤ → CronEntry → CronEntry
rescheduled now e = record e { next_at = e.schedule now }

module _ {W : Type 0} (enqueue : Job → W → W) where
  abbrev enqueue_built : Result Job → W → W
  enqueue_built (err e) w = w
  enqueue_built (ok job) w = enqueue job w

  -- `enqueuePeriodic`, and `enqueue` of the CronPlugin.
  unfoldable pub enqueue_periodic : Periodic → W → W
  enqueue_periodic p w = enqueue_built (new_job p.worker p.args p.options) w

  -- `fireDue` of the CronPlugin, on fuel: `none` means that the fuel ran out.
  unfoldable pub plugin_fire_due : ℕ → ℤ → List CronEntry → W → Option (List CronEntry × W)
  unfolding enqueue_periodic
  plugin_fire_due zero now heap w = none
  plugin_fire_due (suc fuel) now heap w = elim (due_only now (pop_least heap)) [
    | none ↦ some (heap, w)
    | some (e, rest) ↦
        plugin_fire_due fuel now
          (if is_zero (e.schedule now) then rest else rescheduled now e ∷ rest)
          (enqueue_periodic e.periodic w)
  ]

  -- `fireDue` of the engine.
  unfoldable pub engine_fire_due : ℕ → ℤ → List CronEntry → W → Option (List CronEntry × W)
  unfolding enqueue_periodic
  engine_fire_due zero now heap w = none
  engine_fire_due (suc fuel) now heap w = elim (due_only now (pop_least heap)) [
    | none ↦ some (heap, w)
    | some (e, rest) ↦
        engine_fire_due fuel now (rescheduled now e ∷ rest) (enqueue_periodic e.periodic w)
  ]
