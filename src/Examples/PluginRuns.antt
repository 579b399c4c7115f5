-- ===== src/Examples/PluginRuns.antt =====
-- The ticks of the schedulers, on concrete entries.
use oban.Prelude.{
  ◌≡◌, refl, pos, ◌<ℤ◌, List, [], ◌∷◌, some, none, All, here, there, inl, inr, arith,
}
use oban.Job.{Job, nil_args}
use oban.Engine.{Periodic}
use oban.Plugins.{CronEntry, plugin_fire_due, engine_fire_due}
use oban.Plugins.Firing.{plugin_fire_due_lem, engine_fire_due_stuck}

abbrev nightly : Periodic
nightly = record { schedule = some (λ t. pos 90); worker = "report"; args = nil_args; options = [] }

abbrev every_night : CronEntry
every_night = record { periodic = nightly; schedule = λ t. pos 90; next_at = pos 30 }

-- A schedule without a further time.
abbrev over_and_done : CronEntry
over_and_done = record { periodic = nightly; schedule = λ t. pos 0; next_at = pos 20 }

-- The jobs that a tick inserts, the last one first.
abbrev collect : Job → List Job → List Job
collect j js = j ∷ js

plugin_fire_due_lem_example :
    (out : List CronEntry × List Job) × (plugin_fire_due collect 3
        (pos 40)
        (every_night ∷ over_and_done ∷ [])
        []
      ≡ some out)
    × All (λ f. pos 40 <ℤ f.next_at) out.0
plugin_fire_due_lem_example =
    plugin_fire_due_lem collect (pos 40) 2 (every_night ∷ over_and_done ∷ []) []
      (inr (omega arith), (inl refl, tt)) (omega arith)

engine_fire_due_stuck_example :
    engine_fire_due collect 50 (pos 40) (every_night ∷ over_and_done ∷ []) [] ≡ none
engine_fire_due_stuck_example =
    engine_fire_due_stuck collect (pos 40) (omega arith) (every_night ∷ over_and_done ∷ [])
      over_and_done 50 [] (there here) refl (omega arith)
