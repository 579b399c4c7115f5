-- ===== src/Examples/EventRuns.antt =====
-- A recorder with one subscriber around an attempt that fails.
use oban.Prelude.{ℕ, suc, ◌≡◌, refl, ◌+ℤ◌, ℤ, pos, List, [], ◌∷◌, none, some}
use oban.Errors.{plain}
use oban.Job.{Job, executing}
use oban.Worker.{Ctx, Handler, Clock}
use oban.Events.{
  EventName, EventHandler, Place, recorder_middleware, telemetry_middleware, as_telemetry, emit,
  count_of, job_start, job_stop, job_exception,
}
use oban.Events.Attempts.{IsCalm, Observed, attempt_lem}
use oban.Examples.Data.{mail}

record Desk : Type 0 where
  pub now : ℤ
  pub seen : ℕ
  pub counted : List (EventName × ℕ)

-- The subscriber counts the events that it sees.
abbrev on_event : EventHandler Desk
on_event ev desk = record desk { seen = suc desk.seen }

abbrev desk_place : Place Desk
desk_place = record {
  read = λ desk. record { next_id = 1; handlers = (0, on_event) ∷ []; counts = desk.counted };
  write = λ r desk. record desk { counted = r.counts };
}

abbrev ticking : Clock Desk
ticking desk = (desk.now, record desk { now = desk.now +ℤ pos 1 })

abbrev failing : Handler Desk
failing ctx job desk = (some (plain "no printer"), desk)

abbrev morning : Desk
morning = record { now = pos 100; seen = 0; counted = (job_start, 4) ∷ (job_stop, 4) ∷ [] }

abbrev background : Ctx
background = record { limits = []; carried = none }

abbrev printing : Job
printing = mail 7 executing (pos 90)

morning-IsCalm : IsCalm desk_place ticking failing morning
morning-IsCalm = record {
  count_written = λ name v. refl;
  clock_quiet = λ v. refl;
  next_quiet = λ ctx job v. refl;
  handlers_quiet = (λ ev w. refl, tt);
}

attempt_lem_example :
    Observed desk_place ticking failing morning morning-IsCalm background printing
      (recorder_middleware desk_place ticking failing background printing morning)
    × Observed desk_place ticking failing morning morning-IsCalm background printing (
        telemetry_middleware
          (as_telemetry desk_place ticking)
          ticking
          failing
          background
          printing
          morning)
attempt_lem_example =
    attempt_lem desk_place ticking failing morning morning-IsCalm background printing

exception_counted :
    let out = recorder_middleware desk_place ticking failing background printing morning in
    (out.1.seen ≡ 2)
    × (count_of job_start out.1.counted ≡ 5)
    × (count_of job_exception out.1.counted ≡ 1)
unfolding recorder_middleware emit
exception_counted = (refl, refl, refl)
