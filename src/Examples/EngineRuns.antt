-- ===== src/Examples/EngineRuns.antt =====
-- The theorems on the engine, on drains and on the middleware, applied to concrete runs.
use oban.Prelude.{
  ℕ, ◌≡◌, refl, ℤ, pos, ◌≤ℤ◌, ◌<ℤ◌, ◌+ℤ◌, String, false, List, [], ◌∷◌, Option, none, some, In,
  here, there, arith,
}
use oban.Errors.{Err, plain, snooze_error, cancel_error, is_snooze, is_cancel}
use oban.Job.{available, scheduled, executing, completed, retryable, discarded, Job, record_error}
use oban.JobMap.{get}
use oban.Backoff.{Backoff}
use oban.Store.{MemStore, new_store}
use oban.Store.Ops.{enqueues, step}
use oban.StoreApi.Memory.{memory}
use oban.Worker.{Ctx, Handler, Clock, Registry, Worker, returned, register}
use oban.Drain.{DrainOptions, no_result, drain_apply}
use oban.Engine.{Settings, new_engine, settle}
use oban.Engine.Ready.{IsReady, new_engine-IsReady}
use oban.Engine.Steps.{
  Running, Reached, starts, moves, called, dispatches, inserting, dispatch, Sparing, Anyone,
  Callers,
}
use oban.Engine.Held.{IsSound}
use oban.Engine.Exclusive.{Reached-IsSound}
use oban.Engine.Capacity.{IsConfigured, IsWithin, Reached-IsWithin}
use oban.Engine.Settle.{settle_lem, drain_apply-settle}
use oban.Worker.Register.{Registered, register-Registered}
use oban.Worker.Signals.{managed, snooze_overwritten}
use oban.Examples.Data.{mail, office}

abbrev minute : Backoff
minute attempt = pos 60

abbrev one_queue : List (String × ℤ)
one_queue = ("default", pos 1) ∷ []

one_queue-IsConfigured : IsConfigured one_queue
one_queue-IsConfigured = record { positive = (omega arith, tt); once = once }
  where
    once : (name : String) (m n : ℤ) → In (name, m) one_queue → In (name, n) one_queue → m ≡ n
    once name m n here here = refl
    once name m n here (there i) = elim i [ ]
    once name m n (there i) k = elim i [ ]

-- A job is inserted and dispatched.
abbrev inserted : Running
inserted = record {
  store = step new_store (enqueues (pos 60) (some (mail 0 available (pos 2))));
  attempts = [];
}

abbrev dispatched : Running
dispatched = dispatch "default" (pos 1) (pos 70) inserted

dispatched-Reached :
    (callers : Callers)
    → callers
        (record { store = new_store; attempts = [] })
        (enqueues (pos 60) (some (mail 0 available (pos 2))))
    → Reached one_queue minute callers dispatched
dispatched-Reached callers o =
    moves
      (moves starts (
        called (enqueues (pos 60) (some (mail 0 available (pos 2))))
          (record { store = new_store; attempts = [] }) o))
      (dispatches "default" (pos 1) (pos 70) inserted here)

Reached-IsSound_example : IsSound dispatched
Reached-IsSound_example =
    Reached-IsSound one_queue minute
      (dispatched-Reached Sparing (inserting (pos 60) (some (mail 0 available (pos 2)))))

Reached-IsWithin_example : IsWithin one_queue dispatched.attempts
Reached-IsWithin_example =
    Reached-IsWithin one_queue one_queue-IsConfigured minute (dispatched-Reached Anyone tt)

abbrev sending : Job
sending = record (mail 3 executing (pos 0)) { attempted_at = pos 20; attempt = 1 }

abbrev lost : Err
lost = plain "no answer"

abbrev ended : Option Err → Option (Job × Err) × MemStore
ended e = settle (memory (pos 30)) minute (λ t. (pos 31, t)) e sending (pos 30) office

settle_lem_example :
    ((ended none).0 ≡ none)
    × (get 3 (ended none).1.jobs
        ≡ some (record sending { state = completed; completed_at = pos 30 }))
    × (pos 1 <ℤ pos 20
        → ((ended (some lost)).0 ≡ some (sending, lost))
          × (get 3 (ended (some lost)).1.jobs
              ≡ some (record (record_error lost (pos 30) sending) {
                state = retryable;
                scheduled_at = pos 90;
              })))
    × (pos 20 ≤ℤ pos 1
        → ((ended (some lost)).0 ≡ some (sending, lost))
          × (get 3 (ended (some lost)).1.jobs
              ≡ some (record (record_error lost (pos 31) sending) {
                state = discarded;
                discarded_at = pos 31;
              })))
unfolding get ◌+ℤ◌
settle_lem_example = settle_lem (pos 30) minute (pos 31) sending sending (pos 30) lost office refl

drain_apply-settle_example :
    (drain_apply (memory (pos 30)) minute (some lost) sending (pos 30) no_result office).1
    ≡ (settle (memory (pos 30)) minute (λ u. (pos 30, u)) (some lost) sending (pos 30) office).1
unfolding is_snooze is_cancel
drain_apply-settle_example =
    drain_apply-settle (memory (pos 30)) minute (some lost) sending (pos 30) no_result office
      no_signal
  where
    same : (f : Err) → some lost ≡ some f → f ≡ lost
    same f e = cc e

    no_signal : (f : Err) → some lost ≡ some f → (is_snooze f ≡ none) × (is_cancel f ≡ none)
    no_signal f e = rw (same f e) (refl, refl)

abbrev plain_settings : Settings
plain_settings = record {
  queues = [];
  periodics = [];
  poll_interval = pos 0;
  cron_interval = pos 0;
  job_timeout = pos 0;
  queue_timeouts = ("default", pos 5) ∷ [];
}

abbrev queue_text : String → ℤ → String
queue_text name conc = name

abbrev entry_text : ℕ → String
entry_text i = "periodic"

new_engine-IsReady_example : IsReady (record plain_settings {
  queues = ("default", pos 10) ∷ [];
  poll_interval = pos 100000000;
  cron_interval = pos 1000000000;
  job_timeout = pos 30000000000;
})
unfolding new_engine
new_engine-IsReady_example =
    new_engine-IsReady queue_text entry_text entry_text plain_settings _ refl

abbrev sender : Worker MemStore
sender = record { perform = λ ctx job s. (returned none, s); config = none }

abbrev staff : Registry MemStore
staff = ("mail", sender) ∷ []

abbrev well : Handler MemStore
well ctx job s = (none, s)

abbrev empty_ctx : Ctx
empty_ctx = record { limits = []; carried = none }

abbrev at_seventy : Clock MemStore
at_seventy s = (pos 70, s)

abbrev one_pass : DrainOptions MemStore
one_pass = record {
  queue = "default";
  with_recursion = false;
  with_scheduled = false;
  backoff = minute;
  timeout = pos 30;
  middleware = [];
}

abbrev name_text : String → String
name_text name = name

abbrev tired : Handler MemStore
tired ctx job s = (some (snooze_error (pos 40) "snooze"), s)

snooze_overwritten_example :
    ((managed (pos 30) (pos 30) tired empty_ctx sending office).0 ≡ none)
    × (get 3 (managed (pos 30) (pos 30) tired empty_ctx sending office).1.jobs
        ≡ some (record sending { state = scheduled; scheduled_at = pos 70; attempt = 0 }))
    × (get 3
          (settle
            (memory (pos 30))
            minute
            (λ s. (pos 30, s))
            (managed (pos 30) (pos 30) tired empty_ctx sending office).0
            sending
            (pos 31)
            (managed (pos 30) (pos 30) tired empty_ctx sending office).1).1.jobs
        ≡ some (record sending {
          state = completed;
          scheduled_at = pos 70;
          attempt = 0;
          completed_at = pos 31;
        }))
unfolding get ◌+ℤ◌ is_snooze
snooze_overwritten_example =
    snooze_overwritten (pos 30) (pos 30) tired empty_ctx sending office
      (snooze_error (pos 40) "snooze") (pos 40) (pos 31) minute sending (λ c. refl) refl refl refl

abbrev gives_up : Handler MemStore
gives_up ctx job s = (some (cancel_error "no such address"), s)

register-Registered_example :
    Registered MemStore "report" sender staff (register MemStore "report" (some sender) staff)
register-Registered_example = register-Registered MemStore "report" sender staff
