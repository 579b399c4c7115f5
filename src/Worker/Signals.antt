-- ===== src/Worker/Signals.antt =====
-- What WorkerMiddleware makes of a worker's result on an InMemoryStore, and what the engine then does.
use oban.Prelude.{ℕ, ◌≡◌, refl, ◌∙◌, ℤ, ◌+ℤ◌, ◌-◌, String, false, Option, none, some, arith}
use oban.Errors.{Err, is_snooze, is_cancel}
use oban.Job.{Job, executing, scheduled, completed, cancelled, is_finished}
use oban.JobMap.{get}
use oban.Backoff.{Backoff}
use oban.Store.{MemStore, complete, mark_completed}
use oban.Store.Caps.{snooze, cancel}
use oban.Store.Override.{cancel_lem, snooze_lem, get-change}
use oban.StoreApi.Memory.{memory}
use oban.Worker.{Ctx, Handler, Clock}
use oban.Worker.Config.{worker_middleware, carried_options, backoff_of, hidden_by}
use oban.Engine.{settle}

hides : (e : Err) (r : Option Err × MemStore) → r.0 ≡ none → hidden_by e r ≡ (none, r.1)
hides e (none, s) h = refl
hides e (some f, s) h = absurd (ground (arith, h))

module _ (wall now : ℤ) where
  abbrev standing : Clock MemStore
  standing s = (now, s)

  -- The job as a snooze for `d` leaves it.
  abbrev pub snoozed_for : ℤ → Job → Job
  snoozed_for d i = record i { state = scheduled; scheduled_at = now +ℤ d; attempt = i.attempt - 1 }

  module _ (next : Handler MemStore) (ctx : Ctx) (job : Job) (s : MemStore) where
    abbrev pub managed : Option Err × MemStore
    managed = worker_middleware (memory wall) standing next ctx job s

    -- Success passes through. So does an error that is no signal, if the worker brings no backoff.
    pub worker_middleware_passes :
        (e : Option Err)
        → ((c : Ctx) → next c job s ≡ (e, s))
        → backoff_of (carried_options ctx.carried) ≡ none
        → ((f : Err) → e ≡ some f → (is_snooze f ≡ none) × (is_cancel f ≡ none))
        → managed ≡ (e, s)
    unfolding worker_middleware
    worker_middleware_passes none h b n = rw (h _)
    worker_middleware_passes (some f) h b n = rw (h _, (n f refl).0, (n f refl).1, b)

    -- A worker that asks for a cancel has its unfinished job cancelled, and the engine sees no error.
    pub worker_middleware_cancels :
        (f : Err) (reason : String) (i : Job)
        → ((c : Ctx) → next c job s ≡ (some f, s))
        → is_snooze f ≡ none
        → is_cancel f ≡ some reason
        → get job.id s.jobs ≡ some i
        → is_finished i.state ≡ false
        → (managed.0 ≡ none)
          × (get job.id managed.1.jobs ≡ some (record i { state = cancelled; discarded_at = now }))
    unfolding worker_middleware cancel
    worker_middleware_cancels f reason i h a b g k =
        rw (h _, a, b, hides f (cancel job.id now s) (cancel_reports job.id s i g k))
          (refl, (cancel_lem job.id now s i g).1 k)
      where
        cancel_reports :
            (id : ℕ) (s : MemStore) (i : Job)
            → get id s.jobs ≡ some i
            → is_finished i.state ≡ false
            → (cancel id now s).0 ≡ none
        cancel_reports id s i g k = rw (g, cancel, k)

    -- A worker that asks for a snooze has its executing job rescheduled, and the engine sees no error: it
    -- completes the job, which does not run again.
    pub snooze_overwritten :
        (f : Err) (d done_at : ℤ) (backoff : Backoff) (i : Job)
        → ((c : Ctx) → next c job s ≡ (some f, s))
        → is_snooze f ≡ some d
        → get job.id s.jobs ≡ some i
        → i.state ≡ executing
        → (managed.0 ≡ none)
          × (get job.id managed.1.jobs ≡ some (snoozed_for d i))
          × (get job.id
                (settle (memory wall) backoff standing managed.0 job done_at managed.1).1.jobs
              ≡ some (record (snoozed_for d i) { state = completed; completed_at = done_at }))
    unfolding worker_middleware settle complete snooze
    snooze_overwritten f d done_at backoff i h a g k =
        let stands = (snooze_lem job.id (now +ℤ d) now s i g).1 k in
        rw (h _, a, hides f (snooze job.id (now +ℤ d) now s) (snooze_reports job.id s i g k))
          (
            refl,
            stands,
            get-change job.id job.id (mark_completed done_at) (snooze job.id (now +ℤ d) now s).1
                  (snoozed_for d i) (λ _. refl) stands
                ∙ ground arith,
          )
      where
        snooze_reports :
            (id : ℕ) (s : MemStore) (i : Job)
            → get id s.jobs ≡ some i
            → i.state ≡ executing
            → (snooze id (now +ℤ d) now s).0 ≡ none
        snooze_reports id s i g k = rw (g, snooze, k)
