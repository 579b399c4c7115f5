-- ===== src/Store/Override.antt =====
-- Cancelling and snoozing a job, and the call of a finishing runner that comes after it. The comments
-- on `Cancel` (inmemory_caps.go) and on `WorkerMiddleware` (worker_config.go) rely on a guard on the
-- executing state in `Complete`, `Retry` and `Discard`. SQLStore has it; the InMemoryStore has not.
use oban.Prelude.{
  ℕ, ◌-◌, ◌≡◌, ◌≢◌, refl, ◌∙◌, ℤ, true, false, Option, none, some, ◌==◌, if◌then◌else◌, arith,
}
use oban.Errors.{Err, err_job_not_found}
use oban.Job.{Job, scheduled, executing, cancelled, is_finished}
use oban.Job.States.{state_eq_ne}
use oban.JobMap.{get, get-put, get-id}
use oban.Store.{MemStore, complete, retry, discard, change, mark_completed, mark_retryable}
use oban.Store.Caps.{cancel, snooze, retry_now, mark_cancelled, mark_snoozed}

-- A change under an id: what stands there afterwards, and that nothing else moves.
pub get-change :
    (id k : ℕ) (f : Job → Job) (s : MemStore) (j : Job)
    → ((i : Job) → (f i).id ≡ i.id)
    → get id s.jobs ≡ some j
    → get k (change id f s).1.jobs ≡ (if id == k then some (f j) else get k s.jobs)
get-change id k f s j h e = rw e (ground (arith, h j, get-id id s.jobs j e, get-put k (f j) s.jobs))

-- A missing id is reported by each of the calls that change one job, and changes nothing.
pub missing_job :
    (id : ℕ) (t u : ℤ) (e : Option Err) (s : MemStore)
    → get id s.jobs ≡ none
    → (complete id t s ≡ (some err_job_not_found, s))
      × (retry id u e t s ≡ (some err_job_not_found, s))
      × (discard id e t s ≡ (some err_job_not_found, s))
      × (cancel id t s ≡ (some err_job_not_found, s))
      × (retry_now id t s ≡ (some err_job_not_found, s))
      × (snooze id u t s ≡ (some err_job_not_found, s))
unfolding complete retry discard cancel retry_now snooze
missing_job id t u e s h = (rw h, rw h, rw h, rw (h, cancel), rw h, rw (h, snooze))

-- A cancel moves an unfinished job to `cancelled` and leaves a finished job alone.
pub cancel_lem :
    (id : ℕ) (t : ℤ) (s : MemStore) (j : Job)
    → get id s.jobs ≡ some j
    → ((is_finished j.state ≡ true) → cancel id t s ≡ (none, s))
      × ((is_finished j.state ≡ false)
          → get id (cancel id t s).1.jobs ≡ some (record j { state = cancelled; discarded_at = t }))
unfolding cancel
cancel_lem id t s j e = (
  (λ f. rw (e, f)),
  (λ f. rw (e, f) (ground (arith, get-id id s.jobs j e, get-put id (mark_cancelled t j) s.jobs))),
)

-- The guard is missing: cancel an unfinished job, and the `Complete` of the runner that finishes
-- later turns it into a completed one, and `Retry` makes it run again.
pub cancel_overwritten :
    (id : ℕ) (t u v : ℤ) (e : Option Err) (s : MemStore) (j : Job)
    → get id s.jobs ≡ some j
    → is_finished j.state ≡ false
    → let c = (cancel id t s).1 in
      (get id (complete id u c).1.jobs ≡ some (mark_completed u (mark_cancelled t j)))
      × (get id (retry id v e u c).1.jobs ≡ some (mark_retryable v e u (mark_cancelled t j)))
unfolding complete retry
cancel_overwritten id t u v e s j h f =
    let g = (cancel_lem id t s j h).1 f in
    (
      get-change id id (mark_completed u) (cancel id t s).1 (mark_cancelled t j) (λ i. refl) g
          ∙ ground arith,
      get-change id id (mark_retryable v e u) (cancel id t s).1 (mark_cancelled t j)
            (λ i. ground arith) g
          ∙ ground arith,
    )

-- A snooze reschedules an executing job and gives its attempt back; a job that has moved on is left
-- alone.
pub snooze_lem :
    (id : ℕ) (until t : ℤ) (s : MemStore) (j : Job)
    → get id s.jobs ≡ some j
    → (j.state ≢ executing → snooze id until t s ≡ (none, s))
      × (j.state ≡ executing
          → get id (snooze id until t s).1.jobs
            ≡ some (record j { state = scheduled; scheduled_at = until; attempt = j.attempt - 1 }))
unfolding snooze
snooze_lem id until t s j e = (
  (λ n. rw (e, snooze, state_eq_ne j.state executing n)),
  (λ x.
      rw (e, snooze)
        (ground (arith, get-id id s.jobs j e, get-put id (mark_snoozed until j) s.jobs))),
)
