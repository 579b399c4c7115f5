-- ===== src/Control/Operators.antt =====
-- The Controller on an InMemoryStore, and on a store without the capabilities.
use oban.Prelude.{ℕ, ◌≡◌, refl, ◌∙◌, ℤ, Bool, true, false, none, some, if◌then◌else◌, arith}
use oban.Errors.{err_job_not_found, err_unsupported}
use oban.Job.{Job, available, cancelled, is_finished, zero_time}
use oban.JobMap.{get}
use oban.Store.{MemStore, get_job}
use oban.Store.Caps.{cancel, retry_now, delete, mark_runnable}
use oban.Store.Invariant.{IsValid}
use oban.Store.Override.{cancel_lem, get-change}
use oban.Store.PruneLoop.{get-erase_job}
use oban.StoreApi.{StoreApi}
use oban.StoreApi.Memory.{memory}
use oban.Worker.{Clock}
use oban.Control.{
  Controls, controlled, ensure_exists, operator_cancel, operator_retry, operator_delete,
}

module _ (wall now : ℤ) where
  abbrev standing : Clock MemStore
  standing s = (now, s)

  -- A missing id is reported by each operation, also by `Delete`, which the store lets pass in silence.
  pub operators_missing :
      (id : ℕ) (s : MemStore)
      → get id s.jobs ≡ none
      → (operator_cancel (memory wall) standing id s ≡ (some err_job_not_found, s))
        × (operator_retry (memory wall) standing id s ≡ (some err_job_not_found, s))
        × (operator_delete (memory wall) id s ≡ (some err_job_not_found, s))
        × (delete id s ≡ (none, (delete id s).1))
  unfolding operator_cancel operator_retry operator_delete ensure_exists get_job delete
  operators_missing id s h = (rw h refl, rw h refl, rw h refl, refl)

  -- On a stored job: an unfinished one is cancelled and a finished one is left alone; a retry makes any
  -- job available at once and clears its finish times; a delete removes it.
  pub operators_found :
      (id : ℕ) (s : MemStore) (j : Job)
      → IsValid s
      → get id s.jobs ≡ some j
      → (get id (operator_cancel (memory wall) standing id s).1.jobs
          ≡ some (
              if is_finished j.state
              then j
              else record j { state = cancelled; discarded_at = now }))
        × (get id (operator_retry (memory wall) standing id s).1.jobs
            ≡ some (record j {
              state = available;
              scheduled_at = now;
              completed_at = zero_time;
              discarded_at = zero_time;
            }))
        × (get id (operator_delete (memory wall) id s).1.jobs ≡ none)
  unfolding operator_cancel operator_retry operator_delete ensure_exists get_job delete retry_now
  operators_found id s j v h = (
    rw h (cancelled_or_kept (is_finished j.state) refl),
    rw h (get-change id id (mark_runnable now) s j (λ _. refl) h ∙ ground arith),
    rw h (get-erase_job id id s v ∙ ground arith),
  )
    where
      cancelled_or_kept :
          (b : Bool)
          → is_finished j.state ≡ b
          → get id (cancel id now s).1.jobs
            ≡ some (if b then j else record j { state = cancelled; discarded_at = now })
      cancelled_or_kept true f = rw ((cancel_lem id now s j h).0 f) h
      cancelled_or_kept false f = (cancel_lem id now s j h).1 f

-- A ControlledStore passes none of the capabilities on: a Controller on it refuses every operation,
-- whatever the inner store can do.
pub controlled_unsupported :
    {W : Type 0} (api : StoreApi W) (c : Controls) (clock : Clock W) (id : ℕ) (w : W)
    → (operator_cancel (controlled api c) clock id w ≡ (some err_unsupported, w))
      × (operator_retry (controlled api c) clock id w ≡ (some err_unsupported, w))
      × (operator_delete (controlled api c) id w ≡ (some err_unsupported, w))
unfolding operator_cancel operator_retry operator_delete
controlled_unsupported api c clock id w = (refl, refl, refl)
