-- ===== src/Store/Ops.antt =====
-- Every call that changes an InMemoryStore, as data: a history of the store is a list of calls.
use oban.Prelude.{ℕ, ℤ, String, List, [], ◌∷◌, Option}
use oban.Errors.{Err}
use oban.Job.{State, Job}
use oban.Store.{MemStore, enqueue, fetch_available, complete, retry, discard}
use oban.Store.Caps.{
  cancel, delete, retry_now, snooze, delete_finished_before, rescue_executing, set_tags_meta,
}
use oban.Store.Query.{clear}

pub data Call : Type 0 where
  enqueues : ℤ → Option Job → Call
  fetches : String → ℤ → ℤ → Call
  completes : ℕ → ℤ → Call
  retries : ℕ → ℤ → Option Err → ℤ → Call
  discards : ℕ → Option Err → ℤ → Call
  cancels : ℕ → ℤ → Call
  deletes : ℕ → Call
  retries_now : ℕ → ℤ → Call
  snoozes : ℕ → ℤ → ℤ → Call
  prunes : List State → ℤ → ℤ → Call
  rescues : ℤ → ℤ → Call
  tags_job : ℕ → List String → List (String × String) → Call
  clears : Call

unfoldable pub step : MemStore → Call → MemStore
step s (enqueues wall job) = (enqueue wall job s).1
step s (fetches queue limit now) = (fetch_available queue limit now s).1
step s (completes id now) = (complete id now s).1
step s (retries id at_time e now) = (retry id at_time e now s).1
step s (discards id e now) = (discard id e now s).1
step s (cancels id now) = (cancel id now s).1
step s (deletes id) = (delete id s).1
step s (retries_now id now) = (retry_now id now s).1
step s (snoozes id until now) = (snooze id until now s).1
step s (prunes states cutoff limit) = (delete_finished_before states cutoff limit s).1
step s (rescues older_than now) = (rescue_executing older_than now s).1
step s (tags_job id tags meta) = (set_tags_meta id tags meta s).1
step s clears = clear s

unfoldable pub run : MemStore → List Call → MemStore
run s [] = s
run s (c ∷ cs) = run (step s c) cs
