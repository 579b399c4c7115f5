-- ===== src/SqlStore/Runs.antt =====
-- Whole histories of the SQLStore (sqlstore.go) beside those of the InMemoryStore.
use oban.Prelude.{ℕ, ◌≡◌, ℤ, String, true, false, List, [], ◌∷◌, some, All, map}
use oban.Errors.{Err}
use oban.Job.{Job, is_zero}
use oban.JobMap.{get}
use oban.Store.{MemStore}
use oban.Store.Ops
use oban.Store.Ops.{Call, step, run}
use oban.Store.Invariant.{IsValid, step-IsValid}
use oban.Sql.{SqlDialect}
use oban.Sql.Table.{Table}
use oban.Sql.Database.{Database, Works}
use oban.Sql.Rows.{Json}
use oban.SqlStore.Enqueue.{sql_enqueue}
use oban.SqlStore.Fetch
use oban.SqlStore.Updates
use oban.SqlStore.Changes.{is_executing}
use oban.SqlStore.Sweeps.{IsStarted}
use oban.SqlStore.Refine.{
  Represents, complete_refines, cancel_refines, retry_now_refines, delete_refines,
  rescue_executing_refines,
}
use oban.SqlStore.Fetching.{fetch_available_refines}
use oban.SqlStore.Adding.{RoundTrips, enqueue_refines}
use oban.SqlStore.Retrying.{failed_history, retry_refines, discard_refines}

-- The calls that both stores have and that change them.
pub data StoreCall : Type 0 where
  enqueues : ℤ → Job → StoreCall
  fetches : String → ℤ → ℤ → StoreCall
  completes : ℕ → ℤ → StoreCall
  retries : ℕ → ℤ → Err → ℤ → StoreCall
  discards : ℕ → Err → ℤ → StoreCall
  cancels : ℕ → ℤ → StoreCall
  deletes : ℕ → StoreCall
  retries_now : ℕ → ℤ → StoreCall
  rescues : ℤ → ℤ → StoreCall

abbrev pub memory_call : StoreCall → Call
memory_call (enqueues wall job) = Ops.enqueues wall (some job)
memory_call (fetches queue limit now) = Ops.fetches queue limit now
memory_call (completes id now) = Ops.completes id now
memory_call (retries id at e now) = Ops.retries id at (some e) now
memory_call (discards id e now) = Ops.discards id (some e) now
memory_call (cancels id now) = Ops.cancels id now
memory_call (deletes id) = Ops.deletes id
memory_call (retries_now id now) = Ops.retries_now id now
memory_call (rescues older_than now) = Ops.rescues older_than now

module _ {D : Type 0} (json : Json) (db : Database D) (dialect : SqlDialect) where
  unfoldable pub sql_step : D → StoreCall → D
  sql_step d (enqueues wall job) = (sql_enqueue json db dialect wall (some job) d).1
  sql_step d (fetches queue limit now) = (Fetch.fetch_available json db dialect queue limit now d).1
  sql_step d (completes id now) = (Updates.complete db id now d).1
  sql_step d (retries id at e now) = (Updates.retry json db dialect id at (some e) now d).1
  sql_step d (discards id e now) = (Updates.discard json db dialect id (some e) now d).1
  sql_step d (cancels id now) = (Updates.cancel db id now d).1
  sql_step d (deletes id) = (Updates.delete_job db id d).1
  sql_step d (retries_now id now) = (Updates.retry_now db id now d).1
  sql_step d (rescues older_than now) = (Updates.rescue_executing db older_than now d).1

  unfoldable pub sql_run : D → List StoreCall → D
  sql_run d [] = d
  sql_run d (c ∷ cs) = sql_run (sql_step d c) cs

-- The calls that a store in the state `s` meets in normal work: times are not zero, the JSON of an
-- error history can be printed and read back, and a runner finishes only a job that is executing.
pub data Fits (json : Json) (s : MemStore) : StoreCall → Type 0 where
  fits_enqueue :
      (wall : ℤ) (job : Job) → RoundTrips json job.errors → Fits json s (enqueues wall job)
  fits_fetch :
      (queue : String) (limit now : ℤ) → is_zero now ≡ false → Fits json s (fetches queue limit now)
  fits_complete :
      (id : ℕ) (now : ℤ) (j : Job)
      → is_zero now ≡ false
      → get id s.jobs ≡ some j
      → is_executing j ≡ true
      → Fits json s (completes id now)
  fits_retry :
      (id : ℕ) (at : ℤ) (e : Err) (now : ℤ) (j : Job)
      → get id s.jobs ≡ some j
      → is_executing j ≡ true
      → RoundTrips json (failed_history e now j)
      → Fits json s (retries id at e now)
  fits_discard :
      (id : ℕ) (e : Err) (now : ℤ) (j : Job)
      → is_zero now ≡ false
      → get id s.jobs ≡ some j
      → is_executing j ≡ true
      → RoundTrips json (failed_history e now j)
      → Fits json s (discards id e now)
  fits_cancel : (id : ℕ) (now : ℤ) → is_zero now ≡ false → Fits json s (cancels id now)
  fits_delete : (id : ℕ) → Fits json s (deletes id)
  fits_retry_now : (id : ℕ) (now : ℤ) → is_zero now ≡ false → Fits json s (retries_now id now)
  fits_rescue :
      (older_than now : ℤ)
      → is_zero now ≡ false
      → All IsStarted s.jobs
      → Fits json s (rescues older_than now)

abbrev pub AllFit : Json → MemStore → List StoreCall → Type 0
AllFit json s [] = Unit
AllFit json s (c ∷ cs) = Fits json s c × AllFit json (step s (memory_call c)) cs

module _ {D : Type 0} (json : Json) (db : Database D) (table : D → Table) (w : Works db table)
    (dialect : SqlDialect) where
  step_refines :
      (c : StoreCall) (d : D) (s : MemStore)
      → Fits json s c
      → IsValid s
      → Represents json db table w d s
      → Represents json db table w (sql_step json db dialect d c) (step s (memory_call c))
  unfolding sql_step step
  step_refines c d s (fits_enqueue wall job trip) v r =
      (enqueue_refines json db table w dialect wall job d s trip v r).1
  step_refines c d s (fits_fetch queue limit now z) v r =
      (fetch_available_refines json db table w dialect queue limit now d s z v r).1
  step_refines c d s (fits_complete id now j z g e) v r =
      (complete_refines json db table w id now d s z v r j g e).1
  step_refines c d s (fits_retry id at e now j g x trip) v r =
      (retry_refines json db table w dialect id e now d s v r j g x trip at).1
  step_refines c d s (fits_discard id e now j z g x trip) v r =
      (discard_refines json db table w dialect id e now d s v r j g x trip z).1
  step_refines c d s (fits_cancel id now z) v r =
      (cancel_refines json db table w id now d s z v r).1
  step_refines c d s (fits_delete id) v r = (delete_refines json db table w id d s v r).1
  step_refines c d s (fits_retry_now id now z) v r =
      (retry_now_refines json db table w id now d s z v r).1
  step_refines c d s (fits_rescue older_than now z a) v r =
      (rescue_executing_refines json db table w older_than now d s z a r).1

  -- The SQLStore refines the InMemoryStore: over any history of calls of normal work, on a database
  -- in working order whose rows hold the jobs of a store, the rows hold the jobs that the
  -- InMemoryStore has after the same calls, with the same ids given out.
  pub run_refines :
      (cs : List StoreCall) (d : D) (s : MemStore)
      → AllFit json s cs
      → IsValid s
      → Represents json db table w d s
      → Represents json db table w (sql_run json db dialect d cs) (run s (map memory_call cs))
  unfolding sql_run run
  run_refines [] d s f v r = r
  run_refines (c ∷ cs) d s f v r =
      run_refines cs (sql_step json db dialect d c) (step s (memory_call c)) f.1
        (step-IsValid s (memory_call c) v) (step_refines c d s f.0 v r)
