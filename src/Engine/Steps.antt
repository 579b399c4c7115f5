-- ===== src/Engine/Steps.antt =====
-- The engine's goroutines as steps on an InMemoryStore and the attempts that are under way. An attempt
-- holds one slot of its queue's semaphore from `dispatch` until `execute` returns, and the handler that
-- it runs ends with any error at any time. Other callers call the store in between.
use oban.Prelude.{
  ℕ, ℤ, pos, leb_ℤ, ◌≡◌, ◌≢◌, false, some, All, ◌-ℤ◌, String, List, [], ◌∷◌, ◌++◌, Option, In, map,
  count_if, if◌then◌else◌, str_eq,
}
use oban.Errors.{Err, plain}
use oban.Job.{State, Job}
use oban.Backoff.{Backoff}
use oban.Store.{MemStore, new_store, fetch_available}
use oban.JobMap.{get}
use oban.Store.Caps.{is_stuck}
use oban.Store.Ops.{
  Call, enqueues, fetches, completes, retries, discards, cancels, deletes, retries_now, snoozes,
  prunes, rescues, tags_job, clears, step,
}
use oban.StoreApi.Memory.{memory}
use oban.Engine.{settle, finish_discard}

-- An attempt under way: the queue whose slot it holds, and the job as it was fetched.
abbrev pub Attempt : Type 0
Attempt = String × Job

pub record Running : Type 0 where
  pub store : MemStore
  pub attempts : List Attempt

-- `len(sem)` of a queue.
abbrev pub used : String → List Attempt → ℕ
used queue = count_if (λ a. str_eq a.0 queue)

abbrev pub free_slots : String → ℤ → List Attempt → ℤ
free_slots queue conc attempts = conc -ℤ pos (used queue attempts)

-- `dispatch`.
unfoldable pub dispatch : String → ℤ → ℤ → Running → Running
dispatch queue conc now r =
    let free = free_slots queue conc r.attempts in
    if leb_ℤ free (pos 0)
    then r
    else let out = fetch_available queue free now r.store in
      record { store = out.1; attempts = r.attempts ++ map (λ j. (queue, j)) out.0 }

-- `a` is one of the attempts `as_`, and `rest` are the others.
pub data Leaves (a : Attempt) : List Attempt → List Attempt → Type 0 where
  first : {rest : List Attempt} → Leaves a (a ∷ rest) rest
  later :
      {b : Attempt} {as_ rest : List Attempt} → Leaves a as_ rest → Leaves a (b ∷ as_) (b ∷ rest)

-- What the calls of other callers are restricted to, if anything, by the state they find.
abbrev pub Callers : Type 1
Callers = Running → Call → Type 0

-- Any call at any time.
abbrev pub Anyone : Callers
Anyone r c = Unit

-- No attempt under way is of the job with that id.
abbrev pub NotRunning : ℕ → Running → Type 0
NotRunning id r = All (λ a. id ≢ a.1.id) r.attempts

-- No attempt under way is of a job that a rescue with that time would find stuck.
abbrev pub NoneStuck : ℤ → Running → Type 0
NoneStuck older_than r =
    All (λ a. (j : Job) → get a.1.id r.store.jobs ≡ some j → is_stuck older_than j ≡ false)
      r.attempts

-- Calls that make no job runnable while an attempt of it is under way: every call, but retries,
-- snoozes, completions and discards only of other jobs, and rescues only if no job of an attempt is
-- stuck by their measure.
pub data Sparing (r : Running) : Call → Type 0 where
  inserting : (wall : ℤ) (job : Option Job) → Sparing r (enqueues wall job)
  fetching : (queue : String) (limit now : ℤ) → Sparing r (fetches queue limit now)
  cancelling : (id : ℕ) (now : ℤ) → Sparing r (cancels id now)
  deleting : (id : ℕ) → Sparing r (deletes id)
  pruning : (states : List State) (cutoff limit : ℤ) → Sparing r (prunes states cutoff limit)
  tagging :
      (id : ℕ) (tags : List String) (meta : List (String × String))
      → Sparing r (tags_job id tags meta)
  clearing : Sparing r clears
  completing : (id : ℕ) (now : ℤ) → NotRunning id r → Sparing r (completes id now)
  retrying :
      (id : ℕ) (at_time : ℤ) (e : Option Err) (now : ℤ)
      → NotRunning id r
      → Sparing r (retries id at_time e now)
  discarding : (id : ℕ) (e : Option Err) (now : ℤ) → NotRunning id r → Sparing r (discards id e now)
  hurrying : (id : ℕ) (now : ℤ) → NotRunning id r → Sparing r (retries_now id now)
  snoozing : (id : ℕ) (until now : ℤ) → NotRunning id r → Sparing r (snoozes id until now)
  rescuing : (older_than now : ℤ) → NoneStuck older_than r → Sparing r (rescues older_than now)

module _ (queues : List (String × ℤ)) (backoff : Backoff) (callers : Callers) where
  -- `runQueue` dispatches; an attempt that `execute` runs ends by its switch, or at once without a
  -- registered worker; and other callers call the store.
  pub data Moves : Running → Running → Type 0 where
    dispatches :
        (queue : String) (conc now : ℤ) (r : Running)
        → In (queue, conc) queues
        → Moves r (dispatch queue conc now r)
    settles :
        (a : Attempt) (rest : List Attempt) (e : Option Err) (now later_on : ℤ) (r : Running)
        → Leaves a r.attempts rest
        → Moves r (record {
          store = (settle (memory now) backoff (λ s. (later_on, s)) e a.1 now r.store).1;
          attempts = rest;
        })
    unregistered :
        (a : Attempt) (rest : List Attempt) (text : String) (now : ℤ) (r : Running)
        → Leaves a r.attempts rest
        → Moves r (record {
          store = (finish_discard (memory now) backoff (λ s. (now, s)) a.1 (plain text) r.store).1;
          attempts = rest;
        })
    called : (c : Call) (r : Running) → callers r c → Moves r (record r { store = step r.store c })

  -- What the engine can reach from a store without jobs and with no attempt under way.
  pub data Reached : Running → Type 0 where
    starts : Reached (record { store = new_store; attempts = [] })
    moves : {r r' : Running} → Reached r → Moves r r' → Reached r'
