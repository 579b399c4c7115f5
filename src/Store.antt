-- ===== src/Store.antt =====
-- InMemoryStore (store.go): the state and the methods of the `Store` interface. A method takes the
-- state under the mutex and returns the new one; `time.Now()` is the argument `wall`.
pub mod Caps
pub mod Query
pub mod Select
pub mod Ops
pub mod Invariant
pub mod Fetch
pub mod Handout
pub mod MapOrder
pub mod Unique
pub mod Evolves
pub mod History
pub mod PruneLoop
pub mod PruneCount
pub mod Prune
pub mod Pruned
pub mod Rescue
pub mod Override
use oban.Prelude.{
  ℕ, suc, ◌+◌, ℤ, pos, pos_part, ltb_ℤ, leb_ℤ, eqb_ℤ, ◌+ℤ◌, ◌-ℤ◌, String, Bool, true, false, ◌&&◌,
  not, List, [], ◌∷◌, Option, none, some, length, take, keep, find_first, count_if, sort_by, ltb,
  ◌==◌, if◌then◌else◌, str_eq,
}
use oban.Errors.{Err, Result, ok, err, plain, err_job_not_found}
use oban.Job.{
  State, scheduled, available, executing, retryable, completed, discarded, Job, state_eq, fetchable,
  unfinished, is_zero, before, after, record_error,
}
use oban.JobMap.{get, put}

-- Values of `meta` are kept as texts: the store only copies them.
pub record MemStore : Type 0 where
  pub jobs : List Job
  pub next_id : ℕ
  pub tags : List (ℕ × List String)
  pub metas : List (ℕ × List (String × String))

unfoldable pub new_store : MemStore
new_store = record { jobs = []; next_id = 0; tags = []; metas = [] }

-- The test of `findUnique` on one job of the map.
abbrev pub conflicts : Job → ℤ → Job → Bool
conflicts job now existing =
    str_eq existing.queue job.queue
    && str_eq existing.worker job.worker
    && str_eq existing.unique_key job.unique_key
    && unfinished existing.state
    && not (before existing.inserted_at (now -ℤ job.unique_period))

unfoldable pub find_unique : Job → ℤ → List Job → Option Job
find_unique job now = find_first (conflicts job now)

abbrev pub is_unique : Job → Bool
is_unique job = not (str_eq job.unique_key "") && ltb_ℤ (pos 0) job.unique_period

abbrev pub requested_at : Job → ℤ → ℤ
requested_at job now = if job.has_schedule_in then now +ℤ job.schedule_in else job.scheduled_at

-- The schedule that `Enqueue` stores: relative delay first, then the zero time's default.
abbrev pub resolve_schedule : Job → ℤ → ℤ
resolve_schedule job now = if is_zero (requested_at job now) then now else requested_at job now

abbrev pub stored_job : Job → ℤ → ℕ → Job
stored_job job now id = record job {
  id = id;
  inserted_at = now;
  scheduled_at = resolve_schedule job now;
  state = if after (resolve_schedule job now) now then scheduled else available;
}

abbrev pub insert_job : Job → ℤ → MemStore → Result (Job × Bool) × MemStore
insert_job job now s =
    let stored = stored_job job now (suc s.next_id) in
    (ok (stored, true), record s { jobs = put stored s.jobs; next_id = suc s.next_id })

abbrev pub enqueue_new : Option Job → Job → ℤ → MemStore → Result (Job × Bool) × MemStore
enqueue_new (some existing) job now s = (ok (existing, false), s)
enqueue_new none job now s = insert_job job now s

abbrev pub enqueue_time : ℤ → Job → ℤ
enqueue_time wall job = if is_zero job.inserted_at then wall else job.inserted_at

abbrev pub enqueue_job : Job → ℤ → MemStore → Result (Job × Bool) × MemStore
enqueue_job job now s =
    if is_unique job
    then enqueue_new (find_unique job now s.jobs) job now s
    else insert_job job now s

unfoldable pub enqueue : ℤ → Option Job → MemStore → Result (Job × Bool) × MemStore
enqueue wall none s = (err (plain "oban: cannot enqueue nil job"), s)
enqueue wall (some job) s = enqueue_job job (enqueue_time wall job) s

abbrev pub runnable : String → ℤ → Job → Bool
runnable queue now j = str_eq j.queue queue && fetchable j.state && not (after j.scheduled_at now)

-- The order of `FetchAvailable`: priority, then schedule, then id.
abbrev pub runs_before : Job → Job → Bool
runs_before a b =
    if not (eqb_ℤ a.priority b.priority)
    then ltb_ℤ a.priority b.priority
    else if not (eqb_ℤ a.scheduled_at b.scheduled_at)
    then before a.scheduled_at b.scheduled_at
    else ltb a.id b.id

-- `candidates[:limit]`.
abbrev pub cut : ℤ → List Job → List Job
cut limit cs = if ltb (pos_part limit) (length cs) then take (pos_part limit) cs else cs

unfoldable pub candidates : String → ℤ → ℤ → List Job → List Job
candidates queue limit now jobs = cut limit (sort_by runs_before (keep (runnable queue now) jobs))

abbrev pub start_job : ℤ → Job → Job
start_job now j = record j { state = executing; attempt = suc j.attempt; attempted_at = now }

-- The loop over the candidates, which are pointers into the map.
unfoldable pub start_all : ℤ → List Job → List Job → List Job × List Job
start_all now [] jobs = ([], jobs)
start_all now (c ∷ cs) jobs =
    let rest = start_all now cs (put (start_job now c) jobs) in (start_job now c ∷ rest.0, rest.1)

unfoldable pub fetch_available : String → ℤ → ℤ → MemStore → List Job × MemStore
fetch_available queue limit now s =
    if leb_ℤ limit (pos 0)
    then ([], s)
    else let started = start_all now (candidates queue limit now s.jobs) s.jobs in
      (started.0, record s { jobs = started.1 })

-- `j, ok := s.jobs[id]`, then a change through `j`.
abbrev pub change_found : Option Job → (Job → Job) → MemStore → Option Err × MemStore
change_found none f s = (some err_job_not_found, s)
change_found (some j) f s = (none, record s { jobs = put (f j) s.jobs })

abbrev pub change : ℕ → (Job → Job) → MemStore → Option Err × MemStore
change id f s = change_found (get id s.jobs) f s

abbrev pub mark_completed : ℤ → Job → Job
mark_completed now j = record j { state = completed; completed_at = now }

unfoldable pub complete : ℕ → ℤ → MemStore → Option Err × MemStore
complete id now = change id (mark_completed now)

abbrev pub record_failure : Option Err → ℤ → Job → Job
record_failure none now j = j
record_failure (some e) now j = record_error e now j

abbrev pub mark_retryable : ℤ → Option Err → ℤ → Job → Job
mark_retryable scheduled_at last_err now j = record (record_failure last_err now j) {
  state = retryable;
  scheduled_at = scheduled_at;
}

unfoldable pub retry : ℕ → ℤ → Option Err → ℤ → MemStore → Option Err × MemStore
retry id scheduled_at last_err now = change id (mark_retryable scheduled_at last_err now)

abbrev pub mark_discarded : Option Err → ℤ → Job → Job
mark_discarded last_err now j = record (record_failure last_err now j) {
  state = discarded;
  discarded_at = now;
}

unfoldable pub discard : ℕ → Option Err → ℤ → MemStore → Option Err × MemStore
discard id last_err now = change id (mark_discarded last_err now)

abbrev pub found_job : Option Job → Result Job
found_job none = err err_job_not_found
found_job (some j) = ok j

unfoldable pub get_job : ℕ → MemStore → Result Job
get_job id s = found_job (get id s.jobs)

abbrev pub id_before : Job → Job → Bool
id_before a b = ltb a.id b.id

-- `All`.
unfoldable pub all_jobs : MemStore → List Job
all_jobs s = sort_by id_before s.jobs

unfoldable pub count_by_state : State → MemStore → ℕ
count_by_state st s = count_if (λ j. state_eq j.state st) s.jobs
