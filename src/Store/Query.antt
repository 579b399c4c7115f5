-- ===== src/Store/Query.antt =====
-- query.go and inmemory_query.go: job filters, and the read-only queries of the InMemoryStore.
use oban.Prelude.{
  ℕ, suc, ℤ, ltb_ℤ, Bool, true, false, ◌&&◌, not, String, List, [], ◌∷◌, Option, none, some, keep,
  length, sort_by, count_if, if◌then◌else◌, str_eq,
}
use oban.Job.{State, Job, in_states, state_eq, is_zero, before, after}
use oban.Store.{MemStore, id_before}

pub record JobFilter : Type 0 where
  pub queue : String
  pub worker : String
  pub states : List State
  pub min_priority : Option ℤ
  pub max_priority : Option ℤ
  pub inserted_after : ℤ
  pub inserted_before : ℤ

abbrev pub state_allowed : List State → State → Bool
state_allowed [] s = true
state_allowed (t ∷ ts) s = in_states (t ∷ ts) s

abbrev pub at_least : Option ℤ → ℤ → Bool
at_least none p = true
at_least (some m) p = not (ltb_ℤ p m)

abbrev pub at_most : Option ℤ → ℤ → Bool
at_most none p = true
at_most (some m) p = not (ltb_ℤ m p)

-- `Matches` on a job that is not nil: each guard that returns false, in order.
unfoldable pub filter_matches : JobFilter → Job → Bool
filter_matches f job =
    if not (str_eq f.queue "") && not (str_eq job.queue f.queue)
    then false
    else if not (str_eq f.worker "") && not (str_eq job.worker f.worker)
    then false
    else if not (state_allowed f.states job.state)
    then false
    else if not (at_least f.min_priority job.priority)
    then false
    else if not (at_most f.max_priority job.priority)
    then false
    else if not (is_zero f.inserted_after) && not (after job.inserted_at f.inserted_after)
    then false
    else if not (is_zero f.inserted_before) && not (before job.inserted_at f.inserted_before)
    then false
    else true

-- `List`, and the snapshot that `ListJobs` filters for a store that has only `All`.
unfoldable pub list_jobs : JobFilter → MemStore → List Job
list_jobs f s = sort_by id_before (keep (filter_matches f) s.jobs)

unfoldable pub count_jobs : JobFilter → MemStore → ℕ
unfolding list_jobs
count_jobs f s = length (list_jobs f s)

unfoldable pub len : MemStore → ℕ
len s = length s.jobs

unfoldable pub clear : MemStore → MemStore
clear s = record s { jobs = []; tags = []; metas = [] }

unfoldable pub count_by_queue : String → MemStore → ℕ
count_by_queue q s = count_if (λ j. str_eq j.queue q) s.jobs

-- `out[st]++` on an association list.
abbrev pub bump_state : State → List (State × ℕ) → List (State × ℕ)
bump_state st [] = (st, 1) ∷ []
bump_state st ((t, n) ∷ m) = if state_eq t st then (t, suc n) ∷ m else (t, n) ∷ bump_state st m

abbrev pub histogram : List Job → List (State × ℕ) → List (State × ℕ)
histogram [] m = m
histogram (j ∷ js) m = histogram js (bump_state j.state m)

unfoldable pub states : MemStore → List (State × ℕ)
states s = histogram s.jobs []
