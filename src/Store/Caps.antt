-- ===== src/Store/Caps.antt =====
-- inmemory_caps.go: the optional capabilities of the InMemoryStore, but for `FindConflict` (Insert).
use oban.Prelude.{
  ℕ, suc, ◌-◌, ℤ, pos, ltb_ℤ, Bool, ◌&&◌, not, String, List, [], ◌∷◌, Option, none, some, keep, map,
  ltb, ◌==◌, if◌then◌else◌,
}
use oban.Prelude.{sort_by}
use oban.Errors.{Err, err_job_not_found}
use oban.Job.{
  State, scheduled, available, executing, completed, discarded, cancelled, Job, is_finished,
  in_states, state_eq, is_zero, before, zero_time,
}
use oban.JobMap.{get, remove}
use oban.Store.{MemStore, change, change_found}

abbrev pub mark_cancelled : ℤ → Job → Job
mark_cancelled now j = record j { state = cancelled; discarded_at = now }

abbrev pub cancel_found : Option Job → ℤ → MemStore → Option Err × MemStore
cancel_found none now s = (some err_job_not_found, s)
cancel_found (some j) now s =
    if is_finished j.state then (none, s) else change_found (some j) (mark_cancelled now) s

unfoldable pub cancel : ℕ → ℤ → MemStore → Option Err × MemStore
cancel id now s = cancel_found (get id s.jobs) now s

-- `delete(m, id)` on the side tables.
abbrev pub drop_key {ℓ} : {A : Type ℓ} → ℕ → List (ℕ × A) → List (ℕ × A)
drop_key k [] = []
drop_key k ((i, a) ∷ m) = if i == k then drop_key k m else (i, a) ∷ drop_key k m

abbrev pub find_key {ℓ} : {A : Type ℓ} → ℕ → List (ℕ × A) → Option A
find_key k [] = none
find_key k ((i, a) ∷ m) = if i == k then some a else find_key k m

-- Removes a job with its tags and meta.
abbrev pub erase_job : ℕ → MemStore → MemStore
erase_job id s = record s {
  jobs = remove id s.jobs;
  tags = drop_key id s.tags;
  metas = drop_key id s.metas;
}

unfoldable pub delete : ℕ → MemStore → Option Err × MemStore
delete id s = (none, erase_job id s)

abbrev pub mark_runnable : ℤ → Job → Job
mark_runnable now j = record j {
  state = available;
  scheduled_at = now;
  completed_at = zero_time;
  discarded_at = zero_time;
}

unfoldable pub retry_now : ℕ → ℤ → MemStore → Option Err × MemStore
retry_now id now = change id (mark_runnable now)

-- `if j.Attempt > 0 { j.Attempt-- }` is the truncated difference.
abbrev pub mark_snoozed : ℤ → Job → Job
mark_snoozed until j = record j {
  state = scheduled;
  scheduled_at = until;
  attempt = if ltb 0 j.attempt then j.attempt - 1 else j.attempt;
}

abbrev pub snooze_found : Option Job → ℤ → MemStore → Option Err × MemStore
snooze_found none until s = (some err_job_not_found, s)
snooze_found (some j) until s =
    if not (state_eq j.state executing)
    then (none, s)
    else change_found (some j) (mark_snoozed until) s

unfoldable pub snooze : ℕ → ℤ → ℤ → MemStore → Option Err × MemStore
snooze id until now s = snooze_found (get id s.jobs) until s

abbrev or_inserted : ℤ → Job → ℤ
or_inserted t j = if not (is_zero t) then t else j.inserted_at

abbrev finish_time_in : State → Job → ℤ
finish_time_in completed j = or_inserted j.completed_at j
finish_time_in discarded j = or_inserted j.discarded_at j
finish_time_in cancelled j = or_inserted j.discarded_at j
finish_time_in _ j = j.inserted_at

-- `inmemFinishTime`.
unfoldable pub finish_time : Job → ℤ
finish_time j = finish_time_in j.state j

abbrev pub prunable : List State → ℤ → Job → Bool
prunable states cutoff j = in_states states j.state && before (finish_time j) cutoff

-- The loop over the sorted ids, with the number removed so far.
unfoldable pub prune_ids : ℤ → ℕ → List ℕ → MemStore → ℕ × MemStore
prune_ids limit n [] s = (n, s)
prune_ids limit n (id ∷ ids) s =
    let rest = prune_ids limit (suc n) ids (erase_job id s) in
    if ltb_ℤ (pos 0) limit && not (ltb_ℤ (pos n) limit) then (n, s) else rest

unfoldable pub prune_candidates : List State → ℤ → List Job → List ℕ
prune_candidates states cutoff jobs =
    sort_by ltb (map (λ j. j.id) (keep (prunable states cutoff) jobs))

unfoldable pub delete_finished_before : List State → ℤ → ℤ → MemStore → ℕ × MemStore
delete_finished_before states cutoff limit s =
    prune_ids limit 0 (prune_candidates states cutoff s.jobs) s

abbrev pub is_stuck : ℤ → Job → Bool
is_stuck older_than j = state_eq j.state executing && before j.attempted_at older_than

abbrev pub has_attempts : Job → Bool
has_attempts j = ltb_ℤ (pos j.attempt) j.max_attempts

abbrev pub rescue_job : ℤ → Job → Job
rescue_job now j =
    if has_attempts j
    then record j { state = available; scheduled_at = now }
    else record j { state = discarded; discarded_at = now }

-- The jobs, and the counts of those rescued and those discarded.
unfoldable pub rescue_all : ℤ → ℤ → List Job → List Job × ℕ × ℕ
rescue_all older_than now [] = ([], 0, 0)
rescue_all older_than now (j ∷ js) =
    let rest = rescue_all older_than now js in
    if not (is_stuck older_than j)
    then (j ∷ rest.0, rest.1, rest.2)
    else if has_attempts j
    then (rescue_job now j ∷ rest.0, suc rest.1, rest.2)
    else (rescue_job now j ∷ rest.0, rest.1, suc rest.2)

unfoldable pub rescue_executing : ℤ → ℤ → MemStore → (ℕ × ℕ) × MemStore
rescue_executing older_than now s =
    let out = rescue_all older_than now s.jobs in ((out.1, out.2), record s { jobs = out.0 })

abbrev pub set_key {ℓ} : {A : Type ℓ} → ℕ → List A → List (ℕ × List A) → List (ℕ × List A)
set_key id [] m = drop_key id m
set_key id (a ∷ as_) m = (id, a ∷ as_) ∷ drop_key id m

unfoldable pub set_tags_meta :
    ℕ → List String → List (String × String) → MemStore → Option Err × MemStore
set_tags_meta id tags meta s =
    (none, record s { tags = set_key id tags s.tags; metas = set_key id meta s.metas })

abbrev pub or_empty {ℓ} : {A : Type ℓ} → Option (List A) → List A
or_empty none = []
or_empty (some xs) = xs

unfoldable pub tags_meta : ℕ → MemStore → List String × List (String × String)
tags_meta id s = (or_empty (find_key id s.tags), or_empty (find_key id s.metas))
