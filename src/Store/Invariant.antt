-- ===== src/Store/Invariant.antt =====
-- The well-formedness of an InMemoryStore: no id twice, and every id was handed out by the counter.
use oban.Prelude.{
  ℕ, suc, ◌≤◌, ◌≡◌, refl, not, ℤ, leb_ℤ, ltb_ℤ, ltb, ◌&&◌, pos, pos_part, length, String, Bool,
  List, [], ◌∷◌, Option, none, some, All, if_both, Option-cases, inl, inr, arith,
}
use oban.Prelude.Laws.{keep-All, sort_by-All, take-All, All-weaken}
use oban.Errors.{Err, Result}
use oban.Job.{Job, is_finished, state_eq, executing}
use oban.JobMap.{get, put, Distinct, get-All, put-All, remove-All, put-Distinct, remove-Distinct}
use oban.Store.{
  MemStore, new_store, enqueue, enqueue_new, enqueue_time, insert_job, is_unique, find_unique,
  fetch_available, candidates, start_all, start_job, runnable, runs_before, cut, change,
  change_found, complete, retry, discard, mark_completed, mark_retryable, mark_discarded,
  record_failure, stored_job,
}
use oban.Store.Caps.{
  cancel, delete, retry_now, snooze, delete_finished_before, rescue_executing, set_tags_meta,
  erase_job, prune_ids, mark_cancelled, mark_runnable, mark_snoozed,
}
use oban.Store.Query.{clear}
use oban.Store.Rescue.{rescue_one, rescue_all-map, rescue_one-id, map-All, map-Distinct}
use oban.Store.Ops.{
  Call, step, run, enqueues, fetches, completes, retries, discards, cancels, deletes, retries_now,
  snoozes, prunes, rescues, tags_job, clears,
}

abbrev pub IsIssued : ℕ → Job → Type 0
IsIssued n j = (1 ≤ j.id) × (j.id ≤ n)

pub record IsValid (s : MemStore) : Type 0 where
  pub distinct : Distinct s.jobs
  pub issued : All (IsIssued s.next_id) s.jobs

put-IsValid :
    (s : MemStore) (j : Job)
    → IsIssued s.next_id j
    → IsValid s
    → IsValid (record s { jobs = put j s.jobs })
put-IsValid s j h v = record {
  distinct = put-Distinct j s.jobs v.distinct;
  issued = put-All (IsIssued s.next_id) j s.jobs h v.issued;
}

pub erase_job-IsValid : (id : ℕ) (s : MemStore) → IsValid s → IsValid (erase_job id s)
erase_job-IsValid id s v = record {
  distinct = remove-Distinct id s.jobs v.distinct;
  issued = remove-All (IsIssued s.next_id) id s.jobs v.issued;
}

-- A change through the pointer found under an id, by a function that keeps the job's id.
module _ (f : Job → Job) (keeps : (j : Job) → (f j).id ≡ j.id) where
  pub change_found-IsValid :
      (id : ℕ) (s : MemStore) (o : Option Job)
      → get id s.jobs ≡ o
      → IsValid s
      → IsValid (change_found o f s).1
  change_found-IsValid id s none e v = v
  change_found-IsValid id s (some j) e v =
      let old = get-All (IsIssued s.next_id) id s.jobs j v.issued e in
      put-IsValid s (f j) (omega (arith, keeps j, old)) v

  pub change-IsValid : (id : ℕ) (s : MemStore) → IsValid s → IsValid (change id f s).1
  change-IsValid id s v = change_found-IsValid id s (get id s.jobs) refl v

insert_job-IsValid :
    (job : Job) (now : ℤ) (s : MemStore) → IsValid s → IsValid (insert_job job now s).1
insert_job-IsValid job now s v =
    put-IsValid (record s { next_id = suc s.next_id }) (stored_job job now (suc s.next_id))
      (omega arith)
      (record {
        distinct = v.distinct;
        issued =
            All-weaken (IsIssued s.next_id) (IsIssued (suc s.next_id)) s.jobs (λ j h. omega arith)
              v.issued;
      })

enqueue_new-IsValid :
    (o : Option Job) (job : Job) (now : ℤ) (s : MemStore)
    → IsValid s
    → IsValid (enqueue_new o job now s).1
enqueue_new-IsValid none job now s v = insert_job-IsValid job now s v
enqueue_new-IsValid (some existing) job now s v = v

pub enqueue-IsValid :
    (wall : ℤ) (o : Option Job) (s : MemStore) → IsValid s → IsValid (enqueue wall o s).1
unfolding enqueue
enqueue-IsValid wall none s v = v
enqueue-IsValid wall (some job) s v =
    let now = enqueue_time wall job in
    if_both {A = Result (Job × Bool) × MemStore} (λ r. IsValid r.1) (is_unique job)
      (λ _. enqueue_new-IsValid (find_unique job now s.jobs) job now s v)
      (λ _. insert_job-IsValid job now s v)

cut-All : (P : Job → Type 0) (limit : ℤ) (cs : List Job) → All P cs → All P (cut limit cs)
cut-All P limit cs h =
    if_both (All P) (ltb (pos_part limit) (length cs)) (λ _. take-All P (pos_part limit) cs h)
      (λ _. h)

pub candidates-All :
    (P : Job → Type 0) (queue : String) (limit now : ℤ) (jobs : List Job)
    → All P jobs
    → All P (candidates queue limit now jobs)
unfolding candidates
candidates-All P queue limit now jobs h =
    cut-All P limit _ (sort_by-All runs_before P _ (keep-All (runnable queue now) P jobs h))

start_all-IsValid :
    (now : ℤ) (cs : List Job) (s : MemStore)
    → All (IsIssued s.next_id) cs
    → IsValid s
    → IsValid (record s { jobs = (start_all now cs s.jobs).1 })
unfolding start_all
start_all-IsValid now [] s h v = v
start_all-IsValid now (c ∷ cs) s h v =
    start_all-IsValid now cs (record s { jobs = put (start_job now c) s.jobs }) h.1
      (put-IsValid s (start_job now c) h.0 v)

pub fetch_available-IsValid :
    (queue : String) (limit now : ℤ) (s : MemStore)
    → IsValid s
    → IsValid (fetch_available queue limit now s).1
unfolding fetch_available
fetch_available-IsValid queue limit now s v =
    if_both {A = List Job × MemStore} (λ r. IsValid r.1) (leb_ℤ limit (pos 0)) (λ _. v)
      (λ _.
        start_all-IsValid now (candidates queue limit now s.jobs) s
          (candidates-All (IsIssued s.next_id) queue limit now s.jobs v.issued) v)

record_failure-id : (o : Option Err) (now : ℤ) (j : Job) → (record_failure o now j).id ≡ j.id
record_failure-id none now j = refl
record_failure-id (some e) now j = refl

pub cancel-IsValid : (id : ℕ) (now : ℤ) (s : MemStore) → IsValid s → IsValid (cancel id now s).1
unfolding cancel
cancel-IsValid id now s v = elim (Option-cases (get id s.jobs)) [
  | inl e ↦ rw (e, cancel) v
  | inr (j, e) ↦
      rw (e, cancel)
        (if_both {A = Option Err × MemStore} (λ r. IsValid r.1) (is_finished j.state) (λ _. v)
          (λ _. change_found-IsValid (mark_cancelled now) (λ i. refl) id s (some j) e v))
]

snooze-IsValid :
    (id : ℕ) (until now : ℤ) (s : MemStore) → IsValid s → IsValid (snooze id until now s).1
unfolding snooze
snooze-IsValid id until now s v = elim (Option-cases (get id s.jobs)) [
  | inl e ↦ rw (e, snooze) v
  | inr (j, e) ↦
      rw (e, snooze)
        (if_both {A = Option Err × MemStore} (λ r. IsValid r.1) (not (state_eq j.state executing))
          (λ _. v) (λ _. change_found-IsValid (mark_snoozed until) (λ i. refl) id s (some j) e v))
]

prune_ids-IsValid :
    (limit : ℤ) (n : ℕ) (ids : List ℕ) (s : MemStore)
    → IsValid s
    → IsValid (prune_ids limit n ids s).1
unfolding prune_ids
prune_ids-IsValid limit n [] s v = v
prune_ids-IsValid limit n (id ∷ ids) s v =
    if_both {A = ℕ × MemStore} (λ r. IsValid r.1) (ltb_ℤ (pos 0) limit && not (ltb_ℤ (pos n) limit))
      (λ _. v)
      (λ _. prune_ids-IsValid limit (suc n) ids (erase_job id s) (erase_job-IsValid id s v))

rescue_executing-IsValid :
    (older_than now : ℤ) (s : MemStore) → IsValid s → IsValid (rescue_executing older_than now s).1
unfolding rescue_executing
rescue_executing-IsValid older_than now s v = rw (rescue_all-map older_than now s.jobs) (record {
  distinct =
      map-Distinct (rescue_one older_than now) s.jobs (rescue_one-id older_than now) v.distinct;
  issued =
      map-All (IsIssued s.next_id) (rescue_one older_than now) s.jobs
        (λ j h. omega (arith, rescue_one-id older_than now j)) v.issued;
})

-- Every call keeps the ids distinct, positive and below the counter.
pub step-IsValid : (s : MemStore) (c : Call) → IsValid s → IsValid (step s c)
unfolding step complete retry discard delete retry_now delete_finished_before set_tags_meta clear
step-IsValid s (enqueues wall job) v = enqueue-IsValid wall job s v
step-IsValid s (fetches queue limit now) v = fetch_available-IsValid queue limit now s v
step-IsValid s (completes id now) v = change-IsValid (mark_completed now) (λ j. refl) id s v
step-IsValid s (retries id at_time e now) v =
    change-IsValid (mark_retryable at_time e now) (record_failure-id e now) id s v
step-IsValid s (discards id e now) v =
    change-IsValid (mark_discarded e now) (record_failure-id e now) id s v
step-IsValid s (cancels id now) v = cancel-IsValid id now s v
step-IsValid s (deletes id) v = erase_job-IsValid id s v
step-IsValid s (retries_now id now) v = change-IsValid (mark_runnable now) (λ j. refl) id s v
step-IsValid s (snoozes id until now) v = snooze-IsValid id until now s v
step-IsValid s (prunes sts cutoff limit) v = prune_ids-IsValid limit 0 _ s v
step-IsValid s (rescues older_than now) v = rescue_executing-IsValid older_than now s v
step-IsValid s (tags_job id tags meta) v = record { distinct = v.distinct; issued = v.issued }
step-IsValid s clears v = record { distinct = tt; issued = tt }

run-IsValid : (s : MemStore) (cs : List Call) → IsValid s → IsValid (run s cs)
unfolding run
run-IsValid s [] v = v
run-IsValid s (c ∷ cs) v = run-IsValid (step s c) cs (step-IsValid s c v)

-- After any calls on a new store, no two jobs share an id, and every id lies between 1 and the
-- counter.
pub run-new_store-IsValid : (cs : List Call) → IsValid (run new_store cs)
unfolding new_store
run-new_store-IsValid cs = run-IsValid new_store cs (record { distinct = tt; issued = tt })
