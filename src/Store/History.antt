-- ===== src/Store/History.antt =====
-- What any history of calls can do to one stored job.
use oban.Prelude.{
  ℕ, suc, ◌≤◌, ◌≡◌, ◌≢◌, refl, sym, subst, ℤ, leb_ℤ, pos, not, inl, inr, List, [], ◌∷◌, Option,
  none, some, All, String, ◌==◌, if_both, Bool-cases, Option-cases, arith,
}
use oban.Prelude.Laws.{All-of_In}
use oban.Errors.{Err}
use oban.Job.{Job, State, is_finished, executing, state_eq}
use oban.JobMap.{get, put, Distinct, get-put}
use oban.JobMap.Distinct.{get-In}
use oban.Store.{
  MemStore, enqueue, enqueue_time, insert_job, stored_job, fetch_available, candidates, start_all,
  start_job, change, complete, retry, discard, mark_completed, mark_retryable, mark_discarded,
}
use oban.Store.Caps.{
  cancel, delete, retry_now, snooze, delete_finished_before, rescue_executing, set_tags_meta,
  erase_job, prune_candidates, mark_cancelled, mark_runnable, mark_snoozed,
}
use oban.Store.Query.{clear}
use oban.Store.Ops.{
  Call, step, run, enqueues, fetches, completes, retries, discards, cancels, deletes, retries_now,
  snoozes, prunes, rescues, tags_job, clears,
}
use oban.Store.Evolves.{
  Tracks, Tracks-refl, Tracks-trans, put-Tracks, change_found-Tracks, change-Tracks,
  start_job-Evolves, mark_retryable-Evolves, mark_discarded-Evolves, mark_completed-Evolves,
  mark_cancelled-Evolves, mark_runnable-Evolves, mark_snoozed-Evolves, rescue_one-Evolves,
}
use oban.Store.Unique.{merged, added, enqueue-Outcome}
use oban.Store.Handout.{fetch_available_pos, fetch_available_nonpos}
use oban.Store.Fetch.{candidates-In, candidates-Distinct}
use oban.Store.Invariant.{IsValid, step-IsValid, erase_job-IsValid}
use oban.Store.PruneLoop.{erase_all, within, delete_finished_before_loop, get-erase_job}
use oban.Store.Rescue.{rescue_one, rescue_one-id, rescue_all-map, get-map}

-- The loop of a fetch: its candidates stand in the map until their turn.
start_all-Tracks :
    (k : ℕ) (now : ℤ) (cs js : List Job)
    → Distinct cs
    → All (λ c. get c.id js ≡ some c) cs
    → Tracks (get k js) (get k (start_all now cs js).1)
unfolding start_all
start_all-Tracks k now [] js d h = Tracks-refl (get k js)
start_all-Tracks k now (c ∷ cs) js d h =
    Tracks-trans (get k js) (get k (put (start_job now c) js))
      (get k (start_all now cs (put (start_job now c) js)).1)
      (put-Tracks (start_job now) (start_job-Evolves now) k c js h.0)
      (start_all-Tracks k now cs (put (start_job now c) js) d.1 (still cs d.0 h.1))
  where
    still :
        (bs : List Job)
        → All (λ b. b.id ≢ c.id) bs
        → All (λ b. get b.id js ≡ some b) bs
        → All (λ b. get b.id (put (start_job now c) js) ≡ some b) bs
    still [] n g = tt
    still (b ∷ bs) n g =
        (ground (arith, get-put b.id (start_job now c) js, n.0, g.0), still bs n.1 g.1)

erase_job-Tracks :
    (k id : ℕ) (s : MemStore) → IsValid s → Tracks (get k s.jobs) (get k (erase_job id s).jobs)
erase_job-Tracks k id s v =
    rw (get-erase_job k id s v)
      (if_both (Tracks (get k s.jobs)) (id == k) (λ _. tt) (λ _. Tracks-refl (get k s.jobs)))

erase_all-Tracks :
    (k : ℕ) (ids : List ℕ) (s : MemStore)
    → IsValid s
    → Tracks (get k s.jobs) (get k (erase_all ids s).jobs)
erase_all-Tracks k [] s v = Tracks-refl (get k s.jobs)
erase_all-Tracks k (id ∷ ids) s v =
    Tracks-trans (get k s.jobs) (get k (erase_job id s).jobs)
      (get k (erase_all ids (erase_job id s)).jobs) (erase_job-Tracks k id s v)
      (erase_all-Tracks k ids (erase_job id s) (erase_job-IsValid id s v))

insert_job-Tracks :
    (k : ℕ) (job : Job) (now : ℤ) (s : MemStore)
    → k ≤ s.next_id
    → Tracks (get k s.jobs) (get k (insert_job job now s).1.jobs)
insert_job-Tracks k job now s h =
    subst (Tracks (get k s.jobs)) (sym same) (Tracks-refl (get k s.jobs))
  where
    same : get k (insert_job job now s).1.jobs ≡ get k s.jobs
    same = ground (arith, get-put k (stored_job job now (suc s.next_id)) s.jobs)

enqueue-Tracks :
    (k : ℕ) (wall : ℤ) (o : Option Job) (s : MemStore)
    → k ≤ s.next_id
    → Tracks (get k s.jobs) (get k (enqueue wall o s).1.jobs)
unfolding enqueue
enqueue-Tracks k wall none s h = Tracks-refl (get k s.jobs)
enqueue-Tracks k wall (some job) s h = elim (enqueue-Outcome wall job s) [
  | merged x _ _ _ r ↦ rw r (Tracks-refl (get k s.jobs))
  | added _ r ↦ rw r (insert_job-Tracks k job (enqueue_time wall job) s h)
]

fetch_available-Tracks :
    (k : ℕ) (queue : String) (limit now : ℤ) (s : MemStore)
    → IsValid s
    → Tracks (get k s.jobs) (get k (fetch_available queue limit now s).1.jobs)
fetch_available-Tracks k queue limit now s v = elim (Bool-cases (leb_ℤ limit (pos 0))) [
  | inl e ↦ rw (fetch_available_nonpos queue limit now s e) (Tracks-refl (get k s.jobs))
  | inr e ↦ rw (fetch_available_pos queue limit now s e) (
      start_all-Tracks k now cs s.jobs (candidates-Distinct queue limit now s.jobs v.distinct) (
        All-of_In (λ c. get c.id s.jobs ≡ some c) cs
          (λ c i. get-In s.jobs c v.distinct (candidates-In queue limit now s.jobs i).0)))
]
  where
    cs : List Job
    cs = candidates queue limit now s.jobs

cancel-Tracks :
    (k id : ℕ) (now : ℤ) (s : MemStore) → Tracks (get k s.jobs) (get k (cancel id now s).1.jobs)
unfolding cancel
cancel-Tracks k id now s = elim (Option-cases (get id s.jobs)) [
  | inl e ↦ rw (e, cancel) (Tracks-refl (get k s.jobs))
  | inr (j, e) ↦
      rw (e, cancel)
        (if_both {A = Option Err × MemStore} (λ r. Tracks (get k s.jobs) (get k r.1.jobs))
          (is_finished j.state) (λ _. Tracks-refl (get k s.jobs))
          (λ _.
            change_found-Tracks (mark_cancelled now) (mark_cancelled-Evolves now) k (some j) id s
              e))
]

snooze-Tracks :
    (k id : ℕ) (until now : ℤ) (s : MemStore)
    → Tracks (get k s.jobs) (get k (snooze id until now s).1.jobs)
unfolding snooze
snooze-Tracks k id until now s = elim (Option-cases (get id s.jobs)) [
  | inl e ↦ rw (e, snooze) (Tracks-refl (get k s.jobs))
  | inr (j, e) ↦
      rw (e, snooze)
        (if_both {A = Option Err × MemStore} (λ r. Tracks (get k s.jobs) (get k r.1.jobs))
          (not (state_eq j.state executing)) (λ _. Tracks-refl (get k s.jobs))
          (λ _.
            change_found-Tracks (mark_snoozed until) (mark_snoozed-Evolves until) k (some j) id s
              e))
]

rescue_executing-Tracks :
    (k : ℕ) (older_than now : ℤ) (s : MemStore)
    → Tracks (get k s.jobs) (get k (rescue_executing older_than now s).1.jobs)
unfolding rescue_executing
rescue_executing-Tracks k older_than now s = rw (rescue_all-map older_than now s.jobs) (
    rw (get-map (rescue_one older_than now) k s.jobs (rescue_one-id older_than now))
      (elim (Option-cases (get k s.jobs)) [
        | inl e ↦ rw e tt
        | inr (j, e) ↦ rw e (rescue_one-Evolves older_than now j)
      ]))

get-nil : (k : ℕ) → get k [] ≡ none
unfolding get
get-nil k = refl

prune-Tracks :
    (k : ℕ) (sts : List State) (cutoff limit : ℤ) (s : MemStore)
    → IsValid s
    → Tracks (get k s.jobs) (get k (delete_finished_before sts cutoff limit s).1.jobs)
prune-Tracks k sts cutoff limit s v =
    rw (delete_finished_before_loop sts cutoff limit s)
      (erase_all-Tracks k (within limit 0 (prune_candidates sts cutoff s.jobs)) s v)

step-Tracks :
    (k : ℕ) (s : MemStore) (c : Call)
    → IsValid s
    → k ≤ s.next_id
    → Tracks (get k s.jobs) (get k (step s c).jobs)
unfolding step complete retry discard delete retry_now set_tags_meta clear
step-Tracks k s (enqueues wall job) v h = enqueue-Tracks k wall job s h
step-Tracks k s (fetches queue limit now) v h = fetch_available-Tracks k queue limit now s v
step-Tracks k s (completes id now) v h =
    change-Tracks (mark_completed now) (mark_completed-Evolves now) k id s
step-Tracks k s (retries id u e now) v h =
    change-Tracks (mark_retryable u e now) (mark_retryable-Evolves u e now) k id s
step-Tracks k s (discards id e now) v h =
    change-Tracks (mark_discarded e now) (mark_discarded-Evolves e now) k id s
step-Tracks k s (cancels id now) v h = cancel-Tracks k id now s
step-Tracks k s (deletes id) v h = erase_job-Tracks k id s v
step-Tracks k s (retries_now id now) v h =
    change-Tracks (mark_runnable now) (mark_runnable-Evolves now) k id s
step-Tracks k s (snoozes id until now) v h = snooze-Tracks k id until now s
step-Tracks k s (prunes sts cutoff limit) v h = prune-Tracks k sts cutoff limit s v
step-Tracks k s (rescues older_than now) v h = rescue_executing-Tracks k older_than now s
step-Tracks k s (tags_job id tags meta) v h = Tracks-refl (get k s.jobs)
step-Tracks k s clears v h = rw (get-nil k) tt

erase_all-next_id : (ids : List ℕ) (s : MemStore) → (erase_all ids s).next_id ≡ s.next_id
erase_all-next_id [] s = refl
erase_all-next_id (id ∷ ids) s = erase_all-next_id ids (erase_job id s)

prune-next_id :
    (sts : List State) (cutoff limit : ℤ) (s : MemStore)
    → (delete_finished_before sts cutoff limit s).1.next_id ≡ s.next_id
prune-next_id sts cutoff limit s =
    rw (delete_finished_before_loop sts cutoff limit s)
      (erase_all-next_id (within limit 0 (prune_candidates sts cutoff s.jobs)) s)

pub change-next_id : (id : ℕ) (f : Job → Job) (s : MemStore) → (change id f s).1.next_id ≡ s.next_id
change-next_id id f s = ground arith

-- The counter of ids never goes back.
pub step-next_id : (s : MemStore) (c : Call) → s.next_id ≤ (step s c).next_id
unfolding step enqueue fetch_available complete retry discard cancel delete retry_now snooze
    rescue_executing set_tags_meta clear
step-next_id s (enqueues wall none) = omega arith
step-next_id s (enqueues wall (some job)) = ground arith
step-next_id s (fetches queue limit now) = ground arith
step-next_id s (completes id now) = omega (arith, change-next_id id (mark_completed now) s)
step-next_id s (retries id u e now) = omega (arith, change-next_id id (mark_retryable u e now) s)
step-next_id s (discards id e now) = omega (arith, change-next_id id (mark_discarded e now) s)
step-next_id s (cancels id now) = ground arith
step-next_id s (deletes id) = omega arith
step-next_id s (retries_now id now) = omega (arith, change-next_id id (mark_runnable now) s)
step-next_id s (snoozes id until now) = ground arith
step-next_id s (prunes sts cutoff limit) = omega (arith, prune-next_id sts cutoff limit s)
step-next_id s (rescues older_than now) = omega arith
step-next_id s (tags_job id tags meta) = omega arith
step-next_id s clears = omega arith

-- Over any history, what stood under an id that was handed out either goes for good or evolves: its
-- id, queue, worker, args, attempt cap, priority, insertion time and unique key stay, and its list of
-- failed attempts only grows at the end. An id is never given to a second job.
pub run-Tracks :
    (k : ℕ) (s : MemStore) (cs : List Call)
    → IsValid s
    → k ≤ s.next_id
    → Tracks (get k s.jobs) (get k (run s cs).jobs)
unfolding run
run-Tracks k s [] v h = Tracks-refl (get k s.jobs)
run-Tracks k s (c ∷ cs) v h =
    Tracks-trans (get k s.jobs) (get k (step s c).jobs) (get k (run (step s c) cs).jobs)
      (step-Tracks k s c v h)
      (run-Tracks k (step s c) cs (step-IsValid s c v) (omega (arith, step-next_id s c)))
