-- ===== src/Engine/Outside.antt =====
-- The calls of other callers and the jobs that attempts under way hold (inmemory_caps.go, store.go).
use oban.Prelude.{
  ℕ, suc, ◌≡◌, ◌≢◌, refl, sym, subst, ap, ℤ, pos, ltb_ℤ, false, ◌&&◌, not, ◌==◌, List, [], ◌∷◌,
  Option, none, some, In, inl, inr, if_both, if◌then◌else◌, Option-cases, arith,
}
use oban.Prelude.Laws.{In-All}
use oban.Errors.{Err}
use oban.Job.{Job, is_finished, state_eq, executing}
use oban.JobMap.{get, put, get-put, get-id}
use oban.Store.{
  MemStore, enqueue, enqueue_time, stored_job, change, complete, retry, discard, mark_completed,
  mark_retryable, mark_discarded,
}
use oban.Store.Caps.{
  cancel, mark_cancelled, delete, erase_job, prune_ids, delete_finished_before, set_tags_meta,
  retry_now, mark_runnable, snooze, mark_snoozed, rescue_executing, is_stuck,
}
use oban.Store.Query.{clear}
use oban.Store.Ops.{Call, step}
use oban.Store.Invariant.{IsValid, erase_job-IsValid}
use oban.Store.Unique.{enqueue-Outcome, merged, added}
use oban.Store.PruneLoop.{get-erase_job}
use oban.Store.Rescue.{rescue_one, rescue_one-id, rescue_all-map, get-map}
use oban.Store.History.{step-next_id}
use oban.Engine.Steps.{
  Attempt, Running, Sparing, NotRunning, inserting, fetching, cancelling, deleting, pruning,
  tagging, clearing, completing, retrying, discarding, hurrying, snoozing, rescuing,
}
use oban.Engine.Held.{Unfetchable, Held, get-change_ne, record_failure-id}
use oban.Engine.Fetched.{stays-Held}

enqueue-Unfetchable :
    (wall : ℤ) (job : Option Job) (k : ℕ) (s : MemStore)
    → Held k s
    → Unfetchable (get k (enqueue wall job s).1.jobs)
unfolding enqueue
enqueue-Unfetchable wall none k s h = h.1
enqueue-Unfetchable wall (some job) k s h = elim (enqueue-Outcome wall job s) [
  | merged x _ _ _ r ↦
      subst (λ (o : List Job). Unfetchable (get k o)) (sym (ap (λ r. r.1.jobs) r)) h.1
  | added _ r ↦
      subst (λ (o : List Job). Unfetchable (get k o)) (sym (ap (λ r. r.1.jobs) r))
        (subst Unfetchable
          (sym (fresh (stored_job job (enqueue_time wall job) (suc s.next_id)) refl)) h.1)
]
  where
    fresh : (j : Job) → j.id ≡ suc s.next_id → get k (put j s.jobs) ≡ get k s.jobs
    fresh j e = ground (arith, get-put k j s.jobs, h.0)

cancel-Unfetchable :
    (id : ℕ) (now : ℤ) (k : ℕ) (s : MemStore)
    → Unfetchable (get k s.jobs)
    → Unfetchable (get k (cancel id now s).1.jobs)
unfolding cancel
cancel-Unfetchable id now k s h = elim (Option-cases (get id s.jobs)) [
  | inl e ↦ rw (e, cancel) h
  | inr (j, e) ↦
      rw (e, cancel)
        (if_both {A = Option Err × MemStore} (λ r. Unfetchable (get k r.1.jobs))
          (is_finished j.state) (λ _. h)
          (λ _.
            rw (get-put k (mark_cancelled now j) s.jobs)
              (if_both Unfetchable (j.id == k) (λ _. refl) (λ _. h))))
]

prune_ids-Unfetchable :
    (limit : ℤ) (n : ℕ) (ids : List ℕ) (k : ℕ) (s : MemStore)
    → IsValid s
    → Unfetchable (get k s.jobs)
    → Unfetchable (get k (prune_ids limit n ids s).1.jobs)
unfolding prune_ids
prune_ids-Unfetchable limit n [] k s v h = h
prune_ids-Unfetchable limit n (id ∷ ids) k s v h =
    if_both {A = ℕ × MemStore} (λ r. Unfetchable (get k r.1.jobs))
      (ltb_ℤ (pos 0) limit && not (ltb_ℤ (pos n) limit)) (λ _. h)
      (λ _.
        prune_ids-Unfetchable limit (suc n) ids k (erase_job id s) (erase_job-IsValid id s v)
          (erased id k s v h))
  where
    erased :
        (id k : ℕ) (s : MemStore)
        → IsValid s
        → Unfetchable (get k s.jobs)
        → Unfetchable (get k (erase_job id s).jobs)
    erased id k s v h =
        rw (get-erase_job k id s v) (if_both Unfetchable (id == k) (λ _. tt) (λ _. h))

change-Unfetchable :
    (id k : ℕ) (f : Job → Job) (s : MemStore)
    → ((i : Job) → (f i).id ≡ i.id)
    → id ≢ k
    → Unfetchable (get k s.jobs)
    → Unfetchable (get k (change id f s).1.jobs)
change-Unfetchable id k f s keeps n h = subst Unfetchable (sym (get-change_ne id k f s keeps n)) h

snooze-Unfetchable :
    (id : ℕ) (until now : ℤ) (k : ℕ) (s : MemStore)
    → id ≢ k
    → Unfetchable (get k s.jobs)
    → Unfetchable (get k (snooze id until now s).1.jobs)
unfolding snooze
snooze-Unfetchable id until now k s n h = elim (Option-cases (get id s.jobs)) [
  | inl e ↦ rw (e, snooze) h
  | inr (j, e) ↦
      rw (e, snooze)
        (if_both {A = Option Err × MemStore} (λ r. Unfetchable (get k r.1.jobs))
          (not (state_eq j.state executing)) (λ _. h)
          (λ _.
            subst Unfetchable
              (sym (other j (get-put k (mark_snoozed until j) s.jobs) (get-id id s.jobs j e))) h))
]
  where
    other :
        (j : Job)
        → get k (put (mark_snoozed until j) s.jobs)
          ≡ (if j.id == k then some (mark_snoozed until j) else get k s.jobs)
        → j.id ≡ id
        → get k (put (mark_snoozed until j) s.jobs) ≡ get k s.jobs
    other j e i = ground (arith, e, i, n)

rescue-Unfetchable :
    (older_than now : ℤ) (k : ℕ) (s : MemStore)
    → ((j : Job) → get k s.jobs ≡ some j → is_stuck older_than j ≡ false)
    → Unfetchable (get k s.jobs)
    → Unfetchable (get k (rescue_executing older_than now s).1.jobs)
unfolding rescue_executing rescue_one
rescue-Unfetchable older_than now k s n h = rw (rescue_all-map older_than now s.jobs) (
    rw (get-map (rescue_one older_than now) k s.jobs (rescue_one-id older_than now))
      (elim (Option-cases (get k s.jobs)) [
        | inl e ↦ rw e tt
        | inr (j, e) ↦ rw e (rw (n j e) (rw e at h))
      ]))

cleared : (k : ℕ) → Unfetchable (get k [])
unfolding get
cleared k = tt

-- A call that spares the attempts under way leaves each of them its job.
pub outside-Held :
    (r : Running) (a : Attempt) (c : Call)
    → In a r.attempts
    → Sparing r c
    → IsValid r.store
    → Held a.1.id r.store
    → Held a.1.id (step r.store c)
unfolding step delete set_tags_meta delete_finished_before complete retry discard retry_now clear
outside-Held r a c i o v h = (omega (arith, step-next_id r.store c, h.0), kept c o)
  where
    other : {id : ℕ} → NotRunning id r → id ≢ a.1.id
    other {id} n = In-All (λ b. id ≢ b.1.id) r.attempts i n

    kept : (c : Call) → Sparing r c → Unfetchable (get a.1.id (step r.store c).jobs)
    kept c (inserting wall job) = enqueue-Unfetchable wall job a.1.id r.store h
    kept c (fetching queue limit now) = (stays-Held queue limit now r.store v a.1.id h).1
    kept c (cancelling id now) = cancel-Unfetchable id now a.1.id r.store h.1
    kept c (deleting id) =
        rw (get-erase_job a.1.id id r.store v)
          (if_both Unfetchable (id == a.1.id) (λ _. tt) (λ _. h.1))
    kept c (pruning states cutoff limit) = prune_ids-Unfetchable limit 0 _ a.1.id r.store v h.1
    kept c (tagging id tags meta) = h.1
    kept c clearing = cleared a.1.id
    kept c (completing id now n) =
        change-Unfetchable id a.1.id (mark_completed now) r.store (λ i. refl) (other n) h.1
    kept c (retrying id at_time e now n) =
        change-Unfetchable id a.1.id (mark_retryable at_time e now) r.store
          (record_failure-id e now) (other n) h.1
    kept c (discarding id e now n) =
        change-Unfetchable id a.1.id (mark_discarded e now) r.store (record_failure-id e now)
          (other n) h.1
    kept c (hurrying id now n) =
        change-Unfetchable id a.1.id (mark_runnable now) r.store (λ i. refl) (other n) h.1
    kept c (snoozing id until now n) = snooze-Unfetchable id until now a.1.id r.store (other n) h.1
    kept c (rescuing older_than now n) =
        rescue-Unfetchable older_than now a.1.id r.store
          (In-All
            (λ b. (j : Job) → get b.1.id r.store.jobs ≡ some j → is_stuck older_than j ≡ false)
            r.attempts i n)
          h.1
