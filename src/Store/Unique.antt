-- ===== src/Store/Unique.antt =====
-- `Enqueue` (store.go): de-duplication by unique key, ids, and the way from an insert to a fetch.
use oban.Prelude.{
  ℕ, suc, ◌≡◌, ◌↔◌, sym, ap, ℤ, pos, pos_part, leb_ℤ, ◌-ℤ◌, ◌≤ℤ◌, ◌<ℤ◌, Bool, true, false, ◌⊎◌, inl,
  inr, List, none, some, All, In, find_first, length, Option-cases, Bool-cases, str_eq_iff, arith,
}
use oban.Prelude.Laws.{find_first-eq-some, find_first-eq-none, In-All}
use oban.Errors.{Result, ok}
use oban.Job.{Job, is_finished, scheduled}
use oban.JobMap.{put, get-put}
use oban.JobMap.Distinct.{In-get}
use oban.Store.{
  MemStore, enqueue, enqueue_time, is_unique, find_unique, conflicts, stored_job, start_job,
  fetch_available, runnable, runs_before,
}
use oban.Store.Handout.{fetch_available_best}

-- An existing job that stands in the way of a unique insert, as the interface `Store` describes it.
pub record Blocks (job : Job) (now : ℤ) (existing : Job) : Type 0 where
  pub same_queue : existing.queue ≡ job.queue
  pub same_worker : existing.worker ≡ job.worker
  pub same_key : existing.unique_key ≡ job.unique_key
  pub is_unfinished : is_finished existing.state ≡ false
  pub is_recent : now -ℤ job.unique_period ≤ℤ existing.inserted_at

pub conflicts→Blocks :
    (job : Job) (now : ℤ) (e : Job) → conflicts job now e ≡ true → Blocks job now e
conflicts→Blocks job now e h = ground (
  arith,
  str_eq_iff e.queue job.queue,
  str_eq_iff e.worker job.worker,
  str_eq_iff e.unique_key job.unique_key,
)

Blocks→conflicts : (job : Job) (now : ℤ) (e : Job) → Blocks job now e → conflicts job now e ≡ true
Blocks→conflicts job now e b = ground (
  arith,
  str_eq_iff e.queue job.queue,
  str_eq_iff e.worker job.worker,
  str_eq_iff e.unique_key job.unique_key,
)

-- The two outcomes of an enqueue.
pub data Outcome (job : Job) (now : ℤ) (s : MemStore) (r : Result (Job × Bool) × MemStore)
    : Type 0 where
  merged :
      (existing : Job)
      → is_unique job ≡ true
      → In existing s.jobs
      → Blocks job now existing
      → r ≡ (ok (existing, false), s)
      → Outcome job now s r
  added :
      (is_unique job ≡ true → (e : Job) → In e s.jobs → ¬ Blocks job now e)
      → r ≡ (
        ok (stored_job job now (suc s.next_id), true),
        record s {
          jobs = put (stored_job job now (suc s.next_id)) s.jobs;
          next_id = suc s.next_id;
        },
      )
      → Outcome job now s r

not_blocked :
    (job : Job) (now : ℤ) (js : List Job)
    → find_first (conflicts job now) js ≡ none
    → (e : Job) → In e js
    → ¬ Blocks job now e
not_blocked job now js h e i b =
    let f =
      In-All (λ x. conflicts job now x ≡ false) js i
        (find_first-eq-none (conflicts job now) js h) in
    cc (f, Blocks→conflicts job now e b)

-- A job that is not nil is merged into a stored job or added. It is merged, with the store
-- unchanged, exactly when it has a key and a positive period and some stored job of the same queue,
-- worker and key is unfinished and was inserted within the period. Otherwise it gets the next id.
pub enqueue-Outcome :
    (wall : ℤ) (job : Job) (s : MemStore)
    → Outcome job (enqueue_time wall job) s (enqueue wall (some job) s)
unfolding enqueue find_unique
enqueue-Outcome wall job s = elim (Bool-cases (is_unique job)) [
  | inr e ↦ added (λ u. absurd (cc)) (rw e)
  | inl e ↦ elim (Option-cases (find_unique job (enqueue_time wall job) s.jobs)) [
    | inl n ↦ added (λ _. not_blocked job (enqueue_time wall job) s.jobs n) (rw (e, n))
    | inr (x, f) ↦
        let found = find_first-eq-some (conflicts job (enqueue_time wall job)) s.jobs x f in
        merged x e found.0 (conflicts→Blocks job (enqueue_time wall job) x found.1) (rw (e, f))
  ]
]

In-put : (j : Job) (js : List Job) → In j (put j js)
In-put j js = In-get j.id (put j js) j (ground (arith, get-put j.id j js))

-- A new job is runnable on its queue from its schedule on, and is `scheduled` just when that lies
-- after the insertion.
pub stored_job-runnable :
    (job : Job) (now t : ℤ) (id : ℕ)
    → let j = stored_job job now id in
      ((runnable j.queue t j ≡ true) ↔ (j.scheduled_at ≤ℤ t))
      × ((j.state ≡ scheduled) ↔ (now <ℤ j.scheduled_at))
stored_job-runnable job now t id = (
  (
    (λ h. ground (arith, str_eq_iff job.queue job.queue)),
    (λ h. ground (arith, str_eq_iff job.queue job.queue)),
  ),
  ((λ h. ground arith), (λ h. ground arith)),
)

-- Two unique jobs in a row: if the first was added, a second of the same queue, worker and key,
-- enqueued within its own period of the first, is merged and leaves the store as it is.
pub enqueue_twice :
    (wall wall' : ℤ) (job again : Job) (s : MemStore)
    → (enqueue wall (some job) s).0
      ≡ ok (stored_job job (enqueue_time wall job) (suc s.next_id), true)
    → is_unique again ≡ true
    → again.queue ≡ job.queue
    → again.worker ≡ job.worker
    → again.unique_key ≡ job.unique_key
    → enqueue_time wall' again -ℤ again.unique_period ≤ℤ enqueue_time wall job
    → let t = (enqueue wall (some job) s).1 in
      (existing : Job) × (enqueue wall' (some again) t ≡ (ok (existing, false), t))
      × Blocks again (enqueue_time wall' again) existing
enqueue_twice wall wall' job again s e u q w k p =
    elim (enqueue-Outcome wall' again (enqueue wall (some job) s).1) [
      | merged x _ _ b r ↦ (x, r, b)
      | added free _ ↦ absurd (elim (enqueue-Outcome wall job s) [
        | merged x _ _ _ r ↦ cc (ap (λ (o : Result (Job × Bool) × MemStore). o.0) r)
        | added _ r ↦
            let stored = stored_job job (enqueue_time wall job) (suc s.next_id) in
            free u stored
              (rw (ap (λ (o : Result (Job × Bool) × MemStore). o.1.jobs) r) (In-put stored s.jobs))
              (record {
                same_queue = sym q;
                same_worker = sym w;
                same_key = sym k;
                is_unfinished = ground arith;
                is_recent = p;
              })
      ])
    ]

-- A job that was added is started by every fetch of its queue from its schedule on, unless the fetch
-- fills its limit with jobs none of which the new job goes before.
pub enqueue-fetch_available :
    (wall t limit : ℤ) (job : Job) (s : MemStore)
    → let stored = stored_job job (enqueue_time wall job) (suc s.next_id) in
      let after = (enqueue wall (some job) s).1 in
      let out = (fetch_available job.queue limit t after).0 in
      (enqueue wall (some job) s).0 ≡ ok (stored, true)
      → leb_ℤ limit (pos 0) ≡ false
      → stored.scheduled_at ≤ℤ t
      → In (start_job t stored) out
        ⊎ ((length out ≡ pos_part limit) × All (λ c. runs_before stored c ≡ false) out)
enqueue-fetch_available wall t limit job s e l h = elim (enqueue-Outcome wall job s) [
  | merged x _ _ _ r ↦ absurd (cc (ap (λ (o : Result (Job × Bool) × MemStore). o.0) r))
  | added _ r ↦
      let stored = stored_job job (enqueue_time wall job) (suc s.next_id) in
      fetch_available_best job.queue limit t (enqueue wall (some job) s).1 stored l
        (rw (ap (λ (o : Result (Job × Bool) × MemStore). o.1.jobs) r) (In-put stored s.jobs))
        ((stored_job-runnable job (enqueue_time wall job) t (suc s.next_id)).0.1 h)
]
