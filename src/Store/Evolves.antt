-- ===== src/Store/Evolves.antt =====
-- How one stored job may change: what every change keeps, and the changes that the calls make.
use oban.Prelude.{
  ℕ, ◌≡◌, refl, sym, ◌∙◌, subst, ap, ℤ, not, inl, inr, List, [], ◌∷◌, ◌++◌, Option, none, some,
  ◌==◌, ==_iff, if_both, Bool-cases,
}
use mathlib.Core.List.{append-nil, append_assoc}
use oban.Errors.{Err, message}
use oban.Job.{Job, AttemptError, available, discarded}
use oban.JobMap.{get, put, get-put, get-id}
use oban.Store.{
  MemStore, start_job, change, change_found, mark_completed, mark_retryable, mark_discarded,
  record_failure,
}
use oban.Store.Caps.{is_stuck, has_attempts, mark_cancelled, mark_runnable, mark_snoozed}
use oban.Store.Rescue.{rescue_one}

-- What no call changes of a job; its list of failed attempts only grows at the end.
pub record Evolves (i j : Job) : Type 0 where
  pub same_id : j.id ≡ i.id
  pub same_queue : j.queue ≡ i.queue
  pub same_worker : j.worker ≡ i.worker
  pub same_args : j.args ≡ i.args
  pub same_cap : j.max_attempts ≡ i.max_attempts
  pub same_priority : j.priority ≡ i.priority
  pub same_insertion : j.inserted_at ≡ i.inserted_at
  pub same_key : j.unique_key ≡ i.unique_key
  pub failures : List AttemptError
  pub appended : j.errors ≡ i.errors ++ failures

pub Evolves-refl : (i : Job) → Evolves i i
Evolves-refl i = record {
  same_id = refl;
  same_queue = refl;
  same_worker = refl;
  same_args = refl;
  same_cap = refl;
  same_priority = refl;
  same_insertion = refl;
  same_key = refl;
  failures = [];
  appended = sym (append-nil i.errors);
}

pub Evolves-trans : (i j k : Job) → Evolves i j → Evolves j k → Evolves i k
Evolves-trans i j k a b = record {
  same_id = b.same_id ∙ a.same_id;
  same_queue = b.same_queue ∙ a.same_queue;
  same_worker = b.same_worker ∙ a.same_worker;
  same_args = b.same_args ∙ a.same_args;
  same_cap = b.same_cap ∙ a.same_cap;
  same_priority = b.same_priority ∙ a.same_priority;
  same_insertion = b.same_insertion ∙ a.same_insertion;
  same_key = b.same_key ∙ a.same_key;
  failures = a.failures ++ b.failures;
  appended =
      b.appended
      ∙ ap (λ es. es ++ b.failures) a.appended
      ∙ append_assoc i.errors a.failures b.failures;
}

-- A stored job stays and evolves, or goes; an id that is not there does not come back.
abbrev pub Tracks : Option Job → Option Job → Type 0
Tracks o none = Unit
Tracks none (some j) = ⊥
Tracks (some i) (some j) = Evolves i j

pub Tracks-refl : (o : Option Job) → Tracks o o
Tracks-refl none = tt
Tracks-refl (some i) = Evolves-refl i

pub Tracks-trans : (o p q : Option Job) → Tracks o p → Tracks p q → Tracks o q
Tracks-trans o p none a b = tt
Tracks-trans o none (some k) a b = absurd b
Tracks-trans none (some j) (some k) a b = absurd a
Tracks-trans (some i) (some j) (some k) a b = Evolves-trans i j k a b

pub record_failure-Evolves :
    (e : Option Err) (now : ℤ) (i : Job) → Evolves i (record_failure e now i)
record_failure-Evolves none now i = Evolves-refl i
record_failure-Evolves (some e) now i = record {
  same_id = refl;
  same_queue = refl;
  same_worker = refl;
  same_args = refl;
  same_cap = refl;
  same_priority = refl;
  same_insertion = refl;
  same_key = refl;
  failures = record { attempt = i.attempt; at_time = now; text = message e } ∷ [];
  appended = refl;
}

module _ (f : Job → Job) (evolves : (i : Job) → Evolves i (f i)) (k : ℕ) where
  pub put-Tracks :
      (i : Job) (js : List Job) → get i.id js ≡ some i → Tracks (get k js) (get k (put (f i) js))
  put-Tracks i js e = rw (get-put k (f i) js) (elim (Bool-cases ((f i).id == k)) [
    | inr n ↦ rw n (Tracks-refl (get k js))
    | inl y ↦ rw y (subst (λ o. Tracks o (some (f i))) (sym (found ((==_iff _ k).0 y))) (evolves i))
  ])
    where
      found : (f i).id ≡ k → get k js ≡ some i
      found h = subst (λ n. get n js ≡ some i) (sym (evolves i).same_id ∙ h) e

  pub change_found-Tracks :
      (o : Option Job) (id : ℕ) (s : MemStore)
      → get id s.jobs ≡ o
      → Tracks (get k s.jobs) (get k (change_found o f s).1.jobs)
  change_found-Tracks none id s e = Tracks-refl (get k s.jobs)
  change_found-Tracks (some i) id s e =
      put-Tracks i s.jobs (subst (λ n. get n s.jobs ≡ some i) (sym (get-id id s.jobs i e)) e)

  pub change-Tracks : (id : ℕ) (s : MemStore) → Tracks (get k s.jobs) (get k (change id f s).1.jobs)
  change-Tracks id s = change_found-Tracks (get id s.jobs) id s refl

-- A function that leaves the named fields alone.
pub same_fields :
    (i j : Job)
    → j.id ≡ i.id
    → j.queue ≡ i.queue
    → j.worker ≡ i.worker
    → j.args ≡ i.args
    → j.max_attempts ≡ i.max_attempts
    → j.priority ≡ i.priority
    → j.inserted_at ≡ i.inserted_at
    → j.unique_key ≡ i.unique_key
    → j.errors ≡ i.errors
    → Evolves i j
same_fields i j a b c d e f g h m = record {
  same_id = a;
  same_queue = b;
  same_worker = c;
  same_args = d;
  same_cap = e;
  same_priority = f;
  same_insertion = g;
  same_key = h;
  failures = [];
  appended = m ∙ sym (append-nil i.errors);
}

pub start_job-Evolves : (now : ℤ) (i : Job) → Evolves i (start_job now i)
start_job-Evolves now i =
    same_fields i (start_job now i) refl refl refl refl refl refl refl refl refl

pub mark_retryable-Evolves :
    (u : ℤ) (e : Option Err) (now : ℤ) (i : Job) → Evolves i (mark_retryable u e now i)
mark_retryable-Evolves u e now i =
    Evolves-trans i (record_failure e now i) (mark_retryable u e now i)
      (record_failure-Evolves e now i)
      (same_fields (record_failure e now i) (mark_retryable u e now i) refl refl refl refl refl refl
        refl refl refl)

pub mark_discarded-Evolves :
    (e : Option Err) (now : ℤ) (i : Job) → Evolves i (mark_discarded e now i)
mark_discarded-Evolves e now i =
    Evolves-trans i (record_failure e now i) (mark_discarded e now i)
      (record_failure-Evolves e now i)
      (same_fields (record_failure e now i) (mark_discarded e now i) refl refl refl refl refl refl
        refl refl refl)

pub mark_completed-Evolves : (now : ℤ) (i : Job) → Evolves i (mark_completed now i)
mark_completed-Evolves now i =
    same_fields i (mark_completed now i) refl refl refl refl refl refl refl refl refl

pub mark_cancelled-Evolves : (now : ℤ) (i : Job) → Evolves i (mark_cancelled now i)
mark_cancelled-Evolves now i =
    same_fields i (mark_cancelled now i) refl refl refl refl refl refl refl refl refl

pub mark_runnable-Evolves : (now : ℤ) (i : Job) → Evolves i (mark_runnable now i)
mark_runnable-Evolves now i =
    same_fields i (mark_runnable now i) refl refl refl refl refl refl refl refl refl

pub mark_snoozed-Evolves : (until : ℤ) (i : Job) → Evolves i (mark_snoozed until i)
mark_snoozed-Evolves until i =
    same_fields i (mark_snoozed until i) refl refl refl refl refl refl refl refl refl

pub rescue_one-Evolves : (older_than now : ℤ) (i : Job) → Evolves i (rescue_one older_than now i)
unfolding rescue_one
rescue_one-Evolves older_than now i =
    if_both (Evolves i) (not (is_stuck older_than i)) (λ _. Evolves-refl i)
      (λ _.
        if_both (Evolves i) (has_attempts i)
          (λ _.
            same_fields i (record i { state = available; scheduled_at = now }) refl refl refl refl
              refl refl refl refl refl)
          (λ _.
            same_fields i (record i { state = discarded; discarded_at = now }) refl refl refl refl
              refl refl refl refl refl))
