-- ===== src/Engine/Held.antt =====
-- What an attempt under way holds in the InMemoryStore, from `dispatch` until `execute` ends (oban.go).
use oban.Prelude.{
  ℕ, ◌≤◌, ◌≡◌, ◌≢◌, refl, sym, ◌∙◌, subst, ℤ, pos, leb_ℤ, false, List, [], ◌∷◌, Option, none, some,
  All, map, inl, inr, if_both, Option-cases, arith,
}
use oban.Errors.{Err}
use oban.Job.{Job, fetchable}
use oban.JobMap.{get, Distinct}
use oban.Backoff.{Backoff}
use oban.Store.{
  MemStore, change, complete, retry, discard, mark_completed, mark_retryable, mark_discarded,
  record_failure,
}
use oban.Store.Invariant.{IsValid, change-IsValid}
use oban.Store.History.{change-next_id}
use oban.Store.Override.{get-change}
use oban.StoreApi.Memory.{memory}
use oban.Engine.{settle, finish_discard}
use oban.Engine.Steps.{Attempt, Running, Leaves, first, later}

abbrev pub Unfetchable : Option Job → Type 0
Unfetchable none = Unit
Unfetchable (some j) = fetchable j.state ≡ false

-- The id of a job that an attempt holds was handed out, and no fetch takes what stands under it.
abbrev pub Held : ℕ → MemStore → Type 0
Held k s = (k ≤ s.next_id) × Unfetchable (get k s.jobs)

-- On an InMemoryStore `settle` is one change of the job's entry, in each of its cases.
pub record IsChange (id : ℕ) (s t : MemStore) : Type 0 where
  pub made : Job → Job
  pub keeps : (i : Job) → (made i).id ≡ i.id
  pub result : t ≡ (change id made s).1

pub record_failure-id : (e : Option Err) (now : ℤ) (i : Job) → (record_failure e now i).id ≡ i.id
record_failure-id none now i = refl
record_failure-id (some e) now i = refl

pub settle-IsChange :
    (backoff : Backoff) (e : Option Err) (job : Job) (now later_on wall : ℤ) (s : MemStore)
    → IsChange job.id s (settle (memory wall) backoff (λ t. (later_on, t)) e job now s).1
unfolding settle finish_discard complete retry discard
settle-IsChange backoff none job now later_on wall s = record {
  made = mark_completed now;
  keeps = λ i. refl;
  result = refl;
}
settle-IsChange backoff (some e) job now later_on wall s =
    if_both {A = Option (Job × Err) × MemStore} (λ r. IsChange job.id s r.1)
      (leb_ℤ job.max_attempts (pos job.attempt))
      (λ _. record { made = mark_discarded (some e) later_on; keeps = λ i. refl; result = refl })
      (λ _. record { made = mark_retryable _ (some e) now; keeps = λ i. refl; result = refl })

-- So is the end of an attempt without a registered worker.
pub finish_discard-IsChange :
    (backoff : Backoff) (e : Err) (job : Job) (now wall : ℤ) (s : MemStore)
    → IsChange job.id s (finish_discard (memory wall) backoff (λ t. (now, t)) job e s).1
unfolding finish_discard discard
finish_discard-IsChange backoff e job now wall s = record {
  made = mark_discarded (some e) now;
  keeps = λ i. refl;
  result = refl;
}

pub get-change_ne :
    (id k : ℕ) (f : Job → Job) (s : MemStore)
    → ((i : Job) → (f i).id ≡ i.id)
    → id ≢ k
    → get k (change id f s).1.jobs ≡ get k s.jobs
get-change_ne id k f s h n = elim (Option-cases (get id s.jobs)) [
  | inl e ↦ rw e refl
  | inr (j, e) ↦ get-change id k f s j h e ∙ ground (arith, n)
]

pub IsChange-IsValid : (id : ℕ) (s t : MemStore) → IsChange id s t → IsValid s → IsValid t
IsChange-IsValid id s t c v = subst IsValid (sym c.result) (change-IsValid c.made c.keeps id s v)

IsChange-Held : (id k : ℕ) (s t : MemStore) → IsChange id s t → id ≢ k → Held k s → Held k t
IsChange-Held id k s t c n h = subst (Held k) (sym c.result) (
  omega (arith, change-next_id id c.made s, h.0),
  subst Unfetchable (sym (get-change_ne id k c.made s c.keeps n)) h.1,
)

-- What holds at every point of a run.
abbrev pub jobs_of : List Attempt → List Job
jobs_of = map (λ a. a.1)

abbrev pub AllHeld : MemStore → List Attempt → Type 0
AllHeld s = All (λ a. Held a.1.id s)

pub record IsSound (r : Running) : Type 0 where
  pub valid : IsValid r.store
  pub distinct : Distinct (jobs_of r.attempts)
  pub held : AllHeld r.store r.attempts

pub AllHeld-map :
    (s t : MemStore) (as_ : List Attempt)
    → ((k : ℕ) → Held k s → Held k t)
    → AllHeld s as_
    → AllHeld t as_
AllHeld-map s t [] f h = tt
AllHeld-map s t (a ∷ as_) f h = (f a.1.id h.0, AllHeld-map s t as_ f h.1)

module _ {a : Attempt} where
  pub Leaves-All :
      (P : Attempt → Type 0) {as_ rest : List Attempt}
      → Leaves a as_ rest
      → All P as_
      → P a × All P rest
  Leaves-All P first h = h
  Leaves-All P (later l) h = let t = Leaves-All P l h.1 in (t.0, (h.0, t.1))

  Leaves-All_jobs :
      (P : Job → Type 0) {as_ rest : List Attempt}
      → Leaves a as_ rest
      → All P (jobs_of as_)
      → P a.1 × All P (jobs_of rest)
  Leaves-All_jobs P first h = h
  Leaves-All_jobs P (later l) h = let t = Leaves-All_jobs P l h.1 in (t.0, (h.0, t.1))

  pub Leaves-Distinct :
      {as_ rest : List Attempt}
      → Leaves a as_ rest
      → Distinct (jobs_of as_)
      → All (λ j. a.1.id ≢ j.id) (jobs_of rest) × Distinct (jobs_of rest)
  Leaves-Distinct (first {rest}) d = (All-swap a.1 (jobs_of rest) d.0, d.1)
    where
      All-swap : (i : Job) (js : List Job) → All (λ j. j.id ≢ i.id) js → All (λ j. i.id ≢ j.id) js
      All-swap i [] h = tt
      All-swap i (j ∷ js) h = ((λ e. h.0 (sym e)), All-swap i js h.1)
  Leaves-Distinct (later {b} {as_} {rest} l) d =
      let t = Leaves-Distinct l d.1 in
      let u = Leaves-All_jobs (λ j. j.id ≢ b.1.id) l d.0 in (((λ e. u.0 e), t.0), (u.1, t.1))

pub AllHeld-ne :
    (id : ℕ) (s t : MemStore) (rest : List Attempt)
    → IsChange id s t
    → All (λ j. id ≢ j.id) (jobs_of rest)
    → AllHeld s rest
    → AllHeld t rest
AllHeld-ne id s t [] c n h = tt
AllHeld-ne id s t (a ∷ rest) c n h =
    (IsChange-Held id a.1.id s t c n.0 h.0, AllHeld-ne id s t rest c n.1 h.1)
