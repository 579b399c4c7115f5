-- ===== src/Store/Handout.antt =====
-- The contract of `FetchAvailable` (the comment on `Store` in store.go) for the InMemoryStore.
use oban.Prelude.{
  ℕ, suc, ◌≤ℤ◌, str_eq_iff, ◌≤◌, ◌≡◌, ◌≢◌, refl, sym, ◌∙◌, subst, ap, ℤ, pos, pos_part, leb_ℤ,
  String, true, false, ◌⊎◌, inl, inr, List, [], ◌∷◌, some, All, In, here, there, map, length,
  Bool-cases, arith,
}
use oban.Prelude.Laws.{Ordered, In-cons}
use oban.Job.{Job, executing, fetchable}
use oban.JobMap.{get, Distinct}
use oban.JobMap.Distinct.{get-In}
use oban.Store.{MemStore, fetch_available, candidates, start_all, start_job, runnable, runs_before}
use oban.Store.Invariant.{IsValid, fetch_available-IsValid}
use oban.Store.Fetch.{
  candidates-In, candidates-Ordered, candidates-Distinct, length-candidates-le, candidates-best,
  start_all-map, get-start_all, get-start_all_ne,
}

In-map : {c : Job} (f : Job → Job) (cs : List Job) → In c cs → In (f c) (map f cs)
In-map f [] i = elim i [ ]
In-map f (c ∷ cs) here = here
In-map f (b ∷ cs) (there i) = there (In-map f cs i)

pub map-In :
    {j : Job} (f : Job → Job) (cs : List Job) → In j (map f cs) → (c : Job) × (j ≡ f c) × In c cs
map-In f [] i = elim i [ ]
map-In {j} f (c ∷ cs) i = elim (In-cons i) [
  | inl e ↦ (c, e, here)
  | inr k ↦ let r = map-In f cs k in (r.0, r.1, there r.2)
]

length-map : (f : Job → Job) (cs : List Job) → length (map f cs) ≡ length cs
length-map f [] = refl
length-map f (c ∷ cs) = omega (arith, length-map f cs)

map_start-All :
    (P : Job → Type 0) (now : ℤ) (cs : List Job)
    → All (λ c. P (start_job now c)) cs
    → All P (map (start_job now) cs)
map_start-All P now [] h = tt
map_start-All P now (c ∷ cs) h = (h.0, map_start-All P now cs h.1)

map-Ordered :
    (now : ℤ) (cs : List Job)
    → Ordered runs_before cs
    → Ordered runs_before (map (start_job now) cs)
map-Ordered now [] o = tt
map-Ordered now (c ∷ cs) o = (
  map_start-All (λ j. runs_before j (start_job now c) ≡ false) now cs o.0,
  map-Ordered now cs o.1,
)

-- With a positive limit the call starts the candidates; with any other it does nothing.
pub fetch_available_pos :
    (queue : String) (limit now : ℤ) (s : MemStore)
    → leb_ℤ limit (pos 0) ≡ false
    → fetch_available queue limit now s ≡ (
      map (start_job now) (candidates queue limit now s.jobs),
      record s { jobs = (start_all now (candidates queue limit now s.jobs) s.jobs).1 },
    )
unfolding fetch_available
fetch_available_pos queue limit now s e =
    rw (e, start_all-map now (candidates queue limit now s.jobs) s.jobs)

pub fetch_available_nonpos :
    (queue : String) (limit now : ℤ) (s : MemStore)
    → leb_ℤ limit (pos 0) ≡ true
    → fetch_available queue limit now s ≡ ([], s)
unfolding fetch_available
fetch_available_nonpos queue limit now s e = rw e

-- What a fetch says of one job `j` that it returns.
pub record Handed (queue : String) (now : ℤ) (s t : MemStore) (j : Job) : Type 0 where
  pub origin : Job
  pub started :
      j ≡ record origin { state = executing; attempt = suc origin.attempt; attempted_at = now }
  pub was_stored : In origin s.jobs
  pub same_queue : origin.queue ≡ queue
  pub was_fetchable : fetchable origin.state ≡ true
  pub was_due : origin.scheduled_at ≤ℤ now
  pub is_stored : get origin.id t.jobs ≡ some j

runnable-queue :
    (queue : String) (now : ℤ) (j : Job) → runnable queue now j ≡ true → j.queue ≡ queue
runnable-queue queue now j r = (str_eq_iff j.queue queue).0 (ground arith)

runnable-fetchable :
    (queue : String) (now : ℤ) (j : Job) → runnable queue now j ≡ true → fetchable j.state ≡ true
runnable-fetchable queue now j r = ground arith

runnable-due :
    (queue : String) (now : ℤ) (j : Job) → runnable queue now j ≡ true → j.scheduled_at ≤ℤ now
runnable-due queue now j r = ground arith

-- Every job that a fetch returns was a fetchable job of that queue whose time had come; it is
-- returned executing, with one more attempt and the fetch time, and stands so in the store.
pub fetch_available-Handed :
    (queue : String) (limit now : ℤ) (s : MemStore) (j : Job)
    → IsValid s
    → In j (fetch_available queue limit now s).0
    → Handed queue now s (fetch_available queue limit now s).1 j
fetch_available-Handed queue limit now s j v i = elim (Bool-cases (leb_ℤ limit (pos 0))) [
  | inl e ↦ elim (subst (In j) (ap (λ r. r.0) (fetch_available_nonpos queue limit now s e)) i) [ ]
  | inr e ↦
      rw (fetch_available_pos queue limit now s e)
        (handed (rw (fetch_available_pos queue limit now s e) at i))
]
  where
    cs : List Job
    cs = candidates queue limit now s.jobs

    handed :
        In j (map (start_job now) cs)
        → Handed queue now s (record s { jobs = (start_all now cs s.jobs).1 }) j
    handed k =
        let r = map-In (start_job now) cs k in
        let c = candidates-In queue limit now s.jobs r.2 in
        record {
          origin = r.0;
          started = r.1;
          was_stored = c.0;
          same_queue = runnable-queue queue now r.0 c.1;
          was_fetchable = runnable-fetchable queue now r.0 c.1;
          was_due = runnable-due queue now r.0 c.1;
          is_stored =
              get-start_all now cs s.jobs r.0
                (candidates-Distinct queue limit now s.jobs v.distinct) r.2
              ∙ ap some (sym r.1);
        }

map_start-Distinct : (now : ℤ) (cs : List Job) → Distinct cs → Distinct (map (start_job now) cs)
map_start-Distinct now [] d = tt
map_start-Distinct now (c ∷ cs) d =
    (map_start-All (λ j. j.id ≢ c.id) now cs d.0, map_start-Distinct now cs d.1)

-- No job is twice in one fetch.
pub fetch_available-Distinct :
    (queue : String) (limit now : ℤ) (s : MemStore)
    → IsValid s
    → Distinct (fetch_available queue limit now s).0
fetch_available-Distinct queue limit now s v = elim (Bool-cases (leb_ℤ limit (pos 0))) [
  | inl e ↦ rw (fetch_available_nonpos queue limit now s e) tt
  | inr e ↦ rw (fetch_available_pos queue limit now s e) (
      map_start-Distinct now (candidates queue limit now s.jobs)
        (candidates-Distinct queue limit now s.jobs v.distinct))
]

-- A fetch returns at most `limit` jobs, none with a limit that is not positive, in execution order:
-- no job goes before an earlier one by priority, then schedule, then id.
pub fetch_available-Ordered :
    (queue : String) (limit now : ℤ) (s : MemStore)
    → let out = (fetch_available queue limit now s).0 in
      (length out ≤ pos_part limit) × Ordered runs_before out
fetch_available-Ordered queue limit now s = elim (Bool-cases (leb_ℤ limit (pos 0))) [
  | inl e ↦ rw (fetch_available_nonpos queue limit now s e) (omega arith, tt)
  | inr e ↦ rw (fetch_available_pos queue limit now s e) (
    omega (
      arith,
      length-map (start_job now) (candidates queue limit now s.jobs),
      length-candidates-le queue limit now s.jobs,
    ),
    map-Ordered now (candidates queue limit now s.jobs) (candidates-Ordered queue limit now s.jobs),
  )
]

-- With a positive limit, a runnable job of the queue is returned, or the limit is used up by jobs
-- none of which it goes before.
pub fetch_available_best :
    (queue : String) (limit now : ℤ) (s : MemStore) (j : Job)
    → leb_ℤ limit (pos 0) ≡ false
    → In j s.jobs
    → runnable queue now j ≡ true
    → let out = (fetch_available queue limit now s).0 in
      In (start_job now j) out
      ⊎ ((length out ≡ pos_part limit) × All (λ c. runs_before j c ≡ false) out)
fetch_available_best queue limit now s j e i r =
    let cs = candidates queue limit now s.jobs in
    rw (fetch_available_pos queue limit now s e)
      (elim (candidates-best queue limit now s.jobs j i r) [
        | inl k ↦ inl (In-map (start_job now) cs k)
        | inr full ↦ inr (
          length-map (start_job now) cs ∙ full.0,
          map_start-All (λ c. runs_before j c ≡ false) now cs full.1,
        )
      ])

-- A fetch changes no job but those that it returns.
pub fetch_available_others :
    (queue : String) (limit now : ℤ) (s : MemStore) (k : ℕ)
    → let out = fetch_available queue limit now s in
      All (λ j. j.id ≢ k) out.0 → get k out.1.jobs ≡ get k s.jobs
fetch_available_others queue limit now s k h = elim (Bool-cases (leb_ℤ limit (pos 0))) [
  | inl e ↦
      ap (λ (r : List Job × MemStore). get k r.1.jobs) (fetch_available_nonpos queue limit now s e)
  | inr e ↦
      ap (λ (r : List Job × MemStore). get k r.1.jobs) (fetch_available_pos queue limit now s e)
      ∙ get-start_all_ne k now (candidates queue limit now s.jobs) s.jobs (
          All-unmap now (candidates queue limit now s.jobs) (
            subst (λ (r : List Job × MemStore). All (λ j. j.id ≢ k) r.0)
              (fetch_available_pos queue limit now s e) h))
]
  where
    All-unmap :
        (now : ℤ) (cs : List Job)
        → All (λ j. j.id ≢ k) (map (start_job now) cs)
        → All (λ j. j.id ≢ k) cs
    All-unmap now [] g = tt
    All-unmap now (c ∷ cs) g = (g.0, All-unmap now cs g.1)

executing_not_fetchable : (j : Job) → fetchable j.state ≡ true → j.state ≢ executing
executing_not_fetchable j r e = ground arith

Handed-twice :
    (q q' : String) (now now' : ℤ) (s t u : MemStore) (i j : Job)
    → IsValid t
    → Handed q now s t i
    → Handed q' now' t u j
    → i.id ≢ j.id
Handed-twice q q' now now' s t u i j v h k same =
    executing_not_fetchable k.origin k.was_fetchable (ap (λ (l : Job). l.state) again ∙ started)
  where
    same_id : k.origin.id ≡ h.origin.id
    same_id = cc (ap (λ (l : Job). l.id) k.started, ap (λ (l : Job). l.id) h.started)

    again : k.origin ≡ i
    again = cc (get-In t.jobs k.origin v.distinct k.was_stored, h.is_stored, same_id)

    started : i.state ≡ executing
    started = ap (λ (l : Job). l.state) h.started

-- No job is handed to two callers: of two fetches in a row, for any queues, limits and times, no
-- job of the second has the id of a job of the first.
pub fetch_available_exclusive :
    (q q' : String) (limit limit' now now' : ℤ) (s : MemStore) (i j : Job)
    → IsValid s
    → let first = fetch_available q limit now s in
      let second = fetch_available q' limit' now' first.1 in
      In i first.0 → In j second.0 → i.id ≢ j.id
fetch_available_exclusive q q' limit limit' now now' s i j v a b =
    let t = (fetch_available q limit now s).1 in
    let w = fetch_available-IsValid q limit now s v in
    Handed-twice q q' now now' s t (fetch_available q' limit' now' t).1 i j w
      (fetch_available-Handed q limit now s i v a) (fetch_available-Handed q' limit' now' t j w b)
