-- ===== src/Store/Fetch.antt =====
-- What `FetchAvailable` hands out (store.go): the order, the choice and the new state of the jobs.
use oban.Prelude.{
  ℕ, ◌≤◌, ◌≡◌, ◌≢◌, refl, ◌∙◌, ap, ℤ, pos_part, ltb, String, true, false, ◌⊎◌, inl, inr, List, [],
  ◌∷◌, some, All, In, here, there, keep, sort_by, take, map, length, if_both, arith,
}
use oban.Prelude.Laws.{
  IsOrder, Ordered, keep-In, In-keep, In-sort_by, sort_by-In, sort_by-Ordered, take-Ordered,
  In-take, take-best, length-take_le, length-take_lt,
}
use oban.Job.{Job}
use oban.JobMap.{get, put, Distinct, get-put}
use oban.JobMap.Distinct.{keep-Distinct, sort_by-Distinct, take-Distinct}
use oban.Store.{candidates, cut, start_all, start_job, runnable, runs_before}

runs_before-asym : (a b : Job) → runs_before a b ≡ true → runs_before b a ≡ false
runs_before-asym a b h = ground arith

runs_before-negatively_trans :
    (a b c : Job) → runs_before b a ≡ false → runs_before c b ≡ false → runs_before c a ≡ false
runs_before-negatively_trans a b c h k = ground arith

pub runs_before-IsOrder : IsOrder runs_before
runs_before-IsOrder = record {
  asym = runs_before-asym;
  negatively_trans = runs_before-negatively_trans;
}

-- The runnable jobs of a queue, in execution order.
abbrev pub ranked : String → ℤ → List Job → List Job
ranked queue now jobs = sort_by runs_before (keep (runnable queue now) jobs)

cut_cases {ℓ} :
    (P : List Job → Type ℓ) (limit : ℤ) (cs : List Job)
    → P (take (pos_part limit) cs)
    → (length cs ≤ pos_part limit → P cs)
    → P (cut limit cs)
cut_cases P limit cs h k =
    if_both P (ltb (pos_part limit) (length cs)) (λ _. h) (λ e. k (ground arith))

-- The chosen jobs are runnable jobs of the store.
pub candidates-In :
    (queue : String) (limit now : ℤ) (jobs : List Job) {c : Job}
    → In c (candidates queue limit now jobs)
    → In c jobs × (runnable queue now c ≡ true)
unfolding candidates
candidates-In queue limit now jobs {c} i = keep-In (runnable queue now) jobs (
    sort_by-In runs_before (keep (runnable queue now) jobs) (
      cut_cases (λ cs. In c cs → In c (ranked queue now jobs)) limit (ranked queue now jobs)
        (In-take (pos_part limit) (ranked queue now jobs)) (λ _ j. j) i))

pub candidates-Ordered :
    (queue : String) (limit now : ℤ) (jobs : List Job)
    → Ordered runs_before (candidates queue limit now jobs)
unfolding candidates
candidates-Ordered queue limit now jobs =
    let o = sort_by-Ordered runs_before runs_before-IsOrder (keep (runnable queue now) jobs) in
    cut_cases (Ordered runs_before) limit (ranked queue now jobs)
      (take-Ordered runs_before (pos_part limit) (ranked queue now jobs) o) (λ _. o)

pub candidates-Distinct :
    (queue : String) (limit now : ℤ) (jobs : List Job)
    → Distinct jobs
    → Distinct (candidates queue limit now jobs)
unfolding candidates
candidates-Distinct queue limit now jobs d =
    let s =
      sort_by-Distinct runs_before (keep (runnable queue now) jobs)
        (keep-Distinct (runnable queue now) jobs d) in
    cut_cases Distinct limit (ranked queue now jobs)
      (take-Distinct (pos_part limit) (ranked queue now jobs) s) (λ _. s)

pub length-candidates-le :
    (queue : String) (limit now : ℤ) (jobs : List Job)
    → length (candidates queue limit now jobs) ≤ pos_part limit
unfolding candidates
length-candidates-le queue limit now jobs =
    cut_cases (λ cs. length cs ≤ pos_part limit) limit (ranked queue now jobs)
      (length-take_le (pos_part limit) (ranked queue now jobs)) (λ h. h)

-- A runnable job is chosen, or the limit is used up by jobs none of which it goes before.
pub candidates-best :
    (queue : String) (limit now : ℤ) (jobs : List Job) (j : Job)
    → In j jobs
    → runnable queue now j ≡ true
    → let cs = candidates queue limit now jobs in
      In j cs ⊎ ((length cs ≡ pos_part limit) × All (λ c. runs_before j c ≡ false) cs)
unfolding candidates
candidates-best queue limit now jobs j i r =
    let cs = ranked queue now jobs in
    let o = sort_by-Ordered runs_before runs_before-IsOrder (keep (runnable queue now) jobs) in
    let k =
      In-sort_by runs_before (keep (runnable queue now) jobs)
        (In-keep (runnable queue now) jobs i r) in
    if_both (λ ds. In j ds ⊎ ((length ds ≡ pos_part limit) × All (λ c. runs_before j c ≡ false) ds))
      (ltb (pos_part limit) (length cs))
      (λ e. elim (take-best runs_before runs_before-IsOrder (pos_part limit) cs o k) [
        | inl t ↦ inl t
        | inr b ↦ inr (length-take_lt (pos_part limit) cs (ground arith), b)
      ])
      (λ _. inl k)

pub start_all-map :
    (now : ℤ) (cs jobs : List Job) → (start_all now cs jobs).0 ≡ map (start_job now) cs
unfolding start_all
start_all-map now [] jobs = refl
start_all-map now (c ∷ cs) jobs =
    ap (◌∷◌ (start_job now c)) (start_all-map now cs (put (start_job now c) jobs))

pub get-start_all_ne :
    (k : ℕ) (now : ℤ) (cs jobs : List Job)
    → All (λ c. c.id ≢ k) cs
    → get k (start_all now cs jobs).1 ≡ get k jobs
unfolding start_all
get-start_all_ne k now [] jobs h = refl
get-start_all_ne k now (c ∷ cs) jobs h =
    get-start_all_ne k now cs (put (start_job now c) jobs) h.1
    ∙ ground (arith, get-put k (start_job now c) jobs)

pub get-start_all :
    (now : ℤ) (cs jobs : List Job) (c : Job)
    → Distinct cs
    → In c cs
    → get c.id (start_all now cs jobs).1 ≡ some (start_job now c)
unfolding start_all
get-start_all now [] jobs c d i = elim i [ ]
get-start_all now (c ∷ cs) jobs c' d here =
    get-start_all_ne c.id now cs (put (start_job now c) jobs) d.0
    ∙ ground (arith, get-put c.id (start_job now c) jobs)
get-start_all now (b ∷ cs) jobs c d (there i) =
    get-start_all now cs (put (start_job now b) jobs) c d.1 i
