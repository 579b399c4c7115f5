-- ===== src/Engine/Fetched.antt =====
-- `dispatch` (oban.go) and the jobs that attempts under way hold.
use oban.Prelude.{
  ℕ, ◌≡◌, ◌≢◌, refl, sym, ◌∙◌, subst, ap, ℤ, pos, leb_ℤ, String, List, [], ◌∷◌, ◌++◌, All, map,
  if_both, arith,
}
use oban.Prelude.Laws.{All-of_In}
use oban.Job.{Job, fetchable}
use oban.JobMap.{get, Distinct, get-All}
use oban.JobMap.Distinct.{get-In}
use oban.Store.{MemStore, fetch_available}
use oban.Store.Ops.{fetches, step}
use oban.Store.Invariant.{IsValid, IsIssued, fetch_available-IsValid}
use oban.Store.Handout.{fetch_available-Handed, fetch_available_others, fetch_available-Distinct}
use oban.Store.History.{step-next_id}
use oban.Engine.Steps.{Attempt, Running, dispatch, free_slots}
use oban.Engine.Held.{Unfetchable, Held, jobs_of, AllHeld, IsSound, AllHeld-map}

jobs_of-append :
    (q : String) (as_ : List Attempt) (js : List Job)
    → jobs_of (as_ ++ map (λ j. (q, j)) js) ≡ jobs_of as_ ++ js
jobs_of-append q [] [] = refl
jobs_of-append q [] (j ∷ js) = ap (λ l. j ∷ l) (jobs_of-append q [] js)
jobs_of-append q (a ∷ as_) js = ap (λ l. a.1 ∷ l) (jobs_of-append q as_ js)

All-append : (P : Job → Type 0) (xs ys : List Job) → All P xs → All P ys → All P (xs ++ ys)
All-append P [] ys h k = k
All-append P (x ∷ xs) ys h k = (h.0, All-append P xs ys h.1 k)

Distinct-append :
    (xs ys : List Job)
    → Distinct xs
    → Distinct ys
    → All (λ x. All (λ y. y.id ≢ x.id) ys) xs
    → Distinct (xs ++ ys)
Distinct-append [] ys d e h = e
Distinct-append (x ∷ xs) ys d e h =
    (All-append (λ i. i.id ≢ x.id) xs ys d.0 h.0, Distinct-append xs ys d.1 e h.1)

AllHeld-append :
    (q : String) (t : MemStore) (as_ : List Attempt) (js : List Job)
    → AllHeld t as_
    → All (λ j. Held j.id t) js
    → AllHeld t (as_ ++ map (λ j. (q, j)) js)
AllHeld-append q t [] [] h k = tt
AllHeld-append q t [] (j ∷ js) h k = (k.0, AllHeld-append q t [] js h k.1)
AllHeld-append q t (a ∷ as_) js h k = (h.0, AllHeld-append q t as_ js h.1 k)

module _ (q : String) (limit now : ℤ) (s : MemStore) (v : IsValid s) where
  -- A fetch takes no job that an attempt holds.
  pub fetch_available-Held :
      (k : ℕ) → Held k s → All (λ j. j.id ≢ k) (fetch_available q limit now s).0
  fetch_available-Held k h =
      All-of_In (λ j. j.id ≢ k) (fetch_available q limit now s).0
        λ j i same.
          let g = fetch_available-Handed q limit now s j v i in
          let there_s = get-In s.jobs g.origin v.distinct g.was_stored in
          let same_id = ap (λ (l : Job). l.id) g.started in
          let n = subst Unfetchable (ap (λ m. get m s.jobs) (sym same ∙ same_id) ∙ there_s) h.1 in
          absurd (ground (arith, n, g.was_fetchable))

  pub stays-Held : (k : ℕ) → Held k s → Held k (fetch_available q limit now s).1
  unfolding step
  stays-Held k h = (
    omega (arith, step-next_id s (fetches q limit now), h.0),
    subst Unfetchable (sym (fetch_available_others q limit now s k (fetch_available-Held k h))) h.1,
  )

  taken-Held :
      All (λ j. Held j.id (fetch_available q limit now s).1) (fetch_available q limit now s).0
  taken-Held =
      All-of_In (λ j. Held j.id (fetch_available q limit now s).1) (fetch_available q limit now s).0
        λ j i.
          let g = fetch_available-Handed q limit now s j v i in
          let w = fetch_available-IsValid q limit now s v in
          let stands =
            ap (λ m. get m (fetch_available q limit now s).1.jobs)
              (ap (λ (l : Job). l.id) g.started)
            ∙ g.is_stored in
          let issued =
            get-All (IsIssued (fetch_available q limit now s).1.next_id) j.id
              (fetch_available q limit now s).1.jobs j w.issued stands in
          (issued.1, subst Unfetchable (sym stands) (ap (λ (l : Job). fetchable l.state) g.started))

  held_apart :
      (as_ : List Attempt)
      → AllHeld s as_
      → All (λ x. All (λ y. y.id ≢ x.id) (fetch_available q limit now s).0) (jobs_of as_)
  held_apart [] h = tt
  held_apart (a ∷ as_) h = (fetch_available-Held a.1.id h.0, held_apart as_ h.1)

  fetched-IsSound :
      (as_ : List Attempt)
      → Distinct (jobs_of as_)
      → AllHeld s as_
      → let out = fetch_available q limit now s in
        IsSound (record { store = out.1; attempts = as_ ++ map (λ j. (q, j)) out.0 })
  fetched-IsSound as_ d h = record {
    valid = fetch_available-IsValid q limit now s v;
    distinct = subst Distinct (sym (jobs_of-append q as_ (fetch_available q limit now s).0)) (
        Distinct-append (jobs_of as_) (fetch_available q limit now s).0 d
          (fetch_available-Distinct q limit now s v) (held_apart as_ h));
    held =
        AllHeld-append q (fetch_available q limit now s).1 as_ (fetch_available q limit now s).0
          (AllHeld-map s (fetch_available q limit now s).1 as_ stays-Held h) taken-Held;
  }

pub dispatch-IsSound :
    (q : String) (conc now : ℤ) (r : Running) → IsSound r → IsSound (dispatch q conc now r)
unfolding dispatch
dispatch-IsSound q conc now r i =
    if_both IsSound (leb_ℤ (free_slots q conc r.attempts) (pos 0)) (λ _. i)
      (λ _.
        fetched-IsSound q (free_slots q conc r.attempts) now r.store i.valid r.attempts i.distinct
          i.held)
