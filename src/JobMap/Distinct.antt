-- ===== src/JobMap/Distinct.antt =====
-- Lists of jobs with distinct ids: filtering, sorting and cutting keep the ids distinct.
use oban.Prelude.{
  ℕ, zero, suc, Bool, ◌≡◌, ◌≢◌, sym, subst, ◌==◌, Bool-cases, inl, inr, some, List, [], ◌∷◌, All,
  In, here, there, keep, take, sort_insert, sort_by, if_both, arith,
}
use oban.Prelude.Laws.{keep-All, take-All, sort_insert-All, sort_by-All, In-All}
use oban.Job.{Job}
use oban.JobMap.{get, Distinct}

pub keep-Distinct : (p : Job → Bool) (js : List Job) → Distinct js → Distinct (keep p js)
keep-Distinct p [] d = tt
keep-Distinct p (j ∷ js) d =
    if_both Distinct (p j) (λ _. (keep-All p (λ i. i.id ≢ j.id) js d.0, keep-Distinct p js d.1))
      (λ _. keep-Distinct p js d.1)

pub take-Distinct : (n : ℕ) (js : List Job) → Distinct js → Distinct (take n js)
take-Distinct zero js d = tt
take-Distinct (suc n) [] d = tt
take-Distinct (suc n) (j ∷ js) d = (take-All (λ i. i.id ≢ j.id) n js d.0, take-Distinct n js d.1)

sort_insert-Distinct :
    (less : Job → Job → Bool) (j : Job) (js : List Job)
    → All (λ i. i.id ≢ j.id) js
    → Distinct js
    → Distinct (sort_insert less j js)
sort_insert-Distinct less j [] n d = (tt, tt)
sort_insert-Distinct less j (i ∷ js) n d =
    if_both Distinct (less j i) (λ _. (n, d))
      (λ _. (
        sort_insert-All less (λ l. l.id ≢ i.id) j js (λ e. n.0 (sym e)) d.0,
        sort_insert-Distinct less j js n.1 d.1,
      ))

pub sort_by-Distinct :
    (less : Job → Job → Bool) (js : List Job) → Distinct js → Distinct (sort_by less js)
sort_by-Distinct less [] d = tt
sort_by-Distinct less (j ∷ js) d =
    sort_insert-Distinct less j (sort_by less js) (sort_by-All less (λ i. i.id ≢ j.id) js d.0)
      (sort_by-Distinct less js d.1)

-- A job of the map is found under its id.
pub get-In : (js : List Job) (j : Job) → Distinct js → In j js → get j.id js ≡ some j
unfolding get
get-In [] j d i = elim i [ ]
get-In (j ∷ js) j' d here = ground arith
get-In (k ∷ js) j d (there i) =
    ground (arith, In-All (λ l. l.id ≢ k.id) js i d.0, get-In js j d.1 i)

pub In-get : (k : ℕ) (js : List Job) (j : Job) → get k js ≡ some j → In j js
unfolding get
In-get k [] j e = absurd (cc)
In-get k (i ∷ js) j e = elim (Bool-cases (i.id == k)) [
  | inl t ↦ subst (λ l. In l (i ∷ js)) (ground arith) here
  | inr f ↦ there (In-get k js j (rw f at e))
]
