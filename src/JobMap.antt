-- ===== src/JobMap.antt =====
-- The map `jobs` of an InMemoryStore (store.go): jobs keyed by their id. The order of the list is
-- the order in which `range` happens to visit the map.
pub mod Distinct
use oban.Prelude.{
  ℕ, ◌==◌, ◌≡◌, ◌≢◌, List, [], ◌∷◌, Option, none, some, All, if◌then◌else◌, if_both, ==_iff,
  Bool-cases, inl, inr, subst, arith,
}
use oban.Job.{Job}

-- `s.jobs[id]`.
unfoldable pub get : ℕ → List Job → Option Job
get k [] = none
get k (j ∷ js) = if j.id == k then some j else get k js

-- `s.jobs[j.ID] = j`, and a write through the pointer that the map holds under that id.
unfoldable pub put : Job → List Job → List Job
put j [] = j ∷ []
put j (i ∷ js) = if i.id == j.id then j ∷ js else i ∷ put j js

-- `delete(s.jobs, id)`.
unfoldable pub remove : ℕ → List Job → List Job
remove k [] = []
remove k (j ∷ js) = if j.id == k then js else j ∷ remove k js

-- No id stands twice.
abbrev pub Distinct : List Job → Type 0
Distinct [] = Unit
Distinct (j ∷ js) = All (λ i. i.id ≢ j.id) js × Distinct js

pub get-put :
    (k : ℕ) (j : Job) (js : List Job) → get k (put j js) ≡ (if j.id == k then some j else get k js)
unfolding get put
get-put k j [] = ground arith
get-put k j (i ∷ js) = ground (arith, get-put k j js)

pub get-id : (k : ℕ) (js : List Job) (j : Job) → get k js ≡ some j → j.id ≡ k
unfolding get
get-id k [] j e = ground arith
get-id k (i ∷ js) j e = ground (arith, get-id k js j)

pub get_of_ne : (k : ℕ) (js : List Job) → All (λ i. i.id ≢ k) js → get k js ≡ none
unfolding get
get_of_ne k [] h = ground arith
get_of_ne k (i ∷ js) h = ground (arith, get_of_ne k js h.1)

module _ (P : Job → Type 0) where
  pub get-All : (k : ℕ) (js : List Job) (j : Job) → All P js → get k js ≡ some j → P j
  unfolding get
  get-All k [] j h e = ground arith
  get-All k (i ∷ js) j h e = ground (arith, get-All k js j h.1)

  pub put-All : (j : Job) (js : List Job) → P j → All P js → All P (put j js)
  unfolding put
  put-All j [] p h = (p, tt)
  put-All j (i ∷ js) p h =
      if_both (All P) (i.id == j.id) (λ _. (p, h.1)) (λ _. (h.0, put-All j js p h.1))

  pub remove-All : (k : ℕ) (js : List Job) → All P js → All P (remove k js)
  unfolding remove
  remove-All k [] h = tt
  remove-All k (i ∷ js) h = if_both (All P) (i.id == k) (λ _. h.1) (λ _. (h.0, remove-All k js h.1))

pub put-Distinct : (j : Job) (js : List Job) → Distinct js → Distinct (put j js)
unfolding put
put-Distinct j [] d = (tt, tt)
put-Distinct j (i ∷ js) d =
    if_both Distinct (i.id == j.id)
      (λ e. (subst (λ k. All (λ l. l.id ≢ k) js) ((==_iff _ _).0 e) d.0, d.1))
      (λ e. (put-All (λ l. l.id ≢ i.id) j js (ground arith) d.0, put-Distinct j js d.1))

pub remove-Distinct : (k : ℕ) (js : List Job) → Distinct js → Distinct (remove k js)
unfolding remove
remove-Distinct k [] d = tt
remove-Distinct k (i ∷ js) d =
    if_both Distinct (i.id == k) (λ _. d.1)
      (λ _. (remove-All (λ l. l.id ≢ i.id) k js d.0, remove-Distinct k js d.1))

pub get-remove :
    (k i : ℕ) (js : List Job)
    → Distinct js
    → get k (remove i js) ≡ (if i == k then none else get k js)
unfolding get remove
get-remove k i [] d = ground arith
get-remove k i (j ∷ js) d = elim (Bool-cases (j.id == i)) [
  | inl e ↦ rw e (ground (arith, get_of_ne j.id js d.0))
  | inr e ↦ rw e (ground (arith, get-remove k i js d.1))
]
