-- ===== src/Store/MapOrder.antt =====
-- The choice of `FetchAvailable` (store.go) and the order in which `range` visits the map of jobs.
use oban.Prelude.{
  ℕ, ◌≡◌, ◌≢◌, refl, sym, ◌∙◌, ap, ap₂, ℤ, String, false, inl, inr, List, [], ◌∷◌, In, here, there,
  keep, arith,
}
use oban.Prelude.Laws.{
  Ordered, In-All, In-cons, In-keep, keep-In, In-sort_by, sort_by-In, sort_by-Ordered,
}
use oban.Job.{Job}
use oban.JobMap.{get, Distinct}
use oban.JobMap.Distinct.{get-In, In-get, keep-Distinct, sort_by-Distinct}
use oban.Store.{candidates, cut, runnable, runs_before}
use oban.Store.Fetch.{runs_before-IsOrder, ranked}

-- Jobs that the order does not tell apart have one id.
runs_before-total : (a b : Job) → runs_before a b ≡ false → runs_before b a ≡ false → a.id ≡ b.id
runs_before-total a b h k = ground arith

abbrev SameJobs : List Job → List Job → Type 0
SameJobs xs ys = (j : Job) → In j xs → In j ys

heads_agree :
    (x y : Job) (xs ys : List Job)
    → Ordered runs_before (x ∷ xs)
    → Ordered runs_before (y ∷ ys)
    → Distinct (y ∷ ys)
    → In x (y ∷ ys)
    → In y (x ∷ xs)
    → x ≡ y
heads_agree x y xs ys o p d i k = elim (In-cons i) [
  | inl e ↦ e
  | inr later ↦ elim (In-cons k) [
    | inl e ↦ sym e
    | inr late ↦ absurd (
        In-All (λ l. l.id ≢ y.id) ys later d.0
          (runs_before-total x y (In-All (λ z. runs_before z y ≡ false) ys later p.0)
            (In-All (λ z. runs_before z x ≡ false) xs late o.0)))
  ]
]

tail_SameJobs :
    (x y : Job) (xs ys : List Job)
    → x ≡ y
    → Distinct (x ∷ xs)
    → SameJobs (x ∷ xs) (y ∷ ys)
    → SameJobs xs ys
tail_SameJobs x y xs ys e d f j i = elim (In-cons (f j (there i))) [
  | inl h ↦ absurd (In-All (λ l. l.id ≢ x.id) xs i d.0 (ap (λ (l : Job). l.id) (h ∙ sym e)))
  | inr t ↦ t
]

Ordered-unique :
    (xs ys : List Job)
    → Ordered runs_before xs
    → Ordered runs_before ys
    → Distinct xs
    → Distinct ys
    → SameJobs xs ys
    → SameJobs ys xs
    → xs ≡ ys
Ordered-unique [] [] o p d c f g = refl
Ordered-unique [] (y ∷ ys) o p d c f g = elim (g y here) [ ]
Ordered-unique (x ∷ xs) [] o p d c f g = elim (f x here) [ ]
Ordered-unique (x ∷ xs) (y ∷ ys) o p d c f g =
    let e = heads_agree x y xs ys o p c (f x here) (g y here) in
    ap₂ ◌∷◌ e (
      Ordered-unique xs ys o.1 p.1 d.1 c.1 (tail_SameJobs x y xs ys e d f)
        (tail_SameJobs y x ys xs (sym e) c g))

ranked-SameJobs :
    (queue : String) (now : ℤ) (xs ys : List Job)
    → SameJobs xs ys
    → SameJobs (ranked queue now xs) (ranked queue now ys)
ranked-SameJobs queue now xs ys f j i =
    let r =
      keep-In (runnable queue now) xs (sort_by-In runs_before (keep (runnable queue now) xs) i) in
    In-sort_by runs_before (keep (runnable queue now) ys)
      (In-keep (runnable queue now) ys (f j r.0) r.1)

get_agree-SameJobs :
    (xs ys : List Job) → Distinct xs → ((k : ℕ) → get k xs ≡ get k ys) → SameJobs xs ys
get_agree-SameJobs xs ys d h j i = In-get j.id ys j (sym (h j.id) ∙ get-In xs j d i)

-- Two orders in which the same map may be visited give the same choice of jobs, in the same order.
pub candidates_visit_order :
    (queue : String) (limit now : ℤ) (xs ys : List Job)
    → Distinct xs
    → Distinct ys
    → ((k : ℕ) → get k xs ≡ get k ys)
    → candidates queue limit now xs ≡ candidates queue limit now ys
unfolding candidates
candidates_visit_order queue limit now xs ys d c h = ap (cut limit) (
    Ordered-unique (ranked queue now xs) (ranked queue now ys)
      (sort_by-Ordered runs_before runs_before-IsOrder (keep (runnable queue now) xs))
      (sort_by-Ordered runs_before runs_before-IsOrder (keep (runnable queue now) ys))
      (sort_by-Distinct runs_before (keep (runnable queue now) xs)
        (keep-Distinct (runnable queue now) xs d))
      (sort_by-Distinct runs_before (keep (runnable queue now) ys)
        (keep-Distinct (runnable queue now) ys c))
      (ranked-SameJobs queue now xs ys (get_agree-SameJobs xs ys d h))
      (ranked-SameJobs queue now ys xs (get_agree-SameJobs ys xs c (λ k. sym (h k)))))
