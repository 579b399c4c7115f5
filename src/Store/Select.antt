-- ===== src/Store/Select.antt =====
-- What the filters and the read-only queries of the InMemoryStore answer.
use oban.Prelude.{
  ℕ, suc, ◌+◌, ◌≡◌, ◌↔◌, refl, sym, ◌∙◌, ap, ℤ, ◌≤ℤ◌, ◌<ℤ◌, eqb_ℤ_iff, String, Bool, true, false,
  ◌&&◌, not, List, [], ◌∷◌, Option, none, some, In, keep, count_if, if◌then◌else◌, Bool-cases, ◌⊎◌,
  inl, inr, str_eq, str_eq_iff, arith,
}
use oban.Prelude.Laws.{Ordered, sort_by-Ordered, In-sort_by, sort_by-In, keep-In, In-keep}
use oban.Job.{State, Job, state_eq, is_zero, before, after, zero_time}
use oban.Job.States.{state_eq→eq, state_listed→In, In→in_states}
use oban.Store.{MemStore, id_before, count_by_state}
use oban.Store.Query.{
  JobFilter, filter_matches, list_jobs, states, histogram, bump_state, state_allowed, at_least,
  at_most,
}
use oban.Insert.Conflict.{id_before-IsOrder}

-- The conditions of a filter, each of which an unset field leaves open.
pub record Selects (f : JobFilter) (j : Job) : Type 0 where
  pub queue : (f.queue ≡ "") ⊎ (j.queue ≡ f.queue)
  pub worker : (f.worker ≡ "") ⊎ (j.worker ≡ f.worker)
  pub state : (f.states ≡ []) ⊎ In j.state f.states
  pub lowest : (m : ℤ) → f.min_priority ≡ some m → m ≤ℤ j.priority
  pub highest : (m : ℤ) → f.max_priority ≡ some m → j.priority ≤ℤ m
  pub later : (f.inserted_after ≡ zero_time) ⊎ (f.inserted_after <ℤ j.inserted_at)
  pub earlier : (f.inserted_before ≡ zero_time) ⊎ (j.inserted_at <ℤ f.inserted_before)

text_guard : (t u : String) → (not (str_eq t "") && not (str_eq u t)) ≡ false ↔ ((t ≡ "") ⊎ (u ≡ t))
text_guard t u = (
  λ h. elim (Bool-cases (str_eq t "")) [
    | inl y ↦ inl ((str_eq_iff t "").0 y)
    | inr n ↦ elim (Bool-cases (str_eq u t)) [
      | inl y ↦ inr ((str_eq_iff u t).0 y)
      | inr m ↦ absurd (ground (arith, h, n, m))
    ]
  ],
  λ h. elim h [
    | inl e ↦ rw ((str_eq_iff t "").1 e)
    | inr e ↦ rw ((str_eq_iff u t).1 e) (ground arith)
  ],
)

state_guard :
    (sts : List State) (st : State) → state_allowed sts st ≡ true ↔ ((sts ≡ []) ⊎ In st sts)
state_guard [] st = ((λ h. inl refl), (λ h. refl))
state_guard (t ∷ ts) st = (
  λ h. inr (state_listed→In (t ∷ ts) st h),
  λ h. elim h [ inl e ↦ absurd (ground (arith, e)) | inr i ↦ In→in_states (t ∷ ts) st i ],
)

least_guard : (o : Option ℤ) (p : ℤ) → at_least o p ≡ true ↔ ((m : ℤ) → o ≡ some m → m ≤ℤ p)
least_guard none p = ((λ h m e. ground (arith, e)), (λ h. refl))
least_guard (some n) p = ((λ h m e. ground (arith, h, e)), (λ h. ground (arith, h n refl)))

most_guard : (o : Option ℤ) (p : ℤ) → at_most o p ≡ true ↔ ((m : ℤ) → o ≡ some m → p ≤ℤ m)
most_guard none p = ((λ h m e. ground (arith, e)), (λ h. refl))
most_guard (some n) p = ((λ h m e. ground (arith, h, e)), (λ h. ground (arith, h n refl)))

time_guard :
    (t : ℤ) (b : Bool) → (not (is_zero t) && not b) ≡ false ↔ ((t ≡ zero_time) ⊎ (b ≡ true))
time_guard t b = (
  λ h. elim (Bool-cases (is_zero t)) [
    | inl y ↦ inl ((eqb_ℤ_iff t zero_time).0 y)
    | inr n ↦ inr (ground (arith, h, n))
  ],
  λ h. elim h [ inl e ↦ rw ((eqb_ℤ_iff t zero_time).1 e) | inr e ↦ rw e (ground arith) ],
)

-- One `return false` of `Matches`.
guard_passed : (b x : Bool) → (if b then false else x) ≡ true → (b ≡ false) × (x ≡ true)
guard_passed b x h = (ground (arith, h), ground (arith, h))

true_of_not : (b : Bool) → not b ≡ false → b ≡ true
true_of_not b h = ground (arith, h)

after_lt : (t u : ℤ) → after t u ≡ true ↔ (u <ℤ t)
after_lt t u = ((λ h. ground (arith, h)), (λ h. ground (arith, h)))

before_lt : (t u : ℤ) → before t u ≡ true ↔ (t <ℤ u)
before_lt t u = ((λ h. ground (arith, h)), (λ h. ground (arith, h)))

module _ (f : JobFilter) (j : Job) where
  matches→Selects : filter_matches f j ≡ true → Selects f j
  unfolding filter_matches
  matches→Selects h =
      let a = guard_passed _ _ h in
      let b = guard_passed _ _ a.1 in
      let c = guard_passed _ _ b.1 in
      let d = guard_passed _ _ c.1 in
      let e = guard_passed _ _ d.1 in
      let g = guard_passed _ _ e.1 in
      let k = guard_passed _ _ g.1 in
      record {
        queue = (text_guard f.queue j.queue).0 a.0;
        worker = (text_guard f.worker j.worker).0 b.0;
        state = (state_guard f.states j.state).0 (true_of_not _ c.0);
        lowest = (least_guard f.min_priority j.priority).0 (true_of_not _ d.0);
        highest = (most_guard f.max_priority j.priority).0 (true_of_not _ e.0);
        later = elim ((time_guard f.inserted_after (after j.inserted_at f.inserted_after)).0 g.0) [
          | inl z ↦ inl z
          | inr t ↦ inr ((after_lt j.inserted_at f.inserted_after).0 t)
        ];
        earlier =
            elim ((time_guard f.inserted_before (before j.inserted_at f.inserted_before)).0 k.0) [
              | inl z ↦ inl z
              | inr t ↦ inr ((before_lt j.inserted_at f.inserted_before).0 t)
            ];
      }

  Selects→matches : Selects f j → filter_matches f j ≡ true
  unfolding filter_matches
  Selects→matches s = rw (
    (text_guard f.queue j.queue).1 s.queue,
    (text_guard f.worker j.worker).1 s.worker,
    (state_guard f.states j.state).1 s.state,
    (least_guard f.min_priority j.priority).1 s.lowest,
    (most_guard f.max_priority j.priority).1 s.highest,
    (time_guard f.inserted_after (after j.inserted_at f.inserted_after)).1 after_ok,
    (time_guard f.inserted_before (before j.inserted_at f.inserted_before)).1 before_ok,
  )
    where
      after_ok : (f.inserted_after ≡ zero_time) ⊎ (after j.inserted_at f.inserted_after ≡ true)
      after_ok = elim s.later [
        | inl z ↦ inl z
        | inr t ↦ inr ((after_lt j.inserted_at f.inserted_after).1 t)
      ]

      before_ok : (f.inserted_before ≡ zero_time) ⊎ (before j.inserted_at f.inserted_before ≡ true)
      before_ok = elim s.earlier [
        | inl z ↦ inl z
        | inr t ↦ inr ((before_lt j.inserted_at f.inserted_before).1 t)
      ]

-- `List` answers exactly the stored jobs that meet every condition of the filter, by id.
pub list_jobs_lem :
    (f : JobFilter) (s : MemStore)
    → Ordered id_before (list_jobs f s)
      × ((j : Job) → In j (list_jobs f s) ↔ (In j s.jobs × Selects f j))
unfolding list_jobs
list_jobs_lem f s = (
  sort_by-Ordered id_before id_before-IsOrder (keep (filter_matches f) s.jobs),
  λ j. (
    (λ i.
        let k =
          keep-In (filter_matches f) s.jobs
            (sort_by-In id_before (keep (filter_matches f) s.jobs) i) in
        (k.0, matches→Selects f j k.1)),
    (λ h.
        In-sort_by id_before (keep (filter_matches f) s.jobs)
          (In-keep (filter_matches f) s.jobs h.0 (Selects→matches f j h.1))),
  ),
)

-- The entry of a state in a histogram, 0 if it has none.
abbrev pub entry : State → List (State × ℕ) → ℕ
entry st [] = 0
entry st ((t, n) ∷ m) = if state_eq t st then n else entry st m

bumped_here :
    (b : Bool) (n e : ℕ)
    → (if b then suc n else e) ≡ (if b then suc (if b then n else e) else (if b then n else e))
bumped_here true n e = refl
bumped_here false n e = refl

bumped_later :
    (b c : Bool) (n e : ℕ)
    → (b ≡ true → c ≡ true → ⊥)
    → (if b then n else (if c then suc e else e))
      ≡ (if c then suc (if b then n else e) else (if b then n else e))
bumped_later true true n e h = absurd (h refl refl)
bumped_later true false n e h = refl
bumped_later false c n e h = refl

both_equal :
    (t u st : State) → state_eq t u ≡ false → state_eq t st ≡ true → state_eq u st ≡ true → ⊥
both_equal t u st h a b = cc (h, state_eq→eq u st b, a)

bump_state-entry :
    (u st : State) (m : List (State × ℕ))
    → entry st (bump_state u m) ≡ (if state_eq u st then suc (entry st m) else entry st m)
bump_state-entry u st [] = refl
bump_state-entry u st ((t, n) ∷ m) = elim (Bool-cases (state_eq t u)) [
  | inl y ↦
      rw (y, sym (ap (λ v. state_eq v st) (state_eq→eq t u y)))
        (bumped_here (state_eq t st) n (entry st m))
  | inr h ↦
      rw (h, bump_state-entry u st m)
        (bumped_later (state_eq t st) (state_eq u st) n (entry st m) (both_equal t u st h))
]

counted :
    (b : Bool) (x y n : ℕ) → x ≡ (if b then suc y else y) → x + n ≡ y + ((if b then 1 else 0) + n)
counted true x y n h = omega (arith, h)
counted false x y n h = omega (arith, h)

histogram-entry :
    (st : State) (js : List Job) (m : List (State × ℕ))
    → entry st (histogram js m) ≡ entry st m + count_if (λ j. state_eq j.state st) js
histogram-entry st [] m = omega arith
histogram-entry st (j ∷ js) m =
    histogram-entry st js (bump_state j.state m)
    ∙ counted (state_eq j.state st) (entry st (bump_state j.state m)) (entry st m)
        (count_if (λ i. state_eq i.state st) js) (bump_state-entry j.state st m)

-- `States` has for each state the number that `CountByState` answers, and no entry means none.
pub states_lem : (st : State) (s : MemStore) → entry st (states s) ≡ count_by_state st s
unfolding states count_by_state
states_lem st s = omega (arith, histogram-entry st s.jobs [])
