-- ===== src/Store/Prune.antt =====
-- The candidates of `DeleteFinishedBefore` (inmemory_caps.go) and the limit of a pass.
use oban.Prelude.{
  ℕ, zero, suc, ◌≤◌, ◌≡◌, ◌≢◌, refl, sym, subst, ℤ, pos, pos_part, ltb_ℤ, ◌<ℤ◌, ltb, true, false,
  ◌⊎◌, inl, inr, List, [], ◌∷◌, All, In, here, there, keep, map, take, length, Bool-cases, arith,
}
use native.Mathlib.Decide.{ℕ_discrete, dec_le}
use oban.Prelude.Laws.{
  IsOrder, Ordered, sort_by-Ordered, take-best, length-take_lt, In-cons, keep-In, In-keep,
  In-sort_by, sort_by-In,
}
use oban.Job.{
  Job, State, scheduled, available, executing, retryable, completed, discarded, cancelled, is_zero,
}
use oban.Job.States.{state_listed→In, In→in_states}
use oban.Store.Caps.{prune_candidates, prunable, finish_time}
use oban.Store.PruneLoop.{within, minus_zero}

In-map_id : {j : Job} (js : List Job) → In j js → In j.id (map (λ i. i.id) js)
In-map_id [] i = elim i [ ]
In-map_id (j ∷ js) here = here
In-map_id (k ∷ js) (there i) = there (In-map_id js i)

map_id-In : {k : ℕ} (js : List Job) → In k (map (λ i. i.id) js) → (j : Job) × In j js × (k ≡ j.id)
map_id-In [] i = elim i [ ]
map_id-In (j ∷ js) i = elim (In-cons i) [
  | inl e ↦ (j, here, e)
  | inr t ↦ let r = map_id-In js t in (r.0, there r.1, r.2)
]

-- The candidates are the ids of the prunable jobs.
pub prune_candidates-In :
    (states : List State) (cutoff : ℤ) (jobs : List Job) {k : ℕ}
    → In k (prune_candidates states cutoff jobs)
    → (j : Job) × In j jobs × (k ≡ j.id) × (prunable states cutoff j ≡ true)
unfolding prune_candidates
prune_candidates-In states cutoff jobs i =
    let ks = keep (prunable states cutoff) jobs in
    let r = map_id-In ks (sort_by-In ltb (map (λ j. j.id) ks) i) in
    let q = keep-In (prunable states cutoff) jobs r.1 in (r.0, q.0, r.2, q.1)

pub In-prune_candidates :
    (states : List State) (cutoff : ℤ) (jobs : List Job) (j : Job)
    → In j jobs
    → prunable states cutoff j ≡ true
    → In j.id (prune_candidates states cutoff jobs)
unfolding prune_candidates
In-prune_candidates states cutoff jobs j i e =
    let ks = keep (prunable states cutoff) jobs in
    In-sort_by ltb (map (λ l. l.id) ks) (In-map_id ks (In-keep (prunable states cutoff) jobs i e))

-- When a job ended: its completion or its dismissal, if that time is set, and else its insertion.
pub data EndedAt (j : Job) : ℤ → Type 0 where
  at_completion : j.state ≡ completed → is_zero j.completed_at ≡ false → EndedAt j j.completed_at
  at_dismissal :
      (j.state ≡ discarded) ⊎ (j.state ≡ cancelled)
      → is_zero j.discarded_at ≡ false
      → EndedAt j j.discarded_at
  at_insertion :
      (j.state ≡ completed → is_zero j.completed_at ≡ true)
      → ((j.state ≡ discarded) ⊎ (j.state ≡ cancelled) → is_zero j.discarded_at ≡ true)
      → EndedAt j j.inserted_at

-- A job that a pruning pass may remove: in one of the states, and ended before the cutoff.
pub record Expired (states : List State) (cutoff : ℤ) (j : Job) : Type 0 where
  pub in_state : In j.state states
  pub ended : ℤ
  pub ended_at : EndedAt j ended
  pub is_old : ended <ℤ cutoff

module _ (j : Job) where
  ended_as : (t : ℤ) → finish_time j ≡ t → EndedAt j t → EndedAt j (finish_time j)
  ended_as t p h = subst (EndedAt j) (sym p) h

  -- `finish_time` in each state.
  finish_time-EndedAt : (s : State) → j.state ≡ s → EndedAt j (finish_time j)
  unfolding finish_time
  finish_time-EndedAt completed e = elim (Bool-cases (is_zero j.completed_at)) [
    | inl z ↦
        ended_as j.inserted_at (rw (e, z) refl)
          (at_insertion (λ _. z) (λ d. absurd (elim d [ inl c ↦ cc (e, c) | inr c ↦ cc (e, c) ])))
    | inr z ↦ ended_as j.completed_at (rw (e, z) refl) (at_completion e z)
  ]
  finish_time-EndedAt discarded e = elim (Bool-cases (is_zero j.discarded_at)) [
    | inl z ↦
        ended_as j.inserted_at (rw (e, z) refl) (at_insertion (λ c. absurd (cc (e, c))) (λ _. z))
    | inr z ↦ ended_as j.discarded_at (rw (e, z) refl) (at_dismissal (inl e) z)
  ]
  finish_time-EndedAt cancelled e = elim (Bool-cases (is_zero j.discarded_at)) [
    | inl z ↦
        ended_as j.inserted_at (rw (e, z) refl) (at_insertion (λ c. absurd (cc (e, c))) (λ _. z))
    | inr z ↦ ended_as j.discarded_at (rw (e, z) refl) (at_dismissal (inr e) z)
  ]
  finish_time-EndedAt available e = ended_as j.inserted_at (rw e refl) (
      at_insertion (λ c. absurd (cc (e, c)))
        (λ d. absurd (elim d [ inl c ↦ cc (e, c) | inr c ↦ cc (e, c) ])))
  finish_time-EndedAt scheduled e = ended_as j.inserted_at (rw e refl) (
      at_insertion (λ c. absurd (cc (e, c)))
        (λ d. absurd (elim d [ inl c ↦ cc (e, c) | inr c ↦ cc (e, c) ])))
  finish_time-EndedAt executing e = ended_as j.inserted_at (rw e refl) (
      at_insertion (λ c. absurd (cc (e, c)))
        (λ d. absurd (elim d [ inl c ↦ cc (e, c) | inr c ↦ cc (e, c) ])))
  finish_time-EndedAt retryable e = ended_as j.inserted_at (rw e refl) (
      at_insertion (λ c. absurd (cc (e, c)))
        (λ d. absurd (elim d [ inl c ↦ cc (e, c) | inr c ↦ cc (e, c) ])))

  EndedAt-unique : {t u : ℤ} → EndedAt j t → EndedAt j u → t ≡ u
  EndedAt-unique (at_completion e z) (at_completion f y) = refl
  EndedAt-unique (at_completion e z) (at_dismissal (inl f) y) = absurd (cc (e, f))
  EndedAt-unique (at_completion e z) (at_dismissal (inr f) y) = absurd (cc (e, f))
  EndedAt-unique (at_completion e z) (at_insertion c d) = absurd (cc (c e, z))
  EndedAt-unique (at_dismissal (inl e) z) (at_completion f y) = absurd (cc (e, f))
  EndedAt-unique (at_dismissal (inr e) z) (at_completion f y) = absurd (cc (e, f))
  EndedAt-unique (at_dismissal e z) (at_dismissal f y) = refl
  EndedAt-unique (at_dismissal e z) (at_insertion c d) = absurd (cc (d e, z))
  EndedAt-unique (at_insertion c d) (at_completion f y) = absurd (cc (c f, y))
  EndedAt-unique (at_insertion c d) (at_dismissal f y) = absurd (cc (d f, y))
  EndedAt-unique (at_insertion a b) (at_insertion c d) = refl

pub prunable→Expired :
    (states : List State) (cutoff : ℤ) (j : Job)
    → prunable states cutoff j ≡ true
    → Expired states cutoff j
prunable→Expired states cutoff j h = record {
  in_state = state_listed→In states j.state (ground arith);
  ended = finish_time j;
  ended_at = finish_time-EndedAt j j.state refl;
  is_old = ground arith;
}

pub Expired→prunable :
    (states : List State) (cutoff : ℤ) (j : Job)
    → Expired states cutoff j
    → prunable states cutoff j ≡ true
Expired→prunable states cutoff j x = rw (In→in_states states j.state x.in_state) (
    ground (
      arith,
      old (finish_time j) x.ended (EndedAt-unique j x.ended_at (finish_time-EndedAt j j.state refl))
          x.is_old,
    ))
  where
    old : (t u : ℤ) → u ≡ t → u <ℤ cutoff → t <ℤ cutoff
    old t u e h = subst (λ z. z <ℤ cutoff) e h

ltb_asym : (a b : ℕ) → ltb a b ≡ true → ltb b a ≡ false
ltb_asym a b h = ground arith

ltb_negatively_trans : (a b c : ℕ) → ltb b a ≡ false → ltb c b ≡ false → ltb c a ≡ false
ltb_negatively_trans a b c h k = ground arith

ltb-IsOrder : IsOrder ltb
ltb-IsOrder = record {
  asym = λ a b h. ltb_asym a b h;
  negatively_trans = λ a b c h k. ltb_negatively_trans a b c h k;
}

pub prune_candidates-Ordered :
    (states : List State) (cutoff : ℤ) (jobs : List Job)
    → Ordered ltb (prune_candidates states cutoff jobs)
unfolding prune_candidates
prune_candidates-Ordered states cutoff jobs =
    sort_by-Ordered ltb ltb-IsOrder (map (λ l. l.id) (keep (prunable states cutoff) jobs))

pub ltb_false→le : (k i : ℕ) → ltb k i ≡ false → i ≤ k
ltb_false→le k i h = ground arith

pub In-or-not : (k : ℕ) (ids : List ℕ) → In k ids ⊎ All (λ id. id ≢ k) ids
In-or-not k [] = inr tt
In-or-not k (id ∷ ids) = elim (ℕ_discrete id k) [
  | yes e ↦ inl (subst (λ i. In i (id ∷ ids)) e here)
  | no n ↦ elim (In-or-not k ids) [ inl i ↦ inl (there i) | inr h ↦ inr (n, h) ]
]

In-take_short : {k : ℕ} (n : ℕ) (ids : List ℕ) → In k ids → length ids ≤ n → In k (take n ids)
In-take_short n [] i h = elim i [ ]
In-take_short zero (id ∷ ids) i h = absurd (omega arith)
In-take_short (suc n) (id ∷ ids) here h = here
In-take_short (suc n) (id ∷ ids) (there i) h = there (In-take_short n ids i (omega arith))

pub within_best :
    (limit : ℤ) (ids : List ℕ) (k : ℕ)
    → Ordered ltb ids
    → In k ids
    → In k (within limit 0 ids)
      ⊎ ((pos 0 <ℤ limit)
          × (length (within limit 0 ids) ≡ pos_part limit)
          × All (λ c. ltb k c ≡ false) (within limit 0 ids))
within_best limit ids k o i = elim (Bool-cases (ltb_ℤ (pos 0) limit)) [
  | inr e ↦ rw e (inl i)
  | inl e ↦
      rw (e, minus_zero (pos_part limit))
        (elim (dec_le (length ids) (pos_part limit)) [
          | yes short ↦ inl (In-take_short (pos_part limit) ids i short)
          | no long ↦ elim (take-best ltb ltb-IsOrder (pos_part limit) ids o i) [
            | inl c ↦ inl c
            | inr b ↦ inr (ground arith, length-take_lt (pos_part limit) ids (omega arith), b)
          ]
        ])
]

pub limit_pos : (limit : ℤ) → pos 0 <ℤ limit → ltb_ℤ (pos 0) limit ≡ true
limit_pos limit h = ground arith
