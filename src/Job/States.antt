-- ===== src/Job/States.antt =====
-- The tests on states that job.go and job_query.go use.
use oban.Prelude.{
  true, false, ◌≡◌, ◌≢◌, sym, subst, List, [], ◌∷◌, In, here, there, arith, Bool-cases, inl, inr,
}
use oban.Job.{State, state_eq, in_states}

pub state_eq→eq : (s t : State) → state_eq s t ≡ true → s ≡ t
state_eq→eq s t h = ground arith

pub state_eq_ne : (s t : State) → s ≢ t → state_eq s t ≡ false
state_eq_ne s t n = elim (Bool-cases (state_eq s t)) [
  | inl e ↦ absurd (n (state_eq→eq s t e))
  | inr e ↦ e
]

pub state_eq_refl : (s : State) → state_eq s s ≡ true
state_eq_refl s = ground arith

pub state_listed→In : (ss : List State) (s : State) → in_states ss s ≡ true → In s ss
state_listed→In [] s h = absurd (cc)
state_listed→In (t ∷ ts) s h = elim (Bool-cases (state_eq s t)) [
  | inl e ↦ subst (λ u. In u (t ∷ ts)) (sym (state_eq→eq s t e)) here
  | inr e ↦ there (state_listed→In ts s (rw e at h))
]

pub In→in_states : (ss : List State) (s : State) → In s ss → in_states ss s ≡ true
In→in_states [] s i = elim i [ ]
In→in_states (_ ∷ ts) s here = rw (state_eq_refl s)
In→in_states (t ∷ ts) s (there i) = ground (arith, In→in_states ts s i)
