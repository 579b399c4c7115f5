-- ===== src/Store/Rescue.antt =====
-- `RescueExecuting` (inmemory_caps.go): which jobs are rescued, which are discarded, and the counts.
use oban.Prelude.{
  ℕ, ◌≡◌, ◌≢◌, refl, sym, ◌∙◌, subst, ℤ, pos, ◌<ℤ◌, ◌≤ℤ◌, true, false, ◌&&◌, not, List, [], ◌∷◌,
  none, some, All, map, count_if, ◌⊎◌, inl, inr, Option-cases, if◌then◌else◌, arith,
}
use mathlib.Core.Option
use oban.Job.{Job, executing, available, discarded}
use oban.Job.States.{state_eq_ne}
use oban.JobMap.{get, Distinct}
use oban.Store.{MemStore}
use oban.Store.Caps.{rescue_executing, rescue_all, rescue_job, is_stuck, has_attempts}

-- `RescueExecuting` rewrites each job in place and keeps its id.
module _ (older_than now : ℤ) where
  unfoldable pub rescue_one : Job → Job
  rescue_one j = if not (is_stuck older_than j) then j else rescue_job now j

  pub rescue_all-map : (js : List Job) → (rescue_all older_than now js).0 ≡ map rescue_one js
  unfolding rescue_all rescue_one
  rescue_all-map [] = refl
  rescue_all-map (j ∷ js) = ground (arith, rescue_all-map js)

  pub rescue_one-id : (j : Job) → (rescue_one j).id ≡ j.id
  unfolding rescue_one
  rescue_one-id j = ground arith

pub map-All :
    (P : Job → Type 0) (f : Job → Job) (js : List Job)
    → ((j : Job) → P j → P (f j))
    → All P js
    → All P (map f js)
map-All P f [] k h = tt
map-All P f (j ∷ js) k h = (k j h.0, map-All P f js k h.1)

pub map-Distinct :
    (f : Job → Job) (js : List Job)
    → ((j : Job) → (f j).id ≡ j.id)
    → Distinct js
    → Distinct (map f js)
map-Distinct f [] k d = tt
map-Distinct f (j ∷ js) k d = (
  subst (λ n. All (λ i. i.id ≢ n) (map f js)) (sym (k j))
      (map-All (λ i. i.id ≢ j.id) f js (λ i n e. n (sym (k i) ∙ e)) d.0),
  map-Distinct f js k d.1,
)

pub get-map :
    (f : Job → Job) (k : ℕ) (js : List Job)
    → ((j : Job) → (f j).id ≡ j.id)
    → get k (map f js) ≡ Option.map f (get k js)
unfolding get
get-map f k [] h = refl
get-map f k (j ∷ js) h = ground (arith, h j, get-map f k js h)

module _ (older_than now : ℤ) where
  rescue_all-counts :
      (js : List Job)
      → let r = rescue_all older_than now js in
        (r.1 ≡ count_if (λ j. is_stuck older_than j && has_attempts j) js)
        × (r.2 ≡ count_if (λ j. is_stuck older_than j && not (has_attempts j)) js)
  unfolding rescue_all
  rescue_all-counts [] = (refl, refl)
  rescue_all-counts (j ∷ js) = ground (arith, rescue_all-counts js)

  -- What a rescue makes of one job. It is stuck if it is executing and was attempted before
  -- `older_than`.
  pub record Rescued (j j' : Job) : Type 0 where
    pub kept : (j.state ≢ executing) ⊎ (older_than ≤ℤ j.attempted_at) → j' ≡ j
    pub saved :
        j.state ≡ executing
        → j.attempted_at <ℤ older_than
        → pos j.attempt <ℤ j.max_attempts
        → j' ≡ record j { state = available; scheduled_at = now }
    pub lost :
        j.state ≡ executing
        → j.attempted_at <ℤ older_than
        → j.max_attempts ≤ℤ pos j.attempt
        → j' ≡ record j { state = discarded; discarded_at = now }

  stuck_of :
      (j : Job) → j.state ≡ executing → j.attempted_at <ℤ older_than → is_stuck older_than j ≡ true
  stuck_of j e h = ground arith

  rescue_one-kept :
      (j : Job)
      → (j.state ≢ executing) ⊎ (older_than ≤ℤ j.attempted_at)
      → is_stuck older_than j ≡ false
  rescue_one-kept j (inl h) = rw (state_eq_ne j.state executing h)
  rescue_one-kept j (inr h) = ground arith

  has_attempts_of : (j : Job) → pos j.attempt <ℤ j.max_attempts → has_attempts j ≡ true
  has_attempts_of j h = ground arith

  no_attempts_of : (j : Job) → j.max_attempts ≤ℤ pos j.attempt → has_attempts j ≡ false
  no_attempts_of j h = ground arith

  rescue_one-Rescued : (j : Job) → Rescued j (rescue_one older_than now j)
  unfolding rescue_one
  rescue_one-Rescued j = record {
    kept = λ h. rw (rescue_one-kept j h);
    saved = λ e h a. rw (stuck_of j e h, has_attempts_of j a);
    lost = λ e h a. rw (stuck_of j e h, no_attempts_of j a);
  }

-- A rescue pass reports how many stuck jobs had attempts left and how many had none. It makes the
-- first available at `now`, discards the second at `now`, and changes no other job, nor adds one.
pub rescue_executing_lem :
    (older_than now : ℤ) (s : MemStore)
    → let out = rescue_executing older_than now s in
      (out.0.0 ≡ count_if (λ j. is_stuck older_than j && has_attempts j) s.jobs)
      × (out.0.1 ≡ count_if (λ j. is_stuck older_than j && not (has_attempts j)) s.jobs)
      × ((k : ℕ)
          → ((get k s.jobs ≡ none) × (get k out.1.jobs ≡ none))
            ⊎ ((j j' : Job) × (get k s.jobs ≡ some j)
                × (get k out.1.jobs ≡ some j')
                × Rescued older_than now j j'))
unfolding rescue_executing
rescue_executing_lem older_than now s = (
  (rescue_all-counts older_than now s.jobs).0,
  (rescue_all-counts older_than now s.jobs).1,
  λ k. rw (rescue_all-map older_than now s.jobs) (
      rw (get-map (rescue_one older_than now) k s.jobs (rescue_one-id older_than now))
        (elim (Option-cases (get k s.jobs)) [
          | inl e ↦ inl (e, rw e)
          | inr (j, e) ↦
              inr (j, rescue_one older_than now j, e, rw e, rescue_one-Rescued older_than now j)
        ])),
)
