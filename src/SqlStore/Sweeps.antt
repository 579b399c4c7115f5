-- ===== src/SqlStore/Sweeps.antt =====
-- What the statements of `RescueExecuting` and `DeleteFinishedBefore` (sqlstore.go) do to the jobs
-- that the rows hold, and how many rows they count.
use oban.Prelude.{
  ℕ, ◌≡◌, refl, ap, ◌∙◌, ℤ, true, false, ◌&&◌, not, List, [], ◌∷◌, ◌++◌, map, keep, count_if,
  if◌then◌else◌, Bool-cases, ◌⊎◌, inl, inr, All,
}
use oban.Errors.{ok}
use oban.Job.{
  State, scheduled, available, executing, retryable, completed, discarded, cancelled, Job, state_eq,
  in_states, before, is_zero,
}
use oban.Store.Caps.{is_stuck, rescue_job, has_attempts, finish_time, prunable}
use oban.Store.Rescue.{rescue_one}
use oban.Sql.{
  state_text, null, moment, text, Value, state_col, attempt_col, max_attempts_col, attempted_at_col,
  state_args, finished_states,
}
use oban.Sql.Table.{
  Row, Table, perform, value_below, value_eq, eq_one_of, assigned, updated_row, is_updated, is_null,
  all_hold,
}
use oban.Sql.Rows.{Json, null_time}
use oban.SqlStore.{rescue_update, rescue_sets, rescue_conds, prune_conds, prune_delete, state_value}
use oban.SqlStore.Mirror.{IsRowOf, Mirrors, Mirrors-map_on, Mirrors-keep_on, null_time_pos}
use oban.SqlStore.Changes.{both_tests, executing_test}

-- A running job has the time of its fetch.
abbrev pub IsStarted : Job → Type 0
IsStarted j = state_eq j.state executing ≡ true → is_zero j.attempted_at ≡ false

null_time_below : (t u : ℤ) → is_zero t ≡ false → value_below (null_time t) (moment u) ≡ before t u
null_time_below t u e = rw e refl

attempts_test :
    (json : Json) (r : Row) (j : Job)
    → IsRowOf json r j
    → value_below (r attempt_col) (r max_attempts_col) ≡ has_attempts j
attempts_test json r j h = rw (h.attempt_eq, h.fixed.4) refl

module _ (json : Json) (older_than now : ℤ) where
  stuck_test :
      (r : Row) (j : Job)
      → IsStarted j
      → IsRowOf json r j
      → (value_eq (r state_col) (text "executing")
          && (value_below (r attempted_at_col) (moment older_than) && true))
        ≡ is_stuck older_than j
  stuck_test r j s h = elim (Bool-cases (state_eq j.state executing)) [
    | inl e ↦
        both_tests (executing_test json h)
          (rw h.attempted_at_eq (null_time_below j.attempted_at older_than (s e)))
    | inr e ↦ rw (executing_test json h, e) refl
  ]

  abbrev rescue_args : List Value
  rescue_args =
      state_value available
      ∷ state_value discarded
      ∷ moment now
      ∷ moment now
      ∷ state_value executing
      ∷ moment older_than
      ∷ []

  abbrev rescued_row : Row → Row
  rescued_row r = (assigned rescue_sets r rescue_args).0

  rescued-IsRowOf :
      (r : Row) (j : Job)
      → is_zero now ≡ false
      → IsRowOf json r j
      → IsRowOf json (rescued_row r) (rescue_job now j)
  rescued-IsRowOf r j z h = elim (Bool-cases (has_attempts j)) [
    | inl e ↦
        rw (attempts_test json r j h, e)
          (record {
            fixed = h.fixed;
            attempt_eq = h.attempt_eq;
            state_eq = refl;
            scheduled_at_eq = refl;
            attempted_at_eq = h.attempted_at_eq;
            completed_at_eq = h.completed_at_eq;
            discarded_at_eq = h.discarded_at_eq;
            last_error_eq = h.last_error_eq;
            history = h.history;
            texts = h.texts;
          })
    | inr e ↦
        rw (attempts_test json r j h, e)
          (record {
            fixed = h.fixed;
            attempt_eq = h.attempt_eq;
            state_eq = refl;
            scheduled_at_eq = h.scheduled_at_eq;
            attempted_at_eq = h.attempted_at_eq;
            completed_at_eq = h.completed_at_eq;
            discarded_at_eq = null_time_pos now z;
            last_error_eq = h.last_error_eq;
            history = h.history;
            texts = h.texts;
          })
  ]

  swept-IsRowOf :
      (r : Row) (j : Job)
      → is_zero now ≡ false
      → IsStarted j
      → IsRowOf json r j
      → IsRowOf json
          (updated_row rescue_sets rescue_conds rescue_args r)
          (rescue_one older_than now j)
  unfolding rescue_one
  swept-IsRowOf r j z s h = elim (Bool-cases (is_stuck older_than j)) [
    | inl e ↦ rw (stuck_test r j s h, e) (rescued-IsRowOf r j z h)
    | inr e ↦ rw (stuck_test r j s h, e) h
  ]

  pub rescue-Mirrors :
      (t : Table) (js : List Job)
      → is_zero now ≡ false
      → All IsStarted js
      → Mirrors json t.rows js
      → let r = perform rescue_update rescue_args t in
        (r.0.rows_affected ≡ ok (count_if (is_stuck older_than) js))
        × Mirrors json r.1.rows (map (rescue_one older_than now) js)
  rescue-Mirrors t js z s m = (
    ap (λ (n : ℕ). ok n)
        (Mirrors-keep_on json IsStarted (is_updated rescue_sets rescue_conds rescue_args)
          (is_stuck older_than) stuck_test t.rows js s m).1,
    Mirrors-map_on json IsStarted (updated_row rescue_sets rescue_conds rescue_args)
        (rescue_one older_than now) (λ r j q h. swept-IsRowOf r j z q h) t.rows js s m,
  )

-- A finished job has the time of its finish, and no job has both times.
pub record IsCoherent (j : Job) : Type 0 where
  pub completed_once : j.state ≡ completed → is_zero j.completed_at ≡ false
  pub discarded_once :
      (j.state ≡ discarded) ⊎ (j.state ≡ cancelled)
      → (is_zero j.completed_at ≡ true) × (is_zero j.discarded_at ≡ false)

finished_test :
    (s : State)
    → (eq_one_of 3 (text (state_text s)) (state_args finished_states)).0
      ≡ in_states finished_states s
finished_test scheduled = refl
finished_test available = refl
finished_test executing = refl
finished_test retryable = refl
finished_test completed = refl
finished_test discarded = refl
finished_test cancelled = refl

abbrev sql_finish_time : Job → ℤ
sql_finish_time j =
    if not (is_zero j.completed_at)
    then j.completed_at
    else if not (is_zero j.discarded_at)
    then j.discarded_at
    else j.inserted_at

sql_finish_time_lem :
    (j : Job) (s : State)
    → j.state ≡ s
    → IsCoherent j
    → in_states finished_states s ≡ true
    → sql_finish_time j ≡ finish_time j
unfolding finish_time
sql_finish_time_lem j completed e c f = rw (e, c.completed_once e) refl
sql_finish_time_lem j discarded e c f = let d = c.discarded_once (inl e) in rw (e, d.0, d.1) refl
sql_finish_time_lem j cancelled e c f = let d = c.discarded_once (inr e) in rw (e, d.0, d.1) refl
sql_finish_time_lem j scheduled e c f = absurd (cc)
sql_finish_time_lem j available e c f = absurd (cc)
sql_finish_time_lem j executing e c f = absurd (cc)
sql_finish_time_lem j retryable e c f = absurd (cc)

prunable_lem :
    (j : Job) (cutoff : ℤ)
    → IsCoherent j
    → (in_states finished_states j.state && before (sql_finish_time j) cutoff)
      ≡ prunable finished_states cutoff j
prunable_lem j cutoff c = elim (Bool-cases (in_states finished_states j.state)) [
  | inl e ↦ rw (sql_finish_time_lem j j.state refl c e) refl
  | inr e ↦ rw e refl
]

coalesce_test :
    (c d i u : ℤ)
    → value_below
        (if is_null (null_time c)
          then (if is_null (null_time d) then (if false then null else moment i) else null_time d)
          else null_time c)
        (moment u)
      ≡ before (if not (is_zero c) then c else if not (is_zero d) then d else i) u
coalesce_test c d i u = elim (Bool-cases (is_zero c)) [
  | inr e ↦ rw e refl
  | inl e ↦ elim (Bool-cases (is_zero d)) [ inl f ↦ rw (e, f) refl | inr f ↦ rw (e, f) refl ]
]

module _ (json : Json) (cutoff : ℤ) where
  abbrev prune_args : List Value
  prune_args = state_args finished_states ++ moment cutoff ∷ []

  prune_test :
      (r : Row) (j : Job)
      → IsCoherent j
      → IsRowOf json r j
      → (all_hold prune_conds r prune_args).0 ≡ prunable finished_states cutoff j
  prune_test r j c h =
      rw (h.state_eq, h.completed_at_eq, h.discarded_at_eq, h.fixed.6)
        (both_tests (finished_test j.state)
            (coalesce_test j.completed_at j.discarded_at j.inserted_at cutoff)
          ∙ prunable_lem j cutoff c)

  pub prune-Mirrors :
      (t : Table) (js : List Job)
      → All IsCoherent js
      → Mirrors json t.rows js
      → let r = perform prune_delete prune_args t in
        (r.0.rows_affected ≡ ok (count_if (prunable finished_states cutoff) js))
        × Mirrors json r.1.rows (keep (λ j. not (prunable finished_states cutoff j)) js)
  prune-Mirrors t js c m = (
    ap (λ (n : ℕ). ok n)
        (Mirrors-keep_on json IsCoherent (λ r. (all_hold prune_conds r prune_args).0)
          (prunable finished_states cutoff) prune_test t.rows js c m).1,
    (Mirrors-keep_on json IsCoherent (λ r. not (all_hold prune_conds r prune_args).0)
        (λ j. not (prunable finished_states cutoff j))
        (λ r j q h. ap (λ x. not x) (prune_test r j q h)) t.rows js c m).0,
  )
