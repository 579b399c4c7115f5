-- ===== src/SqlStore/Changes.antt =====
-- What the updating statements of sqlstore.go do to the jobs that the rows hold.
use oban.Prelude.{
  ℕ, ◌≡◌, refl, ap, ℤ, Bool, true, false, ◌&&◌, not, List, [], ◌∷◌, ◌==◌, map, keep, if◌then◌else◌,
  str_eq, arith,
}
use oban.Job.{
  State, scheduled, available, executing, retryable, completed, discarded, cancelled, Job, state_eq,
  is_finished, is_zero,
}
use oban.Store.{mark_completed, start_job}
use oban.Store.Caps.{mark_cancelled, mark_runnable}
use oban.Sql.{
  state_text, natural, moment, text, id_col, state_col, none_of, state_args, finished_states,
}
use oban.Sql.Table.{Row, Table, perform, value_eq, eq_one_of, cond_holds}
use oban.Sql.Rows.{Json}
use oban.SqlStore.{
  complete_update, state_value, cancel_update, retry_now_update, start_update, delete_id,
}
use oban.SqlStore.Fetch.{start_args}
use oban.SqlStore.Mirror.{IsRowOf, Mirrors, Mirrors-map, Mirrors-keep, null_time_pos}

-- The jobs after a change of those with an id that pass a test.
abbrev pub change_where : ℕ → (Job → Bool) → (Job → Job) → Job → Job
change_where id p f j = if j.id == id && p j then f j else j

abbrev pub is_executing : Job → Bool
is_executing j = state_eq j.state executing

abbrev pub not_finished : Job → Bool
not_finished j = not (is_finished j.state)

abbrev pub always : Job → Bool
always j = true

is_executing_text : (s : State) → str_eq (state_text s) "executing" ≡ state_eq s executing
is_executing_text scheduled = refl
is_executing_text available = refl
is_executing_text executing = refl
is_executing_text retryable = refl
is_executing_text completed = refl
is_executing_text discarded = refl
is_executing_text cancelled = refl

unfinished_text :
    (s : State)
    → (not false && not (eq_one_of 3 (text (state_text s)) (state_args finished_states)).0)
      ≡ (not (is_finished s))
unfinished_text scheduled = refl
unfinished_text available = refl
unfinished_text executing = refl
unfinished_text retryable = refl
unfinished_text completed = refl
unfinished_text discarded = refl
unfinished_text cancelled = refl

-- A row is changed just when its job is.
pub changed-IsRowOf :
    (json : Json) (b c : Bool) (r r' : Row) (j j' : Job)
    → b ≡ c
    → IsRowOf json r j
    → IsRowOf json r' j'
    → IsRowOf json (if b then r' else r) (if c then j' else j)
changed-IsRowOf json true true r r' j j' e h h' = h'
changed-IsRowOf json false false r r' j j' e h h' = h
changed-IsRowOf json true false r r' j j' e h h' = absurd (cc)
changed-IsRowOf json false true r r' j j' e h h' = absurd (cc)

pub both_tests : {a b a' b' : Bool} → a ≡ a' → b ≡ b' → (a && (b && true)) ≡ (a' && b')
both_tests {a} {b} {a'} {b'} e f = ground (arith, e, f)

pub id_alone : {a a' : Bool} → a ≡ a' → (a && true) ≡ (a' && true)
id_alone e = ap (λ x. x && true) e

module _ (json : Json) {r : Row} {j : Job} (h : IsRowOf json r j) where
  pub id_test : (id : ℕ) → value_eq (r id_col) (natural id) ≡ (j.id == id)
  id_test id = rw h.fixed.0 refl

  pub executing_test : value_eq (r state_col) (text "executing") ≡ is_executing j
  executing_test = rw h.state_eq (is_executing_text j.state)

  unfinished_test :
      (cond_holds (none_of state_col 3) r (state_args finished_states)).0 ≡ not_finished j
  unfinished_test = rw h.state_eq (unfinished_text j.state)

module _ (json : Json) where
  pub complete-Mirrors :
      (id : ℕ) (now : ℤ) (t : Table) (js : List Job)
      → is_zero now ≡ false
      → Mirrors json t.rows js
      → Mirrors json
          (perform complete_update
            (state_value completed ∷ moment now ∷ natural id ∷ state_value executing ∷ [])
            t).1.rows
          (map (change_where id is_executing (mark_completed now)) js)
  complete-Mirrors id now t js z m =
      Mirrors-map json _ (change_where id is_executing (mark_completed now))
        (λ r j h.
          changed-IsRowOf json _ _ r _ j (mark_completed now j)
            (both_tests (id_test json h id) (executing_test json h)) h
            (record {
              fixed = h.fixed;
              attempt_eq = h.attempt_eq;
              state_eq = refl;
              scheduled_at_eq = h.scheduled_at_eq;
              attempted_at_eq = h.attempted_at_eq;
              completed_at_eq = null_time_pos now z;
              discarded_at_eq = h.discarded_at_eq;
              last_error_eq = h.last_error_eq;
              history = h.history;
              texts = h.texts;
            }))
        t.rows js m

  pub cancel-Mirrors :
      (id : ℕ) (now : ℤ) (t : Table) (js : List Job)
      → is_zero now ≡ false
      → Mirrors json t.rows js
      → Mirrors json
          (perform cancel_update
            (state_value cancelled ∷ moment now ∷ natural id ∷ state_args finished_states)
            t).1.rows
          (map (change_where id not_finished (mark_cancelled now)) js)
  cancel-Mirrors id now t js z m =
      Mirrors-map json _ (change_where id not_finished (mark_cancelled now))
        (λ r j h.
          changed-IsRowOf json _ _ r _ j (mark_cancelled now j)
            (both_tests (id_test json h id) (unfinished_test json h)) h
            (record {
              fixed = h.fixed;
              attempt_eq = h.attempt_eq;
              state_eq = refl;
              scheduled_at_eq = h.scheduled_at_eq;
              attempted_at_eq = h.attempted_at_eq;
              completed_at_eq = h.completed_at_eq;
              discarded_at_eq = null_time_pos now z;
              last_error_eq = h.last_error_eq;
              history = h.history;
              texts = h.texts;
            }))
        t.rows js m

  pub retry_now-Mirrors :
      (id : ℕ) (now : ℤ) (t : Table) (js : List Job)
      → Mirrors json t.rows js
      → Mirrors json
          (perform retry_now_update (state_value available ∷ moment now ∷ natural id ∷ []) t).1.rows
          (map (change_where id always (mark_runnable now)) js)
  retry_now-Mirrors id now t js m =
      Mirrors-map json _ (change_where id always (mark_runnable now))
        (λ r j h.
          changed-IsRowOf json _ _ r _ j (mark_runnable now j) (id_alone (id_test json h id)) h
            (record {
              fixed = h.fixed;
              attempt_eq = h.attempt_eq;
              state_eq = refl;
              scheduled_at_eq = refl;
              attempted_at_eq = h.attempted_at_eq;
              completed_at_eq = refl;
              discarded_at_eq = refl;
              last_error_eq = h.last_error_eq;
              history = h.history;
              texts = h.texts;
            }))
        t.rows js m

  pub start-Mirrors :
      (id : ℕ) (now : ℤ) (t : Table) (js : List Job)
      → is_zero now ≡ false
      → Mirrors json t.rows js
      → Mirrors json
          (perform start_update (start_args now id) t).1.rows
          (map (change_where id always (start_job now)) js)
  start-Mirrors id now t js z m =
      Mirrors-map json _ (change_where id always (start_job now))
        (λ r j h.
          changed-IsRowOf json _ _ r _ j (start_job now j) (id_alone (id_test json h id)) h
            (record {
              fixed = h.fixed;
              attempt_eq = rw h.attempt_eq refl;
              state_eq = refl;
              scheduled_at_eq = h.scheduled_at_eq;
              attempted_at_eq = null_time_pos now z;
              completed_at_eq = h.completed_at_eq;
              discarded_at_eq = h.discarded_at_eq;
              last_error_eq = h.last_error_eq;
              history = h.history;
              texts = h.texts;
            }))
        t.rows js m

  pub delete-Mirrors :
      (id : ℕ) (t : Table) (js : List Job)
      → Mirrors json t.rows js
      → Mirrors json
          (perform delete_id (natural id ∷ []) t).1.rows
          (keep (λ j. not (j.id == id)) js)
  delete-Mirrors id t js m =
      Mirrors-keep json _ (λ j. not (j.id == id))
        (λ r j h. ap (λ x. not x) (ground (arith, id_test json h id))) t.rows js m
