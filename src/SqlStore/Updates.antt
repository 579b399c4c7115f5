-- ===== src/SqlStore/Updates.antt =====
-- The methods of the SQLStore that change, read or remove rows (sqlstore.go), and `Migrate`.
use Prim.Native.String.{◌++◌ as str_append}
use oban.Prelude.{ℕ, ℤ, String, List, [], ◌∷◌, ◌++◌, Option, none, some}
use oban.Errors.{Err, Result, ok, err, wrapped, message, err_job_not_found}
use oban.Job.{
  State, available, executing, retryable, completed, discarded, cancelled, AttemptError, Job,
}
use oban.Sql.{
  SqlDialect, Column, scheduled_at_col, discarded_at_col, Value, natural, text, moment, Statement,
  state_text, state_args, finished_states,
}
use oban.Sql.Text.{row_lock}
use oban.Sql.Schema.{ddl}
use oban.Sql.Table.{Done}
use oban.Sql.Database.{Database}
use oban.Sql.Rows.{
  Json, null_str, scan_natural, scan_bytes, scan_failed, marshal_history, unmarshal_history,
  scan_job, ◌>>=◌,
}
use oban.SqlStore.{
  state_value, failing, affected, complete_update, history_query, fail_update, get_query,
  prune_delete, rescue_update, cancel_update, delete_id, retry_now_update, tags_update,
}

module _ {D : Type 0} (db : Database D) where
  abbrev exec_failing : String → Statement → List Value → D → Option Err × D
  exec_failing what st args d = let r = db.exec st args d in (failing what r.0, r.1)

  unfoldable pub complete : ℕ → ℤ → D → Option Err × D
  complete id now =
      exec_failing "oban: complete" complete_update
        (state_value completed ∷ moment now ∷ natural id ∷ state_value executing ∷ [])

  unfoldable pub delete_finished_before : ℤ → D → Result ℕ × D
  delete_finished_before cutoff d =
      let r = db.exec prune_delete (state_args finished_states ++ moment cutoff ∷ []) d in
      (affected "oban: prune" r.0, r.1)

  unfoldable pub rescue_executing : ℤ → ℤ → D → Result ℕ × D
  rescue_executing older_than now d =
      let r =
        db.exec rescue_update
          (state_value available
            ∷ state_value discarded
            ∷ moment now
            ∷ moment now
            ∷ state_value executing
            ∷ moment older_than
            ∷ [])
          d in
      (affected "oban: rescue" r.0, r.1)

  unfoldable pub cancel : ℕ → ℤ → D → Option Err × D
  cancel id now =
      exec_failing "oban: cancel" cancel_update
        (state_value cancelled ∷ moment now ∷ natural id ∷ state_args finished_states)

  unfoldable pub delete_job : ℕ → D → Option Err × D
  delete_job id = exec_failing "oban: delete" delete_id (natural id ∷ [])

  unfoldable pub retry_now : ℕ → ℤ → D → Option Err × D
  retry_now id now =
      exec_failing "oban: retry now" retry_now_update
        (state_value available ∷ moment now ∷ natural id ∷ [])

  -- The loop of `Migrate`.
  abbrev migrate_next : Option Err × D → Option Err × D → Option Err × D
  migrate_next (none, d) rest = rest
  migrate_next (some e, d) rest = (some (wrapped "oban: migrate" e), d)

  abbrev migrate_all : List (List ℕ) → D → Option Err × D
  migrate_all [] d = (none, d)
  migrate_all (st ∷ sts) d = let r = db.exec_text st d in migrate_next r (migrate_all sts r.1)

  unfoldable pub migrate : SqlDialect → String → D → Option Err × D
  migrate dialect table = migrate_all (ddl dialect table)

abbrev or_empty {ℓ} : {A : Type ℓ} → Option (List A) → List A
or_empty none = []
or_empty (some xs) = xs

-- What a failing attempt writes: the new state, the column of its time, and the history.
pub record Failure : Type 0 where
  pub new_state : State
  pub ts_column : Column
  pub ts_value : ℤ
  pub last_err : Option Err
  pub at_time : ℤ

-- The arguments with which `Retry` and `Discard` call `sqlstoreFail`.
abbrev pub retry_failure : ℤ → Option Err → ℤ → Failure
retry_failure scheduled_at last_err now = record {
  new_state = retryable;
  ts_column = scheduled_at_col;
  ts_value = scheduled_at;
  last_err = last_err;
  at_time = now;
}

abbrev pub discard_failure : Option Err → ℤ → Failure
discard_failure last_err now = record {
  new_state = discarded;
  ts_column = discarded_at_col;
  ts_value = now;
  last_err = last_err;
  at_time = now;
}

abbrev failure_named : Failure → String → String
failure_named f what = str_append "oban: " (str_append (state_text f.new_state) what)

abbrev pub last_message : Option Err → String
last_message none = ""
last_message (some e) = message e

abbrev pub history_after : Option Err → ℕ → ℤ → List AttemptError → List AttemptError
history_after none attempt now history = history
history_after (some e) attempt now history =
    history ++ record { attempt = attempt; at_time = now; text = message e } ∷ []

-- `Scan(&errsJSON, &attempt)`.
abbrev pub scan_history : List Value → Result (String × ℕ)
scan_history (v ∷ w ∷ []) = do errs ← scan_bytes v; attempt ← scan_natural w; ok (errs, attempt)
scan_history _ = scan_failed

abbrev pub fail_args : Failure → String → ℕ → List Value
fail_args f errs id =
    state_value f.new_state
    ∷ moment f.ts_value
    ∷ null_str (last_message f.last_err)
    ∷ text errs
    ∷ natural id
    ∷ state_value executing
    ∷ []

module _ {D : Type 0} (json : Json) (db : Database D) where
  abbrev pub fail_with : Err → D → Option Err × D
  fail_with e d = (some e, db.rollback d)

  abbrev pub fail_committed : Failure → Option Err × D → Option Err × D
  fail_committed f (none, d) = (none, d)
  fail_committed f (some e, d) = (some (wrapped (failure_named f ": commit") e), d)

  abbrev pub fail_updated : Failure → Result Done × D → Option Err × D
  fail_updated f (ok done, d) = fail_committed f (db.commit d)
  fail_updated f (err e, d) = fail_with (wrapped (failure_named f ": update") e) d

  abbrev pub fail_marshalled : Failure → ℕ → Result String → D → Option Err × D
  fail_marshalled f id (ok errs) d =
      fail_updated f (db.tx_exec (fail_update f.ts_column) (fail_args f errs id) d)
  fail_marshalled f id (err e) d = fail_with (wrapped (failure_named f "") e) d

  abbrev pub fail_history : Failure → ℕ → ℕ → Result (List AttemptError) → D → Option Err × D
  fail_history f id attempt (ok history) d =
      fail_marshalled f id
        (marshal_history json (history_after f.last_err attempt f.at_time history)) d
  fail_history f id attempt (err e) d = fail_with (wrapped (failure_named f "") e) d

  abbrev pub fail_scanned : Failure → ℕ → Result (String × ℕ) → D → Option Err × D
  fail_scanned f id (ok (errs, attempt)) d =
      fail_history f id attempt (unmarshal_history json errs) d
  fail_scanned f id (err e) d = fail_with (wrapped (failure_named f ": select") e) d

  -- Without a row the job has moved on, and the error of the commit is returned as it is.
  abbrev pub fail_selected : Failure → ℕ → Result (Option (List Value)) × D → Option Err × D
  fail_selected f id (ok none, d) = db.commit d
  fail_selected f id (ok (some row), d) = fail_scanned f id (scan_history row) d
  fail_selected f id (err e, d) = fail_with (wrapped (failure_named f ": select") e) d

  abbrev pub fail_begun : SqlDialect → Failure → ℕ → Option Err × D → Option Err × D
  fail_begun dialect f id (some e, d) = (some (wrapped (failure_named f ": begin") e), d)
  fail_begun dialect f id (none, d) = fail_selected f id (
      db.tx_query_row (history_query (row_lock dialect)) (natural id ∷ state_value executing ∷ [])
        d)

  -- `sqlstoreFail`.
  unfoldable pub sql_fail : SqlDialect → Failure → ℕ → D → Option Err × D
  sql_fail dialect f id d = fail_begun dialect f id (db.begin d)

  unfoldable pub retry : SqlDialect → ℕ → ℤ → Option Err → ℤ → D → Option Err × D
  unfolding sql_fail
  retry dialect id scheduled_at last_err now =
      sql_fail dialect (retry_failure scheduled_at last_err now) id

  unfoldable pub discard : SqlDialect → ℕ → Option Err → ℤ → D → Option Err × D
  unfolding sql_fail
  discard dialect id last_err now = sql_fail dialect (discard_failure last_err now) id

  abbrev got_job : Result Job → Result Job
  got_job (ok job) = ok job
  got_job (err e) = err (wrapped "oban: get" e)

  abbrev pub got_row : Result (Option (List Value)) → Result Job
  got_row (ok none) = err err_job_not_found
  got_row (ok (some row)) = got_job (scan_job json row)
  got_row (err e) = err (wrapped "oban: get" e)

  unfoldable pub get_job : ℕ → D → Result Job × D
  get_job id d = let r = db.query_row get_query (natural id ∷ []) d in (got_row r.0, r.1)

  abbrev set_marshalled : ℕ → Result String → Result String → D → Option Err × D
  set_marshalled id (err e) meta d = (some (wrapped "oban: set tags/meta: marshal tags" e), d)
  set_marshalled id (ok tags) (err e) d = (some (wrapped "oban: set tags/meta: marshal meta" e), d)
  set_marshalled id (ok tags) (ok meta) d =
      let r = db.exec tags_update (text tags ∷ text meta ∷ natural id ∷ []) d in
      (failing "oban: set tags/meta" r.0, r.1)

  -- A nil slice or map is `none`.
  unfoldable pub set_tags_meta :
      ℕ → Option (List String) → Option (List (String × String)) → D → Option Err × D
  set_tags_meta id tags meta =
      set_marshalled id (json.marshal_tags (or_empty tags)) (json.marshal_meta (or_empty meta))
