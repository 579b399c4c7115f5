-- ===== src/SqlStore.antt =====
-- SQLStore (sqlstore.go): its methods over a database. A method sends its statements as syntax
-- trees with the values of their marks. The deferred `tx.Rollback` runs on the paths that return
-- before the commit; after a commit it does nothing. `time.Now()` is the argument `wall`.
pub mod Enqueue
pub mod Fetch
pub mod Updates
pub mod Mirror
pub mod Changes
pub mod Sweeps
pub mod Keyed
pub mod Refine
pub mod Fetching
pub mod Adding
pub mod Conflict
pub mod Failing
pub mod Retrying
pub mod Guard
pub mod Atomic
pub mod Runs
pub mod Lookup
use Prim.Native.String.{◌++◌}
use oban.Prelude.{String, ℕ, List, [], ◌∷◌, Option, none, some}
use oban.Errors.{Err, Result, ok, err, wrapped}
use oban.Job.{State}
use oban.Sql.{
  SqlDialect, postgres, sqlite, mysql, unknown_dialect, Column, id_col, queue_col, worker_col,
  max_attempts_col, attempt_col, priority_col, state_col, scheduled_at_col, inserted_at_col,
  attempted_at_col, completed_at_col, discarded_at_col, unique_key_col, last_error_col, errors_col,
  tags_col, meta_col, insert_columns, select_columns, Value, natural, integer, text, moment, Expr,
  mark, null_value, this_column, one_more, when_below, Cond, equals, at_least, at_most, below,
  one_of, none_of, coalesce_below, no_limit, one_row, limit_mark, Lock, no_lock, Statement, select,
  update, delete, insert, state_text, state_args, fetchable_states, unfinished_states,
  finished_states,
}
use oban.Sql.Text.{fetch_lock, row_lock}
use oban.Sql.Schema.{ddl}
use oban.Sql.Table.{Done}
use oban.Sql.Database.{Database, Rows}
use oban.Sql.Rows.{
  Json, null_str, scan_natural, scan_bytes, scan_failed, marshal_history, unmarshal_history,
  scan_job, insert_values,
}

-- The statements of the methods.
abbrev pub conflict_conds : List Cond
conflict_conds =
    equals queue_col
    ∷ equals worker_col
    ∷ equals unique_key_col
    ∷ one_of state_col 4
    ∷ at_least inserted_at_col
    ∷ []

abbrev pub conflict_query : Statement
conflict_query = select select_columns conflict_conds (id_col ∷ []) one_row no_lock

abbrev pub fetch_conds : List Cond
fetch_conds = equals queue_col ∷ one_of state_col 3 ∷ at_most scheduled_at_col ∷ []

abbrev pub fetch_query : Lock → Statement
fetch_query lock =
    select select_columns fetch_conds (priority_col ∷ scheduled_at_col ∷ id_col ∷ []) limit_mark
      lock

abbrev pub start_update : Statement
start_update =
    update ((state_col, mark) ∷ (attempt_col, one_more attempt_col) ∷ (attempted_at_col, mark) ∷ [])
      (equals id_col ∷ [])

abbrev pub complete_update : Statement
complete_update =
    update ((state_col, mark) ∷ (completed_at_col, mark) ∷ [])
      (equals id_col ∷ equals state_col ∷ [])

abbrev pub history_query : Lock → Statement
history_query lock =
    select (errors_col ∷ attempt_col ∷ []) (equals id_col ∷ equals state_col ∷ []) [] no_limit lock

abbrev pub fail_sets : Column → List (Column × Expr)
fail_sets ts_column =
    (state_col, mark) ∷ (ts_column, mark) ∷ (last_error_col, mark) ∷ (errors_col, mark) ∷ []

abbrev pub fail_update : Column → Statement
fail_update ts_column = update (fail_sets ts_column) (equals id_col ∷ equals state_col ∷ [])

abbrev pub get_query : Statement
get_query = select select_columns (equals id_col ∷ []) [] no_limit no_lock

abbrev pub prune_conds : List Cond
prune_conds =
    one_of state_col 3
    ∷ coalesce_below (completed_at_col ∷ discarded_at_col ∷ inserted_at_col ∷ [])
    ∷ []

abbrev pub prune_delete : Statement
prune_delete = delete prune_conds

abbrev pub rescue_sets : List (Column × Expr)
rescue_sets =
    (state_col, when_below attempt_col max_attempts_col mark mark)
    ∷ (
      scheduled_at_col,
      when_below attempt_col max_attempts_col mark (this_column scheduled_at_col),
    )
    ∷ (
      discarded_at_col,
      when_below attempt_col max_attempts_col (this_column discarded_at_col) mark,
    )
    ∷ []

abbrev pub rescue_conds : List Cond
rescue_conds = equals state_col ∷ below attempted_at_col ∷ []

abbrev pub rescue_update : Statement
rescue_update = update rescue_sets rescue_conds

abbrev pub cancel_update : Statement
cancel_update =
    update ((state_col, mark) ∷ (discarded_at_col, mark) ∷ [])
      (equals id_col ∷ none_of state_col 3 ∷ [])

abbrev pub delete_id : Statement
delete_id = delete (equals id_col ∷ [])

abbrev pub retry_now_update : Statement
retry_now_update =
    update
      ((state_col, mark)
        ∷ (scheduled_at_col, mark)
        ∷ (completed_at_col, null_value)
        ∷ (discarded_at_col, null_value)
        ∷ [])
      (equals id_col ∷ [])

abbrev pub tags_update : Statement
tags_update = update ((tags_col, mark) ∷ (meta_col, mark) ∷ []) (equals id_col ∷ [])

abbrev pub state_value : State → Value
state_value st = text (state_text st)

-- A failed call, reported under the name of the method.
abbrev pub failing : String → Result Done → Option Err
failing what (ok done) = none
failing what (err e) = some (wrapped what e)

abbrev affected_rows : String → Result ℕ → Result ℕ
affected_rows what (ok n) = ok n
affected_rows what (err e) = err (wrapped (what ++ ": rows affected") e)

abbrev pub affected : String → Result Done → Result ℕ
affected what (ok done) = affected_rows what done.rows_affected
affected what (err e) = err (wrapped what e)

-- The end of a transaction: `what` is the name that a failed commit is reported under.
abbrev pub commit_value {ℓ} : {A : Type ℓ} {D : Type 0} → String → A → Option Err × D → Result A × D
commit_value what a (none, d) = (ok a, d)
commit_value what a (some e, d) = (err (wrapped what e), d)

abbrev pub roll_back {ℓ} : {A : Type ℓ} {D : Type 0} → Database D → Err → D → Result A × D
roll_back db e d = (err e, db.rollback d)
