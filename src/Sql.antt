-- ===== src/Sql.antt =====
-- The SQL that sqlstore.go sends to its database, as syntax trees: columns, values and statements.
-- A `?` is a mark; a statement goes with the list of values for its marks, from left to right.
pub mod Text
pub mod Schema
pub mod Table
pub mod Database
pub mod Rows
pub mod Marks
use oban.Prelude.{ℕ, ◌==◌, Bool, ℤ, String, List, [], ◌∷◌, map}
use oban.Job.{State, scheduled, available, executing, retryable, completed, discarded, cancelled}

-- `SQLDialect`, an int of which three values have names.
pub data SqlDialect : Type 0 where
  postgres sqlite mysql unknown_dialect : SqlDialect

pub data Column : Type 0 where
  id_col queue_col worker_col args_col max_attempts_col attempt_col priority_col : Column
  state_col scheduled_at_col inserted_at_col attempted_at_col completed_at_col : Column
  discarded_at_col unique_key_col unique_period_col last_error_col : Column
  errors_col tags_col meta_col : Column

-- The position of a column in `sqlstoreSelectColumns`.
abbrev pub column_code : Column → ℕ
column_code id_col = 0
column_code queue_col = 1
column_code worker_col = 2
column_code args_col = 3
column_code max_attempts_col = 4
column_code attempt_col = 5
column_code priority_col = 6
column_code state_col = 7
column_code scheduled_at_col = 8
column_code inserted_at_col = 9
column_code attempted_at_col = 10
column_code completed_at_col = 11
column_code discarded_at_col = 12
column_code unique_key_col = 13
column_code unique_period_col = 14
column_code last_error_col = 15
column_code errors_col = 16
column_code tags_col = 17
column_code meta_col = 18

abbrev pub column_eq : Column → Column → Bool
column_eq c d = column_code c == column_code d

abbrev pub insert_columns : List Column
insert_columns =
    queue_col ∷ worker_col ∷ args_col ∷ max_attempts_col ∷ attempt_col ∷ priority_col ∷ state_col
    ∷ scheduled_at_col ∷ inserted_at_col ∷ attempted_at_col ∷ completed_at_col ∷ discarded_at_col
    ∷ unique_key_col ∷ unique_period_col ∷ last_error_col ∷ errors_col ∷ tags_col ∷ meta_col ∷ []

abbrev pub select_columns : List Column
select_columns = id_col ∷ insert_columns

-- What a column holds and what a mark stands for. Ids and attempt counts are natural numbers, as in
-- the model of a job; a `[]byte` and a `string` are both texts.
pub data Value : Type 0 where
  null : Value
  natural : ℕ → Value
  integer : ℤ → Value
  text : String → Value
  moment : ℤ → Value

-- The right side of an assignment. `when_below a b e f` is `CASE WHEN a < b THEN e ELSE f END`.
pub data Expr : Type 0 where
  mark : Expr
  null_value : Expr
  this_column : Column → Expr
  one_more : Column → Expr
  when_below : Column → Column → Expr → Expr → Expr

-- The tests that the conditions join by AND. `one_of c n` is an `IN` with n marks, and
-- `coalesce_below cs` is `COALESCE(...) < ?`.
pub data Cond : Type 0 where
  equals at_least at_most below : Column → Cond
  one_of none_of : Column → ℕ → Cond
  coalesce_below : List Column → Cond

pub data Limit : Type 0 where
  no_limit one_row limit_mark : Limit

-- The clause that locks the rows a query reads.
pub data Lock : Type 0 where
  no_lock for_update skip_locked : Lock

pub data Statement : Type 0 where
  select : List Column → List Cond → List Column → Limit → Lock → Statement
  update : List (Column × Expr) → List Cond → Statement
  delete : List Cond → Statement
  insert : List Column → Bool → Statement

-- The texts of the states (job.go), which are what the state column holds.
abbrev pub state_text : State → String
state_text scheduled = "scheduled"
state_text available = "available"
state_text executing = "executing"
state_text retryable = "retryable"
state_text completed = "completed"
state_text discarded = "discarded"
state_text cancelled = "cancelled"

abbrev pub fetchable_states : List State
fetchable_states = available ∷ scheduled ∷ retryable ∷ []

abbrev pub unfinished_states : List State
unfinished_states = available ∷ scheduled ∷ executing ∷ retryable ∷ []

abbrev pub finished_states : List State
finished_states = completed ∷ discarded ∷ cancelled ∷ []

-- The arguments that `sqlstoreStateArgs` makes of a list of states.
abbrev pub state_args : List State → List Value
state_args = map (λ st. text (state_text st))
