-- ===== src/Sql/Rows.antt =====
-- Jobs as rows (sqlstore.go): the values that `sqlstoreInsert` binds, `sqlstoreScanJob`, the
-- helpers for NULL, and the JSON of the error history. What encoding/json does is the parameter `Json`.
use oban.Prelude.{ℕ, ℤ, String, ◌||◌, List, [], ◌∷◌, if◌then◌else◌, str_eq}
use oban.Errors.{Result, ok, err, plain, wrapped}
use oban.Job.{
  State, scheduled, available, executing, retryable, completed, discarded, cancelled, AttemptError,
  Job, fresh_job, is_zero, zero_time,
}
use oban.Sql.{Value, null, natural, integer, text, moment, state_text}

pub record Json : Type 0 where
  pub marshal_errors : List AttemptError → Result String
  pub unmarshal_errors : String → Result (List AttemptError)
  pub marshal_tags : List String → Result String
  pub marshal_meta : List (String × String) → Result String

-- `sqlstoreNullTime` and `sqlstoreNullStr`.
abbrev pub null_time : ℤ → Value
null_time t = if is_zero t then null else moment t

abbrev pub null_str : String → Value
null_str s = if str_eq s "" then null else text s

-- The assignments of `Scan` to one variable each. A value of another kind is an error.
abbrev pub scan_failed {ℓ} : {A : Type ℓ} → Result A
scan_failed = err (plain "sql: Scan error")

abbrev pub scan_natural : Value → Result ℕ
scan_natural (natural n) = ok n
scan_natural _ = scan_failed

abbrev pub scan_integer : Value → Result ℤ
scan_integer (integer n) = ok n
scan_integer _ = scan_failed

abbrev pub scan_text : Value → Result String
scan_text (text s) = ok s
scan_text _ = scan_failed

-- A `[]byte` takes NULL as nil.
abbrev pub scan_bytes : Value → Result String
scan_bytes (text s) = ok s
scan_bytes null = ok ""
scan_bytes _ = scan_failed

abbrev pub scan_moment : Value → Result ℤ
scan_moment (moment t) = ok t
scan_moment _ = scan_failed

-- Into a `sql.NullTime` and then `sqlstoreTime`, and into a `sql.NullString` and then its `String`.
abbrev pub scan_null_time : Value → Result ℤ
scan_null_time null = ok zero_time
scan_null_time (moment t) = ok t
scan_null_time _ = scan_failed

abbrev pub scan_null_str : Value → Result String
scan_null_str null = ok ""
scan_null_str (text s) = ok s
scan_null_str _ = scan_failed

-- A text that is no constant of `State` has no counterpart in the model, and counts as an error.
abbrev pub state_of_text : String → Result State
state_of_text s =
    if str_eq s "scheduled"
    then ok scheduled
    else if str_eq s "available"
    then ok available
    else if str_eq s "executing"
    then ok executing
    else if str_eq s "retryable"
    then ok retryable
    else if str_eq s "completed"
    then ok completed
    else if str_eq s "discarded"
    then ok discarded
    else if str_eq s "cancelled"
    then ok cancelled
    else scan_failed

infixl 10 ◌>>=◌
abbrev pub ◌>>=◌ {ℓ κ} : {A : Type ℓ} {B : Type κ} → Result A → (A → Result B) → Result B
ok a >>= f = f a
err e >>= f = err e

abbrev pub next_value : List Value → Result (Value × List Value)
next_value [] = scan_failed
next_value (v ∷ vs) = ok (v, vs)

module _ (json : Json) where
  abbrev marshalled : Result String → Result String
  marshalled (ok b) = ok b
  marshalled (err e) = err (wrapped "marshal errors" e)

  -- `sqlstoreMarshalErrors`.
  abbrev pub marshal_history : List AttemptError → Result String
  marshal_history [] = ok "[]"
  marshal_history (e ∷ es) = marshalled (json.marshal_errors (e ∷ es))

  abbrev unmarshalled : Result (List AttemptError) → Result (List AttemptError)
  unmarshalled (ok out) = ok out
  unmarshalled (err e) = err (wrapped "unmarshal errors" e)

  -- `sqlstoreUnmarshalErrors`.
  abbrev pub unmarshal_history : String → Result (List AttemptError)
  unmarshal_history b =
      if str_eq b "" || str_eq b "null" then ok [] else unmarshalled (json.unmarshal_errors b)

  -- `sqlstoreScanJob` on the values of one row, in the order of `sqlstoreSelectColumns`. The fields
  -- that hold a relative delay are no columns. Tags and meta are read and dropped.
  abbrev pub scan_job : List Value → Result Job
  scan_job
        (v0 ∷ v1 ∷ v2 ∷ v3 ∷ v4 ∷ v5 ∷ v6 ∷ v7 ∷ v8 ∷ v9 ∷ v10 ∷ v11 ∷ v12 ∷ v13 ∷ v14 ∷ v15 ∷ v16
          ∷ v17 ∷ v18 ∷ []) =
      do
        id ← scan_natural v0
        queue ← scan_text v1
        worker ← scan_text v2
        args ← scan_bytes v3
        max_attempts ← scan_integer v4
        attempt ← scan_natural v5
        priority ← scan_integer v6
        state ← scan_text v7 >>= state_of_text
        scheduled_at ← scan_moment v8
        inserted_at ← scan_moment v9
        attempted_at ← scan_null_time v10
        completed_at ← scan_null_time v11
        discarded_at ← scan_null_time v12
        unique_key ← scan_null_str v13
        unique_period ← scan_integer v14
        last_error ← scan_null_str v15
        errs ← scan_bytes v16
        _tags ← scan_bytes v17
        _meta ← scan_bytes v18
        history ← unmarshal_history errs
        ok (record (fresh_job worker args) {
          id = id;
          queue = queue;
          max_attempts = max_attempts;
          attempt = attempt;
          priority = priority;
          state = state;
          scheduled_at = scheduled_at;
          inserted_at = inserted_at;
          attempted_at = attempted_at;
          completed_at = completed_at;
          discarded_at = discarded_at;
          unique_key = unique_key;
          unique_period = unique_period;
          last_error = last_error;
          errors = history;
        })
  scan_job _ = scan_failed

-- `args` of `sqlstoreInsert`.
abbrev pub stored_args : String → String
stored_args args = if str_eq args "" then "{}" else args

-- The values that `sqlstoreInsert` binds, with the history marshalled.
abbrev pub insert_values : Job → String → List Value
insert_values j errs =
    text j.queue
    ∷ text j.worker
    ∷ text (stored_args j.args)
    ∷ integer j.max_attempts
    ∷ natural j.attempt
    ∷ integer j.priority
    ∷ text (state_text j.state)
    ∷ moment j.scheduled_at
    ∷ moment j.inserted_at
    ∷ null_time j.attempted_at
    ∷ null_time j.completed_at
    ∷ null_time j.discarded_at
    ∷ null_str j.unique_key
    ∷ integer j.unique_period
    ∷ null_str j.last_error
    ∷ text errs
    ∷ text "[]"
    ∷ text "{}"
    ∷ []
