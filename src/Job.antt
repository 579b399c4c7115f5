-- ===== src/Job.antt =====
-- job.go and job_query.go. A `time.Time` is the integer of nanoseconds since Go's zero time, and a
-- `time.Duration` an integer of nanoseconds. A job is a value: what `Clone` copies needs no copy.
pub mod States
use oban.Prelude.{
  ℕ, ℤ, pos, ltb_ℤ, leb_ℤ, eqb_ℤ, ◌-ℤ◌, String, Bool, true, false, ◌||◌, not, List, [], ◌∷◌, ◌++◌,
  length, ltb, ◌==◌, if◌then◌else◌, str_eq,
}
use oban.Errors.{Err, Result, ok, err, plain, wrapped, message}

pub data State : Type 0 where
  scheduled available executing retryable completed discarded cancelled : State

abbrev pub state_code : State → ℕ
state_code scheduled = 0
state_code available = 1
state_code executing = 2
state_code retryable = 3
state_code completed = 4
state_code discarded = 5
state_code cancelled = 6

-- `==` on states.
abbrev pub state_eq : State → State → Bool
state_eq s t = state_code s == state_code t

-- `fetchableStates`.
abbrev pub fetchable : State → Bool
fetchable available = true
fetchable scheduled = true
fetchable retryable = true
fetchable _ = false

-- `unfinishedStates`.
abbrev pub unfinished : State → Bool
unfinished available = true
unfinished scheduled = true
unfinished executing = true
unfinished retryable = true
unfinished _ = false

abbrev pub default_max_attempts : ℤ
default_max_attempts = pos 20

abbrev pub default_queue : String
default_queue = "default"

-- `time.Time{}`.
abbrev pub zero_time : ℤ
zero_time = pos 0

abbrev pub is_zero : ℤ → Bool
is_zero t = eqb_ℤ t zero_time

abbrev pub before : ℤ → ℤ → Bool
before t u = ltb_ℤ t u

abbrev pub after : ℤ → ℤ → Bool
after t u = ltb_ℤ u t

pub record AttemptError : Type 0 where
  pub attempt : ℕ
  pub at_time : ℤ
  pub text : String

pub record Job : Type 0 where
  pub id : ℕ
  pub queue : String
  pub worker : String
  pub args : String
  pub max_attempts : ℤ
  pub attempt : ℕ
  pub priority : ℤ
  pub state : State
  pub scheduled_at : ℤ
  pub inserted_at : ℤ
  pub attempted_at : ℤ
  pub completed_at : ℤ
  pub discarded_at : ℤ
  pub unique_key : String
  pub unique_period : ℤ
  pub last_error : String
  pub errors : List AttemptError
  pub schedule_in : ℤ
  pub has_schedule_in : Bool

abbrev pub JobOption : Type 0
JobOption = Job → Job

abbrev pub with_queue : String → JobOption
with_queue q j = record j { queue = q }

abbrev pub with_max_attempts : ℤ → JobOption
with_max_attempts n j = record j { max_attempts = n }

abbrev pub with_priority : ℤ → JobOption
with_priority p j = record j { priority = p }

abbrev pub with_scheduled_at : ℤ → JobOption
with_scheduled_at t j = record j { scheduled_at = t; state = scheduled }

abbrev pub with_schedule_in : ℤ → JobOption
with_schedule_in d j = record j { schedule_in = d; has_schedule_in = true; state = scheduled }

abbrev pub with_unique : String → ℤ → JobOption
with_unique key period j = record j { unique_key = key; unique_period = period }

-- The `any` that `NewJob` is given: nil, JSON text already, or a value with what `json.Marshal`
-- returns for it.
pub data Args : Type 0 where
  nil_args : Args
  raw_args : String → Args
  value_args : Result String → Args

abbrev pub encode_args : Args → Result String
encode_args nil_args = ok "{}"
encode_args (raw_args raw) = ok raw
encode_args (value_args (ok raw)) = ok raw
encode_args (value_args (err e)) = err (wrapped "oban: marshal args" e)

abbrev pub fresh_job : String → String → Job
fresh_job name raw = record {
  id = 0;
  queue = default_queue;
  worker = name;
  args = raw;
  max_attempts = default_max_attempts;
  attempt = 0;
  priority = pos 0;
  state = available;
  scheduled_at = zero_time;
  inserted_at = zero_time;
  attempted_at = zero_time;
  completed_at = zero_time;
  discarded_at = zero_time;
  unique_key = "";
  unique_period = pos 0;
  last_error = "";
  errors = [];
  schedule_in = pos 0;
  has_schedule_in = false;
}

-- The options are applied in order.
abbrev pub apply_options : List JobOption → Job → Job
apply_options [] j = j
apply_options (opt ∷ opts) j = apply_options opts (opt j)

-- The defaults that `NewJob` restores after the options have run.
abbrev pub with_defaults : Job → Job
with_defaults j = record j {
  queue = if str_eq j.queue "" then default_queue else j.queue;
  max_attempts = if leb_ℤ j.max_attempts (pos 0) then default_max_attempts else j.max_attempts;
}

abbrev finish_job : String → List JobOption → Result String → Result Job
finish_job name opts (ok raw) = ok (with_defaults (apply_options opts (fresh_job name raw)))
finish_job name opts (err e) = err e

unfoldable pub new_job : String → Args → List JobOption → Result Job
new_job name args opts =
    if str_eq name ""
    then err (plain "oban: worker name must not be empty")
    else finish_job name opts (encode_args args)

-- `recordError`.
abbrev pub record_error : Err → ℤ → Job → Job
record_error e now j = record j {
  last_error = message e;
  errors = j.errors ++ record { attempt = j.attempt; at_time = now; text = message e } ∷ [];
}

abbrev pub is_finished : State → Bool
is_finished completed = true
is_finished discarded = true
is_finished cancelled = true
is_finished _ = false

-- `InState`, and the loop of `JobFilter.Matches` over its states.
abbrev pub in_states : List State → State → Bool
in_states [] s = false
in_states (t ∷ ts) s = state_eq s t || in_states ts s

abbrev pub has_errored : Job → Bool
has_errored j = ltb 0 (length j.errors)

abbrev clamp_span : ℤ → ℤ
clamp_span d = if ltb_ℤ d (pos 0) then pos 0 else d

-- `AttemptsRemaining`, floored at zero.
unfoldable pub attempts_remaining : Job → ℤ
attempts_remaining j = clamp_span (j.max_attempts -ℤ pos j.attempt)

unfoldable pub execution_duration : Job → ℤ
execution_duration j =
    if is_zero j.attempted_at
    then pos 0
    else if not (is_zero j.completed_at)
    then clamp_span (j.completed_at -ℤ j.attempted_at)
    else if not (is_zero j.discarded_at)
    then clamp_span (j.discarded_at -ℤ j.attempted_at)
    else pos 0

unfoldable pub age : Job → ℤ → ℤ
age j now = if is_zero j.inserted_at then pos 0 else clamp_span (now -ℤ j.inserted_at)
