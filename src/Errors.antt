-- ===== src/Errors.antt =====
-- Go's `error` values as the repository uses them (store.go, control.go, worker_config.go), and the
-- pairs `(value, error)` that its functions return. `message` is the `Error` method. The text of a
-- `SnoozeError` prints a duration, which is the standard library's work: the value carries it.
use Prim.Native.String.{◌++◌}
use text.Mathlib.Text.{◌==◌}
use oban.Prelude.{ℤ, String, Option, none, some, if◌then◌else◌}

-- `plain` is `errors.New` and a `fmt.Errorf` that wraps nothing; `wrapped` is a `fmt.Errorf` with %w.
pub data Err : Type 0 where
  plain : String → Err
  wrapped : String → Err → Err
  snooze_error : ℤ → String → Err
  cancel_error : String → Err

pub data Result {ℓ} (A : Type ℓ) : Type ℓ where
  ok : A → Result A
  err : Err → Result A

abbrev pub cancel_text : String → String
cancel_text reason =
    if reason == "" then "oban: job cancelled" else "oban: job cancelled: " ++ reason

unfoldable pub message : Err → String
message (plain text) = text
message (wrapped text inner) = text ++ (": " ++ message inner)
message (snooze_error d text) = text
message (cancel_error reason) = cancel_text reason

-- `errors.As` walks the chain of wrapped errors.
unfoldable pub is_snooze : Err → Option ℤ
is_snooze (snooze_error d text) = some d
is_snooze (wrapped text inner) = is_snooze inner
is_snooze (plain text) = none
is_snooze (cancel_error reason) = none

unfoldable pub is_cancel : Err → Option String
is_cancel (cancel_error reason) = some reason
is_cancel (wrapped text inner) = is_cancel inner
is_cancel (plain text) = none
is_cancel (snooze_error d text) = none

abbrev pub err_job_not_found : Err
err_job_not_found = plain "oban: job not found"

abbrev pub err_unsupported : Err
err_unsupported = plain "oban: store does not support this operation"
