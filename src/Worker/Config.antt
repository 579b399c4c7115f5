-- ===== src/Worker/Config.antt =====
-- worker_config.go and testing.go: jobs with a worker's defaults, the signals of a worker, and the
-- middleware that acts on them.
use oban.Prelude.{
  ℕ, ℤ, pos, ltb_ℤ, eqb_ℤ, ◌+ℤ◌, not, String, Bool, true, false, List, [], ◌∷◌, ◌++◌, Option, none,
  some, if◌then◌else◌, str_eq,
}
use oban.Errors.{
  Err, Result, ok, err, snooze_error, cancel_error, is_snooze, is_cancel, err_job_not_found,
}
use oban.Job.{Job, JobOption, Args, with_queue, with_max_attempts, with_priority, new_job}
use oban.Backoff.{Backoff}
use oban.StoreApi.{StoreApi}
use oban.Worker.{
  WorkerOptions, Ctx, with_timeout, Ended, returned, panicked, Worker, Middleware, Clock, Registry,
  lookup_worker,
}

abbrev when {ℓ} : {A : Type ℓ} → Bool → A → List A
when true a = a ∷ []
when false a = []

-- The defaults that `BuildJob` takes from the worker, in its order.
abbrev pub base_options : Option WorkerOptions → List JobOption
base_options none = []
base_options (some cfg) =
    when (not (str_eq cfg.queue "")) (with_queue cfg.queue)
    ++ (when (ltb_ℤ (pos 0) cfg.max_attempts) (with_max_attempts cfg.max_attempts)
        ++ when (not (eqb_ℤ cfg.priority (pos 0))) (with_priority cfg.priority))

unfoldable pub build_job : String → Option WorkerOptions → Args → List JobOption → Result Job
build_job name config args opts = new_job name args (base_options config ++ opts)

-- `Snooze` and `CancelJob`; `text` is what the error prints.
abbrev pub snooze_signal : ℤ → String → Err
snooze_signal d text = snooze_error d text

abbrev pub cancel_job : String → Err
cancel_job reason = cancel_error reason

-- PerformResult (testing.go), by its outcome.
pub data PerformResult : Type 0 where
  complete : PerformResult
  failed : Err → PerformResult
  snoozed : Err → ℤ → PerformResult
  cancelled_with : Err → String → PerformResult

abbrev classify_cancel : Err → Option String → PerformResult
classify_cancel e (some reason) = cancelled_with e reason
classify_cancel e none = failed e

abbrev classify_snooze : Err → Option ℤ → PerformResult
classify_snooze e (some d) = snoozed e d
classify_snooze e none = classify_cancel e (is_cancel e)

-- The classification of `RunJob`; a panic of the worker is not recovered there.
unfoldable pub classify : Option Err → PerformResult
classify none = complete
classify (some e) = classify_snooze e (is_snooze e)

abbrev classify_ended : Ended → Option PerformResult
classify_ended (returned e) = some (classify e)
classify_ended (panicked value) = none

-- The options of the carried worker, `opts` in the source.
abbrev pub carried_options : Option (Option WorkerOptions) → Option WorkerOptions
carried_options (some (some cfg)) = some cfg
carried_options _ = none

abbrev tighten : Option WorkerOptions → Ctx → Ctx
tighten none ctx = ctx
tighten (some cfg) ctx = if ltb_ℤ (pos 0) cfg.timeout then with_timeout cfg.timeout ctx else ctx

abbrev pub backoff_of : Option WorkerOptions → Option Backoff
backoff_of none = none
backoff_of (some cfg) = cfg.backoff

module _ {W : Type 0} where
  -- `RunJob`: `none` is a panic that reaches the caller.
  unfoldable pub run_job : Worker W → Ctx → Job → W → Option PerformResult × W
  run_job worker ctx job w = let out = worker.perform ctx job w in (classify_ended out.0, out.1)

  abbrev perform_found : Option (Worker W) → Ctx → Job → W → Result (Option PerformResult) × W
  perform_found none ctx job w = (err err_job_not_found, w)
  perform_found (some worker) ctx job w = let out = run_job worker ctx job w in (ok out.0, out.1)

  unfoldable pub perform_job : Registry W → Ctx → Job → W → Result (Option PerformResult) × W
  perform_job reg ctx job w = perform_found (lookup_worker W job.worker reg) ctx job w

  -- A store call in place of the engine's: it hides the error if it succeeds.
  abbrev pub hidden_by : Err → Option Err × W → Option Err × W
  hidden_by e (none, w) = (none, w)
  hidden_by e (some failure, w) = (some e, w)

  abbrev on_snooze :
      Option (ℕ → ℤ → ℤ → W → Option Err × W) → Err → ℤ → Job → ℤ → W → Option Err × W
  on_snooze none e d job now w = (some e, w)
  on_snooze (some snooze) e d job now w = hidden_by e (snooze job.id (now +ℤ d) now w)

  abbrev on_cancel : Option (ℕ → ℤ → W → Option Err × W) → Err → Job → ℤ → W → Option Err × W
  on_cancel none e job now w = (some e, w)
  on_cancel (some cancel) e job now w = hidden_by e (cancel job.id now w)

  abbrev on_backoff :
      Option (ℕ → ℤ → W → Option Err × W) → Backoff → Err → Job → ℤ → W → Option Err × W
  on_backoff none backoff e job now w = (some e, w)
  on_backoff (some retry_now) backoff e job now w =
      hidden_by e (retry_now job.id (now +ℤ backoff (pos job.attempt)) w)

  module _ (api : StoreApi W) (clock : Clock W) where
    abbrev on_failure : Option Backoff → Err → Job → ℤ → W → Option Err × W
    on_failure none e job now w = (some e, w)
    on_failure (some backoff) e job now w = on_backoff api.retry_now? backoff e job now w

    abbrev on_signal_cancel :
        Option String → Option WorkerOptions → Err → Job → ℤ → W → Option Err × W
    on_signal_cancel (some reason) options e job now w = on_cancel api.cancel? e job now w
    on_signal_cancel none options e job now w = on_failure (backoff_of options) e job now w

    abbrev on_signal : Option ℤ → Option WorkerOptions → Err → Job → ℤ → W → Option Err × W
    on_signal (some d) options e job now w = on_snooze api.snooze? e d job now w
    on_signal none options e job now w = on_signal_cancel (is_cancel e) options e job now w

    abbrev after_next : Option WorkerOptions → Job → Option Err × W → Option Err × W
    after_next options job (none, w) = (none, w)
    after_next options job (some e, w) =
        let read = clock w in on_signal (is_snooze e) options e job read.0 read.1

    -- `WorkerMiddleware`.
    unfoldable pub worker_middleware : Middleware W
    worker_middleware next ctx job w =
        let options = carried_options ctx.carried in
        after_next options job (next (tighten options ctx) job w)
