-- ===== src/Engine.antt =====
-- oban.go: the engine's settings, `Enqueue`, `dispatch` and `execute`. The texts that fmt prints are
-- parameters. Errors that the engine only logs are dropped.
pub mod Ready
pub mod Batch
pub mod Steps
pub mod Held
pub mod Fetched
pub mod Outside
pub mod Exclusive
pub mod Capacity
pub mod Settle
use oban.Prelude.{
  ℕ, suc, ◌+◌, ℤ, pos, leb_ℤ, ltb_ℤ, ◌+ℤ◌, String, Bool, true, false, ◌&&◌, List, [], ◌∷◌, Option,
  none, some, if◌then◌else◌, str_eq,
}
use oban.Errors.{Err, Result, ok, err, plain}
use oban.Job.{Job, JobOption, Args, default_queue, is_zero, new_job}
use oban.Backoff.{Backoff}
use oban.StoreApi.{StoreApi}
use oban.Worker.{Ctx, with_timeout, Worker, Handler, Clock, Registry, lookup_worker}

abbrev pub default_concurrency : ℤ
default_concurrency = pos 10

abbrev pub default_poll_interval : ℤ
default_poll_interval = pos 100000000

abbrev pub default_cron_interval : ℤ
default_cron_interval = pos 1000000000

abbrev pub default_job_timeout : ℤ
default_job_timeout = pos 30000000000

-- `Periodic`, with the schedule as far as its `nil` test and its `Next` go.
pub record Periodic : Type 0 where
  pub schedule : Option (ℤ → ℤ)
  pub worker : String
  pub args : Args
  pub options : List JobOption

-- The part of `Config` and `Oban` that are numbers, queues and periodic jobs.
pub record Settings : Type 0 where
  pub queues : List (String × ℤ)
  pub periodics : List Periodic
  pub poll_interval : ℤ
  pub cron_interval : ℤ
  pub job_timeout : ℤ
  pub queue_timeouts : List (String × ℤ)

abbrev pub or_when_unset : ℤ → ℤ → ℤ
or_when_unset d def = if leb_ℤ d (pos 0) then def else d

abbrev or_default_queue : List (String × ℤ) → List (String × ℤ)
or_default_queue [] = (default_queue, default_concurrency) ∷ []
or_default_queue (q ∷ qs) = q ∷ qs

abbrev pub filled_in : Settings → Settings
filled_in cfg = record cfg {
  queues = or_default_queue cfg.queues;
  poll_interval = or_when_unset cfg.poll_interval default_poll_interval;
  cron_interval = or_when_unset cfg.cron_interval default_cron_interval;
  job_timeout = or_when_unset cfg.job_timeout default_job_timeout;
}

module _ (bad_queue : String → ℤ → String) (no_schedule no_worker : ℕ → String) where
  abbrev pub queue_error : List (String × ℤ) → Option Err
  queue_error [] = none
  queue_error ((name, conc) ∷ qs) =
      if leb_ℤ conc (pos 0) then some (plain (bad_queue name conc)) else queue_error qs

  abbrev schedule_error : ℕ → Option (ℤ → ℤ) → String → Option Err → Option Err
  schedule_error i none worker rest = some (plain (no_schedule i))
  schedule_error i (some next) worker rest =
      if str_eq worker "" then some (plain (no_worker i)) else rest

  abbrev pub periodic_error : ℕ → List Periodic → Option Err
  periodic_error i [] = none
  periodic_error i (p ∷ ps) = schedule_error i p.schedule p.worker (periodic_error (suc i) ps)

  abbrev pub checked : Option Err → Option Err → Settings → Result Settings
  checked (some e) f cfg = err e
  checked none (some f) cfg = err f
  checked none none cfg = ok cfg

  -- `New`.
  unfoldable pub new_engine : Settings → Result Settings
  new_engine cfg =
      let filled = filled_in cfg in
      checked (queue_error filled.queues) (periodic_error 0 filled.periodics) filled

abbrev pub find_timeout : List (String × ℤ) → String → Option ℤ
find_timeout [] queue = none
find_timeout ((q, d) ∷ m) queue = if str_eq q queue then some d else find_timeout m queue

abbrev own_timeout : Option ℤ → ℤ → ℤ
own_timeout none def = def
own_timeout (some d) def = if ltb_ℤ (pos 0) d then d else def

-- `timeoutFor`.
unfoldable pub timeout_for : Settings → String → ℤ
timeout_for cfg queue = own_timeout (find_timeout cfg.queue_timeouts queue) cfg.job_timeout

-- What one attempt tells the error handler, if anything, and the world after it.
abbrev pub Attempted : Type 0 → Type 0
Attempted W = Option (Job × Err) × W

module _ {W : Type 0} (api : StoreApi W) (backoff : Backoff) (clock : Clock W) where
  -- `Oban.Enqueue`, without the write to the caller's job.
  unfoldable pub engine_enqueue : Option Job → W → Result (Job × Bool) × W
  engine_enqueue none w = (err (plain "oban: cannot enqueue nil job"), w)
  engine_enqueue (some job) w =
      if is_zero job.inserted_at
      then (let read = clock w in api.enqueue (some (record job { inserted_at = read.0 })) read.1)
      else api.enqueue (some job) w

  -- `finishDiscard`.
  unfoldable pub finish_discard : Job → Err → W → Attempted W
  finish_discard job e w =
      let read = clock w in (some (job, e), (api.discard job.id (some e) read.0 read.1).1)

  -- The switch of `execute` over what the handler returned, at the time read after it.
  unfoldable pub settle : Option Err → Job → ℤ → W → Attempted W
  settle none job now w = (none, (api.complete job.id now w).1)
  settle (some e) job now w =
      if leb_ℤ job.max_attempts (pos job.attempt)
      then finish_discard job e w
      else (some (job, e), (api.retry job.id (now +ℤ backoff (pos job.attempt)) (some e) now w).1)

  module _ (cfg : Settings) (missing_text : String → String) (reg : Registry W)
      (handler : Handler W) where
    abbrev execute_found : Option (Worker W) → Ctx → Job → W → Attempted W
    execute_found none ctx job w = finish_discard job (plain (missing_text job.worker)) w
    execute_found (some worker) ctx job w =
        let out = handler (with_timeout (timeout_for cfg job.queue) ctx) job w in
        let read = clock out.1 in settle out.0 job read.0 read.1

    -- `execute`, but for the slot that it gives back (Steps).
    unfoldable pub execute : Ctx → Job → W → Attempted W
    execute ctx job w = execute_found (lookup_worker W job.worker reg) ctx job w
