-- ===== src/Drain.antt =====
-- drain.go: running a queue to completion without goroutines. The loop has no bound of its own, so it
-- takes fuel; `none` means that the fuel ran out.
pub mod Tally
use oban.Prelude.{
  ℕ, zero, suc, ◌+◌, ℤ, pos, leb_ℤ, ◌+ℤ◌, String, Bool, List, [], ◌∷◌, Option, none, some,
  if◌then◌else◌, str_eq,
}
use oban.Errors.{Err, Result, ok, err, plain, is_snooze, is_cancel}
use oban.Job.{Job}
use oban.Backoff.{Backoff}
use oban.StoreApi.{StoreApi}
use oban.Worker.{
  Ctx, with_timeout, Worker, Handler, Middleware, Clock, Registry, lookup_worker, chain, run_worker,
}

pub record DrainResult : Type 0 where
  pub completed : ℕ
  pub retried : ℕ
  pub discarded : ℕ
  pub cancelled : ℕ
  pub snoozed : ℕ
  pub failed : ℕ

abbrev pub no_result : DrainResult
no_result = record {
  completed = 0;
  retried = 0;
  discarded = 0;
  cancelled = 0;
  snoozed = 0;
  failed = 0;
}

unfoldable pub total : DrainResult → ℕ
total r = r.completed + r.retried + r.discarded + r.cancelled + r.snoozed + r.failed

-- `DrainOptions` with its defaults filled in: `backoff` stands for `ExponentialBackoff{}` if unset.
pub record DrainOptions (W : Type 0) : Type 0 where
  pub queue : String
  pub with_recursion : Bool
  pub with_scheduled : Bool
  pub backoff : Backoff
  pub timeout : ℤ
  pub middleware : List (Middleware W)

abbrev pub drain_fetch_limit : ℤ
drain_fetch_limit = pos 1073741824

abbrev pub default_job_timeout : ℤ
default_job_timeout = pos 30000000000

-- `time.Unix(1<<62, 0)`, in nanoseconds since the zero time: 62135596800 seconds lie between the epochs.
abbrev pub drain_far_future : ℤ
drain_far_future = pos 4611686080562984704000000000

module _ {W : Type 0} (api : StoreApi W) (backoff : Backoff) where
  -- `drainFail`. The error of the store call is dropped.
  unfoldable pub drain_fail : Job → Err → ℤ → DrainResult → W → DrainResult × W
  drain_fail job e now r w =
      if leb_ℤ job.max_attempts (pos job.attempt)
      then (record r { discarded = suc r.discarded }, (api.discard job.id (some e) now w).1)
      else (
        record r { retried = suc r.retried },
        (api.retry job.id (now +ℤ backoff (pos job.attempt)) (some e) now w).1,
      )

  abbrev drain_cancel :
      Option (ℕ → ℤ → W → Option Err × W) → Job → Err → ℤ → DrainResult → W → DrainResult × W
  drain_cancel none job e now r w = drain_fail job e now r w
  drain_cancel (some cancel) job e now r w =
      (record r { cancelled = suc r.cancelled }, (cancel job.id now w).1)

  abbrev snooze_until : Job → ℤ → ℤ → ℤ
  snooze_until job d now = if leb_ℤ d (pos 0) then now +ℤ backoff (pos job.attempt) else now +ℤ d

  abbrev drain_snooze :
      Option (ℕ → ℤ → ℤ → W → Option Err × W)
      → Job
      → Err
      → ℤ
      → ℤ
      → DrainResult
      → W
      → DrainResult × W
  drain_snooze none job e d now r w = drain_fail job e now r w
  drain_snooze (some snooze) job e d now r w =
      (record r { snoozed = suc r.snoozed }, (snooze job.id (snooze_until job d now) now w).1)

  abbrev drain_no_cancel : Option ℤ → Job → Err → ℤ → DrainResult → W → DrainResult × W
  drain_no_cancel none job e now r w = drain_fail job e now r w
  drain_no_cancel (some d) job e now r w = drain_snooze api.snooze? job e d now r w

  abbrev drain_error : Option String → Job → Err → ℤ → DrainResult → W → DrainResult × W
  drain_error (some reason) job e now r w = drain_cancel api.cancel? job e now r w
  drain_error none job e now r w = drain_no_cancel (is_snooze e) job e now r w

  abbrev drain_ended : Option Err → Job → ℤ → DrainResult → W → DrainResult × W
  drain_ended none job now r w =
      (record r { completed = suc r.completed }, (api.complete job.id now w).1)
  drain_ended (some e) job now r w = drain_error (is_cancel e) job e now r w

  -- The part of `drainRun` that applies what the handler returned, at the time read after it.
  unfoldable pub drain_apply : Option Err → Job → ℤ → DrainResult → W → DrainResult × W
  unfolding drain_fail
  drain_apply e job now r w = drain_ended e job now r w

  module _ (missing_text : String → String) (reg : Registry W) (handler : Handler W)
      (clock : Clock W) where
    abbrev run_found : Option (Worker W) → ℤ → Ctx → Job → DrainResult → W → DrainResult × W
    run_found none timeout ctx job r w =
        let read = clock w in
        (
          record r { failed = suc r.failed },
          (api.discard job.id (some (plain (missing_text job.worker))) read.0 read.1).1,
        )
    run_found (some worker) timeout ctx job r w =
        let out = handler (with_timeout timeout ctx) job w in
        let read = clock out.1 in drain_apply out.0 job read.0 r read.1

    unfoldable pub drain_run : ℤ → Ctx → Job → DrainResult → W → DrainResult × W
    drain_run timeout ctx job r w = run_found (lookup_worker W job.worker reg) timeout ctx job r w

    unfoldable pub drain_jobs : ℤ → Ctx → List Job → DrainResult → W → DrainResult × W
    drain_jobs timeout ctx [] r w = (r, w)
    drain_jobs timeout ctx (job ∷ jobs) r w =
        let out = drain_run timeout ctx job r w in drain_jobs timeout ctx jobs out.0 out.1

-- How a drain ends: with its tally and nil, or with the tally so far and an error.
abbrev pub Drained : Type 0 → Type 0
Drained W = (DrainResult × Option Err) × W

module _ {W : Type 0} (api : StoreApi W) (opts : DrainOptions W) where
  module _ (missing_text : String → String) (reg : Registry W) (handler : Handler W)
      (clock : Clock W) (ctx_err : W → Option Err) (ctx : Ctx) where
    abbrev pass :
        (DrainResult → W → Option (Drained W))
        → DrainResult
        → Result (List Job) × W
        → Option (Drained W)
    pass again r (err e, w) = some ((r, some e), w)
    pass again r (ok [], w) = some ((r, none), w)
    pass again r (ok (j ∷ js), w) =
        let out =
          drain_jobs api opts.backoff missing_text reg handler clock opts.timeout ctx (j ∷ js) r
            w in
        let rest = again out.0 out.1 in
        if opts.with_recursion then rest else some ((out.0, none), out.1)

    abbrev round :
        (DrainResult → W → Option (Drained W)) → Option Err → DrainResult → W → Option (Drained W)
    round again (some e) r w = some ((r, some e), w)
    round again none r w =
        let read = clock w in
        pass again r (
          api.fetch_available opts.queue drain_fetch_limit
            (if opts.with_scheduled then drain_far_future else read.0) read.1)

    unfoldable pub drain_loop : ℕ → DrainResult → W → Option (Drained W)
    drain_loop zero r w = none
    drain_loop (suc fuel) r w = round (drain_loop fuel) (ctx_err w) r w

-- `opts.Timeout`, with its default.
abbrev pub drain_timeout : ℤ → ℤ
drain_timeout t = if leb_ℤ t (pos 0) then default_job_timeout else t

-- `Drain`, for a store and a registry that are not nil.
module _ {W : Type 0} (api : StoreApi W) (opts : DrainOptions W) where
  unfoldable pub drain :
      (String → String)
      → (String → String → String)
      → Registry W
      → Clock W
      → (W → Option Err)
      → Ctx
      → ℕ
      → W
      → Option (Drained W)
  drain missing_text panic_text reg clock ctx_err ctx fuel w =
      if str_eq opts.queue ""
      then some ((no_result, some (plain "oban: drain: queue is required")), w)
      else drain_loop api (record opts { timeout = drain_timeout opts.timeout }) missing_text reg
          (chain W (run_worker W missing_text panic_text reg) opts.middleware) clock ctx_err ctx
          fuel no_result w
