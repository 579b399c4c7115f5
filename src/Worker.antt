-- ===== src/Worker.antt =====
-- worker.go, middleware.go and worker_config.go: workers, their registry, the chain of middleware and
-- the middleware of per-worker configuration. A worker, a handler and a clock act on a world `W`,
-- which holds the store and whatever else they change.
pub mod Config
pub mod Signals
pub mod Register
use Prim.Native.String.{◌++◌}
use oban.Prelude.{
  ℕ, ℤ, pos, ltb_ℤ, ◌-ℤ◌, String, Bool, true, false, List, [], ◌∷◌, Option, none, some,
  if◌then◌else◌, str_eq,
}
use oban.Errors.{Err, Result, ok, err, plain, is_snooze, is_cancel}
use oban.Job.{Job}
use oban.Backoff.{Backoff}
use oban.Insert.{UniqueBy}

pub record WorkerOptions : Type 0 where
  pub queue : String
  pub max_attempts : ℤ
  pub priority : ℤ
  pub timeout : ℤ
  pub tags : List String
  pub unique : Option UniqueBy
  pub backoff : Option Backoff

-- A context, as far as the code reads it: the timeouts that were put on it, and the worker that it
-- carries, by the options of that worker (`none` inside if it is no `ConfiguredWorker`).
pub record Ctx : Type 0 where
  pub limits : List ℤ
  pub carried : Option (Option WorkerOptions)

abbrev pub with_timeout : ℤ → Ctx → Ctx
with_timeout d ctx = record ctx { limits = d ∷ ctx.limits }

-- `worker_configWithWorker`.
abbrev pub with_worker : Option WorkerOptions → Ctx → Ctx
with_worker options ctx = record ctx { carried = some options }

-- How a call of `Perform` ends: it returns an error or nil, or it panics with a value.
pub data Ended : Type 0 where
  returned : Option Err → Ended
  panicked : String → Ended

module _ (W : Type 0) where
  pub record Worker : Type 0 where
    pub perform : Ctx → Job → W → Ended × W
    pub config : Option WorkerOptions

  abbrev pub Handler : Type 0
  Handler = Ctx → Job → W → Option Err × W

  abbrev pub Middleware : Type 0
  Middleware = Handler → Handler

  -- The current time, and the world after it was read.
  abbrev pub Clock : Type 0
  Clock = W → ℤ × W

  abbrev pub Registry : Type 0
  Registry = List (String × Worker)

  unfoldable pub lookup_worker : String → Registry → Option Worker
  lookup_worker name [] = none
  lookup_worker name ((n, w) ∷ r) = if str_eq n name then some w else lookup_worker name r

  abbrev register_new : Option Worker → String → Worker → Registry → Result Registry
  register_new (some old) name w r = err (plain "oban: worker already registered")
  register_new none name w r = ok ((name, w) ∷ r)

  -- `Register`; an error stands for its panic.
  unfoldable pub register : String → Option Worker → Registry → Result Registry
  unfolding lookup_worker
  register name none r =
      if str_eq name ""
      then err (plain "oban: cannot register worker with empty name")
      else err (plain "oban: cannot register nil worker")
  register name (some w) r =
      if str_eq name ""
      then err (plain "oban: cannot register worker with empty name")
      else register_new (lookup_worker name r) name w r

  unfoldable pub names : Registry → List String
  names [] = []
  names ((n, w) ∷ r) = n ∷ names r

  -- `chain`: the loop runs from the last middleware to the first.
  unfoldable pub chain : Handler → List Middleware → Handler
  chain final [] = final
  chain final (mw ∷ mws) = mw (chain final mws)

  abbrev recovered : (String → String → String) → String → Ended × W → Option Err × W
  recovered panic_text name (returned e, w) = (e, w)
  recovered panic_text name (panicked value, w) = (some (plain (panic_text name value)), w)

  abbrev perform_found :
      (String → String)
      → (String → String → String)
      → Option Worker
      → Ctx
      → Job
      → W
      → Option Err × W
  perform_found missing_text panic_text none ctx job w = (some (plain (missing_text job.worker)), w)
  perform_found missing_text panic_text (some worker) ctx job w =
      recovered panic_text job.worker (worker.perform ctx job w)

  -- `runWorker` (oban.go), and the innermost handler of `Drain`. The texts that fmt prints are
  -- parameters.
  unfoldable pub run_worker : (String → String) → (String → String → String) → Registry → Handler
  unfolding lookup_worker
  run_worker missing_text panic_text reg ctx job w =
      perform_found missing_text panic_text (lookup_worker job.worker reg) ctx job w
