-- ===== src/StoreApi.antt =====
-- The interface `Store` (store.go) and the optional capabilities that the code asks a store for by a
-- type assertion (control.go, drain.go, insert.go, plugins.go, worker_config.go), over a state `W`
-- that the calls change: a capability that the store lacks is `none`.
pub mod Memory
use oban.Prelude.{ℕ, ℤ, String, Bool, List, Option}
use oban.Errors.{Err, Result}
use oban.Job.{State, Job}

pub record TaggableStore (W : Type 0) : Type 0 where
  pub set_tags_meta : ℕ → List String → List (String × String) → W → Option Err × W
  pub tags_meta : ℕ → W → Result (List String × List (String × String)) × W

pub record StoreApi (W : Type 0) : Type 0 where
  pub enqueue : Option Job → W → Result (Job × Bool) × W
  pub fetch_available : String → ℤ → ℤ → W → Result (List Job) × W
  pub complete : ℕ → ℤ → W → Option Err × W
  pub retry : ℕ → ℤ → Option Err → ℤ → W → Option Err × W
  pub discard : ℕ → Option Err → ℤ → W → Option Err × W
  pub get_job : ℕ → W → Result Job × W
  pub cancel? : Option (ℕ → ℤ → W → Option Err × W)
  pub snooze? : Option (ℕ → ℤ → ℤ → W → Option Err × W)
  pub retry_now? : Option (ℕ → ℤ → W → Option Err × W)
  pub delete? : Option (ℕ → W → Option Err × W)
  pub taggable? : Option (TaggableStore W)
