-- ===== src/Engine/Settle.antt =====
-- The switch of `execute` (oban.go) on an InMemoryStore, beside the one of `drainRun` (drain.go).
use oban.Prelude.{
  ◌≡◌, refl, ◌∙◌, ℤ, pos, leb_ℤ, ◌+ℤ◌, ◌≤ℤ◌, ◌<ℤ◌, true, false, Option, none, some, Bool-cases, inl,
  inr, arith,
}
use oban.Errors.{Err, is_snooze, is_cancel}
use oban.Job.{Job, completed, retryable, discarded, record_error}
use oban.JobMap.{get}
use oban.Backoff.{Backoff}
use oban.Store.{MemStore, complete, retry, discard, mark_completed, mark_retryable, mark_discarded}
use oban.Store.Override.{get-change}
use oban.StoreApi.{StoreApi}
use oban.StoreApi.Memory.{memory}
use oban.Drain.{DrainResult, drain_apply, drain_fail}
use oban.Engine.{Attempted, settle, finish_discard}

module _ (wall : ℤ) (backoff : Backoff) (later_on : ℤ) where
  abbrev settled : Option Err → Job → ℤ → MemStore → Attempted MemStore
  settled = settle (memory wall) backoff (λ t. (later_on, t))

  exhausted :
      (j : Job) → j.max_attempts ≤ℤ pos j.attempt → leb_ℤ j.max_attempts (pos j.attempt) ≡ true
  exhausted j h = ground arith

  attempts_left :
      (j : Job) → pos j.attempt <ℤ j.max_attempts → leb_ℤ j.max_attempts (pos j.attempt) ≡ false
  attempts_left j h = ground arith

  -- An attempt of a stored job that ends at `now`: without an error the job is completed; with one, and
  -- attempts left, it is due again after the backoff of its attempt; with one and none left it is
  -- discarded. An error is recorded and reported, and success is not.
  pub settle_lem :
      (j i : Job) (now : ℤ) (e : Err) (s : MemStore)
      → get j.id s.jobs ≡ some i
      → ((settled none j now s).0 ≡ none)
        × (get j.id (settled none j now s).1.jobs
            ≡ some (record i { state = completed; completed_at = now }))
        × (pos j.attempt <ℤ j.max_attempts
            → ((settled (some e) j now s).0 ≡ some (j, e))
              × (get j.id (settled (some e) j now s).1.jobs
                  ≡ some (record (record_error e now i) {
                    state = retryable;
                    scheduled_at = now +ℤ backoff (pos j.attempt);
                  })))
        × (j.max_attempts ≤ℤ pos j.attempt
            → ((settled (some e) j now s).0 ≡ some (j, e))
              × (get j.id (settled (some e) j now s).1.jobs
                  ≡ some (record (record_error e later_on i) {
                    state = discarded;
                    discarded_at = later_on;
                  })))
  unfolding settle finish_discard complete retry discard
  settle_lem j i now e s h = (
    refl,
    get-change j.id j.id (mark_completed now) s i (λ _. refl) h ∙ ground arith,
    λ a. rw (attempts_left j a) (
      refl,
      get-change j.id j.id (mark_retryable (now +ℤ backoff (pos j.attempt)) (some e) now) s i
            (λ _. refl) h
          ∙ ground arith,
    ),
    λ a. rw (exhausted j a) (
      refl,
      get-change j.id j.id (mark_discarded (some e) later_on) s i (λ _. refl) h ∙ ground arith,
    ),
  )

-- On every store, a drain leaves what the engine leaves after the same attempt, if the clock stands
-- and the handler returned no signal to snooze or to cancel.
pub drain_apply-settle :
    {W : Type 0} (api : StoreApi W) (backoff : Backoff) (e : Option Err) (job : Job) (now : ℤ)
    (r : DrainResult) (w : W)
    → ((f : Err) → e ≡ some f → (is_snooze f ≡ none) × (is_cancel f ≡ none))
    → (drain_apply api backoff e job now r w).1 ≡ (settle api backoff (λ u. (now, u)) e job now w).1
unfolding drain_apply drain_fail settle finish_discard
drain_apply-settle api backoff none job now r w h = refl
drain_apply-settle api backoff (some e) job now r w h =
    rw ((h e refl).1, (h e refl).0)
      (elim (Bool-cases (leb_ℤ job.max_attempts (pos job.attempt))) [
        | inl y ↦ rw y refl
        | inr n ↦ rw n refl
      ])
