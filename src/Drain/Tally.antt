-- ===== src/Drain/Tally.antt =====
-- The counting of a drain (drain.go), and its loop without recursion.
use oban.Prelude.{
  ℕ, suc, ◌+◌, ◌≡◌, refl, ℤ, String, false, List, [], ◌∷◌, Option, none, some, length,
  if◌then◌else◌, Option-cases, inl, inr, ◌⊎◌, arith,
}
use oban.Errors.{Err, Result, ok, err, is_snooze, is_cancel}
use oban.Job.{Job}
use oban.Backoff.{Backoff}
use oban.StoreApi.{StoreApi}
use oban.Worker.{Ctx, with_timeout, Handler, Clock, Registry, lookup_worker}
use oban.Drain.{
  DrainResult, DrainOptions, total, drain_fail, drain_apply, drain_run, drain_jobs, drain_loop,
  drain_fetch_limit, drain_far_future,
}

module _ {W : Type 0} (api : StoreApi W) (backoff : Backoff) where
  drain_fail-total :
      (job : Job) (e : Err) (now : ℤ) (r : DrainResult) (w : W)
      → total (drain_fail api backoff job e now r w).0 ≡ suc (total r)
  unfolding total drain_fail
  drain_fail-total job e now r w = ground arith

  drain_apply-total :
      (e : Option Err) (job : Job) (now : ℤ) (r : DrainResult) (w : W)
      → total (drain_apply api backoff e job now r w).0 ≡ suc (total r)
  unfolding total drain_apply
  drain_apply-total none job now r w = omega arith
  drain_apply-total (some e) job now r w = elim (Option-cases (is_cancel e)) [
    | inr (reason, c) ↦ rw c (elim (Option-cases api.cancel?) [
      | inr (cancel, k) ↦ rw k (omega arith)
      | inl k ↦ rw k (drain_fail-total job e now r w)
    ])
    | inl c ↦ rw c (elim (Option-cases (is_snooze e)) [
      | inl d ↦ rw d (drain_fail-total job e now r w)
      | inr (d, x) ↦ rw x (elim (Option-cases api.snooze?) [
        | inr (snooze, k) ↦ rw k (omega arith)
        | inl k ↦ rw k (drain_fail-total job e now r w)
      ])
    ])
  ]

  module _ (missing_text : String → String) (reg : Registry W) (handler : Handler W)
      (clock : Clock W) where
    drain_run-total :
        (timeout : ℤ) (ctx : Ctx) (job : Job) (r : DrainResult) (w : W)
        → total (drain_run api backoff missing_text reg handler clock timeout ctx job r w).0
          ≡ suc (total r)
    unfolding drain_run total
    drain_run-total timeout ctx job r w = elim (Option-cases (lookup_worker W job.worker reg)) [
      | inl n ↦ rw n (failed_total r)
      | inr (x, y) ↦ rw y (
          let out = handler (with_timeout timeout ctx) job w in
          drain_apply-total out.0 job (clock out.1).0 r (clock out.1).1)
    ]
      where
        failed_total :
            (r : DrainResult) → total (record r { failed = suc r.failed }) ≡ suc (total r)
        failed_total r = omega arith

    -- Whatever the handler, the store and the clock do, each job that was fetched is counted once, under
    -- one outcome.
    pub drain_jobs-total :
        (timeout : ℤ) (ctx : Ctx) (jobs : List Job) (r : DrainResult) (w : W)
        → total (drain_jobs api backoff missing_text reg handler clock timeout ctx jobs r w).0
          ≡ total r + length jobs
    unfolding drain_jobs
    drain_jobs-total timeout ctx [] r w = omega arith
    drain_jobs-total timeout ctx (job ∷ jobs) r w =
        let out = drain_run api backoff missing_text reg handler clock timeout ctx job r w in
        omega (
          arith,
          drain_jobs-total timeout ctx jobs out.0 out.1,
          drain_run-total timeout ctx job r w,
        )

module _ {W : Type 0} (api : StoreApi W) (opts : DrainOptions W) (missing_text : String → String)
    (reg : Registry W) (handler : Handler W) (clock : Clock W) (ctx_err : W → Option Err)
    (ctx : Ctx) where
  -- The fetch of a pass, at the time read first, or far in the future.
  abbrev pub pass_fetch : W → Result (List Job) × W
  pass_fetch w =
      let read = clock w in
      api.fetch_available opts.queue drain_fetch_limit
        (if opts.with_scheduled then drain_far_future else read.0) read.1

  abbrev pub fetched_count : Result (List Job) → ℕ
  fetched_count (err e) = 0
  fetched_count (ok js) = length js

  pass_cases :
      (res : Result (List Job) × W)
      → ((e : Err) × (w : W) × (res ≡ (err e, w)))
        ⊎ (((w : W) × (res ≡ (ok [], w)))
            ⊎ ((j : Job) × (js : List Job) × (w : W) × (res ≡ (ok (j ∷ js), w))))
  pass_cases (err e, w) = inl (e, w, refl)
  pass_cases (ok [], w) = inr (inl (w, refl))
  pass_cases (ok (j ∷ js), w) = inr (inr (j, js, w, refl))

  -- A drain without recursion whose context is alive needs one round: it returns, with each fetched job
  -- counted once, whatever fuel is left over.
  pub drain_loop_single :
      (fuel : ℕ) (r : DrainResult) (w : W)
      → opts.with_recursion ≡ false
      → ctx_err w ≡ none
      → (out : (DrainResult × Option Err) × W) × (drain_loop api opts missing_text reg handler clock
            ctx_err ctx
            (suc fuel)
            r
            w
          ≡ some out)
        × (total out.0.0 ≡ total r + fetched_count (pass_fetch w).0)
  unfolding drain_loop
  drain_loop_single fuel r w once alive = elim (pass_cases (pass_fetch w)) [
    | inl (e, w', h) ↦ rw (alive, h) (((r, some e), w'), refl, omega arith)
    | inr (inl (w', h)) ↦ rw (alive, h) (((r, none), w'), refl, omega arith)
    | inr (inr (j, js, w', h)) ↦
        let out =
          drain_jobs api opts.backoff missing_text reg handler clock opts.timeout ctx (j ∷ js) r
            w' in
        rw (alive, h, once)
          (
            ((out.0, none), out.1),
            refl,
            drain_jobs-total api opts.backoff missing_text reg handler clock opts.timeout ctx
                (j ∷ js) r w',
          )
  ]
