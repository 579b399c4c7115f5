-- ===== src/Engine/Ready.antt =====
-- The checks and defaults of `New` (oban.go).
use oban.Prelude.{
  ℕ, suc, ◌≡◌, ◌≢◌, refl, sym, ◌∙◌, subst, ℤ, pos, leb_ℤ, ltb_ℤ, ◌<ℤ◌, String, List, [], ◌∷◌,
  Option, none, some, All, if_both, Bool-cases, Option-cases, inl, inr, str_eq, str_eq_iff, arith,
}
use oban.Errors.{Err, ok}
use oban.Engine.{
  Settings, Periodic, filled_in, queue_error, periodic_error, checked, new_engine, timeout_for,
  or_when_unset, find_timeout,
}

-- An engine that can start: positive concurrencies, intervals and timeouts, and periodic jobs with a
-- schedule and a worker.
pub record IsReady (cfg : Settings) : Type 0 where
  pub concurrency : All (λ q. pos 0 <ℤ q.1) cfg.queues
  pub has_queue : cfg.queues ≢ []
  pub polls : pos 0 <ℤ cfg.poll_interval
  pub ticks : pos 0 <ℤ cfg.cron_interval
  pub timeout : (queue : String) → pos 0 <ℤ timeout_for cfg queue
  pub scheduled : All (λ (p : Periodic). (p.schedule ≢ none) × (p.worker ≢ "")) cfg.periodics

or_when_unset_pos : (d def : ℤ) → pos 0 <ℤ def → pos 0 <ℤ or_when_unset d def
or_when_unset_pos d def h = ground arith

module _ (bad_queue : String → ℤ → String) (no_schedule no_worker : ℕ → String) where
  queue_error-none :
      (qs : List (String × ℤ))
      → queue_error bad_queue no_schedule no_worker qs ≡ none
      → All (λ q. pos 0 <ℤ q.1) qs
  queue_error-none [] h = tt
  queue_error-none ((name, conc) ∷ qs) h = elim (Bool-cases (leb_ℤ conc (pos 0))) [
    | inl y ↦ absurd (ground (arith, h, y))
    | inr n ↦ (ground (arith, n), queue_error-none qs (rw n at h))
  ]

  periodic_error-none :
      (i : ℕ) (ps : List Periodic)
      → periodic_error bad_queue no_schedule no_worker i ps ≡ none
      → All (λ (p : Periodic). (p.schedule ≢ none) × (p.worker ≢ "")) ps
  periodic_error-none i [] h = tt
  periodic_error-none i (p ∷ ps) h = elim (Option-cases p.schedule) [
    | inl n ↦ absurd (ground (arith, (rw n at h)))
    | inr (next, e) ↦ elim (Bool-cases (str_eq p.worker "")) [
      | inl y ↦ absurd (ground (arith, (rw (e, y) at h)))
      | inr m ↦ (
        (
          (λ n. absurd (ground (arith, (sym e ∙ n)))),
          (λ n. absurd (ground (arith, m, (str_eq_iff p.worker "").1 n))),
        ),
        periodic_error-none (suc i) ps (rw (e, m) at h),
      )
    ]
  ]

  checked_ok :
      (e f : Option Err) (cfg out : Settings)
      → checked bad_queue no_schedule no_worker e f cfg ≡ ok out
      → (e ≡ none) × (f ≡ none) × (cfg ≡ out)
  checked_ok (some e) f cfg out h = absurd (cc h)
  checked_ok none (some f) cfg out h = absurd (cc h)
  checked_ok none none cfg out h = (refl, refl, cc h)

  filled_timeout : (cfg : Settings) (queue : String) → pos 0 <ℤ timeout_for (filled_in cfg) queue
  unfolding timeout_for
  filled_timeout cfg queue = elim (Option-cases (find_timeout cfg.queue_timeouts queue)) [
    | inl n ↦ rw n (or_when_unset_pos cfg.job_timeout _ (omega arith))
    | inr (d, e) ↦ rw e (
        if_both (λ t. pos 0 <ℤ t) (ltb_ℤ (pos 0) d) (λ y. ground (arith, y))
          (λ _. or_when_unset_pos cfg.job_timeout _ (omega arith)))
  ]

  filled_queues : (cfg : Settings) → (filled_in cfg).queues ≢ []
  filled_queues cfg h = nonempty cfg.queues h
    where
      nonempty : (qs : List (String × ℤ)) → (filled_in (record cfg { queues = qs })).queues ≢ []
      nonempty [] h = ground (arith, h)
      nonempty (q ∷ qs) h = ground (arith, h)

  -- An engine that `New` returns without an error can start.
  pub new_engine-IsReady :
      (cfg out : Settings) → new_engine bad_queue no_schedule no_worker cfg ≡ ok out → IsReady out
  unfolding new_engine
  new_engine-IsReady cfg out h =
      let c = checked_ok _ _ (filled_in cfg) out h in
      subst IsReady c.2 (record {
        concurrency = queue_error-none (filled_in cfg).queues c.0;
        has_queue = filled_queues cfg;
        polls = or_when_unset_pos cfg.poll_interval _ (omega arith);
        ticks = or_when_unset_pos cfg.cron_interval _ (omega arith);
        timeout = filled_timeout cfg;
        scheduled = periodic_error-none 0 (filled_in cfg).periodics c.1;
      })
