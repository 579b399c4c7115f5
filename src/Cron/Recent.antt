-- ===== src/Cron/Recent.antt =====
-- The loop of `Prev` (cron_extra.go), and the matches that it passes.
use oban.Prelude.{
  ℕ, zero, suc, ◌-◌, ◌≤◌, ◌<◌, ◌≡◌, refl, sym, subst, true, false, Option, none, some, Bool-cases,
  inl, inr, arith,
}
use oban.Cron.{Schedule, matches, month_matches, day_matches, hour_matches, minute_matches}
use oban.Cron.Calendar.{Moment, IsMoment, days_in, rank, tick, next_hour, next_day_start, weekday}
use oban.Cron.Skipping.{
  Skips, arrived, skipped, Skips-trans, skip_to_hour, skip_to_day, month_fails, day_fails,
  hour_fails,
}
use oban.Cron.Back.{retreat}
use oban.Cron.Steps.{
  Steps, below, month_start, day_start, hour_start, last_month_end-Steps, last_day_end-Steps,
  last_hour_end-Steps, minute_before-Steps,
}

module _ (s : Schedule) where
  single : (t : Moment) → matches s t ≡ false → Skips s t (tick t)
  single t n = skipped n arrived

  to_minute :
      (k : ℕ) (t : Moment)
      → k < 60
      → ((n : ℕ) → matches s (record t { minute = n }) ≡ false)
      → Skips s (hour_start t) (record t { minute = k })
  unfolding tick
  to_minute zero t h p = arrived
  to_minute (suc k) t h p = Skips-trans s (to_minute k t (omega (arith, h)) p) (
      subst (Skips s (record t { minute = k })) (rw (below k 59 (omega (arith, h))) refl)
        (single (record t { minute = k }) (p k)))

  to_hour :
      (k : ℕ) (t : Moment)
      → k < 24
      → ((h n : ℕ) → matches s (record t { hour = h; minute = n }) ≡ false)
      → Skips s (day_start t) (record t { hour = k; minute = 0 })
  unfolding next_hour
  to_hour zero t h p = arrived
  to_hour (suc k) t h p = Skips-trans s (to_hour k t (omega (arith, h)) p) (
      subst (Skips s (record t { hour = k; minute = 0 })) (rw (below k 23 (omega (arith, h))) refl)
        (skip_to_hour s 59 (record t { hour = k; minute = 0 }) (omega arith) (p k)))

  in_the_day :
      (t : Moment)
      → IsMoment t
      → ((h n : ℕ) → matches s (record t { hour = h; minute = n }) ≡ false)
      → Skips s (day_start t) t
  in_the_day t v p =
      Skips-trans s (to_hour t.hour t v.in_day p) (to_minute t.minute t v.in_hour (p t.hour))

  to_day :
      (k : ℕ) (t : Moment)
      → suc k ≤ days_in t.year t.month
      → ((d h n : ℕ) → matches s (record t { day = d; hour = h; minute = n }) ≡ false)
      → Skips s (month_start t) (record t { day = suc k; hour = 0; minute = 0 })
  unfolding next_day_start
  to_day zero t h p = arrived
  to_day (suc k) t h p = Skips-trans s (to_day k t (omega (arith, h)) p) (
      subst (Skips s (record t { day = suc k; hour = 0; minute = 0 }))
        (rw (below (suc k) (days_in t.year t.month) (omega (arith, h))) refl)
        (skip_to_day s 23 (record t { day = suc k; hour = 0; minute = 0 }) (omega arith)
          (omega arith) (p (suc k))))

  in_the_month :
      (t : Moment)
      → IsMoment t
      → ((d h n : ℕ) → matches s (record t { day = d; hour = h; minute = n }) ≡ false)
      → Skips s (month_start t) t
  in_the_month t v p =
      Skips-trans s
        (subst (λ (d : ℕ). Skips s (month_start t) (record t { day = d; hour = 0; minute = 0 }))
          (omega (arith, v.in_month)) (to_day (t.day - 1) t (omega (arith, v.in_month)) p))
        (in_the_day t v (p t.day))

  -- One turn of the search: it stays at a match, or goes on to an earlier moment past no match.
  pub data Retreated (t : Moment) : Option Moment → Type 0 where
    rests : matches s t ≡ true → Retreated t none
    falls :
        {u : Moment}
        → IsMoment u
        → rank u < rank t
        → Skips s (tick u) (tick t)
        → Retreated t (some u)

  stepped :
      (t v u : Moment) → Steps t v u → Skips s v t → matches s t ≡ false → Retreated t (some u)
  stepped t v u st k n =
      falls st.valid st.earlier
        (subst (λ x. Skips s x (tick t)) (sym st.ticks) (Skips-trans s k (single t n)))

  pub retreat-Retreated : (t : Moment) → IsMoment t → 1 ≤ t.year → Retreated t (retreat s t)
  unfolding retreat weekday matches
  retreat-Retreated t v y = elim (Bool-cases (month_matches s t)) [
    | inr a ↦ rw a (
        stepped t _ _ (last_month_end-Steps t v y)
          (in_the_month t v (λ d h n. month_fails s (record t { day = d; hour = h; minute = n }) a))
          (month_fails s t a))
    | inl a ↦ rw a (elim (Bool-cases (day_matches s t)) [
      | inr b ↦ rw b (
          stepped t _ _ (last_day_end-Steps t v y)
            (in_the_day t v (λ h n. day_fails s (record t { hour = h; minute = n }) b))
            (day_fails s t b))
      | inl b ↦ rw b (elim (Bool-cases (hour_matches s t)) [
        | inr c ↦ rw c (
            stepped t _ _ (last_hour_end-Steps t v y)
              (to_minute t.minute t v.in_hour (λ n. hour_fails s (record t { minute = n }) c))
              (hour_fails s t c))
        | inl c ↦ rw c (elim (Bool-cases (minute_matches s t)) [
          | inr d ↦ rw d (stepped t _ _ (minute_before-Steps t v y) arrived (rw (a, b, c, d) refl))
          | inl d ↦ rw d (rests (rw (a, b, c, d) refl))
        ])
      ])
    ])
  ]
