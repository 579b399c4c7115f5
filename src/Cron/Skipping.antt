-- ===== src/Cron/Skipping.antt =====
-- The jumps in the loop of `Next` (cron.go), against single minutes.
use oban.Prelude.{
  ℕ, zero, suc, ◌+◌, ◌-◌, ◌<◌, ◌≡◌, refl, sym, subst, true, false, not, Option, none, some, ltb,
  if_both, Bool-cases, inl, inr, arith,
}
use oban.Cron.Calendar.{
  Moment, IsMoment, Goes, days_in, tick, next_hour, next_day_start, next_month_start, tick-Goes,
  next_hour-Goes, next_day_start-Goes, next_month_start-Goes, weekday,
}
use oban.Cron.{Schedule, matches, advance, month_matches, day_matches, hour_matches, minute_matches}

-- From t on, minute by minute, no moment before u matches.
pub data Skips (s : Schedule) : Moment → Moment → Type 0 where
  arrived : {t : Moment} → Skips s t t
  skipped : {t u : Moment} → matches s t ≡ false → Skips s (tick t) u → Skips s t u

pub Skips-trans : (s : Schedule) {t u v : Moment} → Skips s t u → Skips s u v → Skips s t v
Skips-trans s arrived k = k
Skips-trans s (skipped n h) k = skipped n (Skips-trans s h k)

not_below : (a b : ℕ) → a ≡ b → ltb a b ≡ false
not_below a b e = ground (arith, e)

below : (a k b : ℕ) → a + suc k ≡ b → ltb a b ≡ true
below a k b e = ground (arith, e)

module _ (s : Schedule) where
  pub skip_to_hour :
      (k : ℕ) (t : Moment)
      → t.minute + k ≡ 59
      → ((n : ℕ) → matches s (record t { minute = n }) ≡ false)
      → Skips s t (next_hour t)
  unfolding tick next_hour next_day_start next_month_start
  skip_to_hour zero t e p = skipped (p t.minute) (
      subst (λ u. Skips s u (next_hour t))
        (sym (rw (not_below t.minute 59 (omega (arith, e))) refl)) arrived)
  skip_to_hour (suc k) t e p = skipped (p t.minute) (
      subst (λ u. Skips s u (next_hour t)) (sym (rw (below t.minute k 59 e) refl))
        (skip_to_hour k (record t { minute = suc t.minute }) (omega (arith, e)) p))

  pub skip_to_day :
      (k : ℕ) (t : Moment)
      → t.minute < 60
      → t.hour + k ≡ 23
      → ((h n : ℕ) → matches s (record t { hour = h; minute = n }) ≡ false)
      → Skips s t (next_day_start t)
  unfolding next_hour next_day_start next_month_start
  skip_to_day zero t m e p =
      subst (Skips s t) (rw (not_below t.hour 23 (omega (arith, e))) refl)
        (skip_to_hour (59 - t.minute) t (omega (arith, m)) (λ n. p t.hour n))
  skip_to_day (suc k) t m e p =
      Skips-trans s
        (subst (Skips s t) (rw (below t.hour k 23 e) refl)
          (skip_to_hour (59 - t.minute) t (omega (arith, m)) (λ n. p t.hour n)))
        (skip_to_day k (record t { hour = suc t.hour; minute = 0 }) (omega arith) (omega (arith, e))
          p)

  skip_to_month :
      (k : ℕ) (t : Moment)
      → t.minute < 60
      → t.hour < 24
      → t.day + k ≡ days_in t.year t.month
      → ((d h n : ℕ) → matches s (record t { day = d; hour = h; minute = n }) ≡ false)
      → Skips s t (next_month_start t)
  unfolding next_day_start next_month_start
  skip_to_month zero t m h e p =
      subst (Skips s t) (rw (not_below t.day (days_in t.year t.month) (omega (arith, e))) refl)
        (skip_to_day (23 - t.hour) t m (omega (arith, h)) (λ i n. p t.day i n))
  skip_to_month (suc k) t m h e p =
      Skips-trans s
        (subst (Skips s t) (rw (below t.day k (days_in t.year t.month) e) refl)
          (skip_to_day (23 - t.hour) t m (omega (arith, h)) (λ i n. p t.day i n)))
        (skip_to_month k (record t { day = suc t.day; hour = 0; minute = 0 }) (omega arith)
          (omega arith) (omega (arith, e)) p)

  pub month_fails : (t : Moment) → month_matches s t ≡ false → matches s t ≡ false
  unfolding matches
  month_fails t e = rw e

  pub day_fails : (t : Moment) → day_matches s t ≡ false → matches s t ≡ false
  unfolding matches
  day_fails t e = if_both (λ b. b ≡ false) (not (month_matches s t)) (λ _. refl) (λ _. rw e)

  pub hour_fails : (t : Moment) → hour_matches s t ≡ false → matches s t ≡ false
  unfolding matches
  hour_fails t e =
      if_both (λ b. b ≡ false) (not (month_matches s t)) (λ _. refl)
        (λ _. if_both (λ b. b ≡ false) (not (day_matches s t)) (λ _. refl) (λ _. rw e))

  -- One turn of the search: it stays at a match, or goes on to a later moment past no match.
  pub data Turned (t : Moment) : Option Moment → Type 0 where
    stays : matches s t ≡ true → Turned t none
    jumps : {u : Moment} → Goes t u → Skips s t u → Turned t (some u)

  tick-Turned : (t : Moment) → IsMoment t → matches s t ≡ false → Turned t (some (tick t))
  tick-Turned t v n = jumps (tick-Goes t v) (skipped n arrived)

  hour-Turned : (t : Moment) → IsMoment t → hour_matches s t ≡ false → Turned t (some (next_hour t))
  hour-Turned t v e = jumps (next_hour-Goes t v) (
      skip_to_hour (59 - t.minute) t (omega (arith, v.in_hour))
        (λ n. hour_fails (record t { minute = n }) e))

  day-Turned :
      (t : Moment) → IsMoment t → day_matches s t ≡ false → Turned t (some (next_day_start t))
  unfolding weekday
  day-Turned t v e = jumps (next_day_start-Goes t v) (
      skip_to_day (23 - t.hour) t v.in_hour (omega (arith, v.in_day))
        (λ h n. day_fails (record t { hour = h; minute = n }) e))

  month-Turned :
      (t : Moment) → IsMoment t → month_matches s t ≡ false → Turned t (some (next_month_start t))
  month-Turned t v e = jumps (next_month_start-Goes t v) (
      skip_to_month (days_in t.year t.month - t.day) t v.in_hour v.in_day
        (omega (arith, v.in_month))
        (λ d h n. month_fails (record t { day = d; hour = h; minute = n }) e))

  pub advance-Turned : (t : Moment) → IsMoment t → Turned t (advance s t)
  unfolding advance matches
  advance-Turned t v = elim (Bool-cases (month_matches s t)) [
    | inr a ↦ rw a (month-Turned t v a)
    | inl a ↦ rw a (elim (Bool-cases (day_matches s t)) [
      | inr b ↦ rw b (day-Turned t v b)
      | inl b ↦ rw b (elim (Bool-cases (hour_matches s t)) [
        | inr c ↦ rw c (hour-Turned t v c)
        | inl c ↦ rw c (elim (Bool-cases (minute_matches s t)) [
          | inr d ↦ rw d (tick-Turned t v (rw (a, b, c, d) refl))
          | inl d ↦ rw d (stays (rw (a, b, c, d) refl))
        ])
      ])
    ])
  ]
