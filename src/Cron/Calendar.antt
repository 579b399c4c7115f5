-- ===== src/Cron/Calendar.antt =====
-- The calendar of Go's `time` in UTC, as far as the cron search uses it: moments in whole minutes, the
-- starts of the next month, day, hour and minute, and `AddDate` by years.
use oban.Prelude.{
  ℕ, suc, ◌+◌, ◌-◌, ◌*◌, ◌/◌, ◌%◌, ◌≤◌, ◌<◌, Bool, ◌&&◌, ◌||◌, not, ltb, ◌==◌, if◌then◌else◌,
  if_both, arith,
}

pub record Moment : Type 0 where
  pub year : ℕ
  pub month : ℕ
  pub day : ℕ
  pub hour : ℕ
  pub minute : ℕ

unfoldable pub is_leap : ℕ → Bool
is_leap y = y % 4 == 0 && (not (y % 100 == 0) || y % 400 == 0)

unfoldable pub days_in : ℕ → ℕ → ℕ
days_in y m =
    if m == 2
    then (if is_leap y then 29 else 28)
    else if (m == 4 || m == 6) || (m == 9 || m == 11)
    then 30
    else 31

-- The shift of a month in the count of weekdays.
abbrev month_shift : ℕ → ℕ
month_shift m =
    if m == 1
    then 0
    else if m == 2
    then 3
    else if m == 3
    then 2
    else if m == 4
    then 5
    else if m == 5
    then 0
    else if m == 6
    then 3
    else if m == 7
    then 5
    else if m == 8
    then 1
    else if m == 9
    then 4
    else if m == 10
    then 6
    else if m == 11
    then 2
    else 4

-- Sunday is 0.
unfoldable pub weekday : Moment → ℕ
weekday t =
    let y = if ltb t.month 3 then t.year - 1 else t.year in
    (y + y / 4 + y / 400 + month_shift t.month + t.day - y / 100) % 7

-- Orders moments by time.
abbrev pub rank : Moment → ℕ
rank t = (((t.year * 12 + t.month) * 31 + t.day) * 24 + t.hour) * 60 + t.minute

unfoldable pub next_month_start : Moment → Moment
next_month_start t =
    if ltb t.month 12
    then record { year = t.year; month = suc t.month; day = 1; hour = 0; minute = 0 }
    else record { year = suc t.year; month = 1; day = 1; hour = 0; minute = 0 }

unfoldable pub next_day_start : Moment → Moment
next_day_start t =
    if ltb t.day (days_in t.year t.month)
    then record { year = t.year; month = t.month; day = suc t.day; hour = 0; minute = 0 }
    else next_month_start t

unfoldable pub next_hour : Moment → Moment
next_hour t =
    if ltb t.hour 23
    then record { year = t.year; month = t.month; day = t.day; hour = suc t.hour; minute = 0 }
    else next_day_start t

-- A minute later.
unfoldable pub tick : Moment → Moment
tick t =
    if ltb t.minute 59
    then record {
      year = t.year;
      month = t.month;
      day = t.day;
      hour = t.hour;
      minute = suc t.minute;
    }
    else next_hour t

-- `AddDate(n, 0, 0)`: a day that the year lacks is the first of March.
unfoldable pub add_years : ℕ → Moment → Moment
add_years n t =
    if ltb (days_in (t.year + n) t.month) t.day
    then record t { year = t.year + n; month = 3; day = 1 }
    else record t { year = t.year + n }

pub record IsMoment (t : Moment) : Type 0 where
  pub in_year : (1 ≤ t.month) × (t.month ≤ 12)
  pub in_month : (1 ≤ t.day) × (t.day ≤ days_in t.year t.month)
  pub in_day : t.hour < 24
  pub in_hour : t.minute < 60

pub days_in_bounds : (y m : ℕ) → (28 ≤ days_in y m) × (days_in y m ≤ 31)
unfolding days_in
days_in_bounds y m =
    if_both (λ d. (28 ≤ d) × (d ≤ 31)) (m == 2)
      (λ _.
        if_both (λ d. (28 ≤ d) × (d ≤ 31)) (is_leap y) (λ _. (omega arith, omega arith))
          (λ _. (omega arith, omega arith)))
      (λ _.
        if_both (λ d. (28 ≤ d) × (d ≤ 31)) ((m == 4 || m == 6) || (m == 9 || m == 11))
          (λ _. (omega arith, omega arith)) (λ _. (omega arith, omega arith)))

-- A later valid moment.
pub record Goes (t u : Moment) : Type 0 where
  pub valid : IsMoment u
  pub later : rank t < rank u

pub next_month_start-Goes : (t : Moment) → IsMoment t → Goes t (next_month_start t)
unfolding next_month_start
next_month_start-Goes t v =
    if_both (Goes t) (ltb t.month 12)
      (λ e. record {
        valid = record {
          in_year = (omega arith, ground (arith, e));
          in_month = (omega arith, omega (arith, days_in_bounds t.year (suc t.month)));
          in_day = omega arith;
          in_hour = omega arith;
        };
        later = omega (arith, v.in_month, v.in_day, v.in_hour, days_in_bounds t.year t.month);
      })
      (λ e. record {
        valid = record {
          in_year = (omega arith, omega arith);
          in_month = (omega arith, omega (arith, days_in_bounds (suc t.year) 1));
          in_day = omega arith;
          in_hour = omega arith;
        };
        later =
            omega
              (arith, v.in_year, v.in_month, v.in_day, v.in_hour, days_in_bounds t.year t.month);
      })

pub next_day_start-Goes : (t : Moment) → IsMoment t → Goes t (next_day_start t)
unfolding next_day_start
next_day_start-Goes t v =
    if_both (Goes t) (ltb t.day (days_in t.year t.month))
      (λ e. record {
        valid = record {
          in_year = v.in_year;
          in_month = (omega arith, ground (arith, e));
          in_day = omega arith;
          in_hour = omega arith;
        };
        later = omega (arith, v.in_day, v.in_hour);
      })
      (λ _. next_month_start-Goes t v)

pub next_hour-Goes : (t : Moment) → IsMoment t → Goes t (next_hour t)
unfolding next_hour
next_hour-Goes t v =
    if_both (Goes t) (ltb t.hour 23)
      (λ e. record {
        valid = record {
          in_year = v.in_year;
          in_month = v.in_month;
          in_day = ground (arith, e);
          in_hour = omega arith;
        };
        later = omega (arith, v.in_hour);
      })
      (λ _. next_day_start-Goes t v)

pub tick-Goes : (t : Moment) → IsMoment t → Goes t (tick t)
unfolding tick
tick-Goes t v =
    if_both (Goes t) (ltb t.minute 59)
      (λ e. record {
        valid = record {
          in_year = v.in_year;
          in_month = v.in_month;
          in_day = v.in_day;
          in_hour = ground (arith, e);
        };
        later = omega arith;
      })
      (λ _. next_hour-Goes t v)
