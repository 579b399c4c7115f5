-- ===== src/Cron/Steps.antt =====
-- The steps back of `Prev` (cron_extra.go) on the calendar, against single minutes.
use oban.Prelude.{ℕ, suc, ◌-◌, ◌≤◌, ◌<◌, ◌≡◌, sym, ap, ◌∙◌, true, false, ltb, if_both, arith}
use oban.Cron.Calendar.{
  Moment, IsMoment, days_in, days_in_bounds, rank, tick, next_hour, next_day_start,
  next_month_start,
}
use oban.Cron.Back.{last_month_end, last_day_end, last_hour_end, minute_before}

abbrev pub month_start : Moment → Moment
month_start t = record t { day = 1; hour = 0; minute = 0 }

abbrev pub day_start : Moment → Moment
day_start t = record t { hour = 0; minute = 0 }

abbrev pub hour_start : Moment → Moment
hour_start t = record t { minute = 0 }

-- An earlier valid moment, a minute before v.
pub record Steps (t v u : Moment) : Type 0 where
  pub valid : IsMoment u
  pub earlier : rank u < rank t
  pub ticks : tick u ≡ v

suc_pred : (n : ℕ) → 1 ≤ n → suc (n - 1) ≡ n
suc_pred n h = omega (arith, h)

not_below_self : (n : ℕ) → ltb n n ≡ false
not_below_self n = ground arith

december : (y : ℕ) → 31 ≤ days_in y 12
unfolding days_in
december y = omega arith

pub below : (a b : ℕ) → a < b → ltb a b ≡ true
below a b h = ground (arith, h)

month_back :
    (t : Moment)
    → 1 < t.month
    → t.month ≤ 12
    → tick (record {
      year = t.year;
      month = t.month - 1;
      day = days_in t.year (t.month - 1);
      hour = 23;
      minute = 59;
    })
      ≡ month_start t
unfolding tick next_hour next_day_start next_month_start
month_back t a b =
    rw (not_below_self (days_in t.year (t.month - 1)), below (t.month - 1) 12 (omega (arith, a, b)))
      (ap (λ (m : ℕ). record t { month = m; day = 1; hour = 0; minute = 0 })
        (suc_pred t.month (omega (arith, a))))

year_back :
    (t : Moment)
    → t.month ≡ 1
    → 1 ≤ t.year
    → tick (record { year = t.year - 1; month = 12; day = 31; hour = 23; minute = 59 })
      ≡ month_start t
unfolding tick next_hour next_day_start next_month_start days_in
year_back t a b =
    ap (λ (y : ℕ). record t { year = y; month = 1; day = 1; hour = 0; minute = 0 })
      (suc_pred t.year b)
    ∙ ap (λ (m : ℕ). record t { month = m; day = 1; hour = 0; minute = 0 }) (sym a)

pub last_month_end-Steps :
    (t : Moment) → IsMoment t → 1 ≤ t.year → Steps t (month_start t) (last_month_end t)
unfolding last_month_end tick next_hour next_day_start next_month_start
last_month_end-Steps t v y =
    if_both (Steps t (month_start t)) (ltb 1 t.month)
      (λ e. record {
        valid = record {
          in_year = (ground (arith, e), omega (arith, v.in_year));
          in_month = (omega (arith, days_in_bounds t.year (t.month - 1)), omega arith);
          in_day = omega arith;
          in_hour = omega arith;
        };
        earlier = ground (arith, e, v.in_month, days_in_bounds t.year (t.month - 1));
        ticks = month_back t (ground (arith, e)) (omega (arith, v.in_year));
      })
      (λ e. record {
        valid = record {
          in_year = (omega arith, omega arith);
          in_month = (omega arith, december (t.year - 1));
          in_day = omega arith;
          in_hour = omega arith;
        };
        earlier = ground (arith, e, y, v.in_year, v.in_month);
        ticks = year_back t (ground (arith, e, v.in_year)) y;
      })

pub last_day_end-Steps :
    (t : Moment) → IsMoment t → 1 ≤ t.year → Steps t (day_start t) (last_day_end t)
unfolding last_day_end tick next_hour next_day_start
last_day_end-Steps t v y =
    if_both (Steps t (day_start t)) (ltb 1 t.day)
      (λ e. record {
        valid = record {
          in_year = v.in_year;
          in_month = (ground (arith, e), omega (arith, v.in_month));
          in_day = omega arith;
          in_hour = omega arith;
        };
        earlier = ground (arith, e);
        ticks = rw (below (t.day - 1) (days_in t.year t.month) (ground (arith, e, v.in_month))) (
            ap (λ (d : ℕ). record t { day = d; hour = 0; minute = 0 })
              (suc_pred t.day (ground (arith, e))));
      })
      (λ e.
        let first : t.day ≡ 1 = ground (arith, e, v.in_month) in
        let s = last_month_end-Steps t v y in
        record {
          valid = s.valid;
          earlier = s.earlier;
          ticks = s.ticks ∙ ap (λ (d : ℕ). record t { day = d; hour = 0; minute = 0 }) (sym first);
        })

pub last_hour_end-Steps :
    (t : Moment) → IsMoment t → 1 ≤ t.year → Steps t (hour_start t) (last_hour_end t)
unfolding last_hour_end tick next_hour
last_hour_end-Steps t v y =
    if_both (Steps t (hour_start t)) (ltb 0 t.hour)
      (λ e. record {
        valid = record {
          in_year = v.in_year;
          in_month = v.in_month;
          in_day = omega (arith, v.in_day);
          in_hour = omega arith;
        };
        earlier = ground (arith, e);
        ticks = rw (below (t.hour - 1) 23 (ground (arith, e, v.in_day))) (
            ap (λ (h : ℕ). record t { hour = h; minute = 0 })
              (suc_pred t.hour (ground (arith, e))));
      })
      (λ e.
        let first : t.hour ≡ 0 = ground (arith, e) in
        let s = last_day_end-Steps t v y in
        record {
          valid = s.valid;
          earlier = s.earlier;
          ticks = s.ticks ∙ ap (λ (h : ℕ). record t { hour = h; minute = 0 }) (sym first);
        })

pub minute_before-Steps : (t : Moment) → IsMoment t → 1 ≤ t.year → Steps t t (minute_before t)
unfolding minute_before tick
minute_before-Steps t v y =
    if_both (Steps t t) (ltb 0 t.minute)
      (λ e. record {
        valid = record {
          in_year = v.in_year;
          in_month = v.in_month;
          in_day = v.in_day;
          in_hour = omega (arith, v.in_hour);
        };
        earlier = ground (arith, e);
        ticks =
            rw (below (t.minute - 1) 59 (ground (arith, e, v.in_hour)))
              (ap (λ (n : ℕ). record t { minute = n }) (suc_pred t.minute (ground (arith, e))));
      })
      (λ e.
        let first : t.minute ≡ 0 = ground (arith, e) in
        let s = last_hour_end-Steps t v y in
        record {
          valid = s.valid;
          earlier = s.earlier;
          ticks = s.ticks ∙ ap (λ (n : ℕ). record t { minute = n }) (sym first);
        })
