-- ===== src/Cron/Back.antt =====
-- `Prev` (cron_extra.go): the search for the last time before a moment. Years are not negative: the
-- search is that of the source from the year 7 on.
use oban.Prelude.{ℕ, zero, suc, ◌-◌, true, false, not, Option, none, some, ltb, if◌then◌else◌}
use oban.Cron.{Schedule, month_matches, day_matches, hour_matches, minute_matches, before}
use oban.Cron.Calendar.{Moment, days_in, rank}

-- A minute before the start of the month, of the day, of the hour, and of the minute.
unfoldable pub last_month_end : Moment → Moment
last_month_end t =
    if ltb 1 t.month
    then record {
      year = t.year;
      month = t.month - 1;
      day = days_in t.year (t.month - 1);
      hour = 23;
      minute = 59;
    }
    else record { year = t.year - 1; month = 12; day = 31; hour = 23; minute = 59 }

unfoldable pub last_day_end : Moment → Moment
last_day_end t =
    if ltb 1 t.day
    then record { year = t.year; month = t.month; day = t.day - 1; hour = 23; minute = 59 }
    else last_month_end t

unfoldable pub last_hour_end : Moment → Moment
last_hour_end t =
    if ltb 0 t.hour
    then record { year = t.year; month = t.month; day = t.day; hour = t.hour - 1; minute = 59 }
    else last_day_end t

unfoldable pub minute_before : Moment → Moment
minute_before t =
    if ltb 0 t.minute
    then record {
      year = t.year;
      month = t.month;
      day = t.day;
      hour = t.hour;
      minute = t.minute - 1;
    }
    else last_hour_end t

-- `AddDate(-n, 0, 0)`.
unfoldable pub sub_years : ℕ → Moment → Moment
sub_years n t =
    if ltb (days_in (t.year - n) t.month) t.day
    then record t { year = t.year - n; month = 3; day = 1 }
    else record t { year = t.year - n }

-- One turn of the loop of `Prev`: where it goes on, or `none` where it returns t.
unfoldable pub retreat : Schedule → Moment → Option Moment
retreat s t =
    if not (month_matches s t)
    then some (last_month_end t)
    else if not (day_matches s t)
    then some (last_day_end t)
    else if not (hour_matches s t)
    then some (last_hour_end t)
    else if not (minute_matches s t)
    then some (minute_before t)
    else none

-- The loop, on fuel; the outer `none` means that the fuel ran out, the inner one is the zero time.
unfoldable pub prev_loop : Schedule → Moment → ℕ → Moment → Option (Option Moment)
prev_loop s limit zero t = none
prev_loop s limit (suc fuel) t = elim (before limit t) [
  | false ↦ some none
  | true ↦ elim (retreat s t) [ none ↦ some (some t) | some u ↦ prev_loop s limit fuel u ]
]

abbrev pub cron_prev_search_years : ℕ
cron_prev_search_years = 5

-- A time: a minute and the nanoseconds since its start.
pub record Time : Type 0 where
  pub moment : Moment
  pub nanos : ℕ

-- `Truncate(time.Minute)`.
abbrev pub truncate_minute : Time → Moment
truncate_minute t = t.moment

-- `Prev`.
unfoldable pub prev : Schedule → Time → Option (Option Moment)
unfolding prev_loop
prev s t =
    let start = minute_before (truncate_minute t) in
    let limit = sub_years cron_prev_search_years start in
    prev_loop s limit (suc (rank start - rank limit)) start
