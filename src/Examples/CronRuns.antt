-- ===== src/Examples/CronRuns.antt =====
-- The search of a cron schedule, at concrete times.
use oban.Sql.Schema.{codes}
use oban.Cron.{matches, bit}
use oban.Cron.Parser.{
  CronField, parsed, refused, no_such_day, parse_field, parse_parts, parse_part, part_bounds,
  parse_value, range_mask, fill, parse_cron, parse_cron_spec, days_fit,
}
use oban.Cron.Text.{split}
use oban.Prelude.{ℕ, true, ◌-◌, ◌<◌, ◌≢◌, any, [], ◌+◌, ◌^◌, ◌≡◌, refl, Option, some, arith}
use oban.Cron.Calendar.{
  Moment, IsMoment, tick, add_years, weekday, days_in, is_leap, next_hour, next_day_start,
  next_month_start,
}
use oban.Cron.{Schedule, upcoming, next, next_loop, advance, bit}
use oban.Cron.Search.{Found, next_lem}
use oban.Cron.Fill.{allows, part_allows, range_mask_lem, parse_field_lem}
use oban.Cron.Back.{
  Time, prev, prev_loop, retreat, minute_before, last_hour_end, last_day_end, last_month_end,
  sub_years,
}
use oban.Cron.Latest.{Latest, prev_lem, instant, start_of, prev_misses_own_minute}
use oban.Cron.Parser.Decided.{IsDecided, parse_cron_spec-IsDecided}
use oban.Cron.Upcoming.{Firings, upcoming-Firings}

-- 9:30 on the 29th of February.
abbrev leap_day : Schedule
leap_day = record {
  expr = "30 9 29 2 *";
  minutes = 2 ^ 30;
  hours = 2 ^ 9;
  doms = 2 ^ 29;
  months = 2 ^ 2;
  dows = 127;
}

abbrev spring : Moment
spring = record { year = 2023; month = 3; day = 5; hour = 14; minute = 7 }

spring-IsMoment : IsMoment spring
unfolding days_in is_leap
spring-IsMoment = record {
  in_year = (omega arith, omega arith);
  in_month = (omega arith, omega arith);
  in_day = omega arith;
  in_hour = omega arith;
}

next_lem_example :
    (o : Option Moment) × (next leap_day spring ≡ some o)
    × Found leap_day (tick spring) (add_years 5 (tick spring)) o
next_lem_example = next_lem leap_day spring spring-IsMoment

leap_day_2024 :
    next leap_day spring
    ≡ some (some (record { year = 2024; month = 2; day = 29; hour = 9; minute = 30 }))
unfolding next next_loop advance bit weekday days_in is_leap tick next_hour next_day_start
    next_month_start add_years
leap_day_2024 = refl

-- The leap day of 2024 was a Thursday.
leap_day_weekday : weekday (record { year = 2024; month = 2; day = 29; hour = 9; minute = 30 }) ≡ 4
unfolding weekday
leap_day_weekday = refl

abbrev hours_field : CronField
hours_field = record { least = 0; greatest = 23; named = [] }

abbrev days_field : CronField
days_field = record { least = 1; greatest = 31; named = [] }

-- The parser on texts.
every_quarter : parse_field hours_field (codes "0-23/6") ≡ parsed (1 + 64 + 4096 + 262144)
unfolding parse_field parse_parts parse_part part_bounds parse_value range_mask fill
every_quarter = refl

-- A step near the end of the int64 wraps: the loop comes back below the range and allows day 0.
step_wraps : parse_field days_field (codes "2-31/9223372036854775807") ≡ parsed (4 + 1)
unfolding parse_field parse_parts parse_part part_bounds parse_value range_mask fill
step_wraps = refl

macro_text : parse_cron_spec (codes " @Weekly ") ≡ parse_cron (codes "0 0 * * 0")
unfolding parse_cron_spec parse_cron parse_field parse_parts parse_part part_bounds parse_value
    range_mask fill days_fit bit
macro_text = refl

no_february_30 : parse_cron (codes "0 0 30 feb *") ≡ refused no_such_day
unfolding parse_cron parse_field parse_parts parse_part part_bounds parse_value range_mask fill
    days_fit bit
no_february_30 = refl

range_mask_lem_example :
    (mask : ℕ) × (range_mask hours_field 9 17 2 ≡ parsed mask)
    × ((i : ℕ) → bit mask i ≡ allows 9 17 2 i)
range_mask_lem_example =
    range_mask_lem hours_field 9 17 2 (omega arith) (omega arith) (omega arith) (omega arith)
      (omega arith) (omega arith)

parse_field_lem_example :
    bit (1 + 64 + 4096 + 262144) 6 ≡ any (part_allows hours_field 6) (split b',' (codes "0-23/6"))
parse_field_lem_example =
    parse_field_lem hours_field (codes "0-23/6") (1 + 64 + 4096 + 262144) 6 every_quarter

upcoming-Firings_example : Firings leap_day 2 spring (upcoming leap_day 2 spring)
upcoming-Firings_example = upcoming-Firings leap_day 2 spring spring-IsMoment

-- Half a minute after the minute.
abbrev half_past : Moment → Time
half_past t = record { moment = t; nanos = 30000000000 }

prev_lem_example :
    (o : Option Moment) × (prev leap_day (half_past spring) ≡ some o)
    × Latest leap_day spring (sub_years 5 (minute_before spring)) o
prev_lem_example = prev_lem leap_day (half_past spring) spring-IsMoment (omega arith)

leap_day_2020 :
    prev leap_day (half_past spring)
    ≡ some (some (record { year = 2020; month = 2; day = 29; hour = 9; minute = 30 }))
unfolding prev prev_loop retreat bit weekday days_in is_leap minute_before last_hour_end
    last_day_end last_month_end sub_years
leap_day_2020 = refl

-- Every minute of March.
abbrev in_march : Schedule
in_march = record leap_day {
  minutes = 2 ^ 60 - 1;
  hours = 2 ^ 24 - 1;
  doms = 2 ^ 32 - 2;
  months = 2 ^ 3;
}

matches-spring : matches in_march spring ≡ true
unfolding matches bit weekday
matches-spring = refl

prev_misses_own_minute_example :
    (instant (start_of (half_past spring)) < instant (half_past spring))
    × (prev in_march (half_past spring) ≢ some (some spring))
prev_misses_own_minute_example =
    prev_misses_own_minute in_march (half_past spring) spring-IsMoment (omega arith) (omega arith)
      matches-spring

parse_cron_spec-IsDecided_example :
    IsDecided (parse_cron_spec (codes "5 4 2-31/9223372036854775807 jan,feb *"))
parse_cron_spec-IsDecided_example =
    parse_cron_spec-IsDecided (codes "5 4 2-31/9223372036854775807 jan,feb *")
