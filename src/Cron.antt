-- ===== src/Cron.antt =====
-- cron.go and cron_extra.go: a parsed schedule and the search for its next times. A time is a moment of
-- the UTC calendar in whole minutes, as `Truncate(time.Minute)` leaves it.
pub mod Calendar
pub mod Skipping
pub mod Search
pub mod Masks
pub mod Text
pub mod Parser
pub mod Fill
pub mod Upcoming
pub mod Ends
pub mod Back
pub mod Steps
pub mod Recent
pub mod Latest
use oban.Prelude.{
  ℕ, zero, suc, ◌+◌, ◌-◌, ◌*◌, ◌/◌, ◌%◌, ◌^◌, String, Bool, true, false, ◌&&◌, not, List, [], ◌∷◌,
  Option, none, some, ltb, ◌==◌, if◌then◌else◌,
}
use oban.Cron.Calendar.{
  Moment, rank, weekday, tick, next_hour, next_day_start, next_month_start, add_years,
}

-- `Schedule`: bit i of a mask is set if the value i is allowed.
pub record Schedule : Type 0 where
  pub expr : String
  pub minutes : ℕ
  pub hours : ℕ
  pub doms : ℕ
  pub months : ℕ
  pub dows : ℕ

-- `mask & (1 << i) != 0`.
unfoldable pub bit : ℕ → ℕ → Bool
bit mask i = (mask / 2 ^ i) % 2 == 1

abbrev pub before : Moment → Moment → Bool
before t u = ltb (rank t) (rank u)

abbrev pub month_matches : Schedule → Moment → Bool
month_matches s t = bit s.months t.month

-- `dayMatches`.
abbrev pub day_matches : Schedule → Moment → Bool
day_matches s t = bit s.doms t.day && bit s.dows (weekday t)

abbrev pub hour_matches : Schedule → Moment → Bool
hour_matches s t = bit s.hours t.hour

abbrev pub minute_matches : Schedule → Moment → Bool
minute_matches s t = bit s.minutes t.minute

-- `Matches`.
unfoldable pub matches : Schedule → Moment → Bool
matches s t =
    if not (month_matches s t)
    then false
    else if not (day_matches s t)
    then false
    else if not (hour_matches s t)
    then false
    else if not (minute_matches s t)
    then false
    else true

-- One turn of the loop of `Next`: where it goes on, or `none` where it returns t.
unfoldable pub advance : Schedule → Moment → Option Moment
advance s t =
    if not (month_matches s t)
    then some (next_month_start t)
    else if not (day_matches s t)
    then some (next_day_start t)
    else if not (hour_matches s t)
    then some (next_hour t)
    else if not (minute_matches s t)
    then some (tick t)
    else none

-- The loop, on fuel; the outer `none` means that the fuel ran out, the inner one is the zero time.
unfoldable pub next_loop : Schedule → Moment → ℕ → Moment → Option (Option Moment)
next_loop s limit zero t = none
next_loop s limit (suc fuel) t = elim (before t limit) [
  | false ↦ some none
  | true ↦ elim (advance s t) [ none ↦ some (some t) | some u ↦ next_loop s limit fuel u ]
]

abbrev pub max_cron_search_years : ℕ
max_cron_search_years = 5

-- `Next`, of a time truncated to the minute.
unfoldable pub next : Schedule → Moment → Option (Option Moment)
unfolding next_loop
next s t =
    let start = tick t in
    let limit = add_years max_cron_search_years start in
    next_loop s limit (suc (rank limit - rank start)) start

abbrev fires_next : Option (Option Moment) → Option Moment
fires_next none = none
fires_next (some o) = o

-- `Upcoming`: the loop stops at the zero time.
unfoldable pub upcoming : Schedule → ℕ → Moment → List Moment
unfolding next
upcoming s zero t = []
upcoming s (suc n) t = elim (fires_next (next s t)) [ none ↦ [] | some u ↦ u ∷ upcoming s n u ]
