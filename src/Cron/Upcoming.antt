-- ===== src/Cron/Upcoming.antt =====
-- `Upcoming` (cron_extra.go): the next firings of a schedule.
use oban.Prelude.{ℕ, zero, suc, List, [], ◌∷◌, Option, none, some}
use oban.Cron.{Schedule, upcoming, max_cron_search_years}
use oban.Cron.Calendar.{Moment, IsMoment, tick, add_years, tick-Goes}
use oban.Cron.Skipping.{Skips, arrived, skipped}
use oban.Cron.Search.{Found, first_match, next_lem}

Skips-IsMoment : (s : Schedule) {t u : Moment} → Skips s t u → IsMoment t → IsMoment u
Skips-IsMoment s arrived v = v
Skips-IsMoment s (skipped {t = t} n k) v = Skips-IsMoment s k (tick-Goes t v).valid

Found-IsMoment :
    (s : Schedule) (start limit u : Moment)
    → Found s start limit (some u)
    → IsMoment start
    → IsMoment u
Found-IsMoment s start limit u (first_match k m l) v = Skips-IsMoment s k v

abbrev horizon : Moment → Moment
horizon t = add_years max_cron_search_years (tick t)

-- The firings after t, one after the other: each is the first after the one before it. The list ends
-- after n of them, or where the search for a next one finds none.
pub data Firings (s : Schedule) : ℕ → Moment → List Moment → Type 0 where
  all_found : {t : Moment} → Firings s zero t []
  none_left : {n : ℕ} {t : Moment} → Found s (tick t) (horizon t) none → Firings s (suc n) t []
  fires :
      {n : ℕ} {t u : Moment} {us : List Moment}
      → Found s (tick t) (horizon t) (some u)
      → Firings s n u us
      → Firings s (suc n) t (u ∷ us)

-- Upcoming lists the next n firings after t and leaves none out; it is shorter only where no minute
-- within five years of the last one matches.
pub upcoming-Firings :
    (s : Schedule) (n : ℕ) (t : Moment) → IsMoment t → Firings s n t (upcoming s n t)
unfolding upcoming
upcoming-Firings s zero t v = all_found
upcoming-Firings s (suc n) t v =
    let r = next_lem s t v in rw (r.1, upcoming) (go r.0 r.2 (λ u w. upcoming-Firings s n u w))
  where
    go :
        (o : Option Moment)
        → Found s (tick t) (horizon t) o
        → ((u : Moment) → IsMoment u → Firings s n u (upcoming s n u))
        → Firings s (suc n) t (elim o [ none ↦ [] | some u ↦ u ∷ upcoming s n u ])
    go none f again = none_left f
    go (some u) f again =
        fires f (again u (Found-IsMoment s (tick t) (horizon t) u f (tick-Goes t v).valid))
