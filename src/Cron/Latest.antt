-- ===== src/Cron/Latest.antt =====
-- The loop of `Prev` (cron_extra.go) as a whole.
use oban.Prelude.{
  ℕ, zero, suc, ◌+◌, ◌-◌, ◌≤◌, ◌<◌, ◌≡◌, ◌≢◌, ◌*◌, refl, subst, sym, true, false, Option, none,
  some, inl, inr, Bool-cases, if_both, ltb, arith,
}
use oban.Cron.{Schedule, matches, before}
use oban.Cron.Calendar.{Moment, IsMoment, days_in, days_in_bounds, rank, tick, tick-Goes}
use oban.Cron.Skipping.{Skips, arrived, skipped, Skips-trans}
use oban.Cron.Back.{
  retreat, minute_before, last_hour_end, last_day_end, last_month_end, sub_years, prev_loop, prev,
  Time, cron_prev_search_years,
}
use oban.Cron.Steps.{minute_before-Steps}
use oban.Cron.Recent.{Retreated, rests, falls, retreat-Retreated}

-- What a search back from `end` answers: the last match before it, if that lies after the limit, or
-- nothing, and then no minute after the limit and before `end` matches.
pub data Latest (s : Schedule) (end limit : Moment) : Option Moment → Type 0 where
  last_match :
      {r : Moment}
      → Skips s (tick r) end
      → matches s r ≡ true
      → rank limit < rank r
      → Latest s end limit (some r)
  no_match : (u : Moment) → Skips s (tick u) end → rank u ≤ rank limit → Latest s end limit none

-- A moment of the calendar with a year from 1 on.
abbrev IsLate : Moment → Type 0
IsLate t = (1 ≤ t.year) × (1 ≤ t.month) × (1 ≤ t.day)

module _ (s : Schedule) (end limit : Moment) (late : IsLate limit) where
  after_lt : (t : Moment) → before limit t ≡ true → rank limit < rank t
  after_lt t e = ground (arith, e)

  after_ge : (t : Moment) → before limit t ≡ false → rank t ≤ rank limit
  after_ge t e = ground (arith, e)

  after_year : (t : Moment) → IsMoment t → rank limit < rank t → 1 ≤ t.year
  after_year t v h =
      omega
        (arith, h, v.in_year, v.in_month, v.in_day, v.in_hour, days_in_bounds t.year t.month, late)

  -- The distance to the limit is fuel enough.
  prev_loop_lem :
      (fuel : ℕ) (t : Moment)
      → IsMoment t
      → Skips s (tick t) end
      → rank t ≤ rank limit + fuel
      → (o : Option Moment) × (prev_loop s limit (suc fuel) t ≡ some o) × Latest s end limit o
  unfolding prev_loop
  prev_loop_lem zero t v k h = elim (Bool-cases (before limit t)) [
    | inr e ↦ (none, rw (e, prev_loop) refl, no_match t k (after_ge t e))
    | inl e ↦ absurd (omega (arith, after_lt t e, h))
  ]
  prev_loop_lem (suc fuel) t v k h = elim (Bool-cases (before limit t)) [
    | inr e ↦ (none, rw (e, prev_loop) refl, no_match t k (after_ge t e))
    | inl e ↦
        turn (λ u w m l. prev_loop_lem fuel u w m l) (retreat s t) refl
          (retreat-Retreated s t v (after_year t v (after_lt t e))) e
  ]
    where
      turn :
          ((u : Moment)
            → IsMoment u
            → Skips s (tick u) end
            → rank u ≤ rank limit + fuel
            → (o : Option Moment) × (prev_loop s limit (suc fuel) u ≡ some o)
              × Latest s end limit o)
          → (a : Option Moment) → retreat s t ≡ a
          → Retreated s t a
          → before limit t ≡ true
          → (o : Option Moment) × (prev_loop s limit (suc (suc fuel)) t ≡ some o)
            × Latest s end limit o
      turn go none q (rests m) e =
          (some t, rw (e, q, prev_loop) refl, last_match k m (after_lt t e))
      turn go (some u) q (falls w l m) e =
          let rest = go u w (Skips-trans s m k) (omega (arith, l, h)) in
          (rest.0, rw (e, q, prev_loop) rest.1, rest.2)

minute_before-year : (t : Moment) → t.year ≤ suc (minute_before t).year
unfolding minute_before last_hour_end last_day_end last_month_end
minute_before-year t =
    let p : Moment → Type 0 = λ u. t.year ≤ suc u.year in
    if_both p (ltb 0 t.minute) (λ _. omega arith)
      (λ _.
        if_both p (ltb 0 t.hour) (λ _. omega arith)
          (λ _.
            if_both p (ltb 1 t.day) (λ _. omega arith)
              (λ _. if_both p (ltb 1 t.month) (λ _. omega arith) (λ _. omega arith))))

sub_years-IsLate : (t : Moment) → IsMoment t → 6 ≤ t.year → IsLate (sub_years 5 t)
unfolding sub_years
sub_years-IsLate t v y =
    if_both IsLate (ltb (days_in (t.year - 5) t.month) t.day)
      (λ e. (omega (arith, y), omega arith, omega arith))
      (λ e. (omega (arith, y), v.in_year.0, v.in_month.0))

-- For any time t in the year 7 or later, Prev ends: with the last matching minute before the minute in
-- which t lies, if that is within five years of the minute before, and with the zero time if no minute
-- of that span matches. So its jumps back over months, days and hours leave no match out.
pub prev_lem :
    (s : Schedule) (t : Time)
    → IsMoment t.moment
    → 7 ≤ t.moment.year
    → (o : Option Moment) × (prev s t ≡ some o)
      × Latest s t.moment (sub_years cron_prev_search_years (minute_before t.moment)) o
unfolding prev
prev_lem s t v y =
    let now = t.moment in
    let start = minute_before now in
    let limit = sub_years cron_prev_search_years start in
    let st = minute_before-Steps now v (omega (arith, y)) in
    prev_loop_lem s now limit
      (sub_years-IsLate start st.valid (omega (arith, y, minute_before-year now)))
      (rank start - rank limit) start st.valid (subst (λ x. Skips s x now) (sym st.ticks) arrived)
      (omega arith)

Skips-le : (s : Schedule) {t u : Moment} → Skips s t u → IsMoment t → rank t ≤ rank u
Skips-le s arrived v = omega arith
Skips-le s (skipped {t = t} n k) v =
    let g = tick-Goes t v in omega (arith, g.later, Skips-le s k g.valid)

-- Orders times.
abbrev pub instant : Time → ℕ
instant t = rank t.moment * 60000000000 + t.nanos

abbrev pub start_of : Time → Time
start_of t = record t { nanos = 0 }

-- For a time t that is not the start of its minute, Prev does not answer the start of that minute,
-- although it lies before t and the schedule matches it.
pub prev_misses_own_minute :
    (s : Schedule) (t : Time)
    → IsMoment t.moment
    → 7 ≤ t.moment.year
    → 0 < t.nanos
    → matches s t.moment ≡ true
    → (instant (start_of t) < instant t) × (prev s t ≢ some (some t.moment))
prev_misses_own_minute s t v y n m =
    (omega (arith, n), λ e. let r = prev_lem s t v y in missed r.0 r.2 (cc (r.1, e)))
  where
    not_there : Skips s (tick t.moment) t.moment → ⊥
    not_there k = let g = tick-Goes t.moment v in omega (arith, g.later, Skips-le s k g.valid)

    missed :
        (o : Option Moment)
        → Latest s t.moment (sub_years cron_prev_search_years (minute_before t.moment)) o
        → o ≡ some t.moment
        → ⊥
    missed none l e = absurd (cc (e))
    missed (some r) (last_match k q h) e =
        not_there (subst (λ x. Skips s (tick x) t.moment) (cc (e)) k)
