-- ===== src/Cron/Search.antt =====
-- The loop of `Next` (cron.go) as a whole.
use oban.Prelude.{
  ℕ, zero, suc, ◌+◌, ◌-◌, ◌≤◌, ◌<◌, ◌≡◌, refl, true, false, Option, none, some, inl, inr,
  Bool-cases, arith,
}
use oban.Cron.Calendar.{Moment, IsMoment, rank, tick, add_years, tick-Goes}
use oban.Cron.{Schedule, matches, advance, before, next_loop, next, max_cron_search_years}
use oban.Cron.Skipping.{Skips, arrived, Skips-trans, Turned, stays, jumps, advance-Turned}

-- What a search from `start` answers: the first match, which lies before the limit, or nothing, and
-- then no minute before the limit matches.
pub data Found (s : Schedule) (start limit : Moment) : Option Moment → Type 0 where
  first_match :
      {r : Moment}
      → Skips s start r
      → matches s r ≡ true
      → rank r < rank limit
      → Found s start limit (some r)
  no_match : (u : Moment) → Skips s start u → rank limit ≤ rank u → Found s start limit none

Found-after :
    (s : Schedule) (limit : Moment) {t u : Moment} {o : Option Moment}
    → Skips s t u
    → Found s u limit o
    → Found s t limit o
Found-after s limit k (first_match h m l) = first_match (Skips-trans s k h) m l
Found-after s limit k (no_match w h l) = no_match w (Skips-trans s k h) l

module _ (s : Schedule) (limit : Moment) where
  before_lt : (t : Moment) → before t limit ≡ true → rank t < rank limit
  before_lt t e = ground (arith, e)

  before_ge : (t : Moment) → before t limit ≡ false → rank limit ≤ rank t
  before_ge t e = ground (arith, e)

  -- The distance to the limit is fuel enough.
  next_loop_lem :
      (fuel : ℕ) (t : Moment)
      → IsMoment t
      → rank limit ≤ rank t + fuel
      → (o : Option Moment) × (next_loop s limit (suc fuel) t ≡ some o) × Found s t limit o
  unfolding next_loop
  next_loop_lem zero t v h = elim (Bool-cases (before t limit)) [
    | inr e ↦ (none, rw (e, next_loop) refl, no_match t arrived (before_ge t e))
    | inl e ↦ absurd (omega (arith, before_lt t e, h))
  ]
  next_loop_lem (suc fuel) t v h = elim (Bool-cases (before t limit)) [
    | inr e ↦ (none, rw (e, next_loop) refl, no_match t arrived (before_ge t e))
    | inl e ↦ turn (λ u w k. next_loop_lem fuel u w k) (advance s t) refl (advance-Turned s t v) e
  ]
    where
      turn :
          ((u : Moment)
            → IsMoment u
            → rank limit ≤ rank u + fuel
            → (o : Option Moment) × (next_loop s limit (suc fuel) u ≡ some o) × Found s u limit o)
          → (a : Option Moment) → advance s t ≡ a
          → Turned s t a
          → before t limit ≡ true
          → (o : Option Moment) × (next_loop s limit (suc (suc fuel)) t ≡ some o)
            × Found s t limit o
      turn go none q (stays m) e =
          (some t, rw (e, q, next_loop) refl, first_match arrived m (before_lt t e))
      turn go (some u) q (jumps g k) e =
          let rest = go u g.valid (omega (arith, g.later, h)) in
          (rest.0, rw (e, q, next_loop) rest.1, Found-after s limit k rest.2)

-- From any moment of the calendar `Next` ends with the first minute after it that matches, if that lies
-- within five years of the next minute, and with the zero time if no minute of that span matches. So
-- its jumps over months, days and hours leave no match out.
pub next_lem :
    (s : Schedule) (t : Moment)
    → IsMoment t
    → (o : Option Moment) × (next s t ≡ some o)
      × Found s (tick t) (add_years max_cron_search_years (tick t)) o
unfolding next
next_lem s t v =
    let limit = add_years max_cron_search_years (tick t) in
    next_loop_lem s limit (rank limit - rank (tick t)) (tick t) (tick-Goes t v).valid (omega arith)
