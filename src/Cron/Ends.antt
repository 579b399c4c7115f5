-- ===== src/Cron/Ends.antt =====
-- The loop over the values of a range (`parsePart`, cron.go) with any step of an int64.
use oban.Prelude.{
  ℕ, zero, suc, ◌+◌, ◌-◌, ◌*◌, ◌%◌, ◌≤◌, ◌<◌, ◌≡◌, refl, true, false, Option, some, ltb, Bool-cases,
  inl, inr, arith,
}
use oban.Cron.Fill.{fill_lem, no_wrap}
use oban.Cron.Parser.{fill, fill_fuel, set_bit, int_le, two_64}
use oban.Cron.Text.{two_63}

int_le_negative : (v hi : ℕ) → two_63 ≤ v → int_le v hi ≡ true
int_le_negative v hi h = ground arith

int_le_beyond : (v hi : ℕ) → hi < v → v < two_63 → int_le v hi ≡ false
int_le_beyond v hi h p = ground arith

abbrev Ends : Option ℕ → Type 0
Ends o = (out : ℕ) × (o ≡ some out)

stops : (fuel v hi step mask : ℕ) → 0 < fuel → hi < v → v < two_63 → Ends (fill fuel v hi step mask)
unfolding fill
stops zero v hi step mask f h p = absurd (omega arith)
stops (suc fuel) v hi step mask f h p = (mask, rw (int_le_beyond v hi h p) refl)

goes_on :
    (fuel v w hi step mask : ℕ)
    → int_le v hi ≡ true
    → (v + step) % two_64 ≡ w
    → Ends (fill fuel w hi step (set_bit v mask))
    → Ends (fill (suc fuel) v hi step mask)
unfolding fill
goes_on fuel v w hi step mask e k r = (r.0, rw (e, k) r.1)

wraps : (v step w : ℕ) → v + step ≡ w + two_64 → w < two_64 → (v + step) % two_64 ≡ w
wraps v step w e h = omega arith

module _ (hi step : ℕ) (h : hi < 64) (large : 9223372036854775744 < step) (r : step < two_63) where
  -- Two steps below 2 ^ 64 are a negative value, from which the third leads beyond the range.
  beyond :
      (fuel v mask : ℕ)
      → v < 64
      → two_63 ≤ v + step
      → 2 ≤ fuel
      → v + step + step < two_64
      → Ends (fill fuel (v + step + step) hi step mask)
  beyond zero v mask q k f g = absurd (omega (arith, f))
  beyond (suc fuel) v mask q k f g =
      goes_on fuel (v + step + step) (v + step + step + step - two_64) hi step mask
        (int_le_negative (v + step + step) hi (omega (arith, k)))
        (wraps (v + step + step) step (v + step + step + step - two_64) (omega (arith, k, large))
          (omega (arith, q, r)))
        (stops fuel (v + step + step + step - two_64) hi step (set_bit (v + step + step) mask)
          (omega (arith, f)) (omega (arith, h, large)) (omega (arith, g, r)))

  -- A round at v ends the loop, or leads back to a value below v in one more round.
  round-Ends :
      (fuel v mask : ℕ)
      → v < 64
      → 2 ≤ fuel
      → ((u m : ℕ) → u < v → Ends (fill fuel u hi step m))
      → Ends (fill (suc (suc fuel)) v hi step mask)
  unfolding fill
  round-Ends fuel v mask q f again = elim (Bool-cases (int_le v hi)) [
    | inr e ↦ (mask, rw e refl)
    | inl e ↦
        goes_on (suc fuel) v (v + step) hi step mask e (no_wrap v step (omega (arith, q, r)))
          (elim (Bool-cases (ltb (v + step) two_63)) [
            | inl g ↦
                stops (suc fuel) (v + step) hi step (set_bit v mask) (omega arith)
                  (omega (arith, h, large)) (ground (arith, g))
            | inr g ↦ negative (set_bit v mask) (ground (arith, g))
          ])
  ]
    where
      negative : (m : ℕ) → two_63 ≤ v + step → Ends (fill (suc fuel) (v + step) hi step m)
      negative m k = elim (Bool-cases (ltb (v + step + step) two_64)) [
        | inl g ↦
            goes_on fuel (v + step) (v + step + step) hi step m (int_le_negative (v + step) hi k)
              (no_wrap (v + step) step (ground (arith, g)))
              (beyond fuel v (set_bit (v + step) m) q k f (ground (arith, g)))
        | inr g ↦
            goes_on fuel (v + step) (v + step + step - two_64) hi step m
              (int_le_negative (v + step) hi k)
              (wraps (v + step) step (v + step + step - two_64) (ground (arith, g))
                (ground (arith, q, r)))
              (again (v + step + step - two_64) (set_bit (v + step) m) (ground (arith, r, q, g)))
      ]

  wrapping-Ends :
      (n fuel v mask : ℕ) → v < 64 → v ≤ n → n * 2 + 4 ≤ fuel → Ends (fill fuel v hi step mask)
  wrapping-Ends n zero v mask q l f = absurd (omega (arith, f))
  wrapping-Ends n (suc zero) v mask q l f = absurd (omega (arith, f))
  wrapping-Ends zero (suc (suc fuel)) v mask q l f =
      round-Ends fuel v mask q (omega (arith, f)) (λ u m p. absurd (omega (arith, l, p)))
  wrapping-Ends (suc n) (suc (suc fuel)) v mask q l f =
      round-Ends fuel v mask q (omega (arith, f)) (λ u m p.
        wrapping-Ends n fuel u m (omega (arith, p, q)) (omega (arith, l, p)) (omega (arith, f)))

-- The loop ends within its fuel for every positive step of an int64.
pub fill-Ends :
    (v hi step : ℕ)
    → v ≤ hi
    → hi < 64
    → 0 < step
    → step < two_63
    → Ends (fill fill_fuel v hi step 0)
fill-Ends v hi step l h p r = elim (Bool-cases (ltb 9223372036854775744 step)) [
  | inl g ↦
      wrapping-Ends hi step h (ground (arith, g)) r 63 fill_fuel v 0 (omega (arith, l, h))
        (omega (arith, l, h)) (omega arith)
  | inr g ↦
      let a =
        fill_lem fill_fuel v hi step 0 h p (ground (arith, g)) (omega (arith, l, h)) (omega arith)
          (omega (arith, h)) in
      (a.0, a.1)
]
