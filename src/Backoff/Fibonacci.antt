-- ===== src/Backoff/Fibonacci.antt =====
-- The loop of `backoffFib` and the Fibonacci policy (backoff_extra.go).
use Prim.Native.Nat.{min}
use oban.Prelude.{
  ℕ, zero, suc, ◌+◌, ◌-◌, ◌*◌, ◌/◌, ◌≤◌, ◌<◌, ◌≡◌, refl, sym, subst, ◌∙◌, ap, ℤ, pos, leb_ℤ, ltb_ℤ,
  true, false, ◌+ℤ◌, arith,
}
use native.Mathlib.Decide.{dec_le, dec_lt}
use native.Mathlib.Nat.{zero-add, suc-add, add-suc}
use oban.Backoff.{
  fibonacci_next, fibonacci_delay, backoff_fib, fib_loop, fib_cap, to_int64, two_63, second, hour,
}
use oban.Backoff.Linear.{
  to_int64_fits, pos-add, pos-mul, default_to_set, at_least_one-suc, clamp_delay-min,
}

-- The Fibonacci numbers, with fib 1 and fib 2 equal to 1.
unfoldable pub fib : ℕ → ℕ
fib zero = 0
fib (suc zero) = 1
fib (suc (suc n)) = fib (suc n) + fib n

abbrev pub cap : ℕ
cap = 4611686018427387904

fib-le-suc : (n : ℕ) → fib n ≤ fib (suc n)
unfolding fib
fib-le-suc zero = omega arith
fib-le-suc (suc n) = omega arith

fib_mono : (r n : ℕ) → fib n ≤ fib (r + n)
fib_mono zero n = rw zero-add (omega arith)
fib_mono (suc r) n = rw suc-add (omega (arith, fib_mono r n, fib-le-suc (r + n)))

fib_step : (n : ℕ) → fib n + fib (suc n) ≡ fib (suc (suc n))
unfolding fib
fib_step n = omega arith

sum_fits :
    (k : ℕ)
    → fib (suc k) < cap
    → to_int64 (pos (fib k) +ℤ pos (fib (suc k))) ≡ pos (fib (suc (suc k)))
sum_fits k h =
    rw (pos-add (fib k) (fib (suc k)), fib_step k)
      (to_int64_fits (fib (suc (suc k))) (omega (arith, fib_step k, fib-le-suc k)))

reached : (m : ℕ) → cap ≤ m → leb_ℤ fib_cap (pos m) ≡ true
reached m h = ground arith

below : (m : ℕ) → m < cap → leb_ℤ fib_cap (pos m) ≡ false
below m h = ground arith

min_right : (m n : ℕ) → n ≤ m → min m n ≡ n
min_right m n h = omega arith

fib_loop_lem :
    (r k : ℕ)
    → fib (suc k) < cap
    → fib_loop r (pos (fib k)) (pos (fib (suc k))) ≡ pos (min (fib (r + suc k)) cap)
unfolding fib_loop
fib_loop_lem zero k h = rw zero-add (ap pos (omega arith))
fib_loop_lem (suc r) k h = rw (sum_fits k h) (elim (dec_le cap (fib (suc (suc k)))) [
  | yes big ↦ rw (reached (fib (suc (suc k))) big) (
      ap pos (
        sym (
          min_right (fib (suc r + suc k)) cap
            (rw (suc-add, ← add-suc) (omega (arith, fib_mono r (suc (suc k))))))))
  | no small ↦
      rw (below (fib (suc (suc k))) (omega arith))
        (fib_loop_lem r (suc k) (omega arith) ∙ ap (λ (m : ℕ). pos (min (fib m) cap)) (omega arith))
])

fib_one : fib 1 ≡ 1
unfolding fib
fib_one = refl

fib_two : fib 2 ≡ 1
unfolding fib
fib_two = refl

many : (n : ℕ) → leb_ℤ (pos (suc (suc (suc n)))) (pos 2) ≡ false
many n = ground arith

rounds : (n : ℕ) → suc (suc (suc n)) - 2 ≡ suc n
rounds n = omega arith

loop_start : (n : ℕ) → fib_loop (suc n) (pos 1) (pos 1) ≡ pos (min (fib (suc n + 2)) cap)
loop_start n =
    subst (λ (x : ℤ). fib_loop (suc n) x (pos 1) ≡ pos (min (fib (suc n + 2)) cap)) (ap pos fib_one)
      (subst (λ (x : ℤ). fib_loop (suc n) (pos (fib 1)) x ≡ pos (min (fib (suc n + 2)) cap))
        (ap pos fib_two) (fib_loop_lem (suc n) 1 (rw fib_two (omega arith))))

-- `backoffFib` is the Fibonacci number of every attempt from 1 on, cut at 2 ^ 62.
pub backoff_fib_lem : (n : ℕ) → backoff_fib (pos (suc n)) ≡ pos (min (fib (suc n)) cap)
unfolding backoff_fib
backoff_fib_lem zero = ap (λ (m : ℕ). pos (min m cap)) (sym fib_one)
backoff_fib_lem (suc zero) = ap (λ (m : ℕ). pos (min m cap)) (sym fib_two)
backoff_fib_lem (suc (suc n)) =
    rw (many n, rounds n, loop_start n) (ap (λ (m : ℕ). pos (min (fib m) cap)) (omega arith))

quotient_lt : (u m f : ℕ) → 0 < u → m / u < f → m ≤ u * f
quotient_lt u m f hu h = grind arith

quotient_le : (u m f : ℕ) → 0 < u → f ≤ m / u → u * f ≤ m
quotient_le u m f hu h = grind arith

over : (q f : ℕ) → q < f → ltb_ℤ (pos q) (pos f) ≡ true
over q f h = ground arith

not_over : (q f : ℕ) → f ≤ q → ltb_ℤ (pos q) (pos f) ≡ false
not_over q f h = ground arith

fibonacci_delay_lem :
    (u m f : ℕ) → 0 < u → m < two_63 → fibonacci_delay (pos u) (pos m) (pos f) ≡ pos (min m (u * f))
fibonacci_delay_lem u m f hu hm = elim (dec_lt (m / u) f) [
  | yes h ↦ rw (over (m / u) f h) (ap pos (omega (arith, quotient_lt u m f hu h)))
  | no h ↦
      let small = quotient_le u m f hu (omega arith) in
      rw
        (
          not_over (m / u) f (omega arith),
          pos-mul u f,
          to_int64_fits (u * f) (omega (arith, small)),
        )
        (clamp_delay-min (u * f) m)
]

capped : (u m f : ℕ) → 0 < u → m / u < cap → min m (u * min f cap) ≡ min m (u * f)
capped u m f hu h = elim (dec_le f cap) [
  | yes le ↦ ap (λ (k : ℕ). min m (u * k)) (omega arith)
  | no gt ↦
      rw (min_right f cap (omega arith))
        (omega (arith, quotient_lt u m cap hu h, quotient_lt u m f hu (omega arith)))
]

-- With positive fields, and a cap below 2 ^ 62 units, the delay before the retry of attempt n + 1 is
-- `unit * fib (n + 1)`, cut at the cap; no step of the computation overflows.
pub fibonacci_next_lem :
    (u m n : ℕ)
    → 0 < u
    → 0 < m
    → m < two_63
    → m / u < cap
    → fibonacci_next (record { unit_delay = pos u; max_delay = pos m }) (pos (suc n))
      ≡ pos (min m (u * fib (suc n)))
unfolding fibonacci_next
fibonacci_next_lem u m n hu hm fits h =
    rw
      (
        default_to_set u second hu,
        default_to_set m hour hm,
        at_least_one-suc n,
        backoff_fib_lem n,
        fibonacci_delay_lem u m (min (fib (suc n)) cap) hu fits,
      )
      (ap pos (capped u m (fib (suc n)) hu h))
