-- ===== src/Cron/Masks.antt =====
-- Bit masks (cron.go): `|` and `1 << v` at one bit.
use Prim.Native.Nat.{max, bit_or, digits, bit_or-bitwise}
use native.Mathlib.Nat.{div-div-eq-div-mul, div-one}
use native.Mathlib.Numerals.{unary_clauses}
use oban.Prelude.{
  ℕ, zero, suc, ◌+◌, ◌*◌, ◌/◌, ◌%◌, ◌^◌, ◌≤◌, ◌≡◌, refl, ap, ◌∙◌, false, ◌||◌, ◌==◌, arith,
}
use oban.Cron.{bit}

abbrev or_of : ℕ → ℕ → ℕ → ℕ
or_of n a b = digits (λ c. c) max n a b

-- More fuel than the first number has no effect.
or_of_enough : (n m a b : ℕ) → a ≤ n → a ≤ m → or_of n a b ≡ or_of m a b
or_of_enough zero zero a b p q = refl
or_of_enough zero (suc m) zero b p q = refl
or_of_enough zero (suc m) (suc a) b p q = absurd (omega arith)
or_of_enough (suc n) zero zero b p q = refl
or_of_enough (suc n) zero (suc a) b p q = absurd (omega arith)
or_of_enough (suc n) (suc m) zero b p q = refl
or_of_enough (suc n) (suc m) (suc a) b p q =
    omega (arith, or_of_enough n m (suc a / 2) (b / 2) (omega arith) (omega arith))

bit_or_zero : (b : ℕ) → bit_or 0 b ≡ b
bit_or_zero b = bit_or-bitwise 0 b

bit_or_step : (a b : ℕ) → bit_or a b ≡ bit_or (a / 2) (b / 2) * 2 + max (a % 2) (b % 2)
bit_or_step zero b = omega (arith, bit_or_zero b, bit_or_zero (b / 2))
bit_or_step (suc a) b = omega (
  arith,
  bit_or-bitwise (suc a) b,
  bit_or-bitwise (suc a / 2) (b / 2),
  or_of_enough a (suc a / 2) (suc a / 2) (b / 2) (omega arith) (omega arith),
)

two_pow : (i : ℕ) → 2 ^ suc i ≡ 2 * 2 ^ i
two_pow i = simp unary_clauses (omega arith)

bit-zero : (a : ℕ) → bit a 0 ≡ (a % 2 == 1)
unfolding bit
bit-zero a = rw (div-one a) refl

bit-suc : (a i : ℕ) → bit a (suc i) ≡ bit (a / 2) i
unfolding bit
bit-suc a i = rw (two_pow i, div-div-eq-div-mul a 2 (2 ^ i)) refl

half_or : (a b : ℕ) → bit_or a b / 2 ≡ bit_or (a / 2) (b / 2)
half_or a b = omega (arith, bit_or_step a b)

odd_or : (a b : ℕ) → (bit_or a b % 2 == 1) ≡ ((a % 2 == 1) || (b % 2 == 1))
odd_or a b = ground (arith, bit_or_step a b)

pub bit-bit_or : (a b i : ℕ) → bit (bit_or a b) i ≡ (bit a i || bit b i)
bit-bit_or a b zero = rw (bit-zero (bit_or a b), bit-zero a, bit-zero b) (odd_or a b)
bit-bit_or a b (suc i) =
    rw (bit-suc (bit_or a b) i, bit-suc a i, bit-suc b i, half_or a b)
      (bit-bit_or (a / 2) (b / 2) i)

pub bit-none : (i : ℕ) → bit 0 i ≡ false
bit-none zero = rw (bit-zero 0) refl
bit-none (suc i) = rw (bit-suc 0 i) (bit-none i)

pub bit-pow : (v i : ℕ) → bit (2 ^ v) i ≡ (v == i)
bit-pow zero zero = rw (bit-zero 1) refl
bit-pow zero (suc i) = rw (bit-suc 1 i) (bit-none i ∙ ground arith)
bit-pow (suc v) zero = rw (bit-zero (2 ^ suc v), two_pow v) (ground arith)
bit-pow (suc v) (suc i) =
    rw (bit-suc (2 ^ suc v) i, two_pow v)
      (ap (λ (a : ℕ). bit a i) (omega arith) ∙ bit-pow v i ∙ ground arith)
