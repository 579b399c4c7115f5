-- ===== src/Backoff.antt =====
-- backoff_extra.go: the constant, linear and Fibonacci retry policies. A duration is an int64 of
-- nanoseconds; sums and products wrap.
pub mod Linear
pub mod Exponential
pub mod Fibonacci
use Prim.Native.Nat.{◌^◌}
use oban.Prelude.{
  ℕ, zero, suc, ◌+◌, ◌-◌, ◌/◌, ◌%◌, ℤ, pos, negsuc, pos_part, sub_ℕ, ltb_ℤ, leb_ℤ, ◌+ℤ◌, ◌-ℤ◌, ◌*ℤ◌,
  ltb, Bool, true, false, ◌||◌, if◌then◌else◌,
}

abbrev pub two_63 : ℕ
two_63 = 9223372036854775808

abbrev pub two_64 : ℕ
two_64 = 18446744073709551616

abbrev of_word : ℕ → ℤ
of_word u = if ltb u two_63 then pos u else sub_ℕ u two_64

-- The int64 with the same low 64 bits.
unfoldable pub to_int64 : ℤ → ℤ
to_int64 (pos n) = of_word (n % two_64)
to_int64 (negsuc n) = of_word (two_64 - 1 - n % two_64)

abbrev pub second : ℤ
second = pos 1000000000

abbrev pub hour : ℤ
hour = pos 3600000000000

-- `if d <= 0 { d = def }`.
abbrev pub default_to : ℤ → ℤ → ℤ
default_to d def = if leb_ℤ d (pos 0) then def else d

abbrev pub at_least_one : ℤ → ℤ
at_least_one attempt = if ltb_ℤ attempt (pos 1) then pos 1 else attempt

-- What the engine asks of a retry policy.
abbrev pub Backoff : Type 0
Backoff = ℤ → ℤ

-- `ConstantBackoff`, by its field `Delay`.
unfoldable pub constant_next : ℤ → Backoff
constant_next delay attempt = default_to delay second

pub record LinearBackoff : Type 0 where
  pub base : ℤ
  pub step : ℤ
  pub max_delay : ℤ

-- `if d > max || d < 0 { d = max }`.
abbrev pub clamp_delay : ℤ → ℤ → ℤ
clamp_delay d max_delay = if ltb_ℤ max_delay d || ltb_ℤ d (pos 0) then max_delay else d

abbrev pub linear_delay : ℤ → ℤ → ℤ → ℤ
linear_delay base step attempt = to_int64 (base +ℤ to_int64 (step *ℤ (attempt -ℤ pos 1)))

unfoldable pub linear_next : LinearBackoff → Backoff
linear_next b attempt =
    clamp_delay
      (linear_delay (default_to b.base second) (default_to b.step second) (at_least_one attempt))
      (default_to b.max_delay hour)

abbrev pub fib_cap : ℤ
fib_cap = pos 4611686018427387904

-- The loop of `backoffFib`, by the rounds that are left.
unfoldable pub fib_loop : ℕ → ℤ → ℤ → ℤ
fib_loop zero a b = b
fib_loop (suc rounds) a b =
    let rest = fib_loop rounds b (to_int64 (a +ℤ b)) in
    if leb_ℤ fib_cap (to_int64 (a +ℤ b)) then fib_cap else rest

unfoldable pub backoff_fib : ℤ → ℤ
unfolding fib_loop
backoff_fib n = if leb_ℤ n (pos 2) then pos 1 else fib_loop (pos_part n - 2) (pos 1) (pos 1)

pub record FibonacciBackoff : Type 0 where
  pub unit_delay : ℤ
  pub max_delay : ℤ

-- Division of two positive int64.
abbrev pub div_pos : ℤ → ℤ → ℤ
div_pos a b = pos (pos_part a / pos_part b)

abbrev pub fibonacci_delay : ℤ → ℤ → ℤ → ℤ
fibonacci_delay unit_delay max_delay fib =
    if ltb_ℤ (div_pos max_delay unit_delay) fib
    then max_delay
    else clamp_delay (to_int64 (unit_delay *ℤ fib)) max_delay

unfoldable pub fibonacci_next : FibonacciBackoff → Backoff
fibonacci_next b attempt =
    fibonacci_delay (default_to b.unit_delay second) (default_to b.max_delay hour)
      (backoff_fib (at_least_one attempt))
