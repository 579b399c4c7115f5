-- ===== src/Backoff/Linear.antt =====
-- The linear policy (backoff_extra.go).
use Prim.Native.Nat.{min}
use oban.Prelude.{ℕ, suc, ◌+◌, ◌*◌, ◌<◌, ◌≡◌, ℤ, pos, ◌≤ℤ◌, ◌<ℤ◌, ◌+ℤ◌, ◌-ℤ◌, ◌*ℤ◌, arith}
use oban.Backoff.{
  LinearBackoff, linear_next, linear_delay, clamp_delay, default_to, at_least_one, to_int64, two_63,
  second, hour,
}

-- An int64 keeps a number that fits.
pub to_int64_fits : (n : ℕ) → n < two_63 → to_int64 (pos n) ≡ pos n
unfolding to_int64
to_int64_fits n h = ground arith

default_to_pos : (d def : ℤ) → pos 0 <ℤ def → pos 0 <ℤ default_to d def
default_to_pos d def h = ground arith

clamp_delay_bounds : (d m : ℤ) → pos 0 <ℤ m → (pos 0 ≤ℤ clamp_delay d m) × (clamp_delay d m ≤ℤ m)
clamp_delay_bounds d m h = ground arith

-- For every attempt, wrapped or not, the delay lies between 0 and the cap.
pub linear_next_bounds :
    (b : LinearBackoff) (attempt : ℤ)
    → (pos 0 ≤ℤ linear_next b attempt) × (linear_next b attempt ≤ℤ default_to b.max_delay hour)
unfolding linear_next
linear_next_bounds b attempt =
    clamp_delay_bounds _ (default_to b.max_delay hour)
      (default_to_pos b.max_delay hour (omega arith))

pub pos-add : (m n : ℕ) → pos m +ℤ pos n ≡ pos (m + n)
unfolding ◌+ℤ◌
pos-add m n = ground arith

pub pos-mul : (m n : ℕ) → pos m *ℤ pos n ≡ pos (m * n)
unfolding ◌*ℤ◌
pos-mul m n = ground arith

pos-sub_one : (n : ℕ) → pos (suc n) -ℤ pos 1 ≡ pos n
unfolding ◌-ℤ◌
pos-sub_one n = ground arith

pub default_to_set : (n : ℕ) (def : ℤ) → 0 < n → default_to (pos n) def ≡ pos n
default_to_set n def h = ground arith

pub at_least_one-suc : (n : ℕ) → at_least_one (pos (suc n)) ≡ pos (suc n)
at_least_one-suc n = ground arith

linear_delay_exact :
    (base step n : ℕ)
    → base + step * n < two_63
    → linear_delay (pos base) (pos step) (pos (suc n)) ≡ pos (base + step * n)
linear_delay_exact base step n h =
    rw
      (
        pos-sub_one n,
        pos-mul step n,
        to_int64_fits (step * n) (omega arith),
        pos-add base (step * n),
      )
      (to_int64_fits (base + step * n) h)

pub clamp_delay-min : (d m : ℕ) → clamp_delay (pos d) (pos m) ≡ pos (min m d)
clamp_delay-min d m = ground arith

-- With positive fields, the delay before the retry of attempt n + 1 is base + step * n, cut at the
-- cap, as long as that sum fits an int64.
pub linear_next_exact :
    (base step cap n : ℕ)
    → 0 < base
    → 0 < step
    → 0 < cap
    → base + step * n < two_63
    → linear_next (record { base = pos base; step = pos step; max_delay = pos cap }) (pos (suc n))
      ≡ pos (min cap (base + step * n))
unfolding linear_next
linear_next_exact base step cap n hb hs hc h =
    rw
      (
        default_to_set base second hb,
        default_to_set step second hs,
        default_to_set cap hour hc,
        at_least_one-suc n,
        linear_delay_exact base step n h,
      )
      (clamp_delay-min (base + step * n) cap)
