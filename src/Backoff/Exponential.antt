-- ===== src/Backoff/Exponential.antt =====
-- backoff.go: the exponential policy, with its floating point as a parameter. The source of random
-- numbers, its lazy seed included, is a part of the world W.
use oban.Prelude.{
  ℕ, suc, ◌*◌, ◌^◌, ◌≤◌, ◌<◌, ◌≡◌, ap, ℤ, pos, ◌-ℤ◌, ltb, false, ◌||◌, if◌then◌else◌, Bool-cases,
  inl, inr, arith,
}
use oban.Float.{Float64, ScalesExactly, two_53}
use oban.Backoff.{default_to, at_least_one, second}

pub record ExponentialBackoff (F : Type 0) : Type 0 where
  pub base : ℤ
  pub max_delay : ℤ
  pub jitter : F

abbrev pub five_minutes : ℤ
five_minutes = pos 300000000000

module _ {F W : Type 0} (float : Float64 F) (draw : W → F × W) where
  abbrev one : F
  one = float.of_int (pos 1)

  abbrev none_left : F
  none_left = float.of_int (pos 0)

  -- `base * 2^(attempt-1)`, cut at the cap.
  abbrev pub exponential_delay : ℤ → ℤ → ℤ → F
  exponential_delay base cap attempt =
      let d =
        float.mul (float.of_int base)
          (float.pow (float.of_int (pos 2)) (float.of_int (attempt -ℤ pos 1))) in
      if float.exceeds d (float.of_int cap) || float.is_inf d then float.of_int cap else d

  abbrev pub jittered : F → F → W → F × W
  jittered d jitter w =
      if float.exceeds jitter none_left
      then (let r = draw w in
          (
            float.sub d
                (float.mul (float.mul d (if float.exceeds jitter one then one else jitter)) r.0),
            r.1,
          ))
      else (d, w)

  -- `Next`.
  unfoldable pub exponential_next : ExponentialBackoff F → ℤ → W → ℤ × W
  exponential_next b attempt w =
      let out =
        jittered
          (exponential_delay (default_to b.base second) (default_to b.max_delay five_minutes)
            (at_least_one attempt))
          b.jitter w in
      (float.to_int out.0, out.1)

pred_pos : (k : ℕ) → pos (suc k) -ℤ pos 1 ≡ pos k
unfolding ◌-ℤ◌
pred_pos k = ground arith

set_delay : (d : ℕ) (def : ℤ) → 0 < d → default_to (pos d) def ≡ pos d
set_delay d def h = ground (arith, h)

first_on : (k : ℕ) → at_least_one (pos (suc k)) ≡ pos (suc k)
first_on k = ground arith

module _ {F W : Type 0} (float : Float64 F) (draw : W → F × W) (laws : ScalesExactly float) where
  to_int-delay :
      (base cap k : ℕ)
      → base ≤ two_53
      → cap ≤ two_53
      → k < 900
      → float.to_int (exponential_delay float draw (pos base) (pos cap) (pos (suc k)))
        ≡ (if ltb cap (base * 2 ^ k) then pos cap else pos (base * 2 ^ k))
  to_int-delay base cap k b c h =
      rw
        (
          pred_pos k,
          laws.pow_exact k h,
          laws.mul_exact base k b h,
          laws.exceeds_exact base k cap b h c,
          laws.is_finite base k b h,
        )
        (elim (Bool-cases (ltb cap (base * 2 ^ k))) [
          | inl e ↦ rw e (laws.to_int_exact cap c)
          | inr e ↦ rw e (laws.to_int_exact (base * 2 ^ k) (ground (arith, e, c)))
        ])

  -- If powers of two are exact: without jitter, with a base and a cap of at most 2 ^ 53 ns, and for k
  -- below 900, the delay after attempt k + 1 is the base times 2 ^ k, cut at the cap, and no random
  -- number is drawn.
  pub exponential_next_lem :
      (base cap k : ℕ) (jitter : F) (w : W)
      → 0 < base
      → base ≤ two_53
      → 0 < cap
      → cap ≤ two_53
      → k < 900
      → float.exceeds jitter (float.of_int (pos 0)) ≡ false
      → exponential_next float draw
          (record { base = pos base; max_delay = pos cap; jitter = jitter })
          (pos (suc k))
          w
        ≡ ((if ltb cap (base * 2 ^ k) then pos cap else pos (base * 2 ^ k)), w)
  unfolding exponential_next
  exponential_next_lem base cap k jitter w a b c d h j =
      rw (set_delay base second a, set_delay cap five_minutes c, first_on k, j)
        (ap (λ z. (z, w)) (to_int-delay base cap k b d h))
