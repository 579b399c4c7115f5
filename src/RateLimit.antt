-- ===== src/RateLimit.antt =====
-- ratelimit.go: the token bucket. What the clock says is an argument of each call.
pub mod Burst
pub mod Capacity
use oban.Prelude.{
  ℕ, ℤ, pos, ◌-ℤ◌, leb_ℤ, Bool, true, false, List, [], ◌∷◌, Option, none, some, ◌||◌, if◌then◌else◌,
}
use oban.Float.{Float64}

pub record RateLimiter (F : Type 0) : Type 0 where
  pub rate : F
  pub interval : ℤ
  pub tokens : F
  pub last : ℤ

module _ {F : Type 0} (float : Float64 F) where
  -- `NewRateLimiter`; `none` is a panic.
  unfoldable pub new_rate_limiter : ℤ → ℤ → ℤ → Option (RateLimiter F)
  new_rate_limiter rate interval now =
      if leb_ℤ rate (pos 0)
      then none
      else if leb_ℤ interval (pos 0)
      then none
      else some (record {
        rate = float.of_int rate;
        interval = interval;
        tokens = float.of_int rate;
        last = now;
      })

  -- `if r.tokens > r.rate { r.tokens = r.rate }`.
  abbrev pub capped : RateLimiter F → RateLimiter F
  capped r = if float.exceeds r.tokens r.rate then record r { tokens = r.rate } else r

  unfoldable pub refill : ℤ → RateLimiter F → RateLimiter F
  refill now r =
      let elapsed = now -ℤ r.last in
      if leb_ℤ elapsed (pos 0)
      then r
      else capped (record r {
        last = now;
        tokens =
            float.add r.tokens
              (float.mul r.rate (float.div (float.of_int elapsed) (float.of_int r.interval)));
      })

  -- The end of `AllowN`, after the refill.
  abbrev pub take_tokens : ℤ → RateLimiter F → Bool × RateLimiter F
  take_tokens n r =
      if float.at_least r.tokens (float.of_int n)
      then (true, record r { tokens = float.sub r.tokens (float.of_int n) })
      else (false, r)

  unfoldable pub allow_n : ℤ → ℤ → RateLimiter F → Bool × RateLimiter F
  unfolding refill
  allow_n n now r = if leb_ℤ n (pos 0) then (true, r) else take_tokens n (refill now r)

  abbrev pub allow : ℤ → RateLimiter F → Bool × RateLimiter F
  allow now r = allow_n (pos 1) now r

  -- `Tokens`.
  unfoldable pub tokens_left : ℤ → RateLimiter F → ℤ × RateLimiter F
  unfolding refill
  tokens_left now r = let s = refill now r in (float.to_int s.tokens, s)

  -- Calls of `AllowN`, each with its n and what the clock says.
  unfoldable pub allow_all : List (ℤ × ℤ) → RateLimiter F → List Bool × RateLimiter F
  unfolding allow_n
  allow_all [] r = ([], r)
  allow_all ((n, now) ∷ calls) r =
      let out = allow_n n now r in let rest = allow_all calls out.1 in (out.0 ∷ rest.0, rest.1)
