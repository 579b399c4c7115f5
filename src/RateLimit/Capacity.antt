-- ===== src/RateLimit/Capacity.antt =====
-- The capacity of the bucket (ratelimit.go) over a history of calls.
use oban.Prelude.{ℤ, pos, negsuc, ◌-ℤ◌, leb_ℤ, ◌≡◌, Bool, false, List, [], ◌∷◌, if_both, arith}
use oban.Float.{Float64, IsOrdered}
use oban.RateLimit.{RateLimiter, capped, refill, take_tokens, allow_n, allow_all}

module _ {F : Type 0} (float : Float64 F) where
  -- The bucket does not hold more than its rate.
  abbrev pub IsBounded : RateLimiter F → Type 0
  IsBounded r = float.exceeds r.tokens r.rate ≡ false

module _ {F : Type 0} (float : Float64 F) (laws : IsOrdered float) where
  capped-IsBounded : (r : RateLimiter F) → IsBounded float (capped float r)
  capped-IsBounded r =
      if_both (IsBounded float) (float.exceeds r.tokens r.rate) (λ e. laws.exceeds_refl r.rate)
        (λ e. e)

  refill-IsBounded :
      (now : ℤ) (r : RateLimiter F) → IsBounded float r → IsBounded float (refill float now r)
  unfolding refill
  refill-IsBounded now r b =
      if_both (IsBounded float) (leb_ℤ (now -ℤ r.last) (pos 0)) (λ e. b) (λ e. capped-IsBounded _)

  take_tokens-IsBounded :
      (n : ℤ) (r : RateLimiter F)
      → leb_ℤ n (pos 0) ≡ false
      → IsBounded float r
      → IsBounded float (take_tokens float n r).1
  take_tokens-IsBounded (pos n) r p b =
      if_both (λ (o : Bool × RateLimiter F). IsBounded float o.1)
        (float.at_least r.tokens (float.of_int (pos n))) (λ e. laws.exceeds_sub r.tokens r.rate n b)
        (λ e. b)
  take_tokens-IsBounded (negsuc n) r p b = absurd (ground (arith, p))

  allow_n-IsBounded :
      (n now : ℤ) (r : RateLimiter F)
      → IsBounded float r
      → IsBounded float (allow_n float n now r).1
  unfolding allow_n
  allow_n-IsBounded n now r b =
      if_both (λ (o : Bool × RateLimiter F). IsBounded float o.1) (leb_ℤ n (pos 0)) (λ e. b)
        (λ e. take_tokens-IsBounded n (refill float now r) e (refill-IsBounded now r b))

  -- Whatever is asked and whatever the clock says, a full bucket never comes to hold more than its
  -- rate.
  pub allow_all-IsBounded :
      (calls : List (ℤ × ℤ)) (r : RateLimiter F)
      → IsBounded float r
      → IsBounded float (allow_all float calls r).1
  unfolding allow_all
  allow_all-IsBounded [] r b = b
  allow_all-IsBounded ((n, now) ∷ calls) r b =
      allow_all-IsBounded calls (allow_n float n now r).1 (allow_n-IsBounded n now r b)
