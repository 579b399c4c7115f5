-- ===== src/Examples/FloatRuns.antt =====
-- The token bucket and the exponential policy, with integers in place of floating point.
use oban.Prelude.{
  ℕ, suc, ◌-◌, ◌*◌, ◌/◌, ◌^◌, ◌≤◌, ◌≡◌, refl, ℤ, pos, negsuc, pos_part, ◌+ℤ◌, ◌-ℤ◌, ◌*ℤ◌, -ℤ_parts,
  ltb_ℤ, leb_ℤ, true, false, List, [], ◌∷◌, some, arith,
}
use oban.Float.{Float64, CountsExactly, IsOrdered, ScalesExactly}
use oban.RateLimit.{RateLimiter, new_rate_limiter, allow_all, refill, tokens_left}
use oban.RateLimit.Burst.{spend, holding, allow_all_still}
use oban.RateLimit.Capacity.{IsBounded, allow_all-IsBounded}
use oban.Backoff.Exponential.{exponential_next, exponential_next_lem}

abbrev power : ℤ → ℤ → ℤ
power (pos a) (pos b) = pos (a ^ b)
power a b = pos 0

abbrev whole : Float64 ℤ
whole = record {
  of_int = λ z. z;
  to_int = λ x. x;
  add = λ x y. x +ℤ y;
  sub = λ x y. x -ℤ y;
  mul = λ x y. x *ℤ y;
  div = λ x y. pos (pos_part x / pos_part y);
  pow = power;
  exceeds = λ x y. ltb_ℤ y x;
  at_least = λ x y. leb_ℤ y x;
  is_inf = λ x. false;
}

sub_pos : (m n : ℕ) → n ≤ m → pos m -ℤ pos n ≡ pos (m - n)
unfolding ◌-ℤ◌
sub_pos m n h = ground (arith, h)

mul_pos : (m n : ℕ) → pos m *ℤ pos n ≡ pos (m * n)
unfolding ◌*ℤ◌
mul_pos m n = ground arith

whole-CountsExactly : CountsExactly whole
whole-CountsExactly = record {
  sub_exact = λ m n h k. sub_pos m n k;
  at_least_exact = λ m n h. ground arith;
}

not_more : (x : ℤ) → ltb_ℤ x x ≡ false
not_more x = ground arith

not_more_after : (x y : ℤ) (n : ℕ) → ltb_ℤ y x ≡ false → ltb_ℤ y (x -ℤ pos n) ≡ false
not_more_after x y n e = ground (arith, e, -ℤ_parts x (pos n))

whole-IsOrdered : IsOrdered whole
whole-IsOrdered = record { exceeds_refl = not_more; exceeds_sub = not_more_after }

whole-ScalesExactly : ScalesExactly whole
whole-ScalesExactly = record {
  pow_exact = λ k h. refl;
  mul_exact = λ m k h l. mul_pos m (2 ^ k);
  exceeds_exact = λ m k n h l c. ground arith;
  is_finite = λ m k h l. refl;
  to_int_exact = λ m h. refl;
}

-- A bucket of 5 tokens an hour, made at 100.
abbrev bucket : RateLimiter ℤ
bucket = record { rate = pos 5; interval = pos 3600; tokens = pos 5; last = pos 100 }

bucket_made : new_rate_limiter whole (pos 5) (pos 3600) (pos 100) ≡ some bucket
unfolding new_rate_limiter
bucket_made = refl

abbrev asked : List (ℤ × ℤ)
asked = (pos 3, pos 100) ∷ (pos 3, pos 100) ∷ (negsuc 0, pos 90) ∷ (pos 2, pos 100) ∷ []

allow_all_still_example :
    allow_all whole asked (holding whole 5 bucket)
    ≡ ((spend asked 5).0, holding whole (spend asked 5).1 bucket)
allow_all_still_example =
    allow_all_still whole whole-CountsExactly asked 5 bucket (omega arith)
      (refl, (refl, (refl, (refl, tt))))

granted : (spend asked 5).0 ≡ true ∷ false ∷ true ∷ true ∷ []
granted = refl

allow_all-IsBounded_example :
    IsBounded whole (allow_all whole ((pos 4, pos 100) ∷ (pos 1, pos 9000) ∷ []) bucket).1
allow_all-IsBounded_example =
    allow_all-IsBounded whole whole-IsOrdered ((pos 4, pos 100) ∷ (pos 1, pos 9000) ∷ []) bucket
      refl

refilled : tokens_left whole (pos 9000) bucket ≡ (pos 5, record bucket { last = pos 9000 })
unfolding tokens_left refill ◌-ℤ◌ ◌+ℤ◌ ◌*ℤ◌
refilled = refl

fourth_delay :
    exponential_next whole
      (λ (w : ℕ). (pos 0, suc w))
      (record { base = pos 1000000000; max_delay = pos 300000000000; jitter = pos 0 })
      (pos 4)
      0
    ≡ (pos 8000000000, 0)
fourth_delay =
    exponential_next_lem whole (λ (w : ℕ). (pos 0, suc w)) whole-ScalesExactly 1000000000
      300000000000 3 (pos 0) 0 (omega arith) (omega arith) (omega arith) (omega arith) (omega arith)
      refl
