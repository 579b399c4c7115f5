-- ===== src/Float.antt =====
-- Go's float64 as far as ratelimit.go and backoff.go use it: a type with the operations of the language
-- and of `math`, and what IEEE 754 says of them.
use oban.Prelude.{ℕ, ◌-◌, ◌*◌, ◌^◌, ◌≤◌, ◌<◌, ◌≡◌, ℤ, pos, Bool, false, leb, ltb}

-- `of_int` and `to_int` are the conversions, `exceeds` is >, `at_least` is >=, and `is_inf` tests for
-- the positive infinity.
pub record Float64 (F : Type 0) : Type 0 where
  pub of_int : ℤ → F
  pub to_int : F → ℤ
  pub add : F → F → F
  pub sub : F → F → F
  pub mul : F → F → F
  pub div : F → F → F
  pub pow : F → F → F
  pub exceeds : F → F → Bool
  pub at_least : F → F → Bool
  pub is_inf : F → Bool

abbrev pub two_53 : ℕ
two_53 = 9007199254740992

-- Natural numbers below 2 ^ 53 are exact, and rounding keeps the order.
pub record CountsExactly {F : Type 0} (float : Float64 F) : Type 0 where
  pub sub_exact :
      (m n : ℕ)
      → m < two_53
      → n ≤ m
      → float.sub (float.of_int (pos m)) (float.of_int (pos n)) ≡ float.of_int (pos (m - n))
  pub at_least_exact :
      (m n : ℕ)
      → m < two_53
      → float.at_least (float.of_int (pos m)) (float.of_int (pos n)) ≡ leb n m

-- Nothing exceeds itself, and taking a natural number away does not make a number larger.
pub record IsOrdered {F : Type 0} (float : Float64 F) : Type 0 where
  pub exceeds_refl : (x : F) → float.exceeds x x ≡ false
  pub exceeds_sub :
      (x y : F) (n : ℕ)
      → float.exceeds x y ≡ false
      → float.exceeds (float.sub x (float.of_int (pos n))) y ≡ false

-- Powers of two are exact below 2 ^ 900, and so are their products with a number of 53 bits.
pub record ScalesExactly {F : Type 0} (float : Float64 F) : Type 0 where
  pub pow_exact :
      (k : ℕ)
      → k < 900
      → float.pow (float.of_int (pos 2)) (float.of_int (pos k)) ≡ float.of_int (pos (2 ^ k))
  pub mul_exact :
      (m k : ℕ)
      → m ≤ two_53
      → k < 900
      → float.mul (float.of_int (pos m)) (float.of_int (pos (2 ^ k)))
        ≡ float.of_int (pos (m * 2 ^ k))
  pub exceeds_exact :
      (m k n : ℕ)
      → m ≤ two_53
      → k < 900
      → n ≤ two_53
      → float.exceeds (float.of_int (pos (m * 2 ^ k))) (float.of_int (pos n)) ≡ ltb n (m * 2 ^ k)
  pub is_finite :
      (m k : ℕ) → m ≤ two_53 → k < 900 → float.is_inf (float.of_int (pos (m * 2 ^ k))) ≡ false
  pub to_int_exact : (m : ℕ) → m ≤ two_53 → float.to_int (float.of_int (pos m)) ≡ pos m
