-- ===== src/RateLimit/Burst.antt =====
-- A burst on the bucket (ratelimit.go): calls while the clock stands still.
use oban.Prelude.{
  ℕ, zero, suc, if_both, leb→le, -ℤ_parts, ◌-◌, ◌≤◌, ◌<◌, ◌≡◌, refl, ℤ, pos, negsuc, ◌-ℤ◌, leb_ℤ,
  leb, Bool, true, false, List, [], ◌∷◌, All, Bool-cases, inl, inr, if◌then◌else◌, arith,
}
use oban.Float.{Float64, CountsExactly, two_53}
use oban.RateLimit.{RateLimiter, refill, take_tokens, allow_n, allow_all}

-- A budget of whole tokens.
abbrev pub spend_one : ℤ → ℕ → Bool × ℕ
spend_one (negsuc n) m = (true, m)
spend_one (pos zero) m = (true, m)
spend_one (pos (suc n)) m = if leb (suc n) m then (true, m - suc n) else (false, m)

abbrev pub spend : List (ℤ × ℤ) → ℕ → List Bool × ℕ
spend [] m = ([], m)
spend ((n, now) ∷ calls) m =
    let one = spend_one n m in let rest = spend calls one.1 in (one.0 ∷ rest.0, rest.1)

spend_one_le : (n : ℤ) (m : ℕ) → (spend_one n m).1 ≤ m
spend_one_le (negsuc n) m = omega arith
spend_one_le (pos zero) m = omega arith
spend_one_le (pos (suc n)) m =
    if_both (λ (o : Bool × ℕ). o.1 ≤ m) (leb (suc n) m) (λ e. omega arith) (λ e. omega arith)

no_time : (now last : ℤ) → leb_ℤ now last ≡ true → leb_ℤ (now -ℤ last) (pos 0) ≡ true
no_time now last e = ground (arith, e, -ℤ_parts now last)

module _ {F : Type 0} (float : Float64 F) where
  abbrev pub holding : ℕ → RateLimiter F → RateLimiter F
  holding m r = record r { tokens = float.of_int (pos m) }

module _ {F : Type 0} (float : Float64 F) (laws : CountsExactly float) where
  refill_still : (now : ℤ) (r : RateLimiter F) → leb_ℤ now r.last ≡ true → refill float now r ≡ r
  unfolding refill
  refill_still now r e = rw (no_time now r.last e) refl

  taken :
      (n m : ℕ) (r : RateLimiter F)
      → m < two_53
      → take_tokens float (pos (suc n)) (holding float m r)
        ≡ ((spend_one (pos (suc n)) m).0, holding float (spend_one (pos (suc n)) m).1 r)
  taken n m r h = elim (Bool-cases (leb (suc n) m)) [
    | inl e ↦
        rw (laws.at_least_exact m (suc n) h, e)
          (rw (laws.sub_exact m (suc n) h (leb→le (suc n) m e)) refl)
    | inr e ↦ rw (laws.at_least_exact m (suc n) h, e) refl
  ]

  allow_n_still :
      (n now : ℤ) (m : ℕ) (r : RateLimiter F)
      → m < two_53
      → leb_ℤ now r.last ≡ true
      → allow_n float n now (holding float m r)
        ≡ ((spend_one n m).0, holding float (spend_one n m).1 r)
  unfolding allow_n
  allow_n_still (negsuc n) now m r h q = rw (negative n) refl
    where
      negative : (n : ℕ) → leb_ℤ (negsuc n) (pos 0) ≡ true
      negative n = ground arith
  allow_n_still (pos zero) now m r h q = refl
  allow_n_still (pos (suc n)) now m r h q =
      rw (positive n, refill_still now (holding float m r) q) (taken n m r h)
    where
      positive : (n : ℕ) → leb_ℤ (pos (suc n)) (pos 0) ≡ false
      positive n = ground arith

  -- While the clock stands still, the bucket grants and denies as a budget of whole tokens does, of
  -- which each granted call takes as many as it asks for.
  pub allow_all_still :
      (calls : List (ℤ × ℤ)) (m : ℕ) (r : RateLimiter F)
      → m < two_53
      → All (λ (call : ℤ × ℤ). leb_ℤ call.1 r.last ≡ true) calls
      → allow_all float calls (holding float m r)
        ≡ ((spend calls m).0, holding float (spend calls m).1 r)
  unfolding allow_all
  allow_all_still [] m r h q = refl
  allow_all_still ((n, now) ∷ calls) m r h q =
      rw (allow_n_still n now m r h q.0) (
        rw (allow_all_still calls (spend_one n m).1 r (omega (arith, spend_one_le n m, h)) q.1)
          refl)
