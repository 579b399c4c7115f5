-- ===== src/Sql/Marks.antt =====
-- `sqlstoreRebind` and `itoa` (sqlstore.go): the numbering of the marks.
use oban.Prelude.{
  ℕ, zero, suc, ◌+◌, ◌-◌, ◌*◌, ◌/◌, ◌%◌, ◌<◌, ◌==◌, ◌≡◌, refl, ap, ◌∙◌, false, List, [], ◌∷◌, ◌++◌,
  All, ◌≤◌, true, if_both, Bool-cases, inl, inr, arith,
}
use native.Mathlib.Decide.{ℕ_discrete}
use oban.Sql.{postgres}
use oban.Sql.Schema.{itoa, itoa_loop, rebind, rebind_loop}

-- The number that decimal digits stand for, after a number that was read before them.
abbrev pub value_after : ℕ → List ℕ → ℕ
value_after a [] = a
value_after a (c ∷ cs) = value_after (a * 10 + (c - 48)) cs

abbrev pub ten_pow : ℕ → ℕ
ten_pow zero = 1
ten_pow (suc i) = 10 * ten_pow i

itoa_loop_lem :
    (i n : ℕ) (buf : List ℕ) → n < ten_pow i → value_after 0 (itoa_loop i n buf) ≡ value_after n buf
unfolding itoa_loop
itoa_loop_lem zero n buf h = ap (λ (a : ℕ). value_after a buf) (omega arith)
itoa_loop_lem (suc i) n buf h = elim (Bool-cases (n == 0)) [
  | inl e ↦ rw e (ap (λ (a : ℕ). value_after a buf) (ground arith))
  | inr e ↦ rw e (
      itoa_loop_lem i (n / 10) ((48 + n % 10) ∷ buf) (omega arith)
      ∙ ap (λ (a : ℕ). value_after a buf) (omega arith))
]

-- The digits of `itoa` stand for its number, below 10 ^ 20.
pub itoa_lem : (n : ℕ) → n < ten_pow 20 → value_after 0 (itoa n) ≡ n
unfolding itoa
itoa_lem n h =
    if_both (λ ds. value_after 0 ds ≡ n) (n == 0) (λ e. ground arith) (λ e. itoa_loop_lem 20 n [] h)

abbrev IsDigit : ℕ → Type 0
IsDigit c = (48 ≤ c) × (c ≤ 57)

-- The first digit is there and is not 0.
abbrev pub Leads : List ℕ → Type 0
Leads [] = ⊥
Leads (c ∷ cs) = 49 ≤ c

-- The decimal writing of a positive number: digits, the first of them not 0, that stand for it.
pub record IsDecimal (n : ℕ) (ds : List ℕ) : Type 0 where
  pub digits : All IsDigit ds
  pub leads : Leads ds
  pub value : value_after 0 ds ≡ n

itoa_loop-digits : (i n : ℕ) (buf : List ℕ) → All IsDigit buf → All IsDigit (itoa_loop i n buf)
unfolding itoa_loop
itoa_loop-digits zero n buf h = h
itoa_loop-digits (suc i) n buf h =
    if_both (All IsDigit) (n == 0) (λ _. h)
      (λ _. itoa_loop-digits i (n / 10) ((48 + n % 10) ∷ buf) ((omega arith, omega arith), h))

itoa_loop-ended : (i n : ℕ) (buf : List ℕ) → n ≡ 0 → itoa_loop i n buf ≡ buf
unfolding itoa_loop
itoa_loop-ended zero n buf e = refl
itoa_loop-ended (suc i) n buf e = rw (same n e) refl
  where
    same : (n : ℕ) → n ≡ 0 → (n == 0) ≡ true
    same n e = ground (arith, e)

itoa_loop-Leads : (i n : ℕ) (buf : List ℕ) → 0 < n → n < ten_pow i → Leads (itoa_loop i n buf)
unfolding itoa_loop
itoa_loop-Leads zero n buf p h = absurd (omega (arith, p, h))
itoa_loop-Leads (suc i) n buf p h = rw (differs n p) (elim (ℕ_discrete (n / 10) 0) [
  | yes e ↦ rw (itoa_loop-ended i (n / 10) ((48 + n % 10) ∷ buf) e) (omega (arith, p, e))
  | no d ↦ itoa_loop-Leads i (n / 10) ((48 + n % 10) ∷ buf) (omega (arith, d)) (omega (arith, h))
])
  where
    differs : (n : ℕ) → 0 < n → (n == 0) ≡ false
    differs n p = ground (arith, p)

pub itoa-IsDecimal : (n : ℕ) → 0 < n → n < ten_pow 20 → IsDecimal n (itoa n)
unfolding itoa
itoa-IsDecimal n p h = record {
  digits =
      if_both (All IsDigit) (n == 0) (λ _. ((omega arith, omega arith), tt))
        (λ _. itoa_loop-digits 20 n [] tt);
  leads =
      if_both Leads (n == 0) (λ e. absurd (ground (arith, p, e)))
        (λ _. itoa_loop-Leads 20 n [] p h);
  value = itoa_lem n h;
}

-- Pieces of a text with a mark between each two, written by `m` from the number k on.
abbrev pub woven : (ℕ → List ℕ) → ℕ → List ℕ → List (List ℕ) → List ℕ
woven m k piece [] = piece
woven m k piece (next ∷ pieces) = piece ++ (m k ++ woven m (suc k) next pieces)

abbrev pub question : ℕ → List ℕ
question k = b'?' ∷ []

abbrev pub dollar : (ℕ → List ℕ) → ℕ → List ℕ
dollar digits k = b'$' ∷ digits k

abbrev pub IsPlain : List ℕ → Type 0
IsPlain piece = All (λ c. (c == b'?') ≡ false) piece

rebind_loop-append :
    (n : ℕ) (piece rest : List ℕ)
    → IsPlain piece
    → rebind_loop n (piece ++ rest) ≡ piece ++ rebind_loop n rest
unfolding rebind_loop
rebind_loop-append n [] rest h = refl
rebind_loop-append n (c ∷ piece) rest h = rw h.0 (ap (◌∷◌ c) (rebind_loop-append n piece rest h.1))

rebind_loop-plain : (n : ℕ) (piece : List ℕ) → IsPlain piece → rebind_loop n piece ≡ piece
unfolding rebind_loop
rebind_loop-plain n [] h = refl
rebind_loop-plain n (c ∷ piece) h = rw h.0 (ap (◌∷◌ c) (rebind_loop-plain n piece h.1))

rebind_loop-woven :
    (n : ℕ) (piece : List ℕ) (pieces : List (List ℕ))
    → IsPlain piece
    → All IsPlain pieces
    → rebind_loop n (woven question (suc n) piece pieces) ≡ woven (dollar itoa) (suc n) piece pieces
unfolding rebind_loop
rebind_loop-woven n piece [] h hs = rebind_loop-plain n piece h
rebind_loop-woven n piece (next ∷ pieces) h hs =
    rebind_loop-append n piece (b'?' ∷ woven question (suc (suc n)) next pieces) h
    ∙ ap (λ (rest : List ℕ). piece ++ (b'$' ∷ (itoa (suc n) ++ rest)))
        (rebind_loop-woven (suc n) next pieces hs.0 hs.1)

-- For Postgres the marks of a query become $1, $2 and so on from the left, and nothing else changes:
-- `question` writes a `?`, and `dollar` a `$` and the digits of the mark's number, which are its
-- decimal writing for numbers below 10 ^ 20.
pub rebind_lem :
    (piece : List ℕ) (pieces : List (List ℕ))
    → IsPlain piece
    → All IsPlain pieces
    → (digits : ℕ → List ℕ) × ((k : ℕ) → 0 < k → k < ten_pow 20 → IsDecimal k (digits k))
      × (rebind postgres (woven question 1 piece pieces) ≡ woven (dollar digits) 1 piece pieces)
unfolding rebind
rebind_lem piece pieces h hs = (itoa, itoa-IsDecimal, rebind_loop-woven 0 piece pieces h hs)
