-- ===== src/Prelude/Laws.antt =====
-- Laws of the list functions of Prelude/Lists: what filtering, sorting and cutting keep.
use Prim.Native.Nat.{ℕ, zero, suc, ◌≤◌}
use mathlib.Core.Path.{◌≡◌, refl, subst}
use mathlib.Core.Bool.{Bool, true, false}
use mathlib.Core.Logic.{◌⊎◌, inl, inr}
use mathlib.Core.List.{List, [], ◌∷◌}
use mathlib.Core.Option.{none, some}
use native.Mathlib.Omega.{arith}
use oban.Prelude.Tests.{if_both, Bool-cases}
use oban.Prelude.Lists.{length, take, keep, find_first, sort_insert, sort_by, All, In, here, there}

module _ {ℓ} {A : Type ℓ} where
  pub In-All {κ} : (P : A → Type κ) {x : A} (xs : List A) → In x xs → All P xs → P x
  In-All P [] i h = elim i [ ]
  In-All P (x ∷ xs) here h = h.0
  In-All P (x ∷ xs) (there i) h = In-All P xs i h.1

  pub In-cons : {x y : A} {xs : List A} → In x (y ∷ xs) → (x ≡ y) ⊎ In x xs
  In-cons here = inl refl
  In-cons (there i) = inr i

  pub All-of_In {κ} : (P : A → Type κ) (xs : List A) → ((x : A) → In x xs → P x) → All P xs
  All-of_In P [] h = tt
  All-of_In P (x ∷ xs) h = (h x here, All-of_In P xs (λ y i. h y (there i)))

  pub All-weaken {κ μ} :
      (P : A → Type κ) (Q : A → Type μ) (xs : List A) → ((x : A) → P x → Q x) → All P xs → All Q xs
  All-weaken P Q [] f h = tt
  All-weaken P Q (x ∷ xs) f h = (f x h.0, All-weaken P Q xs f h.1)

module _ {ℓ} {A : Type ℓ} (p : A → Bool) where
  pub keep-All {κ} : (P : A → Type κ) (xs : List A) → All P xs → All P (keep p xs)
  keep-All P [] h = tt
  keep-All P (x ∷ xs) h =
      if_both (All P) (p x) (λ _. (h.0, keep-All P xs h.1)) (λ _. keep-All P xs h.1)

  pub In-keep : {x : A} (xs : List A) → In x xs → p x ≡ true → In x (keep p xs)
  In-keep [] i e = elim i [ ]
  In-keep (x ∷ xs) here e = rw e here
  In-keep {x} (y ∷ xs) (there i) e =
      if_both (In x) (p y) (λ _. there (In-keep xs i e)) (λ _. In-keep xs i e)

  kept_or_later :
      {x y : A} {xs ys : List A}
      → p y ≡ true
      → (In x ys → In x xs × (p x ≡ true))
      → In x (y ∷ ys)
      → In x (y ∷ xs) × (p x ≡ true)
  kept_or_later e f here = (here, e)
  kept_or_later e f (there j) = (there (f j).0, (f j).1)

  pub keep-In : {x : A} (xs : List A) → In x (keep p xs) → In x xs × (p x ≡ true)
  keep-In [] i = elim i [ ]
  keep-In {x} (y ∷ xs) i = elim (Bool-cases (p y)) [
    | inl e ↦ kept_or_later e (keep-In xs) (rw e at i)
    | inr e ↦ let r = keep-In xs (rw e at i) in (there r.0, r.1)
  ]

  pub find_first-eq-some : (xs : List A) (x : A) → find_first p xs ≡ some x → In x xs × (p x ≡ true)
  find_first-eq-some [] x e = absurd (cc)
  find_first-eq-some (y ∷ xs) x e = elim (Bool-cases (p y)) [
    | inl t ↦ (subst (λ z. In z (y ∷ xs)) (ground arith) here, ground arith)
    | inr t ↦ let r = find_first-eq-some xs x (rw t at e) in (there r.0, r.1)
  ]

  pub find_first-eq-none : (xs : List A) → find_first p xs ≡ none → All (λ x. p x ≡ false) xs
  find_first-eq-none [] e = tt
  find_first-eq-none (y ∷ xs) e = elim (Bool-cases (p y)) [
    | inl t ↦ absurd (ground arith)
    | inr t ↦ (t, find_first-eq-none xs (rw t at e))
  ]

module _ {ℓ} {A : Type ℓ} where
  pub In-take : {x : A} (n : ℕ) (xs : List A) → In x (take n xs) → In x xs
  In-take zero xs i = elim i [ ]
  In-take (suc n) [] i = elim i [ ]
  In-take (suc n) (x ∷ xs) here = here
  In-take (suc n) (y ∷ xs) (there i) = there (In-take n xs i)

  pub take-All {κ} : (P : A → Type κ) (n : ℕ) (xs : List A) → All P xs → All P (take n xs)
  take-All P zero xs h = tt
  take-All P (suc n) [] h = tt
  take-All P (suc n) (x ∷ xs) h = (h.0, take-All P n xs h.1)

  pub length-take_le : (n : ℕ) (xs : List A) → length (take n xs) ≤ n
  length-take_le zero xs = omega arith
  length-take_le (suc n) [] = omega arith
  length-take_le (suc n) (x ∷ xs) = omega (arith, length-take_le n xs)

  pub length-take_lt : (n : ℕ) (xs : List A) → n ≤ length xs → length (take n xs) ≡ n
  length-take_lt zero xs h = refl
  length-take_lt (suc n) [] h = absurd (omega arith)
  length-take_lt (suc n) (x ∷ xs) h = omega (arith, length-take_lt n xs)

module _ {ℓ} {A : Type ℓ} (less : A → A → Bool) where
  pub sort_insert-All {κ} :
      (P : A → Type κ) (x : A) (xs : List A) → P x → All P xs → All P (sort_insert less x xs)
  sort_insert-All P x [] p h = (p, tt)
  sort_insert-All P x (y ∷ ys) p h =
      if_both (All P) (less x y) (λ _. (p, h)) (λ _. (h.0, sort_insert-All P x ys p h.1))

  pub sort_by-All {κ} : (P : A → Type κ) (xs : List A) → All P xs → All P (sort_by less xs)
  sort_by-All P [] h = tt
  sort_by-All P (x ∷ xs) h = sort_insert-All P x (sort_by less xs) h.0 (sort_by-All P xs h.1)

  pub In-sort_insert_self : (x : A) (xs : List A) → In x (sort_insert less x xs)
  In-sort_insert_self x [] = here
  In-sort_insert_self x (y ∷ ys) =
      if_both (In x) (less x y) (λ _. here) (λ _. there (In-sort_insert_self x ys))

  pub In-sort_insert : {z : A} (x : A) (xs : List A) → In z xs → In z (sort_insert less x xs)
  In-sort_insert x [] i = elim i [ ]
  In-sort_insert {z} x (y ∷ ys) here = if_both (In z) (less x y) (λ _. there here) (λ _. here)
  In-sort_insert {z} x (y ∷ ys) (there i) =
      if_both (In z) (less x y) (λ _. there (there i)) (λ _. there (In-sort_insert x ys i))

  pub In-sort_by : {z : A} (xs : List A) → In z xs → In z (sort_by less xs)
  In-sort_by [] i = elim i [ ]
  In-sort_by (x ∷ xs) here = In-sort_insert_self x (sort_by less xs)
  In-sort_by (x ∷ xs) (there i) = In-sort_insert x (sort_by less xs) (In-sort_by xs i)

  pub sort_by-In : {z : A} (xs : List A) → In z (sort_by less xs) → In z xs
  sort_by-In {z} xs i =
      In-All (λ y. In y xs) (sort_by less xs) i
        (sort_by-All (λ y. In y xs) xs (All-of_In (λ y. In y xs) xs (λ y j. j)))

  pub length-sort_insert : (x : A) (xs : List A) → length (sort_insert less x xs) ≡ suc (length xs)
  length-sort_insert x [] = refl
  length-sort_insert x (y ∷ ys) = ground (arith, length-sort_insert x ys)

  pub length-sort_by : (xs : List A) → length (sort_by less xs) ≡ length xs
  length-sort_by [] = refl
  length-sort_by (x ∷ xs) = omega (arith, length-sort_insert x (sort_by less xs), length-sort_by xs)

  -- No later element goes before an earlier one.
  abbrev pub Ordered : List A → Type 0
  Ordered [] = Unit
  Ordered (x ∷ xs) = All (λ y. less y x ≡ false) xs × Ordered xs

  pub take-Ordered : (n : ℕ) (xs : List A) → Ordered xs → Ordered (take n xs)
  take-Ordered zero xs h = tt
  take-Ordered (suc n) [] h = tt
  take-Ordered (suc n) (x ∷ xs) h =
      (take-All (λ y. less y x ≡ false) n xs h.0, take-Ordered n xs h.1)

-- What a sort needs of its comparison.
pub record IsOrder {ℓ} {A : Type ℓ} (less : A → A → Bool) : Type ℓ where
  pub asym : (a b : A) → less a b ≡ true → less b a ≡ false
  pub negatively_trans : (a b c : A) → less b a ≡ false → less c b ≡ false → less c a ≡ false

module _ {ℓ} {A : Type ℓ} (less : A → A → Bool) (o : IsOrder less) where
  pub sort_insert-Ordered :
      (x : A) (xs : List A) → Ordered less xs → Ordered less (sort_insert less x xs)
  sort_insert-Ordered x [] h = (tt, tt)
  sort_insert-Ordered x (y ∷ ys) h =
      if_both (Ordered less) (less x y)
        (λ e. (
          (
            o.asym x y e,
            All-weaken (λ z. less z y ≡ false) (λ z. less z x ≡ false) ys
                (λ z n. o.negatively_trans x y z (o.asym x y e) n) h.0,
          ),
          h,
        ))
        (λ e.
          (sort_insert-All less (λ z. less z y ≡ false) x ys e h.0, sort_insert-Ordered x ys h.1))

  pub sort_by-Ordered : (xs : List A) → Ordered less (sort_by less xs)
  sort_by-Ordered [] = tt
  sort_by-Ordered (x ∷ xs) = sort_insert-Ordered x (sort_by less xs) (sort_by-Ordered xs)

  -- What `take` leaves out goes before nothing that it keeps.
  pub take-best :
      (n : ℕ) (xs : List A) {z : A}
      → Ordered less xs
      → In z xs
      → In z (take n xs) ⊎ All (λ c. less z c ≡ false) (take n xs)
  take-best zero xs h i = inr tt
  take-best (suc n) [] h i = elim i [ ]
  take-best (suc n) (x ∷ xs) h here = inl here
  take-best (suc n) (x ∷ xs) {z} h (there i) = elim (take-best n xs h.1 i) [
    | inl j ↦ inl (there j)
    | inr b ↦ inr (In-All (λ y. less y x ≡ false) xs i h.0, b)
  ]

  -- The order of two insertions does not matter for elements that the order tells apart.
  pub sort_insert_comm :
      (x y : A) (zs : List A)
      → (less x y ≡ true) ⊎ (less y x ≡ true)
      → sort_insert less x (sort_insert less y zs) ≡ sort_insert less y (sort_insert less x zs)
  sort_insert_comm x y [] t = ground (arith, o.asym x y, o.asym y x)
  sort_insert_comm x y (z ∷ zs) t = ground (
    arith,
    o.asym x y,
    o.asym y x,
    o.asym x z,
    o.asym y z,
    o.asym z x,
    o.asym z y,
    o.negatively_trans x y z,
    o.negatively_trans y x z,
    o.negatively_trans x z y,
    o.negatively_trans y z x,
    o.negatively_trans z x y,
    o.negatively_trans z y x,
    sort_insert_comm x y zs t,
  )
