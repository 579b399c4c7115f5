-- ===== src/Engine/Capacity.antt =====
-- The slots of the semaphores in `dispatch` (oban.go) and the concurrency of the queues.
use oban.Prelude.{
  ℕ, ◌+◌, ◌≤◌, ◌≡◌, refl, sym, subst, ℤ, pos, pos_part, leb_ℤ, ◌-ℤ◌, ◌≤ℤ◌, ◌<ℤ◌, String, true,
  false, List, [], ◌∷◌, ◌++◌, All, In, map, length, if◌then◌else◌, if_both, Bool-cases, inl, inr,
  str_eq, str_eq_iff, arith,
}
use oban.Prelude.Laws.{In-All}
use oban.Job.{Job}
use oban.Backoff.{Backoff}
use oban.Store.{MemStore, fetch_available}
use oban.Store.Handout.{fetch_available-Ordered}
use oban.Engine.Steps.{
  Attempt, Running, Leaves, first, later, used, free_slots, dispatch, Moves, dispatches, settles,
  unregistered, Callers, Anyone, called, Reached, starts, moves,
}

-- The map `Queues`, with the concurrencies that `New` accepts: each name once.
pub record IsConfigured (queues : List (String × ℤ)) : Type 0 where
  pub positive : All (λ q. pos 0 <ℤ q.1) queues
  pub once : (name : String) (m n : ℤ) → In (name, m) queues → In (name, n) queues → m ≡ n

used-append :
    (q p : String) (as_ : List Attempt) (js : List Job)
    → used q (as_ ++ map (λ j. (p, j)) js) ≡ used q as_ + (if str_eq p q then length js else 0)
used-append q p [] [] = ground arith
used-append q p [] (j ∷ js) = ground (arith, used-append q p [] js)
used-append q p (a ∷ as_) js = ground (arith, used-append q p as_ js)

used-Leaves :
    (q : String) {a : Attempt} {as_ rest : List Attempt}
    → Leaves a as_ rest
    → used q rest ≤ used q as_
used-Leaves q first = ground arith
used-Leaves q (later l) = ground (arith, used-Leaves q l)

str_eq_refl : (q : String) → str_eq q q ≡ true
str_eq_refl q = (str_eq_iff q q).1 refl

within_free :
    (conc : ℤ) (u n : ℕ)
    → n ≤ pos_part (conc -ℤ pos u)
    → leb_ℤ (conc -ℤ pos u) (pos 0) ≡ false
    → pos (u + n) ≤ℤ conc
unfolding ◌-ℤ◌
within_free conc u n h e = ground arith

-- Every queue has at most as many attempts under way as its concurrency allows.
pub record IsWithin (queues : List (String × ℤ)) (as_ : List Attempt) : Type 0 where
  pub bounded : (q : String) (conc : ℤ) → In (q, conc) queues → pos (used q as_) ≤ℤ conc

le_ℤ_trans : (m n : ℕ) (c : ℤ) → m ≤ n → pos n ≤ℤ c → pos m ≤ℤ c
le_ℤ_trans m n c h k = omega (arith, h, k)

module _ (queues : List (String × ℤ)) (configured : IsConfigured queues) where
  used_fetched :
      (p : String) (conc' now : ℤ) (s : MemStore) (as_ : List Attempt)
      → In (p, conc') queues
      → leb_ℤ (free_slots p conc' as_) (pos 0) ≡ false
      → IsWithin queues as_
      → (q : String) (conc : ℤ) → In (q, conc) queues
      → pos (used q (as_ ++ map (λ j. (p, j)) (fetch_available p (free_slots p conc' as_) now s).0))
        ≤ℤ conc
  used_fetched p conc' now s as_ listed e w q conc i =
      rw (used-append q p as_ (fetch_available p (free_slots p conc' as_) now s).0)
        (elim (Bool-cases (str_eq p q)) [
          | inr n ↦
              rw n
                (le_ℤ_trans (used q as_ + 0) (used q as_) conc (omega arith) (w.bounded q conc i))
          | inl y ↦ rw y (same_queue ((str_eq_iff p q).0 y))
        ])
    where
      same_queue :
          p ≡ q
          → pos (used q as_ + length (fetch_available p (free_slots p conc' as_) now s).0) ≤ℤ conc
      same_queue h =
          let same =
            configured.once p conc' conc listed (subst (λ n. In (n, conc) queues) (sym h) i) in
          subst
            (λ n.
              pos (used n as_ + length (fetch_available p (free_slots p conc' as_) now s).0)
              ≤ℤ conc)
            h
            (subst
              (λ c.
                pos (used p as_ + length (fetch_available p (free_slots p conc' as_) now s).0) ≤ℤ c)
              same
              (within_free conc' (used p as_)
                (length (fetch_available p (free_slots p conc' as_) now s).0)
                (fetch_available-Ordered p (free_slots p conc' as_) now s).0 e))

  Moves-IsWithin :
      (backoff : Backoff) (callers : Callers) {r r' : Running}
      → Moves queues backoff callers r r'
      → IsWithin queues r.attempts
      → IsWithin queues r'.attempts
  unfolding dispatch
  Moves-IsWithin backoff callers (dispatches p conc' now r listed) w =
      if_both (λ (t : Running). IsWithin queues t.attempts)
        (leb_ℤ (free_slots p conc' r.attempts) (pos 0)) (λ _. w)
        (λ e. record { bounded = used_fetched p conc' now r.store r.attempts listed e w })
  Moves-IsWithin backoff callers (settles a rest e now later_on r l) w = record {
    bounded = λ q conc i.
        le_ℤ_trans (used q rest) (used q r.attempts) conc (used-Leaves q l) (w.bounded q conc i);
  }
  Moves-IsWithin backoff callers (unregistered a rest text now r l) w = record {
    bounded = λ q conc i.
        le_ℤ_trans (used q rest) (used q r.attempts) conc (used-Leaves q l) (w.bounded q conc i);
  }
  Moves-IsWithin backoff callers (called c r o) w = record { bounded = w.bounded }

  positive_le : (c : ℤ) → pos 0 <ℤ c → pos 0 ≤ℤ c
  positive_le c h = omega (arith, h)

  -- With each queue configured once, at a positive concurrency, at no point are more attempts of a queue
  -- under way than its concurrency: however dispatches, ends of attempts and calls of other callers
  -- follow each other, whatever calls of the store these are.
  pub Reached-IsWithin :
      (backoff : Backoff) {r : Running}
      → Reached queues backoff Anyone r
      → IsWithin queues r.attempts
  Reached-IsWithin backoff starts = record {
    bounded =
        λ q conc i. positive_le conc (In-All (λ p. pos 0 <ℤ p.1) queues i configured.positive);
  }
  Reached-IsWithin backoff (moves p m) =
      Moves-IsWithin backoff Anyone m (Reached-IsWithin backoff p)
