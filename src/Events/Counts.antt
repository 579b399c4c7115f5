-- ===== src/Events/Counts.antt =====
-- The recorder (events.go) without the world around it: its counters and its subscriptions.
use oban.Prelude.{
  ℕ, suc, ◌<◌, ◌≡◌, ◌≢◌, refl, ◌==◌, List, [], ◌∷◌, ◌++◌, some, All, if◌then◌else◌, Bool, true,
  false, Bool-cases, inl, inr, ==_iff, sym, arith,
}
use oban.Prelude.Laws.{All-weaken}
use oban.Store.Caps.{drop_key}
use oban.Events.{
  EventName, event_code, bump_count, count_of, EventHandler, Recorder, attach, detach,
}

if_same :
    (b : Bool) (y z : ℕ)
    → (if b then suc y else z) ≡ (if b then suc (if b then y else z) else (if b then y else z))
if_same true y z = refl
if_same false y z = refl

==_comm : (a b : ℕ) → (a == b) ≡ (b == a)
==_comm a b = ground arith

differs :
    (name other m : EventName) (n : ℕ)
    → (event_code m == event_code name) ≡ false
    → (event_code m == event_code other) ≡ true
    → n ≡ (if event_code name == event_code other then suc n else n)
differs name other m n e f =
    rw (sym ((==_iff (event_code m) (event_code other)).0 f))
      (rw (==_comm (event_code name) (event_code m), e) refl)

-- Emitting an event adds one to the count of its name and to no other.
pub count_of-bump_count :
    (name other : EventName) (counts : List (EventName × ℕ))
    → count_of other (bump_count name counts) ≡ (
        if event_code name == event_code other
        then suc (count_of other counts)
        else count_of other counts)
count_of-bump_count name other [] = refl
count_of-bump_count name other ((m, n) ∷ counts) =
    elim (Bool-cases (event_code m == event_code name)) [
      | inl e ↦
          rw (e, (==_iff (event_code m) (event_code name)).0 e)
            (if_same (event_code name == event_code other) n (count_of other counts))
      | inr e ↦ elim (Bool-cases (event_code m == event_code other)) [
        | inl f ↦ rw (e, f) (differs name other m n e f)
        | inr f ↦ rw (e, f) (count_of-bump_count name other counts)
      ]
    ]

module _ {W : Type 0} where
  drop_absent :
      (id : ℕ) (hs : List (ℕ × EventHandler W)) (h : EventHandler W)
      → All (λ p. p.0 ≢ id) hs
      → drop_key id (hs ++ (id, h) ∷ []) ≡ hs
  drop_absent id [] h a = ground arith
  drop_absent id ((i, g) ∷ hs) h a = ground (arith, a.0, drop_absent id hs h a.1)

  -- A handler that was attached and detached again leaves the subscriptions as they were.
  pub detach-attach :
      (r : Recorder W) (h : EventHandler W)
      → All (λ p. p.0 < r.next_id) r.handlers
      → let a = attach W (some h) r in (detach W a.0 a.1).handlers ≡ r.handlers
  unfolding attach detach
  detach-attach r h a =
      drop_absent r.next_id r.handlers h
        (All-weaken (λ p. p.0 < r.next_id) (λ p. p.0 ≢ r.next_id) r.handlers (λ p k. omega arith) a)
