-- ===== src/Control/Gate.antt =====
-- Pausing, resuming and scaling queues of a ControlledStore.
use oban.Prelude.{
  ◌≡◌, ◌≢◌, refl, sym, ◌∙◌, ap, ℤ, pos, leb_ℤ, ltb_ℤ, ◌≤ℤ◌, ◌<ℤ◌, String, true, false, ◌&&◌, List,
  [], ◌∷◌, if_both, if◌then◌else◌, Bool-cases, inl, inr, str_eq, str_eq_iff, arith,
}
use oban.Errors.{ok}
use oban.StoreApi.{StoreApi}
use oban.Control.{
  Controls, listed, unlisted, cap_of, uncapped, pause, resume, is_paused, scale, batch_limit,
  controlled_fetch,
}

str_eq_refl : (q : String) → str_eq q q ≡ true
str_eq_refl q = (str_eq_iff q q).1 refl

str_eq_ne : (p q : String) → p ≢ q → str_eq p q ≡ false
str_eq_ne p q n = elim (Bool-cases (str_eq p q)) [
  | inl y ↦ absurd (n ((str_eq_iff p q).0 y))
  | inr e ↦ e
]

listed-unlisted : (q : String) (ps : List String) → listed q (unlisted q ps) ≡ false
unfolding listed unlisted
listed-unlisted q [] = refl
listed-unlisted q (p ∷ ps) = ground (arith, listed-unlisted q ps)

same_side : (p q n : String) → str_eq p q ≡ true → q ≢ n → str_eq p n ≡ false
same_side p q n e h = str_eq_ne p n (λ k. h (sym ((str_eq_iff p q).0 e) ∙ k))

listed-unlisted_ne :
    (q n : String) (ps : List String) → q ≢ n → listed n (unlisted q ps) ≡ listed n ps
unfolding listed unlisted
listed-unlisted_ne q n [] h = refl
listed-unlisted_ne q n (p ∷ ps) h = elim (Bool-cases (str_eq p q)) [
  | inl e ↦ rw (e, same_side p q n e h) (listed-unlisted_ne q n ps h)
  | inr e ↦ rw e (ap (λ b. if str_eq p n then true else b) (listed-unlisted_ne q n ps h))
]

cap_of-uncapped : (q : String) (m : List (String × ℤ)) → cap_of q (uncapped q m) ≡ pos 0
unfolding cap_of uncapped
cap_of-uncapped q [] = refl
cap_of-uncapped q ((p, n) ∷ m) = ground (arith, cap_of-uncapped q m)

cap_of-uncapped_ne :
    (q n : String) (m : List (String × ℤ)) → q ≢ n → cap_of n (uncapped q m) ≡ cap_of n m
unfolding cap_of uncapped
cap_of-uncapped_ne q n [] h = refl
cap_of-uncapped_ne q n ((p, c) ∷ m) h = elim (Bool-cases (str_eq p q)) [
  | inl e ↦ rw (e, same_side p q n e h) (cap_of-uncapped_ne q n m h)
  | inr e ↦ rw e (ap (λ b. if str_eq p n then c else b) (cap_of-uncapped_ne q n m h))
]

-- Pause and resume act on the named queue and on no other.
pub is_paused_lem :
    (q n : String) (c : Controls)
    → (is_paused q (pause q c) ≡ true)
      × (is_paused q (resume q c) ≡ false)
      × (q ≢ n
          → (is_paused n (pause q c) ≡ is_paused n c) × (is_paused n (resume q c) ≡ is_paused n c))
unfolding is_paused pause resume listed
is_paused_lem q n c = (
  rw (str_eq_refl q) refl,
  listed-unlisted q c.paused,
  λ h.
      (rw (str_eq_ne q n h) (listed-unlisted_ne q n c.paused h), listed-unlisted_ne q n c.paused h),
)

smaller :
    (c l : ℤ)
    → pos 0 <ℤ c
    → (if ltb_ℤ (pos 0) c && ltb_ℤ c l then c else l) ≡ (if ltb_ℤ c l then c else l)
smaller c l h = ground arith

-- A positive cap is the limit where it is the smaller one, any other removes the cap, and the limits of
-- the other queues stay.
pub batch_limit_lem :
    (q n : String) (max_batch limit : ℤ) (c : Controls)
    → ((pos 0 <ℤ max_batch
          → batch_limit q limit (scale q max_batch c)
            ≡ (if ltb_ℤ max_batch limit then max_batch else limit))
        × (max_batch ≤ℤ pos 0 → batch_limit q limit (scale q max_batch c) ≡ limit))
      × (q ≢ n → batch_limit n limit (scale q max_batch c) ≡ batch_limit n limit c)
unfolding batch_limit scale cap_of
batch_limit_lem q n max_batch limit c = (
  (
    λ h. rw (positive max_batch h, str_eq_refl q) (smaller max_batch limit h),
    λ h. rw (not_positive max_batch h, cap_of-uncapped q c.caps) refl,
  ),
  λ h. ap (λ k. if ltb_ℤ (pos 0) k && ltb_ℤ k limit then k else limit) (others h),
)
  where
    positive : (m : ℤ) → pos 0 <ℤ m → leb_ℤ m (pos 0) ≡ false
    positive m h = ground arith

    not_positive : (m : ℤ) → m ≤ℤ pos 0 → leb_ℤ m (pos 0) ≡ true
    not_positive m h = ground arith

    others : q ≢ n → cap_of n (scale q max_batch c).caps ≡ cap_of n c.caps
    others h = elim (Bool-cases (leb_ℤ max_batch (pos 0))) [
      | inl y ↦ rw y (cap_of-uncapped_ne q n c.caps h)
      | inr e ↦ rw (e, str_eq_ne q n h) (cap_of-uncapped_ne q n c.caps h)
    ]

paused-scale : (q : String) (m : ℤ) (c : Controls) → (scale q m c).paused ≡ c.paused
unfolding scale
paused-scale q m c =
    if_both (λ (d : Controls). d.paused ≡ c.paused) (leb_ℤ m (pos 0)) (λ _. refl) (λ _. refl)

is_paused-scale : (n q : String) (m : ℤ) (c : Controls) → is_paused n (scale q m c) ≡ is_paused n c
unfolding is_paused
is_paused-scale n q m c = ap (listed n) (paused-scale q m c)

module _ {W : Type 0} (api : StoreApi W) (q : String) (limit now : ℤ) (w : W) where
  stopped :
      (c : Controls) → is_paused q c ≡ true → controlled_fetch api c q limit now w ≡ (ok [], w)
  unfolding controlled_fetch
  stopped c h = rw h refl

  passed :
      (c : Controls) (l : ℤ)
      → is_paused q c ≡ false
      → batch_limit q limit c ≡ l
      → controlled_fetch api c q limit now w ≡ api.fetch_available q l now w
  unfolding controlled_fetch
  passed c l h b = rw (h, b) refl

  same_fetch :
      (c d : Controls)
      → is_paused q c ≡ is_paused q d
      → batch_limit q limit c ≡ batch_limit q limit d
      → controlled_fetch api c q limit now w ≡ controlled_fetch api d q limit now w
  unfolding controlled_fetch
  same_fetch c d h b = rw (h, b) refl

-- A fetch of a paused queue yields nothing and does not reach the inner store, whatever its cap. A fetch
-- of a resumed queue is the inner one: with a positive cap for the smaller one of cap and limit, with
-- any other cap for the limit. Pausing, resuming and scaling a queue changes no fetch of another.
pub controlled_fetch_lem :
    {W : Type 0} (api : StoreApi W) (q : String) (max_batch limit now : ℤ) (c : Controls) (w : W)
    → let scaled = scale q max_batch c in
      (controlled_fetch api (pause q scaled) q limit now w ≡ (ok [], w))
      × (pos 0 <ℤ max_batch
          → controlled_fetch api (resume q scaled) q limit now w
            ≡ api.fetch_available q (if ltb_ℤ max_batch limit then max_batch else limit) now w)
      × (max_batch ≤ℤ pos 0
          → controlled_fetch api (resume q scaled) q limit now w
            ≡ api.fetch_available q limit now w)
      × ((n : String)
          → q ≢ n
          → (controlled_fetch api (pause q scaled) n limit now w
              ≡ controlled_fetch api c n limit now w)
            × (controlled_fetch api (resume q scaled) n limit now w
                ≡ controlled_fetch api c n limit now w))
unfolding pause resume batch_limit
controlled_fetch_lem api q max_batch limit now c w =
    let scaled = scale q max_batch c in
    let gate = is_paused_lem q q scaled in
    let cap = batch_limit_lem q q max_batch limit c in
    (
      stopped api q limit now w (pause q scaled) gate.0,
      λ h. passed api q limit now w (resume q scaled) _ gate.1 (cap.0.0 h),
      λ h. passed api q limit now w (resume q scaled) _ gate.1 (cap.0.1 h),
      λ n d.
          let other = (is_paused_lem q n scaled).2 d in
          let kept = (batch_limit_lem q n max_batch limit c).1 d in
          (
            same_fetch api n limit now w (pause q scaled) c
                (other.0 ∙ is_paused-scale n q max_batch c) kept,
            same_fetch api n limit now w (resume q scaled) c
                (other.1 ∙ is_paused-scale n q max_batch c) kept,
          ),
    )
