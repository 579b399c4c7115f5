-- ===== src/Plugins/Firing.antt =====
-- `fireDue` of the CronPlugin (plugins.go) and of the engine (oban.go).
use oban.Prelude.{
  ℕ, zero, suc, ◌+◌, ◌≤◌, ◌≡◌, refl, sym, subst, ap, ℤ, ◌≤ℤ◌, ◌<ℤ◌, Bool, true, false, not, List,
  [], ◌∷◌, Option, none, some, All, if◌then◌else◌, if_both, count_if, ◌⊎◌, inl, inr, In, here,
  there, ◌<◌, ◌&&◌, Bool-cases, arith,
}
use oban.Job.{Job, is_zero, before, after, zero_time}
use oban.Plugins.{
  CronEntry, pop_least, due_only, rescheduled, enqueue_periodic, plugin_fire_due, engine_fire_due,
}

abbrev pub is_due : ℤ → CronEntry → Bool
is_due now e = not (after e.next_at now)

abbrev due_count : ℤ → List CronEntry → ℕ
due_count now = count_if (is_due now)

-- What `Next` promises of a schedule: a later time, or the zero time.
abbrev pub Runs : ℤ → CronEntry → Type 0
Runs now e = (e.schedule now ≡ zero_time) ⊎ (now <ℤ e.schedule now)

-- What a pop takes and leaves: an entry with the least time, and the others.
data IsPopped (now : ℤ) (es : List CronEntry) : Option (CronEntry × List CronEntry) → Type 0 where
  empty : es ≡ [] → IsPopped now es none
  popped :
      {e : CronEntry} {rest : List CronEntry}
      → ((p : CronEntry → Bool) → count_if p es ≡ count_if p (e ∷ rest))
      → All (λ f. e.next_at ≤ℤ f.next_at) es
      → (All (Runs now) es → Runs now e × All (Runs now) rest)
      → IsPopped now es (some (e, rest))

le_trans : (a b c : ℤ) → a ≤ℤ b → b ≤ℤ c → a ≤ℤ c
le_trans a b c h k = omega (arith, h, k)

All-least :
    (a b : ℤ) (es : List CronEntry)
    → a ≤ℤ b
    → All (λ f. b ≤ℤ f.next_at) es
    → All (λ f. a ≤ℤ f.next_at) es
All-least a b [] h k = tt
All-least a b (e ∷ es) h k = (le_trans a b e.next_at h k.0, All-least a b es h k.1)

before_le : (a b : ℤ) → before a b ≡ true → a ≤ℤ b
before_le a b h = ground (arith, h)

not_before_le : (a b : ℤ) → before a b ≡ false → b ≤ℤ a
not_before_le a b h = ground (arith, h)

swap_count : (x y m n k : ℕ) → m ≡ x + n → k ≡ y + m → k ≡ x + (y + n)
swap_count x y m n k h g = omega (arith, h, g)

least_of :
    (now : ℤ) (e : CronEntry) (es : List CronEntry) (o : Option (CronEntry × List CronEntry))
    → IsPopped now es o
    → IsPopped now (e ∷ es) (elim o [
      | none ↦ some (e, [])
      | some (m, rest) ↦ if before m.next_at e.next_at then some (m, e ∷ rest) else some (e, es)
    ])
least_of now e es none (empty h) =
    popped (λ p. ap (λ l. count_if p (e ∷ l)) h) (least_alone h) (λ r. (r.0, tt))
  where
    least_alone : es ≡ [] → All (λ f. e.next_at ≤ℤ f.next_at) (e ∷ es)
    least_alone h =
        (omega arith, subst (All (λ (f : CronEntry). e.next_at ≤ℤ f.next_at)) (sym h) tt)
least_of now e es (some (m, rest)) (popped c l r) =
    if_both (IsPopped now (e ∷ es)) (before m.next_at e.next_at)
      (λ y.
        popped
          (λ p.
            swap_count (if p m then 1 else 0) (if p e then 1 else 0) (count_if p es)
              (count_if p rest) (count_if p (e ∷ es)) (c p) refl)
          (before_le m.next_at e.next_at y, l) (λ a. let b = r a.1 in (b.0, (a.0, b.1))))
      (λ n.
        popped (λ p. refl)
          (omega arith, All-least e.next_at m.next_at es (not_before_le m.next_at e.next_at n) l)
          (λ a. (a.0, a.1)))

pop_least-IsPopped : (now : ℤ) (es : List CronEntry) → IsPopped now es (pop_least es)
unfolding pop_least
pop_least-IsPopped now [] = empty refl
pop_least-IsPopped now (e ∷ es) = least_of now e es (pop_least es) (pop_least-IsPopped now es)

All-later :
    (now t : ℤ) (es : List CronEntry)
    → now <ℤ t
    → All (λ f. t ≤ℤ f.next_at) es
    → All (λ f. now <ℤ f.next_at) es
All-later now t [] h k = tt
All-later now t (e ∷ es) h k = (omega (arith, h, k.0), All-later now t es h k.1)

-- The first entry, if it is due; otherwise no entry is.
data IsNext (now : ℤ) (es : List CronEntry) : Option (CronEntry × List CronEntry) → Type 0 where
  idle : All (λ f. now <ℤ f.next_at) es → IsNext now es none
  firing :
      {e : CronEntry} {rest : List CronEntry}
      → due_count now es ≡ suc (due_count now rest)
      → ((p : CronEntry → Bool) → count_if p es ≡ count_if p (e ∷ rest))
      → (All (Runs now) es → Runs now e × All (Runs now) rest)
      → IsNext now es (some (e, rest))

due_one :
    (now : ℤ) (e : CronEntry)
    → after e.next_at now ≡ false
    → ◌≡◌ {A = ℕ} (if is_due now e then 1 else 0) 1
due_one now e h = rw h

after_later : (t now : ℤ) → after t now ≡ true → now <ℤ t
after_later t now h = ground (arith, h)

IsPopped-IsNext :
    (now : ℤ) (es : List CronEntry) (o : Option (CronEntry × List CronEntry))
    → IsPopped now es o
    → IsNext now es (due_only now o)
IsPopped-IsNext now es none (empty h) =
    idle (subst (All (λ (f : CronEntry). now <ℤ f.next_at)) (sym h) tt)
IsPopped-IsNext now es (some (e, rest)) (popped c l r) =
    if_both (IsNext now es) (after e.next_at now)
      (λ y. idle (All-later now e.next_at es (after_later e.next_at now y) l))
      (λ n. firing (omega (arith, c (is_due now), due_one now e n)) c r)

due_only-IsNext : (now : ℤ) (es : List CronEntry) → IsNext now es (due_only now (pop_least es))
due_only-IsNext now es = IsPopped-IsNext now es (pop_least es) (pop_least-IsPopped now es)

not_due : (now t : ℤ) → now <ℤ t → not (after t now) ≡ false
not_due now t h = ground (arith, h)

kept_count :
    (now : ℤ) (e : CronEntry) (rest : List CronEntry)
    → now <ℤ e.schedule now
    → due_count now (rescheduled now e ∷ rest) ≡ due_count now rest
kept_count now e rest h =
    omega (arith, ap {B = ℕ} (λ b. if b then 1 else 0) (not_due now (e.schedule now) h))

unset : (t : ℤ) → t ≡ zero_time → is_zero t ≡ true
unset t h = ground (arith, h)

module _ {W : Type 0} (enqueue : Job → W → W) (now : ℤ) where
  kept_lem :
      (fuel : ℕ) (e : CronEntry) (rest : List CronEntry)
      → Runs now e
      → All (Runs now) rest
      → due_count now rest ≤ fuel
      → let heap = if is_zero (e.schedule now) then rest else rescheduled now e ∷ rest in
        All (Runs now) heap × (due_count now heap ≤ fuel)
  kept_lem fuel e rest (inl z) a h = rw (unset (e.schedule now) z) (a, h)
  kept_lem fuel e rest (inr l) a h =
      if_both (λ (es : List CronEntry). All (Runs now) es × (due_count now es ≤ fuel))
        (is_zero (e.schedule now)) (λ _. (a, h))
        (λ _. ((inr l, a), omega (arith, kept_count now e rest l, h)))

  -- How a tick with that much fuel ends: with no due entry left.
  Ends : ℕ → List CronEntry → W → Type 0
  Ends fuel heap w =
      (out : List CronEntry × W) × (plugin_fire_due enqueue fuel now heap w ≡ some out)
      × All (λ f. now <ℤ f.next_at) out.0

  turn :
      (fuel : ℕ) (heap : List CronEntry) (w : W) (o : Option (CronEntry × List CronEntry))
      → due_only now (pop_least heap) ≡ o
      → IsNext now heap o
      → All (Runs now) heap
      → ((e : CronEntry) (rest : List CronEntry)
          → due_count now heap ≡ suc (due_count now rest)
          → Runs now e
          → All (Runs now) rest
          → Ends fuel
              (if is_zero (e.schedule now) then rest else rescheduled now e ∷ rest)
              (enqueue_periodic enqueue e.periodic w))
      → Ends (suc fuel) heap w
  unfolding Ends plugin_fire_due
  turn fuel heap w none q (idle l) a go = ((heap, w), rw (q, plugin_fire_due) refl, l)
  turn fuel heap w (some (e, rest)) q (firing c k r) a go =
      let out = go e rest c (r a).0 (r a).1 in (out.0, rw (q, plugin_fire_due) out.1, out.2)

  plugin-Ends :
      (fuel : ℕ) (heap : List CronEntry) (w : W)
      → All (Runs now) heap
      → due_count now heap ≤ fuel
      → Ends (suc fuel) heap w
  plugin-Ends zero heap w a h =
      turn zero heap w (due_only now (pop_least heap)) refl (due_only-IsNext now heap) a
        (λ e rest c r k. absurd (omega (arith, c, h)))
  plugin-Ends (suc fuel) heap w a h =
      turn (suc fuel) heap w (due_only now (pop_least heap)) refl (due_only-IsNext now heap) a
        (λ e rest c r k.
          let left = kept_lem fuel e rest r k (omega (arith, c, h)) in
          plugin-Ends fuel (if is_zero (e.schedule now) then rest else rescheduled now e ∷ rest)
            (enqueue_periodic enqueue e.periodic w) left.0 left.1)

  -- The tick of the CronPlugin ends, with a round for each entry that is due and one more, and leaves no
  -- due entry, if each schedule answers a later time or the zero time.
  pub plugin_fire_due_lem :
      (fuel : ℕ) (heap : List CronEntry) (w : W)
      → All (Runs now) heap
      → due_count now heap ≤ fuel
      → (out : List CronEntry × W) × (plugin_fire_due enqueue (suc fuel) now heap w ≡ some out)
        × All (λ f. now <ℤ f.next_at) out.0
  unfolding Ends
  plugin_fire_due_lem fuel heap w a h = plugin-Ends fuel heap w a h

-- An entry that is due and whose schedule has no further time.
abbrev is_over : ℤ → CronEntry → Bool
is_over now e = is_due now e && is_zero (e.schedule now)

over_count :
    (p : CronEntry → Bool) (e : CronEntry) (es : List CronEntry)
    → In e es
    → p e ≡ true
    → 0 < count_if p es
over_count p e [] i h = elim i [ ]
over_count p _ (e ∷ es) here h = rw h (omega arith)
over_count p e (f ∷ es) (there i) h = omega (arith, over_count p e es i h)

later_not_over :
    (now : ℤ) (es : List CronEntry) → All (λ f. now <ℤ f.next_at) es → count_if (is_over now) es ≡ 0
later_not_over now [] h = refl
later_not_over now (e ∷ es) h =
    rw (not_due now e.next_at h.0, later_not_over now es h.1) (omega arith)

-- Taking an entry that is over puts it back as one that is over.
still_over :
    (now : ℤ) (e : CronEntry) (rest : List CronEntry)
    → zero_time ≤ℤ now
    → 0 < count_if (is_over now) (e ∷ rest)
    → 0 < count_if (is_over now) (rescheduled now e ∷ rest)
still_over now e rest z h = elim (Bool-cases (is_zero (e.schedule now))) [
  | inl y ↦ rw (put_back (e.schedule now) now y z) (omega arith)
  | inr n ↦
      let k : 0 < count_if (is_over now) rest =
        omega (arith, rw (n, and_false (is_due now e)) at h) in
      omega (arith, k)
]
  where
    put_back : (t u : ℤ) → is_zero t ≡ true → zero_time ≤ℤ u → (not (after t u) && is_zero t) ≡ true
    put_back t u y z = ground (arith, y, z)

    and_false : (b : Bool) → (b && false) ≡ false
    and_false b = ground arith

module _ {W : Type 0} (enqueue : Job → W → W) (now : ℤ) (z : zero_time ≤ℤ now) where
  over_stuck :
      (fuel : ℕ) (heap : List CronEntry) (w : W)
      → 0 < count_if (is_over now) heap
      → engine_fire_due enqueue fuel now heap w ≡ none
  unfolding engine_fire_due
  over_stuck zero heap w h = refl
  over_stuck (suc fuel) heap w h =
      go (due_only now (pop_least heap)) refl (due_only-IsNext now heap)
        (λ es v k. over_stuck fuel es v k)
    where
      go :
          (o : Option (CronEntry × List CronEntry))
          → due_only now (pop_least heap) ≡ o
          → IsNext now heap o
          → ((es : List CronEntry) (v : W)
              → 0 < count_if (is_over now) es
              → engine_fire_due enqueue fuel now es v ≡ none)
          → engine_fire_due enqueue (suc fuel) now heap w ≡ none
      go none q (idle l) again = absurd (omega (arith, h, later_not_over now heap l))
      go (some (e, rest)) q (firing c k r) again =
          rw (q, engine_fire_due)
            (again (rescheduled now e ∷ rest) (enqueue_periodic enqueue e.periodic w)
              (still_over now e rest z (omega (arith, h, k (is_over now)))))

  -- A tick of the engine does not end, however much fuel it has, if some entry of the heap is due and
  -- its schedule has no further time.
  pub engine_fire_due_stuck :
      (heap : List CronEntry) (e : CronEntry) (fuel : ℕ) (w : W)
      → In e heap
      → e.schedule now ≡ zero_time
      → e.next_at ≤ℤ now
      → engine_fire_due enqueue fuel now heap w ≡ none
  engine_fire_due_stuck heap e fuel w i s d =
      over_stuck fuel heap w
        (over_count (is_over now) e heap i (over e.next_at (e.schedule now) d s))
    where
      over : (t u : ℤ) → t ≤ℤ now → u ≡ zero_time → (not (after t now) && is_zero u) ≡ true
      over t u d s = ground (arith, d, s)
