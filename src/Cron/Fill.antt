-- ===== src/Cron/Fill.antt =====
-- The masks that `parsePart` and `parseField` (cron.go) build, one bit at a time.
use Prim.Native.Nat.{bit_or}
use native.Mathlib.Nat.{mod-eq-sub-mod, mod-eq_of_lt}
use oban.Prelude.{
  ℕ, zero, suc, ◌+◌, ◌-◌, ◌%◌, ◌^◌, ◌≤◌, ◌<◌, ◌≡◌, refl, sym, ap, ◌∙◌, Bool, true, false, ◌&&◌,
  ◌||◌, List, [], ◌∷◌, some, inl, inr, leb, ltb, ◌==◌, Bool-cases, ==_iff, leb→le, lt→ltb, any,
  arith,
}
use oban.Cron.{bit}
use oban.Cron.Masks.{bit-bit_or, bit-pow, bit-none}
use oban.Cron.Parser.{
  CronField, Outcome, parsed, refused, fill, fill_fuel, set_bit, int_le, two_64, range_mask,
  parse_part, parse_parts, parse_field, any_day, any_month, max_days,
}
use oban.Cron.Text.{two_63, split}

-- The values that a range with a step allows.
abbrev pub allows : ℕ → ℕ → ℕ → ℕ → Bool
allows lo hi step i = leb lo i && leb i hi && ((i - lo) % step == 0)

zero_mod : (i step : ℕ) → 0 < step → (i - i) % step ≡ 0
zero_mod i step h = ap (λ (a : ℕ). a % step) (omega arith) ∙ mod-eq_of_lt h

allows_step :
    (v hi step i : ℕ)
    → 0 < step
    → v ≤ hi
    → ((v == i) || allows (v + step) hi step i) ≡ allows v hi step i
allows_step v hi step i p h = elim (Bool-cases (leb (v + step) i)) [
  | inl e ↦
      let le : v + step ≤ i = leb→le (v + step) i e in
      let m : (i - v) % step ≡ (i - (v + step)) % step =
        mod-eq-sub-mod (omega (arith, le)) ∙ ap (λ (a : ℕ). a % step) (omega arith) in
      rw m (ground (arith, le))
  | inr e ↦ elim (Bool-cases (v == i)) [
    | inl f ↦
        let same : v ≡ i = (==_iff v i).0 f in rw same (ground (arith, zero_mod i step p, h, same))
    | inr f ↦ elim (Bool-cases (leb v i)) [
      | inl g ↦ let m : (i - v) % step ≡ i - v = mod-eq_of_lt (ground arith) in rw m (ground arith)
      | inr g ↦ ground arith
    ]
  ]
]

int_le_small : (v hi : ℕ) → v < two_63 → int_le v hi ≡ leb v hi
int_le_small v hi h = ground arith

pub no_wrap : (v step : ℕ) → v + step < two_64 → (v + step) % two_64 ≡ v + step
no_wrap v step h = omega arith

bit-set_bit : (v mask i : ℕ) → v < 64 → bit (set_bit v mask) i ≡ (bit mask i || (v == i))
bit-set_bit v mask i h =
    rw (lt→ltb v 64 h) (bit-bit_or mask (2 ^ v) i ∙ ap (λ b. bit mask i || b) (bit-pow v i))

or_assoc : (a b c : Bool) → ((a || b) || c) ≡ (a || (b || c))
or_assoc a b c = ground arith

-- With a step of at most 2 ^ 63 - 64 the loop ends after a round for each value, and sets the bits of the
-- allowed values and no other.
pub fill_lem :
    (fuel v hi step mask : ℕ)
    → hi < 64
    → 0 < step
    → step ≤ 9223372036854775744
    → v < two_63
    → 0 < fuel
    → hi + 1 < v + fuel
    → (out : ℕ) × (fill fuel v hi step mask ≡ some out)
      × ((i : ℕ) → bit out i ≡ (bit mask i || allows v hi step i))
unfolding fill
fill_lem zero v hi step mask h p q r f g = absurd (omega arith)
fill_lem (suc fuel) v hi step mask h p q r f g = elim (Bool-cases (leb v hi)) [
  | inr e ↦ (mask, rw (int_le_small v hi r, e) refl, λ i. ground (arith, e))
  | inl e ↦
      let le : v ≤ hi = leb→le v hi e in
      let rest =
        fill_lem fuel (v + step) hi step (set_bit v mask) h p q (omega (arith, le))
          (omega (arith, le)) (omega (arith, le)) in
      (
        rest.0,
        rw (int_le_small v hi r, e) (rw (no_wrap v step (omega (arith, le))) rest.1),
        λ i.
            rest.2 i
            ∙ rw (bit-set_bit v mask i (omega (arith, le))) (
                or_assoc (bit mask i) (v == i) (allows (v + step) hi step i)
                ∙ ap (λ b. bit mask i || b) (allows_step v hi step i p le)),
      )
]

-- A range that is in order and inside its field, with a step of at most 2 ^ 63 - 64, yields the mask of
-- the values that it allows, and of no other.
pub range_mask_lem :
    (spec : CronField) (lo hi step : ℕ)
    → spec.greatest < 64
    → 0 < step
    → step ≤ 9223372036854775744
    → lo ≤ hi
    → spec.least ≤ lo
    → hi ≤ spec.greatest
    → (mask : ℕ) × (range_mask spec lo hi step ≡ parsed mask)
      × ((i : ℕ) → bit mask i ≡ allows lo hi step i)
unfolding range_mask
range_mask_lem spec lo hi step g p q o l h =
    let r =
      fill_lem fill_fuel lo hi step 0 (omega (arith, h, g)) p q (omega (arith, o, h, g))
        (omega arith) (omega (arith, o, h, g)) in
    (
      r.0,
      rw (not_ltb hi lo o, not_ltb lo spec.least l, not_ltb spec.greatest hi h, r.1) refl,
      λ i. r.2 i ∙ rw (bit-none i) refl,
    )
  where
    not_ltb : (a b : ℕ) → b ≤ a → ltb a b ≡ false
    not_ltb a b k = ground arith

abbrev outcome_allows : ℕ → Outcome ℕ → Bool
outcome_allows i (parsed m) = bit m i
outcome_allows i (refused e) = false

-- Whether a part of a field allows a value.
abbrev pub part_allows : CronField → ℕ → List ℕ → Bool
part_allows spec i part = outcome_allows i (parse_part spec part)

parse_parts_lem :
    (spec : CronField) (mask out : ℕ) (parts : List (List ℕ)) (i : ℕ)
    → parse_parts spec mask parts ≡ parsed out
    → bit out i ≡ (bit mask i || any (part_allows spec i) parts)
unfolding parse_parts
parse_parts_lem spec mask out [] i e = ground (arith, e)
parse_parts_lem spec mask out (part ∷ parts) i e =
    after_part (parse_part spec part) refl (λ m. parse_parts_lem spec (bit_or mask m) out parts i)
  where
    after_part :
        (o : Outcome ℕ)
        → parse_part spec part ≡ o
        → ((m : ℕ)
            → parse_parts spec (bit_or mask m) parts ≡ parsed out
            → bit out i ≡ (bit (bit_or mask m) i || any (part_allows spec i) parts))
        → bit out i ≡ (bit mask i || any (part_allows spec i) (part ∷ parts))
    after_part (refused x) q again = absurd (cc (rw q at e))
    after_part (parsed m) q again =
        again m (rw q at e)
        ∙ rw (bit-bit_or mask m i)
            (or_assoc (bit mask i) (bit m i) (any (part_allows spec i) parts))
        ∙ ap (λ b. bit mask i || (b || any (part_allows spec i) parts))
            (sym (ap (outcome_allows i) q))

-- A field that is accepted allows exactly the values that some part of it, between commas, allows.
pub parse_field_lem :
    (spec : CronField) (field : List ℕ) (mask i : ℕ)
    → parse_field spec field ≡ parsed mask
    → bit mask i ≡ any (part_allows spec i) (split b',' field)
unfolding parse_field
parse_field_lem spec field mask i e =
    parse_parts_lem spec 0 mask (split b',' field) i e ∙ rw (bit-none i) refl

any_day_lem :
    (doms month d : ℕ)
    → any_day doms month d ≡ true
    → (day : ℕ) × (bit doms day ≡ true) × (day ≤ max_days month) × (1 ≤ day) × (day ≤ d)
any_day_lem doms month zero e = absurd (cc (e))
any_day_lem doms month (suc d) e =
    elim (Bool-cases (bit doms (suc d) && leb (suc d) (max_days month))) [
      | inl f ↦ (
        suc d,
        ground (arith, f),
        leb→le (suc d) (max_days month) (ground (arith, f)),
        omega arith,
        omega arith,
      )
      | inr f ↦
          let r = any_day_lem doms month d (rw f at e) in (r.0, r.1, r.2, r.3, omega (arith, r.4))
    ]

any_month_lem :
    (doms months m : ℕ)
    → any_month doms months m ≡ true
    → (month : ℕ) × (day : ℕ) × (bit months month ≡ true)
      × (bit doms day ≡ true)
      × (day ≤ max_days month)
      × (1 ≤ month)
      × (month ≤ m)
      × (1 ≤ day)
      × (day ≤ 31)
any_month_lem doms months zero e = absurd (cc (e))
any_month_lem doms months (suc m) e =
    elim (Bool-cases (bit months (suc m) && any_day doms (suc m) 31)) [
      | inl f ↦
          let r = any_day_lem doms (suc m) 31 (ground (arith, f)) in
          (suc m, r.0, ground (arith, f), r.1, r.2, omega arith, omega arith, r.3, r.4)
      | inr f ↦
          let r = any_month_lem doms months m (rw f at e) in
          (r.0, r.1, r.2, r.3, r.4, r.5, omega (arith, r.6), r.7, r.8)
    ]
