-- ===== src/Cron/Parser/Decided.antt =====
-- The end of `ParseCron` and `ParseCronSpec` (cron.go, cron_extra.go) on every text.
use oban.Prelude.{
  map, ℕ, zero, suc, ◌<◌, ◌≡◌, refl, subst, Bool, true, false, ◌||◌, List, [], ◌∷◌, Option, none,
  some, ltb, ◌==◌, Bool-cases, inl, inr, arith, ℤ, pos, ltb_ℤ, pos_part, if◌then◌else◌,
}
use Prim.Native.Nat.{bit_or}
use oban.Sql.Schema.{codes}
use oban.Cron.Ends.{fill-Ends}
use oban.Cron.Parser.{
  days_fit, month_names, dow_names, CronField, CronError, Outcome, parsed, refused, endless_step,
  range_mask, parse_value, named_value, ranged_value, bounds_of, part_bounds, positive_step,
  stepped_part, parse_part, parse_parts, parse_field, ◌>>=◌, plain_field, parse_five, parse_cron,
  parse_cron_spec, spec_of, parse_macro, macro, find_name,
}
use oban.Cron.Text.{
  two_63, split, cut_at, atoi, positive_int, negative_int, some_digits, same_bytes, trim_space,
  lower, fields,
}

abbrev IsReason : CronError → Type 0
IsReason endless_step = ⊥
IsReason e = Unit

-- An outcome that is not the end of the fuel.
abbrev pub IsDecided {ℓ} : {A : Type ℓ} → Outcome A → Type 0
IsDecided (parsed a) = Unit
IsDecided (refused e) = IsReason e

bind-IsDecided {ℓ κ} :
    {A : Type ℓ} {B : Type κ} (o : Outcome A) (f : A → Outcome B)
    → IsDecided o
    → ((a : A) → o ≡ parsed a → IsDecided (f a))
    → IsDecided (o >>= f)
bind-IsDecided (parsed a) f d k = k a refl
bind-IsDecided (refused e) f d k = d

if-IsDecided {ℓ} :
    {A : Type ℓ} (b : Bool) (x y : Outcome A)
    → (b ≡ true → IsDecided x)
    → (b ≡ false → IsDecided y)
    → IsDecided (if b then x else y)
if-IsDecided true x y p q = p refl
if-IsDecided false x y p q = q refl

ranged_value-IsDecided : (spec : CronField) (v : Option ℤ) → IsDecided (ranged_value spec v)
ranged_value-IsDecided spec none = tt
ranged_value-IsDecided spec (some v) =
    if-IsDecided (ltb_ℤ v (pos spec.least) || ltb_ℤ (pos spec.greatest) v) _ _ (λ e. tt) (λ e. tt)

named_value-IsDecided :
    (spec : CronField) (s : List ℕ) (v : Option ℕ) → IsDecided (named_value spec s v)
named_value-IsDecided spec s (some v) = tt
named_value-IsDecided spec s none = ranged_value-IsDecided spec (atoi s)

parse_value-IsDecided : (raw : List ℕ) (spec : CronField) → IsDecided (parse_value raw spec)
unfolding parse_value
parse_value-IsDecided raw spec =
    let s = trim_space raw in named_value-IsDecided spec s (find_name (map lower s) spec.named)

value_range-IsDecided :
    (spec : CronField) (part : List ℕ) (g : ℕ → ℕ × ℕ)
    → IsDecided (parse_value part spec >>= (λ v. parsed (g v)))
value_range-IsDecided spec part g =
    bind-IsDecided (parse_value part spec) _ (parse_value-IsDecided part spec) (λ v e. tt)

bounds_of-IsDecided :
    (spec : CronField) (has_step : Bool) (part : List ℕ) (o : Option (List ℕ × List ℕ))
    → IsDecided (bounds_of spec has_step part o)
bounds_of-IsDecided spec has_step part (some (c ∷ cs, hi)) =
    bind-IsDecided (parse_value (c ∷ cs) spec) _ (parse_value-IsDecided (c ∷ cs) spec)
      (λ lo e. value_range-IsDecided spec hi (λ top. (lo, top)))
bounds_of-IsDecided spec has_step part (some ([], hi)) = value_range-IsDecided spec part _
bounds_of-IsDecided spec has_step part none = value_range-IsDecided spec part _

part_bounds-IsDecided :
    (spec : CronField) (has_step : Bool) (part : List ℕ)
    → IsDecided (part_bounds spec has_step part)
unfolding part_bounds
part_bounds-IsDecided spec has_step part =
    if-IsDecided (same_bytes part (codes "*")) _ _ (λ e. tt)
      (λ e. bounds_of-IsDecided spec has_step part (cut_at b'-' part))

-- A number of `strconv.Atoi` that is positive fits into an int64.
abbrev IsSmall : Option ℤ → Type 0
IsSmall none = Unit
IsSmall (some v) = ltb_ℤ (pos 0) v ≡ true → (0 < pos_part v) × (pos_part v < two_63)

if-IsSmall :
    (b : Bool) (x y : Option ℤ)
    → (b ≡ true → IsSmall x)
    → (b ≡ false → IsSmall y)
    → IsSmall (if b then x else y)
if-IsSmall true x y p q = p refl
if-IsSmall false x y p q = q refl

positive_int-IsSmall : (o : Option ℕ) → IsSmall (positive_int o)
positive_int-IsSmall none = tt
positive_int-IsSmall (some n) =
    if-IsSmall (ltb n two_63) _ _ (λ e p. (ground (arith, p), ground (arith, e))) (λ e. tt)

negative_int-IsSmall : (o : Option ℕ) → IsSmall (negative_int o)
negative_int-IsSmall none = tt
negative_int-IsSmall (some zero) = λ p. absurd (ground (arith, p))
negative_int-IsSmall (some (suc n)) =
    if-IsSmall (ltb n two_63) _ _ (λ e p. absurd (ground (arith, p))) (λ e. tt)

atoi-IsSmall : (s : List ℕ) → IsSmall (atoi s)
atoi-IsSmall [] = tt
atoi-IsSmall (c ∷ cs) =
    if-IsSmall (c == b'-') _ _ (λ e. negative_int-IsSmall (some_digits cs))
      (λ e.
        if-IsSmall (c == b'+') _ _ (λ f. positive_int-IsSmall (some_digits cs))
          (λ f. positive_int-IsSmall (some_digits (c ∷ cs))))

range_mask-IsDecided :
    (spec : CronField) (lo hi step : ℕ)
    → spec.greatest < 64
    → 0 < step
    → step < two_63
    → IsDecided (range_mask spec lo hi step)
unfolding range_mask
range_mask-IsDecided spec lo hi step g p r =
    if-IsDecided (ltb hi lo) _ _ (λ e. tt)
      (λ e.
        if-IsDecided (ltb lo spec.least || ltb spec.greatest hi) _ _ (λ f. tt)
          (λ f.
            let o = fill-Ends lo hi step (ground (arith, e)) (ground (arith, f, g)) p r in
            rw o.1 tt))

positive_step-IsDecided :
    (o : Option ℤ)
    → IsSmall o
    → IsDecided (positive_step o)
      × ((step : ℕ) → positive_step o ≡ parsed step → (0 < step) × (step < two_63))
positive_step-IsDecided none s = (tt, λ step e. absurd (cc (e)))
positive_step-IsDecided (some v) s = elim (Bool-cases (ltb_ℤ (pos 0) v)) [
  | inl e ↦ (
    rw e tt,
    λ step f.
        let q : pos_part v ≡ step = cc (rw e at f) in
        subst (λ (n : ℕ). (0 < n) × (n < two_63)) q (s e),
  )
  | inr e ↦ (rw e tt, λ step f. absurd (cc (rw e at f)))
]

stepped_part-IsDecided :
    (spec : CronField) (part : List ℕ) (o : Option (List ℕ × List ℕ))
    → spec.greatest < 64
    → IsDecided (stepped_part spec part o)
stepped_part-IsDecided spec part none g =
    bind-IsDecided (part_bounds spec false part) _ (part_bounds-IsDecided spec false part)
      (λ b e. range_mask-IsDecided spec b.0 b.1 1 g (omega arith) (omega arith))
stepped_part-IsDecided spec part (some (range_part, step_text)) g =
    let d = positive_step-IsDecided (atoi step_text) (atoi-IsSmall step_text) in
    bind-IsDecided (positive_step (atoi step_text)) _ d.0 (λ step e.
      bind-IsDecided (part_bounds spec true range_part) _
        (part_bounds-IsDecided spec true range_part)
        (λ b k. range_mask-IsDecided spec b.0 b.1 step g (d.1 step e).0 (d.1 step e).1))

parse_parts-IsDecided :
    (spec : CronField) (mask : ℕ) (parts : List (List ℕ))
    → spec.greatest < 64
    → IsDecided (parse_parts spec mask parts)
unfolding parse_parts parse_part
parse_parts-IsDecided spec mask [] g = tt
parse_parts-IsDecided spec mask (part ∷ parts) g =
    bind-IsDecided (parse_part spec part) _ (stepped_part-IsDecided spec part (cut_at b'/' part) g)
      (λ m e. parse_parts-IsDecided spec (bit_or mask m) parts g)

-- The parser of a field, whose values are below 64, ends on every text: it answers a mask or one of
-- the source's errors.
pub parse_field-IsDecided :
    (spec : CronField) (field : List ℕ) → spec.greatest < 64 → IsDecided (parse_field spec field)
unfolding parse_field
parse_field-IsDecided spec field g = parse_parts-IsDecided spec 0 (split b',' field) g

parse_five-IsDecided : (l : List (List ℕ)) → IsDecided (parse_five l)
unfolding parse_field
parse_five-IsDecided [] = tt
parse_five-IsDecided (m ∷ []) = tt
parse_five-IsDecided (m ∷ h ∷ []) = tt
parse_five-IsDecided (m ∷ h ∷ dom ∷ []) = tt
parse_five-IsDecided (m ∷ h ∷ dom ∷ mon ∷ []) = tt
parse_five-IsDecided (m ∷ h ∷ dom ∷ mon ∷ dow ∷ x ∷ l) = tt
parse_five-IsDecided (m ∷ h ∷ dom ∷ mon ∷ dow ∷ []) =
    bind-IsDecided _ _ (field (plain_field 0 59) m (omega arith)) (λ a e.
      bind-IsDecided _ _ (field (plain_field 0 23) h (omega arith)) (λ b f.
        bind-IsDecided _ _ (field (plain_field 1 31) dom (omega arith)) (λ c g.
          bind-IsDecided _ _
            (field (record { least = 1; greatest = 12; named = month_names }) mon (omega arith))
            (λ d k.
              bind-IsDecided _ _
                (field (record { least = 0; greatest = 7; named = dow_names }) dow (omega arith))
                (λ w n. if-IsDecided (days_fit dom mon c d) _ _ (λ p. tt) (λ p. tt))))))
  where
    field : (spec : CronField) (t : List ℕ) → spec.greatest < 64 → IsDecided (parse_field spec t)
    field spec t p = parse_field-IsDecided spec t p

-- ParseCronSpec ends on every text: it answers a schedule or one of the source's errors.
pub parse_cron_spec-IsDecided : (spec : List ℕ) → IsDecided (parse_cron_spec spec)
unfolding parse_cron_spec parse_cron
parse_cron_spec-IsDecided spec = trimmed (trim_space spec)
  where
    looked_up : (o : Option (List ℕ)) → IsDecided (parse_macro o)
    looked_up none = tt
    looked_up (some expr) = parse_five-IsDecided (fields expr)

    trimmed : (t : List ℕ) → IsDecided (spec_of t)
    trimmed [] = parse_five-IsDecided (fields [])
    trimmed (c ∷ cs) =
        if-IsDecided (c == b'@') _ _ (λ e. looked_up (macro (map lower (c ∷ cs))))
          (λ e. parse_five-IsDecided (fields (c ∷ cs)))
