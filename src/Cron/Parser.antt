-- ===== src/Cron/Parser.antt =====
-- `ParseCron` and `ParseCronSpec` (cron.go, cron_extra.go) on the bytes of an ASCII text. What the
-- error texts quote is left out of the errors.
pub mod Decided
use Prim.Native.Nat.{bit_or}
use oban.Prelude.{
  ℕ, zero, suc, ◌+◌, ◌-◌, ◌*◌, ◌%◌, ◌^◌, ℤ, pos, negsuc, ltb_ℤ, pos_part, Bool, true, false, ◌&&◌,
  ◌||◌, List, [], ◌∷◌, ◌++◌, map, Option, none, some, length, ltb, leb, ◌==◌, if◌then◌else◌,
}
use oban.Sql.Schema.{codes}
use oban.Cron.{bit}
use oban.Cron.Text.{same_bytes, lower, trim_space, split, fields, cut_at, two_63, atoi}

-- The masks of a `Schedule`, and its text.
pub record Parsed : Type 0 where
  pub expr : List ℕ
  pub minutes : ℕ
  pub hours : ℕ
  pub doms : ℕ
  pub months : ℕ
  pub dows : ℕ

pub data CronError : Type 0 where
  wrong_field_count : ℕ → CronError
  invalid_step invalid_value out_of_range range_reversed endless_step : CronError
  no_such_day unknown_macro : CronError

pub data Outcome {ℓ} (A : Type ℓ) : Type ℓ where
  parsed : A → Outcome A
  refused : CronError → Outcome A

infixl 10 ◌>>=◌
abbrev ◌>>=◌ {ℓ κ} : {A : Type ℓ} {B : Type κ} → Outcome A → (A → Outcome B) → Outcome B
parsed a >>= f = f a
refused e >>= f = refused e

-- `cronField`; a field without names has none.
pub record CronField : Type 0 where
  pub least : ℕ
  pub greatest : ℕ
  pub named : List (List ℕ × ℕ)

abbrev month_names : List (List ℕ × ℕ)
month_names =
    (codes "jan", 1)
    ∷ (codes "feb", 2)
    ∷ (codes "mar", 3)
    ∷ (codes "apr", 4)
    ∷ (codes "may", 5)
    ∷ (codes "jun", 6)
    ∷ (codes "jul", 7)
    ∷ (codes "aug", 8)
    ∷ (codes "sep", 9)
    ∷ (codes "oct", 10)
    ∷ (codes "nov", 11)
    ∷ (codes "dec", 12)
    ∷ []

abbrev dow_names : List (List ℕ × ℕ)
dow_names =
    (codes "sun", 0)
    ∷ (codes "mon", 1)
    ∷ (codes "tue", 2)
    ∷ (codes "wed", 3)
    ∷ (codes "thu", 4)
    ∷ (codes "fri", 5)
    ∷ (codes "sat", 6)
    ∷ []

abbrev find_name : List ℕ → List (List ℕ × ℕ) → Option ℕ
find_name s [] = none
find_name s ((name, v) ∷ names) = if same_bytes name s then some v else find_name s names

-- The end of `parseValue`.
abbrev ranged_value : CronField → Option ℤ → Outcome ℕ
ranged_value spec none = refused invalid_value
ranged_value spec (some v) =
    if ltb_ℤ v (pos spec.least) || ltb_ℤ (pos spec.greatest) v
    then refused out_of_range
    else parsed (pos_part v)

abbrev named_value : CronField → List ℕ → Option ℕ → Outcome ℕ
named_value spec s (some v) = parsed v
named_value spec s none = ranged_value spec (atoi s)

-- `parseValue`.
unfoldable pub parse_value : List ℕ → CronField → Outcome ℕ
parse_value raw spec =
    let s = trim_space raw in named_value spec s (find_name (map lower s) spec.named)

-- `v <= hi`, `1 << uint(v)` and `v += step` on an int v, which is the 64-bit pattern of its number.
abbrev pub two_64 : ℕ
two_64 = 18446744073709551616

abbrev pub int_le : ℕ → ℕ → Bool
int_le v hi = if leb two_63 v then true else leb v hi

abbrev pub set_bit : ℕ → ℕ → ℕ
set_bit v mask = if ltb v 64 then bit_or mask (2 ^ v) else mask

-- The loop over the values, on fuel; `none` means that the fuel ran out.
unfoldable pub fill : ℕ → ℕ → ℕ → ℕ → ℕ → Option ℕ
fill zero v hi step mask = none
fill (suc fuel) v hi step mask =
    let rest = fill fuel ((v + step) % two_64) hi step (set_bit v mask) in
    if int_le v hi then rest else some mask

abbrev pub fill_fuel : ℕ
fill_fuel = 256

abbrev mask_of : Option ℕ → Outcome ℕ
mask_of (some mask) = parsed mask
mask_of none = refused endless_step

-- The end of `parsePart`, from the comparison of the bounds on.
unfoldable pub range_mask : CronField → ℕ → ℕ → ℕ → Outcome ℕ
unfolding fill
range_mask spec lo hi step =
    if ltb hi lo
    then refused range_reversed
    else if ltb lo spec.least || ltb spec.greatest hi
    then refused out_of_range
    else mask_of (fill fill_fuel lo hi step 0)

abbrev bounds_of : CronField → Bool → List ℕ → Option (List ℕ × List ℕ) → Outcome (ℕ × ℕ)
bounds_of spec has_step part (some (c ∷ cs, hi)) = do
  lo ← parse_value (c ∷ cs) spec
  top ← parse_value hi spec
  parsed (lo, top)
bounds_of spec has_step part other = do
  v ← parse_value part spec
  parsed (v, if has_step then spec.greatest else v)

-- The switch of `parsePart`: the bounds of a range. A dash at the start makes no range.
unfoldable pub part_bounds : CronField → Bool → List ℕ → Outcome (ℕ × ℕ)
part_bounds spec has_step part =
    if same_bytes part (codes "*")
    then parsed (spec.least, spec.greatest)
    else bounds_of spec has_step part (cut_at b'-' part)

abbrev positive_step : Option ℤ → Outcome ℕ
positive_step none = refused invalid_step
positive_step (some step) =
    if ltb_ℤ (pos 0) step then parsed (pos_part step) else refused invalid_step

abbrev stepped_part : CronField → List ℕ → Option (List ℕ × List ℕ) → Outcome ℕ
stepped_part spec part none = do
  bounds ← part_bounds spec false part
  range_mask spec bounds.0 bounds.1 1
stepped_part spec part (some (range_part, step_text)) = do
  step ← positive_step (atoi step_text)
  bounds ← part_bounds spec true range_part
  range_mask spec bounds.0 bounds.1 step

-- `parsePart`.
unfoldable pub parse_part : CronField → List ℕ → Outcome ℕ
parse_part spec part = stepped_part spec part (cut_at b'/' part)

-- The loop of `parseField`.
unfoldable pub parse_parts : CronField → ℕ → List (List ℕ) → Outcome ℕ
parse_parts spec mask [] = parsed mask
parse_parts spec mask (part ∷ parts) =
    parse_part spec part >>= (λ m. parse_parts spec (bit_or mask m) parts)

unfoldable pub parse_field : CronField → List ℕ → Outcome ℕ
parse_field spec field = parse_parts spec 0 (split b',' field)

-- `maxDaysPerMonth`.
abbrev pub max_days : ℕ → ℕ
max_days m = if m == 2 then 29 else if (m == 4) || (m == 6) || (m == 9) || (m == 11) then 30 else 31

-- The two loops of `validateDayMonth`, from a month and a day down to 1: whether some pair fits.
abbrev pub any_day : ℕ → ℕ → ℕ → Bool
any_day doms month zero = false
any_day doms month (suc d) =
    (bit doms (suc d) && leb (suc d) (max_days month)) || any_day doms month d

abbrev pub any_month : ℕ → ℕ → ℕ → Bool
any_month doms months zero = false
any_month doms months (suc m) =
    (bit months (suc m) && any_day doms (suc m) 31) || any_month doms months m

unfoldable pub days_fit : List ℕ → List ℕ → ℕ → ℕ → Bool
days_fit day_field month_field doms months =
    same_bytes day_field (codes "*")
    || same_bytes month_field (codes "*")
    || any_month doms months 12

abbrev fold_sunday : ℕ → ℕ
fold_sunday dows = if bit dows 7 then bit_or (dows - 2 ^ 7) 1 else dows

-- `strings.Join(fields, " ")`.
abbrev join_fields : List (List ℕ) → List ℕ
join_fields [] = []
join_fields (f ∷ []) = f
join_fields (f ∷ g ∷ fs) = f ++ (b' ' ∷ join_fields (g ∷ fs))

abbrev plain_field : ℕ → ℕ → CronField
plain_field least greatest = record { least = least; greatest = greatest; named = [] }

abbrev checked_days : List ℕ → List ℕ → Parsed → Outcome Parsed
checked_days day_field month_field s =
    if days_fit day_field month_field s.doms s.months then parsed s else refused no_such_day

abbrev parse_five : List (List ℕ) → Outcome Parsed
parse_five (m ∷ h ∷ dom ∷ mon ∷ dow ∷ []) = do
  minutes ← parse_field (plain_field 0 59) m
  hours ← parse_field (plain_field 0 23) h
  doms ← parse_field (plain_field 1 31) dom
  months ← parse_field (record { least = 1; greatest = 12; named = month_names }) mon
  dows ← parse_field (record { least = 0; greatest = 7; named = dow_names }) dow
  checked_days dom mon (record {
    expr = join_fields (m ∷ h ∷ dom ∷ mon ∷ dow ∷ []);
    minutes = minutes;
    hours = hours;
    doms = doms;
    months = months;
    dows = fold_sunday dows;
  })
parse_five other = refused (wrong_field_count (length other))

unfoldable pub parse_cron : List ℕ → Outcome Parsed
parse_cron expr = parse_five (fields expr)

-- `cronMacros`.
abbrev macro : List ℕ → Option (List ℕ)
macro s =
    if same_bytes s (codes "@yearly") || same_bytes s (codes "@annually")
    then some (codes "0 0 1 1 *")
    else if same_bytes s (codes "@monthly")
    then some (codes "0 0 1 * *")
    else if same_bytes s (codes "@weekly")
    then some (codes "0 0 * * 0")
    else if same_bytes s (codes "@daily") || same_bytes s (codes "@midnight")
    then some (codes "0 0 * * *")
    else if same_bytes s (codes "@hourly")
    then some (codes "0 * * * *")
    else none

abbrev parse_macro : Option (List ℕ) → Outcome Parsed
parse_macro none = refused unknown_macro
parse_macro (some expr) = parse_cron expr

abbrev spec_of : List ℕ → Outcome Parsed
spec_of [] = parse_cron []
spec_of (c ∷ cs) =
    if c == b'@' then parse_macro (macro (map lower (c ∷ cs))) else parse_cron (c ∷ cs)

unfoldable pub parse_cron_spec : List ℕ → Outcome Parsed
parse_cron_spec spec = spec_of (trim_space spec)
