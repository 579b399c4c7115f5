-- ===== src/Sql/Table.antt =====
-- What the statements mean: the tables of a database as lists of rows, and the effect and answer of
-- a statement on them, as SQL describes it. NULL meets no comparison.
use oban.Prelude.{
  ℕ, zero, suc, ◌==◌, pos, pos_part, eqb_ℤ, ltb_ℤ, Bool, true, false, ◌&&◌, ◌||◌, not, List, [],
  ◌∷◌, ◌++◌, map, keep, take, sort_by, count_if, ltb, if◌then◌else◌, str_eq,
}
use oban.Errors.{Result, ok}
use oban.Sql.{
  Column, column_eq, id_col, Value, null, natural, integer, text, moment, Expr, mark, null_value,
  this_column, one_more, when_below, Cond, equals, at_least, at_most, below, one_of, none_of,
  coalesce_below, Limit, no_limit, one_row, limit_mark, Statement, select, update, delete, insert,
}

abbrev pub Row : Type 0
Row = Column → Value

pub record Table : Type 0 where
  pub rows : List Row
  pub last_id : ℕ

abbrev pub set_column : Column → Value → Row → Row
set_column c v r = λ d. if column_eq c d then v else r d

abbrev pub value_eq : Value → Value → Bool
value_eq (natural m) (natural n) = m == n
value_eq (integer m) (integer n) = eqb_ℤ m n
value_eq (text s) (text t) = str_eq s t
value_eq (moment t) (moment u) = eqb_ℤ t u
value_eq _ _ = false

-- `<`. A natural and an integer are both numbers of the database; texts are not ordered here.
abbrev pub value_below : Value → Value → Bool
value_below (natural m) (natural n) = ltb m n
value_below (natural m) (integer n) = ltb_ℤ (pos m) n
value_below (integer m) (natural n) = ltb_ℤ m (pos n)
value_below (integer m) (integer n) = ltb_ℤ m n
value_below (moment t) (moment u) = ltb_ℤ t u
value_below _ _ = false

abbrev pub value_at_most : Value → Value → Bool
value_at_most v w = value_below v w || value_eq v w

abbrev pub is_null : Value → Bool
is_null null = true
is_null _ = false

abbrev pub coalesce : List Column → Row → Value
coalesce [] r = null
coalesce (c ∷ cs) r = if is_null (r c) then coalesce cs r else r c

abbrev pub plus_one : Value → Value
plus_one (natural n) = natural (suc n)
plus_one _ = null

-- The value of the next mark, and the values of the marks after it.
abbrev pub next_arg : List Value → Value × List Value
next_arg [] = (null, [])
next_arg (v ∷ vs) = (v, vs)

abbrev pub expr_value : Expr → Row → List Value → Value × List Value
expr_value mark r args = next_arg args
expr_value null_value r args = (null, args)
expr_value (this_column c) r args = (r c, args)
expr_value (one_more c) r args = (plus_one (r c), args)
expr_value (when_below a b e f) r args =
    let first = expr_value e r args in
    let second = expr_value f r first.1 in
    (if value_below (r a) (r b) then first.0 else second.0, second.1)

-- The right sides read the old row.
abbrev pub assigned : List (Column × Expr) → Row → List Value → Row × List Value
assigned [] r args = (r, args)
assigned ((c, e) ∷ sets) r args =
    let v = expr_value e r args in
    let rest = assigned sets r v.1 in (set_column c v.0 (λ d. rest.0 d), rest.1)

-- `IN` with n marks.
abbrev pub eq_one_of : ℕ → Value → List Value → Bool × List Value
eq_one_of zero v args = (false, args)
eq_one_of (suc n) v args =
    let rest = eq_one_of n v (next_arg args).1 in (value_eq v (next_arg args).0 || rest.0, rest.1)

abbrev pub cond_holds : Cond → Row → List Value → Bool × List Value
cond_holds (equals c) r args = (value_eq (r c) (next_arg args).0, (next_arg args).1)
cond_holds (at_least c) r args = (value_at_most (next_arg args).0 (r c), (next_arg args).1)
cond_holds (at_most c) r args = (value_at_most (r c) (next_arg args).0, (next_arg args).1)
cond_holds (below c) r args = (value_below (r c) (next_arg args).0, (next_arg args).1)
cond_holds (one_of c n) r args = eq_one_of n (r c) args
cond_holds (none_of c n) r args =
    let found = eq_one_of n (r c) args in (not (is_null (r c)) && not found.0, found.1)
cond_holds (coalesce_below cs) r args =
    (value_below (coalesce cs r) (next_arg args).0, (next_arg args).1)

abbrev pub all_hold : List Cond → Row → List Value → Bool × List Value
all_hold [] r args = (true, args)
all_hold (c ∷ cs) r args =
    let first = cond_holds c r args in
    let rest = all_hold cs r first.1 in (first.0 && rest.0, rest.1)

-- `ORDER BY c ASC, ...`.
abbrev pub row_before : List Column → Row → Row → Bool
row_before [] a b = false
row_before (c ∷ cs) a b =
    if not (value_eq (a c) (b c)) then value_below (a c) (b c) else row_before cs a b

abbrev limit_value : Value → ℕ
limit_value (integer n) = pos_part n
limit_value _ = 0

abbrev pub limited {ℓ} : {A : Type ℓ} → Limit → Value → List A → List A
limited no_limit v xs = xs
limited one_row v xs = take 1 xs
limited limit_mark v xs = take (limit_value v) xs

abbrev pub read_columns : List Column → Row → List Value
read_columns cols r = map (λ c. r c) cols

-- The marks of the conditions come before the one of the limit. Which marks the
-- conditions use up does not depend on the row.
abbrev pub no_row : Row
no_row c = null

abbrev pub selected : List Cond → List Column → Limit → List Value → Table → List Row
selected conds order limit args t =
    limited limit (next_arg (all_hold conds no_row args).1).0
      (sort_by (row_before order) (keep (λ r. (all_hold conds r args).0) t.rows))

abbrev pub updated_row : List (Column × Expr) → List Cond → List Value → Row → Row
updated_row sets conds args r =
    let new = assigned sets r args in if (all_hold conds r new.1).0 then new.0 else r

abbrev pub is_updated : List (Column × Expr) → List Cond → List Value → Row → Bool
is_updated sets conds args r = (all_hold conds r (assigned sets r args).1).0

abbrev pub inserted_row : List Column → List Value → Row → Row
inserted_row [] vs r = r
inserted_row (c ∷ cs) vs r = set_column c (next_arg vs).0 (inserted_row cs (next_arg vs).1 r)

-- The `sql.Result` of a statement: what `RowsAffected` and `LastInsertId` return.
pub record Done : Type 0 where
  pub rows_affected : Result ℕ
  pub last_insert_id : Result ℕ

abbrev done : ℕ → ℕ → Done
done affected id = record { rows_affected = ok affected; last_insert_id = ok id }

-- The effect of a statement. A new row gets the next id.
abbrev pub perform : Statement → List Value → Table → Done × Table
perform (select cols conds order limit lock) args t = (done 0 0, t)
perform (update sets conds) args t = (
  done (count_if (is_updated sets conds args) t.rows) 0,
  record t { rows = map (updated_row sets conds args) t.rows },
)
perform (delete conds) args t = (
  done (count_if (λ r. (all_hold conds r args).0) t.rows) 0,
  record t { rows = keep (λ r. not (all_hold conds r args).0) t.rows },
)
perform (insert cols returning) args t = (
  done 1 (suc t.last_id),
  record {
    rows =
        t.rows ++ set_column id_col (natural (suc t.last_id)) (inserted_row cols args no_row) ∷ [];
    last_id = suc t.last_id;
  },
)

-- The rows that a statement answers.
abbrev pub answers : Statement → List Value → Table → List (List Value)
answers (select cols conds order limit lock) args t =
    map (read_columns cols) (selected conds order limit args t)
answers (insert cols true) args t = (natural (suc t.last_id) ∷ []) ∷ []
answers _ args t = []
