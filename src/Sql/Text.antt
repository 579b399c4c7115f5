-- ===== src/Sql/Text.antt =====
-- The texts of the statements (sqlstore.go): how the methods write a statement for a table, and how
-- `sqlstoreRebind` numbers its marks for Postgres.
use Prim.Native.String.{◌++◌}
use oban.Prelude.{ℕ, zero, suc, String, List, [], ◌∷◌, map, if◌then◌else◌}
use oban.Sql.{
  SqlDialect, postgres, mysql, Column, id_col, queue_col, worker_col, args_col, max_attempts_col,
  attempt_col, priority_col, state_col, scheduled_at_col, inserted_at_col, attempted_at_col,
  completed_at_col, discarded_at_col, unique_key_col, unique_period_col, last_error_col, errors_col,
  tags_col, meta_col, Expr, mark, null_value, this_column, one_more, when_below, Cond, equals,
  at_least, at_most, below, one_of, none_of, coalesce_below, Limit, no_limit, one_row, limit_mark,
  Lock, no_lock, for_update, skip_locked, Statement, select, update, delete, insert,
}

abbrev pub column_name : Column → String
column_name id_col = "id"
column_name queue_col = "queue"
column_name worker_col = "worker"
column_name args_col = "args"
column_name max_attempts_col = "max_attempts"
column_name attempt_col = "attempt"
column_name priority_col = "priority"
column_name state_col = "state"
column_name scheduled_at_col = "scheduled_at"
column_name inserted_at_col = "inserted_at"
column_name attempted_at_col = "attempted_at"
column_name completed_at_col = "completed_at"
column_name discarded_at_col = "discarded_at"
column_name unique_key_col = "unique_key"
column_name unique_period_col = "unique_period_ns"
column_name last_error_col = "last_error"
column_name errors_col = "errors"
column_name tags_col = "tags"
column_name meta_col = "meta"

-- `strings.Join`.
abbrev pub join : String → List String → String
join sep [] = ""
join sep (s ∷ []) = s
join sep (s ∷ t ∷ ss) = s ++ (sep ++ join sep (t ∷ ss))

abbrev pub marks : ℕ → List String
marks zero = []
marks (suc n) = "?" ∷ marks n

abbrev pub expr_text : Expr → String
expr_text mark = "?"
expr_text null_value = "NULL"
expr_text (this_column c) = column_name c
expr_text (one_more c) = column_name c ++ " + 1"
expr_text (when_below a b e f) =
    "CASE WHEN "
    ++ (column_name a
        ++ (" < "
            ++ (column_name b
                ++ (" THEN " ++ (expr_text e ++ (" ELSE " ++ (expr_text f ++ " END")))))))

abbrev pub cond_text : Cond → String
cond_text (equals c) = column_name c ++ " = ?"
cond_text (at_least c) = column_name c ++ " >= ?"
cond_text (at_most c) = column_name c ++ " <= ?"
cond_text (below c) = column_name c ++ " < ?"
cond_text (one_of c n) = column_name c ++ (" IN (" ++ (join ", " (marks n) ++ ")"))
cond_text (none_of c n) = column_name c ++ (" NOT IN (" ++ (join ", " (marks n) ++ ")"))
cond_text (coalesce_below cs) = "COALESCE(" ++ (join ", " (map column_name cs) ++ ") < ?")

abbrev pub where_text : List Cond → String
where_text conds = " WHERE " ++ join " AND " (map cond_text conds)

abbrev pub assign_text : Column × Expr → String
assign_text (c, e) = column_name c ++ (" = " ++ expr_text e)

abbrev pub order_text : List Column → String
order_text [] = ""
order_text (c ∷ cs) = " ORDER BY " ++ join ", " (map (λ d. column_name d ++ " ASC") (c ∷ cs))

abbrev pub limit_text : Limit → String
limit_text no_limit = ""
limit_text one_row = " LIMIT 1"
limit_text limit_mark = " LIMIT ?"

abbrev pub lock_text : Lock → String
lock_text no_lock = ""
lock_text for_update = " FOR UPDATE"
lock_text skip_locked = " FOR UPDATE SKIP LOCKED"

abbrev pub length_columns : List Column → ℕ
length_columns [] = 0
length_columns (c ∷ cs) = suc (length_columns cs)

-- The text of a statement on a table, before its marks are rewritten.
abbrev pub statement_text : String → Statement → String
statement_text table (select cols conds order limit lock) =
    "SELECT "
    ++ (join ", " (map column_name cols)
        ++ (" FROM "
            ++ (table
                ++ (where_text conds
                    ++ (order_text order ++ (limit_text limit ++ lock_text lock))))))
statement_text table (update sets conds) =
    "UPDATE " ++ (table ++ (" SET " ++ (join ", " (map assign_text sets) ++ where_text conds)))
statement_text table (delete conds) = "DELETE FROM " ++ (table ++ where_text conds)
statement_text table (insert cols returning) =
    "INSERT INTO "
    ++ (table
        ++ (" ("
            ++ (join ", " (map column_name cols)
                ++ (") VALUES ("
                    ++ (join ", " (marks (length_columns cols))
                        ++ (if returning then ") RETURNING id" else ")"))))))

-- `sqlstoreForUpdate` and `sqlstoreLockRow`.
abbrev pub fetch_lock : SqlDialect → Lock
fetch_lock postgres = skip_locked
fetch_lock mysql = skip_locked
fetch_lock _ = no_lock

abbrev pub row_lock : SqlDialect → Lock
row_lock postgres = for_update
row_lock mysql = for_update
row_lock _ = no_lock
