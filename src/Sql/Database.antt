-- ===== src/Sql/Database.antt =====
-- `database/sql`, as far as sqlstore.go calls it: a database over a state that its calls change, and
-- what a database in working order does. A driver may refuse any call.
use oban.Prelude.{ℕ, ◌≡◌, List, [], ◌∷◌, Option, none, some}
use oban.Errors.{Err, Result, ok}
use oban.Sql.{Value, Statement}
use oban.Sql.Table.{Table, Done, perform, answers}

-- What `QueryContext` gives: the rows one by one, and the error that `rows.Err` reports at the end.
pub record Rows : Type 0 where
  pub found : List (List Value)
  pub rows_err : Option Err

-- `ExecContext` and `QueryRowContext` of `*sql.DB` commit at once; those of `*sql.Tx`, here with
-- the prefix tx, belong to the transaction. `QueryRowContext(...).Scan` reports `sql.ErrNoRows` where
-- there is no row, which is `none` here. `exec_text` runs a text that has no marks.
pub record Database (D : Type 0) : Type 0 where
  pub begin : D → Option Err × D
  pub commit : D → Option Err × D
  pub rollback : D → D
  pub exec : Statement → List Value → D → Result Done × D
  pub exec_text : List ℕ → D → Option Err × D
  pub query_row : Statement → List Value → D → Result (Option (List Value)) × D
  pub tx_exec : Statement → List Value → D → Result Done × D
  pub tx_query : Statement → List Value → D → Result Rows × D
  pub tx_query_row : Statement → List Value → D → Result (Option (List Value)) × D

abbrev pub first_row : List (List Value) → Option (List Value)
first_row [] = none
first_row (r ∷ rs) = some r

-- A database in working order, seen through its table: it refuses nothing, and each statement has
-- the effect and the answer that SQL gives it, on columns that keep every value exactly.
pub record Works {D : Type 0} (db : Database D) (table : D → Table) : Type 0 where
  pub begin_ok : (d : D) → (db.begin d).0 ≡ none
  pub begin_table : (d : D) → table (db.begin d).1 ≡ table d
  pub commit_ok : (d : D) → (db.commit d).0 ≡ none
  pub commit_table : (d : D) → table (db.commit d).1 ≡ table d
  pub exec_ok :
      (st : Statement) (args : List Value) (d : D)
      → (db.exec st args d).0 ≡ ok (perform st args (table d)).0
  pub exec_table :
      (st : Statement) (args : List Value) (d : D)
      → table (db.exec st args d).1 ≡ (perform st args (table d)).1
  pub query_row_ok :
      (st : Statement) (args : List Value) (d : D)
      → (db.query_row st args d).0 ≡ ok (first_row (answers st args (table d)))
  pub query_row_table :
      (st : Statement) (args : List Value) (d : D)
      → table (db.query_row st args d).1 ≡ (perform st args (table d)).1
  pub tx_exec_ok :
      (st : Statement) (args : List Value) (d : D)
      → (db.tx_exec st args d).0 ≡ ok (perform st args (table d)).0
  pub tx_exec_table :
      (st : Statement) (args : List Value) (d : D)
      → table (db.tx_exec st args d).1 ≡ (perform st args (table d)).1
  pub tx_query_ok :
      (st : Statement) (args : List Value) (d : D)
      → (db.tx_query st args d).0
        ≡ ok (record { found = answers st args (table d); rows_err = none })
  pub tx_query_table :
      (st : Statement) (args : List Value) (d : D)
      → table (db.tx_query st args d).1 ≡ (perform st args (table d)).1
  pub tx_query_row_ok :
      (st : Statement) (args : List Value) (d : D)
      → (db.tx_query_row st args d).0 ≡ ok (first_row (answers st args (table d)))
  pub tx_query_row_table :
      (st : Statement) (args : List Value) (d : D)
      → table (db.tx_query_row st args d).1 ≡ (perform st args (table d)).1

-- Transactions of a database whose calls may fail, seen through its committed table: what others
-- see changes at a commit that succeeds, and at no other call of a transaction.
pub record IsTransactional {D : Type 0} (db : Database D) (committed : D → Table) : Type 0 where
  pub begin_keeps : (d : D) → committed (db.begin d).1 ≡ committed d
  pub rollback_keeps : (d : D) → committed (db.rollback d) ≡ committed d
  pub failed_commit_keeps :
      (d : D) (e : Err) → (db.commit d).0 ≡ some e → committed (db.commit d).1 ≡ committed d
  pub tx_exec_keeps :
      (st : Statement) (args : List Value) (d : D)
      → committed (db.tx_exec st args d).1 ≡ committed d
  pub tx_query_keeps :
      (st : Statement) (args : List Value) (d : D)
      → committed (db.tx_query st args d).1 ≡ committed d
  pub tx_query_row_keeps :
      (st : Statement) (args : List Value) (d : D)
      → committed (db.tx_query_row st args d).1 ≡ committed d
