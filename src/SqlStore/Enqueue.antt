-- ===== src/SqlStore/Enqueue.antt =====
-- `Enqueue` and `FindConflict` of the SQLStore (sqlstore.go).
use oban.Prelude.{
  ℕ, ℤ, ◌-ℤ◌, String, Bool, true, false, List, [], ◌∷◌, ◌++◌, Option, none, some, if◌then◌else◌,
}
use oban.Errors.{Err, Result, ok, err, plain, wrapped}
use oban.Job.{Job}
use oban.Store.{stored_job, is_unique, enqueue_time}
use oban.Sql.{
  SqlDialect, postgres, insert_columns, Value, text, moment, Statement, insert, state_args,
  unfinished_states,
}
use oban.Sql.Table.{Done}
use oban.Sql.Database.{Database}
use oban.Sql.Rows.{Json, scan_natural, scan_failed, marshal_history, scan_job, insert_values}
use oban.SqlStore.{commit_value, roll_back, conflict_query}

abbrev scanned_conflict : Result Job → Result (Option Job)
scanned_conflict (ok job) = ok (some job)
scanned_conflict (err e) = err (wrapped "oban: find conflict" e)

abbrev pub conflict_args : Job → ℤ → List Value
conflict_args j now =
    text j.queue ∷ text j.worker ∷ text j.unique_key ∷ state_args unfinished_states
    ++ moment (now -ℤ j.unique_period) ∷ []

abbrev inserted_id : Result (Option (List Value)) → Result ℕ
inserted_id (ok (some (v ∷ []))) = scan_natural v
inserted_id (ok (some row)) = scan_failed
inserted_id (ok none) = err (plain "sql: no rows in result set")
inserted_id (err e) = err e

abbrev insert_answer : Result ℕ → Result ℕ
insert_answer (ok id) = ok id
insert_answer (err e) = err (wrapped "oban: insert" e)

abbrev last_insert_answer : Result ℕ → Result ℕ
last_insert_answer (ok id) = ok id
last_insert_answer (err e) = err (wrapped "oban: insert: last insert id" e)

abbrev done_answer : Result Done → Result ℕ
done_answer (ok done) = last_insert_answer done.last_insert_id
done_answer (err e) = err (wrapped "oban: insert" e)

abbrev pub conflict_answer : Json → Result (Option (List Value)) → Result (Option Job)
conflict_answer json (ok none) = ok none
conflict_answer json (ok (some row)) = scanned_conflict (scan_job json row)
conflict_answer json (err e) = err (wrapped "oban: find conflict" e)

module _ {D : Type 0} (json : Json) (db : Database D) where
  -- `sqlstoreFindConflict`, given the `QueryRowContext` of a database or of a transaction.
  abbrev pub sql_find_conflict :
      (Statement → List Value → D → Result (Option (List Value)) × D)
      → Job
      → ℤ
      → D
      → Result (Option Job) × D
  sql_find_conflict query j now d =
      let r = query conflict_query (conflict_args j now) d in (conflict_answer json r.0, r.1)

  -- The id comes from RETURNING on Postgres, and from `LastInsertId` elsewhere.
  abbrev pub sql_insert_row : SqlDialect → List Value → D → Result ℕ × D
  sql_insert_row postgres values d =
      let r = db.tx_query_row (insert insert_columns true) values d in
      (insert_answer (inserted_id r.0), r.1)
  sql_insert_row _ values d =
      let r = db.tx_exec (insert insert_columns false) values d in (done_answer r.0, r.1)

  abbrev pub sql_insert_marshalled : SqlDialect → Job → Result String → D → Result ℕ × D
  sql_insert_marshalled dialect j (ok errs) d = sql_insert_row dialect (insert_values j errs) d
  sql_insert_marshalled dialect j (err e) d = (err e, d)

  -- `sqlstoreInsert`.
  abbrev pub sql_insert : SqlDialect → Job → D → Result ℕ × D
  sql_insert dialect j d = sql_insert_marshalled dialect j (marshal_history json j.errors) d

  abbrev pub enqueue_inserted : Job → Result ℕ × D → Result (Job × Bool) × D
  enqueue_inserted stored (ok id, d) =
      commit_value "oban: enqueue: commit" (record stored { id = id }, true) (db.commit d)
  enqueue_inserted stored (err e, d) = roll_back db e d

  abbrev pub enqueue_looked_up :
      SqlDialect → Job → Result (Option Job) × D → Result (Job × Bool) × D
  enqueue_looked_up dialect stored (ok none, d) =
      enqueue_inserted stored (sql_insert dialect stored d)
  enqueue_looked_up dialect stored (ok (some existing), d) =
      commit_value "oban: enqueue: commit" (existing, false) (db.commit d)
  enqueue_looked_up dialect stored (err e, d) = roll_back db e d

  abbrev pub enqueue_begun : SqlDialect → Job → ℤ → Option Err × D → Result (Job × Bool) × D
  enqueue_begun dialect stored now (some e, d) = (err (wrapped "oban: enqueue: begin" e), d)
  enqueue_begun dialect stored now (none, d) =
      if is_unique stored
      then enqueue_looked_up dialect stored (sql_find_conflict db.tx_query_row stored now d)
      else enqueue_inserted stored (sql_insert dialect stored d)

  -- The schedule, the state and the insertion time are those of the InMemoryStore's `Enqueue`.
  unfoldable pub sql_enqueue : SqlDialect → ℤ → Option Job → D → Result (Job × Bool) × D
  sql_enqueue dialect wall none d = (err (plain "oban: cannot enqueue nil job"), d)
  sql_enqueue dialect wall (some job) d =
      let now = enqueue_time wall job in
      enqueue_begun dialect (stored_job job now job.id) now (db.begin d)

  -- `FindConflict`.
  unfoldable pub find_conflict : Option Job → ℤ → D → Result (Option Job) × D
  find_conflict none now d = (ok none, d)
  find_conflict (some job) now d =
      if is_unique job then sql_find_conflict db.query_row job now d else (ok none, d)
