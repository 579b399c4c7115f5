-- ===== src/SqlStore/Atomic.antt =====
-- The error paths of the SQLStore's transactions (sqlstore.go), on a database that may refuse any call.
use oban.Prelude.{
  ℕ, ◌≡◌, refl, sym, ap, ◌∙◌, ℤ, pos, leb_ℤ, String, Bool, true, false, List, [], ◌∷◌, Option, none,
  some, if_both,
}
use oban.Errors.{Err, Result, ok, err}
use oban.Job.{Job, AttemptError}
use oban.Store.{start_job, stored_job, enqueue_time, is_unique}
use oban.Sql.{SqlDialect, postgres, sqlite, mysql, unknown_dialect, Value, insert, insert_columns}
use oban.Sql.Text.{fetch_lock, row_lock}
use oban.Sql.Table.{Table, Done}
use oban.Sql.Database.{Database, IsTransactional}
use oban.Sql.Rows.{Json, marshal_history, unmarshal_history, insert_values}
use oban.SqlStore.{
  commit_value, start_update, fetch_query, conflict_query, fail_update, history_query,
}
use oban.SqlStore.Fetch
use oban.SqlStore.Fetch.{
  start_rows, start_args, start_next, fetch_begun, fetch_scanned, fetch_finished, scan_found,
  fetch_args,
}
use oban.SqlStore.Enqueue.{
  sql_enqueue, enqueue_begun, enqueue_looked_up, enqueue_inserted, sql_insert, sql_insert_row,
  sql_insert_marshalled, sql_find_conflict, conflict_args,
}
use oban.SqlStore.Updates.{
  Failure, sql_fail, retry, discard, retry_failure, discard_failure, fail_begun, fail_selected,
  fail_scanned, fail_history, fail_marshalled, fail_updated, fail_committed, fail_args,
  history_after, scan_history,
}
use oban.SqlStore.Failing.{history_args}

module _ {D : Type 0} (json : Json) (db : Database D) (committed : D → Table)
    (tx : IsTransactional db committed) (c : Table) where
  -- A call that reports an error leaves the committed table `c` as it was.
  abbrev Atomic : {A : Type 0} → Result A × D → Type 0
  Atomic out = (e : Err) → out.0 ≡ err e → committed out.1 ≡ c

  commit_value-Atomic :
      {A : Type 0} (what : String) (a : A) (e : D) (out : Option Err × D)
      → db.commit e ≡ out
      → committed e ≡ c
      → Atomic (commit_value what a out)
  commit_value-Atomic what a e (none, d) q k x h = absurd (cc)
  commit_value-Atomic what a e (some y, d) q k x h =
      ap (λ (r : Option Err × D). committed r.1) (sym q)
      ∙ tx.failed_commit_keeps e y (ap (λ (r : Option Err × D). r.0) q)
      ∙ k

  start_next-keeps :
      (r : Result Done × D) (j : Job) (rest : Result (List Job) × D)
      → committed r.1 ≡ c
      → committed rest.1 ≡ c
      → committed (start_next json db r j rest).1 ≡ c
  start_next-keeps (ok x, d) j (ok js, d') k l = l
  start_next-keeps (ok x, d) j (err e, d') k l = l
  start_next-keeps (err e, d) j rest k l = k

  start_rows-keeps :
      (now : ℤ) (js : List Job) (d : D)
      → committed d ≡ c
      → committed (start_rows json db now js d).1 ≡ c
  start_rows-keeps now [] d k = k
  start_rows-keeps now (j ∷ js) d k =
      let sent = tx.tx_exec_keeps start_update (start_args now j.id) d ∙ k in
      start_next-keeps (db.tx_exec start_update (start_args now j.id) d) (start_job now j)
        (start_rows json db now js (db.tx_exec start_update (start_args now j.id) d).1) sent
        (start_rows-keeps now js (db.tx_exec start_update (start_args now j.id) d).1 sent)

  fetch_finished-Atomic :
      (out : Result (List Job) × D) → committed out.1 ≡ c → Atomic (fetch_finished json db out)
  fetch_finished-Atomic (ok js, d) k =
      commit_value-Atomic "oban: fetch: commit" js d (db.commit d) refl k
  fetch_finished-Atomic (err e, d) k = λ x h. tx.rollback_keeps d ∙ k

  fetch_scanned-Atomic :
      (now : ℤ) (r : Result (List Job)) (d : D)
      → committed d ≡ c
      → Atomic (fetch_scanned json db now r d)
  fetch_scanned-Atomic now (ok js) d k =
      fetch_finished-Atomic (start_rows json db now js d) (start_rows-keeps now js d k)
  fetch_scanned-Atomic now (err e) d k = λ x h. tx.rollback_keeps d ∙ k

  fetch_begun-Atomic :
      (dialect : SqlDialect) (queue : String) (limit now : ℤ) (r : Option Err × D)
      → committed r.1 ≡ c
      → Atomic (fetch_begun json db dialect queue limit now r)
  fetch_begun-Atomic dialect queue limit now (some e, d) k = λ x h. k
  fetch_begun-Atomic dialect queue limit now (none, d) k =
      let r = db.tx_query (fetch_query (fetch_lock dialect)) (fetch_args queue limit now) d in
      fetch_scanned-Atomic now (scan_found json db r.0) r.1
        (tx.tx_query_keeps (fetch_query (fetch_lock dialect)) (fetch_args queue limit now) d ∙ k)

  insert_row-keeps :
      (dialect : SqlDialect) (values : List Value) (d : D)
      → committed d ≡ c
      → committed (sql_insert_row json db dialect values d).1 ≡ c
  insert_row-keeps postgres values d k =
      tx.tx_query_row_keeps (insert insert_columns true) values d ∙ k
  insert_row-keeps sqlite values d k = tx.tx_exec_keeps (insert insert_columns false) values d ∙ k
  insert_row-keeps mysql values d k = tx.tx_exec_keeps (insert insert_columns false) values d ∙ k
  insert_row-keeps unknown_dialect values d k =
      tx.tx_exec_keeps (insert insert_columns false) values d ∙ k

  insert-keeps :
      (dialect : SqlDialect) (j : Job) (r : Result String) (d : D)
      → committed d ≡ c
      → committed (sql_insert_marshalled json db dialect j r d).1 ≡ c
  insert-keeps dialect j (ok errs) d k = insert_row-keeps dialect (insert_values j errs) d k
  insert-keeps dialect j (err e) d k = k

  enqueue_inserted-Atomic :
      (stored : Job) (out : Result ℕ × D)
      → committed out.1 ≡ c
      → Atomic (enqueue_inserted json db stored out)
  enqueue_inserted-Atomic stored (ok id, d) k =
      commit_value-Atomic "oban: enqueue: commit" (record stored { id = id }, true) d (db.commit d)
        refl k
  enqueue_inserted-Atomic stored (err e, d) k = λ x h. tx.rollback_keeps d ∙ k

  enqueue_new-Atomic :
      (dialect : SqlDialect) (stored : Job) (d : D)
      → committed d ≡ c
      → Atomic (enqueue_inserted json db stored (sql_insert json db dialect stored d))
  enqueue_new-Atomic dialect stored d k =
      enqueue_inserted-Atomic stored (sql_insert json db dialect stored d)
        (insert-keeps dialect stored (marshal_history json stored.errors) d k)

  enqueue_looked_up-Atomic :
      (dialect : SqlDialect) (stored : Job) (out : Result (Option Job) × D)
      → committed out.1 ≡ c
      → Atomic (enqueue_looked_up json db dialect stored out)
  enqueue_looked_up-Atomic dialect stored (ok none, d) k = enqueue_new-Atomic dialect stored d k
  enqueue_looked_up-Atomic dialect stored (ok (some x), d) k =
      commit_value-Atomic "oban: enqueue: commit" (x, false) d (db.commit d) refl k
  enqueue_looked_up-Atomic dialect stored (err e, d) k = λ x h. tx.rollback_keeps d ∙ k

  enqueue_begun-Atomic :
      (dialect : SqlDialect) (stored : Job) (now : ℤ) (r : Option Err × D)
      → committed r.1 ≡ c
      → Atomic (enqueue_begun json db dialect stored now r)
  enqueue_begun-Atomic dialect stored now (some e, d) k = λ x h. k
  enqueue_begun-Atomic dialect stored now (none, d) k =
      if_both {A = Result (Job × Bool) × D} (λ out. Atomic out) (is_unique stored)
        (λ _.
          enqueue_looked_up-Atomic dialect stored
            (sql_find_conflict json db db.tx_query_row stored now d)
            (tx.tx_query_row_keeps conflict_query (conflict_args stored now) d ∙ k))
        (λ _. enqueue_new-Atomic dialect stored d k)

  -- The same for a call that returns only an error.
  abbrev Unchanged : Option Err × D → Type 0
  Unchanged out = (e : Err) → out.0 ≡ some e → committed out.1 ≡ c

  commit-Unchanged :
      (e : D) (out : Option Err × D) → db.commit e ≡ out → committed e ≡ c → Unchanged out
  commit-Unchanged e (none, d) q k x h = absurd (cc)
  commit-Unchanged e (some y, d) q k x h =
      ap (λ (r : Option Err × D). committed r.1) (sym q)
      ∙ tx.failed_commit_keeps e y (ap (λ (r : Option Err × D). r.0) q)
      ∙ k

  fail_committed-Unchanged :
      (f : Failure) (out : Option Err × D)
      → Unchanged out
      → Unchanged (fail_committed json db f out)
  fail_committed-Unchanged f (none, d) u x h = absurd (cc)
  fail_committed-Unchanged f (some y, d) u x h = u y refl

  fail_updated-Unchanged :
      (f : Failure) (out : Result Done × D)
      → committed out.1 ≡ c
      → Unchanged (fail_updated json db f out)
  fail_updated-Unchanged f (ok x, d) k =
      fail_committed-Unchanged f (db.commit d) (commit-Unchanged d (db.commit d) refl k)
  fail_updated-Unchanged f (err e, d) k = λ x h. tx.rollback_keeps d ∙ k

  fail_marshalled-Unchanged :
      (f : Failure) (id : ℕ) (r : Result String) (d : D)
      → committed d ≡ c
      → Unchanged (fail_marshalled json db f id r d)
  fail_marshalled-Unchanged f id (ok errs) d k =
      fail_updated-Unchanged f (db.tx_exec (fail_update f.ts_column) (fail_args f errs id) d)
        (tx.tx_exec_keeps (fail_update f.ts_column) (fail_args f errs id) d ∙ k)
  fail_marshalled-Unchanged f id (err e) d k = λ x h. tx.rollback_keeps d ∙ k

  fail_history-Unchanged :
      (f : Failure) (id attempt : ℕ) (r : Result (List AttemptError)) (d : D)
      → committed d ≡ c
      → Unchanged (fail_history json db f id attempt r d)
  fail_history-Unchanged f id attempt (ok es) d k =
      fail_marshalled-Unchanged f id
        (marshal_history json (history_after f.last_err attempt f.at_time es)) d k
  fail_history-Unchanged f id attempt (err e) d k = λ x h. tx.rollback_keeps d ∙ k

  fail_scanned-Unchanged :
      (f : Failure) (id : ℕ) (r : Result (String × ℕ)) (d : D)
      → committed d ≡ c
      → Unchanged (fail_scanned json db f id r d)
  fail_scanned-Unchanged f id (ok (errs, attempt)) d k =
      fail_history-Unchanged f id attempt (unmarshal_history json errs) d k
  fail_scanned-Unchanged f id (err e) d k = λ x h. tx.rollback_keeps d ∙ k

  fail_selected-Unchanged :
      (f : Failure) (id : ℕ) (out : Result (Option (List Value)) × D)
      → committed out.1 ≡ c
      → Unchanged (fail_selected json db f id out)
  fail_selected-Unchanged f id (ok none, d) k = commit-Unchanged d (db.commit d) refl k
  fail_selected-Unchanged f id (ok (some row), d) k =
      fail_scanned-Unchanged f id (scan_history row) d k
  fail_selected-Unchanged f id (err e, d) k = λ x h. tx.rollback_keeps d ∙ k

  fail_begun-Unchanged :
      (dialect : SqlDialect) (f : Failure) (id : ℕ) (out : Option Err × D)
      → committed out.1 ≡ c
      → Unchanged (fail_begun json db dialect f id out)
  fail_begun-Unchanged dialect f id (some e, d) k = λ x h. k
  fail_begun-Unchanged dialect f id (none, d) k =
      fail_selected-Unchanged f id
        (db.tx_query_row (history_query (row_lock dialect)) (history_args id) d)
        (tx.tx_query_row_keeps (history_query (row_lock dialect)) (history_args id) d ∙ k)

-- The calls that work in a transaction, and the error that each reports.
pub data TxCall : Type 0 where
  enqueues : ℤ → Option Job → TxCall
  fetches : String → ℤ → ℤ → TxCall
  retries : ℕ → ℤ → Option Err → ℤ → TxCall
  discards : ℕ → Option Err → ℤ → TxCall

abbrev error_of {ℓ} : {A : Type ℓ} → Result A → Option Err
error_of (ok a) = none
error_of (err e) = some e

unfoldable pub report : {D : Type 0} → Json → Database D → SqlDialect → TxCall → D → Option Err × D
report json db dialect (enqueues wall job) d =
    let out = sql_enqueue json db dialect wall job d in (error_of out.0, out.1)
report json db dialect (fetches queue limit now) d =
    let out = Fetch.fetch_available json db dialect queue limit now d in (error_of out.0, out.1)
report json db dialect (retries id at e now) d = retry json db dialect id at e now d
report json db dialect (discards id e now) d = discard json db dialect id e now d

error_of-some {ℓ} : {A : Type ℓ} (r : Result A) (e : Err) → error_of r ≡ some e → r ≡ err e
error_of-some (ok a) e h = absurd (cc)
error_of-some (err x) e h = ap (λ y. err y) (cc (h))

module _ {D : Type 0} (json : Json) (db : Database D) (committed : D → Table)
    (tx : IsTransactional db committed) (dialect : SqlDialect) (d : D) (e : Err) where
  -- A call that works in a transaction and reports an error leaves the committed table as it was,
  -- whichever call of the database failed, and whatever the database answered.
  pub transactions_undo :
      (call : TxCall)
      → (report json db dialect call d).0 ≡ some e
      → committed (report json db dialect call d).1 ≡ committed d
  unfolding report sql_enqueue Fetch.fetch_available retry discard sql_fail
  transactions_undo (enqueues wall none) h = refl
  transactions_undo (enqueues wall (some j)) h =
      let now = enqueue_time wall j in
      enqueue_begun-Atomic json db committed tx (committed d) dialect (stored_job j now j.id) now
        (db.begin d) (tx.begin_keeps d) e (error_of-some _ e h)
  transactions_undo (fetches queue limit now) h =
      if_both {A = Result (List Job) × D} (λ out. out.0 ≡ err e → committed out.1 ≡ committed d)
        (leb_ℤ limit (pos 0)) (λ _ g. refl)
        (λ _.
          fetch_begun-Atomic json db committed tx (committed d) dialect queue limit now (db.begin d)
            (tx.begin_keeps d) e)
        (error_of-some _ e h)
  transactions_undo (retries id at f now) h =
      fail_begun-Unchanged json db committed tx (committed d) dialect (retry_failure at f now) id
        (db.begin d) (tx.begin_keeps d) e h
  transactions_undo (discards id f now) h =
      fail_begun-Unchanged json db committed tx (committed d) dialect (discard_failure f now) id
        (db.begin d) (tx.begin_keeps d) e h
