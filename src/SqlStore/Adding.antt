-- ===== src/SqlStore/Adding.antt =====
-- `Enqueue` of the SQLStore (sqlstore.go) beside that of the InMemoryStore (store.go), on a database
-- in working order.
use oban.Prelude.{
  ℕ, suc, ◌≡◌, ◌≢◌, refl, ap, ◌∙◌, ℤ, String, Bool, true, false, inl, inr, List, Option, none, some,
  All, In, Bool-cases, arith,
}
use oban.Prelude.Laws.{All-weaken}
use oban.Errors.{Result, ok, err}
use oban.Job.{Job, AttemptError}
use oban.JobMap.{put}
use oban.Store as Memory
use oban.Store.{MemStore, enqueue_time, stored_job, is_unique, find_unique, conflicts}
use oban.Store.Invariant.{IsValid, IsIssued}
use oban.Store.Unique.{Blocks, conflicts→Blocks}
use oban.Sql.{SqlDialect, postgres, sqlite, mysql, unknown_dialect, insert, insert_columns}
use oban.Sql.Table.{Table, perform}
use oban.Sql.Database.{Database, Works}
use oban.Sql.Rows.{Json, marshal_history, unmarshal_history, insert_values}
use oban.SqlStore.{conflict_query}
use oban.SqlStore.Enqueue.{
  sql_enqueue, sql_insert, sql_insert_row, enqueue_inserted, enqueue_looked_up, sql_find_conflict,
  conflict_args,
}
use oban.SqlStore.Mirror.{Mirrors, Mirrors-append, persisted}
use oban.SqlStore.Keyed.{put-append}
use oban.SqlStore.Refine.{Represents}
use oban.SqlStore.Conflict.{
  Blocking-all, clear, blocked, conflict_answer_lem, first_blocking, blocking,
}

-- The JSON of a history exists and is read as the history.
pub record RoundTrips (json : Json) (es : List AttemptError) : Type 0 where
  pub printed : String
  pub marshalled_eq : marshal_history json es ≡ ok printed
  pub unmarshalled_eq : unmarshal_history json printed ≡ ok es

-- The two ways in which the calls of the two stores answer: both with the same result, or both
-- with a stored job that stands in the way.
pub data SameAnswer (job : Job) (now : ℤ) (s : MemStore) (out m : Result (Job × Bool))
    : Type 0 where
  same : out ≡ m → SameAnswer job now s out m
  both_merged :
      (x y : Job)
      → In x s.jobs
      → Blocks job now x
      → out ≡ ok (persisted x, false)
      → m ≡ ok (y, false)
      → SameAnswer job now s out m

fresh_ids : (n : ℕ) (js : List Job) → All (IsIssued n) js → All (λ i. i.id ≢ suc n) js
fresh_ids n js h = All-weaken (IsIssued n) (λ i. i.id ≢ suc n) js (λ j k. omega arith) h

module _ {D : Type 0} (json : Json) (db : Database D) (table : D → Table) (w : Works db table) where
  abbrev added : Job → MemStore → MemStore
  added stored s = record s { jobs = put stored s.jobs; next_id = suc s.next_id }

  insert-Mirrors :
      (b : Bool) (j : Job) (t : Table) (s : MemStore) (errs : String)
      → unmarshal_history json errs ≡ ok j.errors
      → IsValid s
      → Mirrors json t.rows s.jobs
      → t.last_id ≡ s.next_id
      → Mirrors json
          (perform (insert insert_columns b) (insert_values j errs) t).1.rows
          (put (record j { id = suc s.next_id }) s.jobs)
  insert-Mirrors b j t s errs e v m n =
      rw (put-append (record j { id = suc s.next_id }) s.jobs (fresh_ids s.next_id s.jobs v.issued))
        (Mirrors-append json t.rows s.jobs _ (record j { id = suc s.next_id }) m
          (record {
            fixed = (rw n refl, refl, refl, refl, refl, refl, refl, refl, refl);
            attempt_eq = refl;
            state_eq = refl;
            scheduled_at_eq = refl;
            attempted_at_eq = refl;
            completed_at_eq = refl;
            discarded_at_eq = refl;
            last_error_eq = refl;
            history = (errs, refl, e);
            texts = ("[]", "{}", refl, refl);
          }))

  module _ (j : Job) (s : MemStore) (d : D) (trip : RoundTrips json j.errors) (v : IsValid s)
      (r : Represents json db table w d s) where
    executed :
        let out = sql_insert_row json db sqlite (insert_values j trip.printed) d in
        (out.0 ≡ ok (suc s.next_id))
        × Represents json db table w out.1 (added (record j { id = suc s.next_id }) s)
    executed =
        let st = insert insert_columns false in
        let values = insert_values j trip.printed in
        rw (w.tx_exec_ok st values d, r.ids)
          (
            refl,
            record {
              rows = rw (w.tx_exec_table st values d) (
                  insert-Mirrors false j (table d) s trip.printed trip.unmarshalled_eq v r.rows
                    r.ids);
              ids = rw (w.tx_exec_table st values d) (ground (arith, r.ids));
            },
          )

    insert_row-Represents :
        (dialect : SqlDialect)
        → let out = sql_insert_row json db dialect (insert_values j trip.printed) d in
          (out.0 ≡ ok (suc s.next_id))
          × Represents json db table w out.1 (added (record j { id = suc s.next_id }) s)
    insert_row-Represents postgres =
        let st = insert insert_columns true in
        let values = insert_values j trip.printed in
        rw (w.tx_query_row_ok st values d, r.ids)
          (
            refl,
            record {
              rows = rw (w.tx_query_row_table st values d) (
                  insert-Mirrors true j (table d) s trip.printed trip.unmarshalled_eq v r.rows
                    r.ids);
              ids = rw (w.tx_query_row_table st values d) (ground (arith, r.ids));
            },
          )
    insert_row-Represents sqlite = executed
    insert_row-Represents mysql = executed
    insert_row-Represents unknown_dialect = executed

    pub insert-Represents :
        (dialect : SqlDialect)
        → let out = sql_insert json db dialect j d in
          (out.0 ≡ ok (suc s.next_id))
          × Represents json db table w out.1 (added (record j { id = suc s.next_id }) s)
    insert-Represents dialect = rw trip.marshalled_eq (insert_row-Represents dialect)

  commit-Represents :
      (e : D) (t : MemStore)
      → Represents json db table w e t
      → Represents json db table w (db.commit e).1 t
  commit-Represents e t q = record {
    rows = rw (w.commit_table e) q.rows;
    ids = rw (w.commit_table e) q.ids;
  }

  begun-Represents :
      (d : D) (s : MemStore)
      → Represents json db table w d s
      → Represents json db table w (db.begin d).1 s
  begun-Represents d s q = record {
    rows = rw (w.begin_table d) q.rows;
    ids = rw (w.begin_table d) q.ids;
  }

  finished :
      (stored : Job) (id : ℕ) (out : Result ℕ × D) (t : MemStore)
      → out.0 ≡ ok id
      → Represents json db table w out.1 t
      → let f = enqueue_inserted json db stored out in
        (f.0 ≡ ok (record stored { id = id }, true)) × Represents json db table w f.1 t
  finished stored id (ok n, e) t h q =
      rw (w.commit_ok e) (ground (arith, h), commit-Represents e t q)
  finished stored id (err x, e) t h q = absurd (cc)

  looked_up :
      (job : Job) (now : ℤ) (d : D) (s : MemStore)
      → is_unique job ≡ true
      → Represents json db table w d s
      → let out = sql_find_conflict json db db.tx_query_row job now d in
        (out.0 ≡ first_blocking json (blocking job now s.jobs)) × Represents json db table w out.1 s
  looked_up job now d s u r = rw (w.tx_query_row_ok conflict_query (conflict_args job now) d) (
    conflict_answer_lem json job now (table d) s.jobs u r.rows,
    record {
      rows = rw (w.tx_query_row_table conflict_query (conflict_args job now) d) r.rows;
      ids = rw (w.tx_query_row_table conflict_query (conflict_args job now) d) r.ids;
    },
  )

  module _ (dialect : SqlDialect) (wall : ℤ) (job : Job) (d : D) (s : MemStore)
      (trip : RoundTrips json job.errors) (v : IsValid s) (r : Represents json db table w d s) where
    abbrev now : ℤ
    now = enqueue_time wall job

    abbrev stored : Job
    stored = stored_job job now job.id

    inserted :
        (e : D)
        → Represents json db table w e s
        → let out = enqueue_inserted json db stored (sql_insert json db dialect stored e) in
          (out.0 ≡ ok (stored_job job now (suc s.next_id), true))
          × Represents json db table w out.1 (added (stored_job job now (suc s.next_id)) s)
    inserted e q =
        let out = insert-Represents stored s e trip v q dialect in
        finished stored (suc s.next_id) (sql_insert json db dialect stored e)
          (added (stored_job job now (suc s.next_id)) s) out.0 out.1

    free :
        (out : Result (Option Job) × D)
        → out.0 ≡ ok none
        → Represents json db table w out.1 s
        → let f = enqueue_looked_up json db dialect stored out in
          (f.0 ≡ ok (stored_job job now (suc s.next_id), true))
          × Represents json db table w f.1 (added (stored_job job now (suc s.next_id)) s)
    free (ok none, e) h q = inserted e q
    free (ok (some x), e) h q = absurd (cc)
    free (err x, e) h q = absurd (cc)

    taken :
        (out : Result (Option Job) × D) (x : Job)
        → out.0 ≡ ok (some x)
        → Represents json db table w out.1 s
        → let f = enqueue_looked_up json db dialect stored out in
          (f.0 ≡ ok (x, false)) × Represents json db table w f.1 s
    taken (ok none, e) x h q = absurd (cc)
    taken (ok (some y), e) x h q = rw (w.commit_ok e) (ground (arith, h), commit-Represents e s q)
    taken (err y, e) x h q = absurd (cc)

    -- Enqueue adds a job exactly when the InMemoryStore adds it, under the same id and with the same
    -- answer, and otherwise answers a stored job that stands in its way.
    pub enqueue_refines :
        let out = sql_enqueue json db dialect wall (some job) d in
        let m = Memory.enqueue wall (some job) s in
        SameAnswer job now s out.0 m.0 × Represents json db table w out.1 m.1
    unfolding sql_enqueue Memory.enqueue
    enqueue_refines = elim (Bool-cases (is_unique job)) [
      | inr e ↦
          let out = inserted (db.begin d).1 (begun-Represents d s r) in
          rw (w.begin_ok d, e) (same out.0, out.1)
      | inl e ↦
          let look = looked_up stored now (db.begin d).1 s e (begun-Represents d s r) in
          elim (Blocking-all job now s.jobs) [
            | clear k n ↦
                let out =
                  free (sql_find_conflict json db db.tx_query_row stored now (db.begin d).1)
                    (look.0 ∙ ap (first_blocking json) k) look.1 in
                rw (w.begin_ok d, e, n) (same out.0, out.1)
            | blocked x xs y k i c f ↦
                let out =
                  taken (sql_find_conflict json db db.tx_query_row stored now (db.begin d).1)
                    (persisted x) (look.0 ∙ ap (first_blocking json) k) look.1 in
                rw (w.begin_ok d, e, f)
                  (both_merged x y i (conflicts→Blocks job now x c) out.0 refl, out.1)
          ]
    ]
