-- ===== src/SqlStore/Retrying.antt =====
-- `Retry` and `Discard` of the SQLStore (sqlstore.go) on an executing job, beside those of the
-- InMemoryStore (store.go).
use oban.Prelude.{
  ℕ, ◌≡◌, refl, ap, subst, ℤ, String, true, false, List, [], ◌∷◌, Option, none, some,
}
use oban.Errors.{Err, Result, ok, err}
use oban.Job.{Job, AttemptError, is_zero}
use oban.JobMap.{get, put}
use oban.Store as Memory
use oban.Store.{MemStore, mark_retryable, mark_discarded}
use oban.Store.Invariant.{IsValid}
use oban.Sql.{SqlDialect, Value, natural, text}
use oban.Sql.Table.{Row, Table, assigned}
use oban.Sql.Database.{Database, Works, first_row}
use oban.Sql.Rows.{Json, unmarshal_history}
use oban.SqlStore.{fail_update, fail_sets}
use oban.SqlStore.Updates
use oban.SqlStore.Updates.{
  Failure, fail_args, history_after, sql_fail, fail_selected, fail_scanned, fail_marshalled,
  scan_history, retry_failure, discard_failure,
}
use oban.SqlStore.Mirror.{IsRowOf, Mirrors, null_time_pos}
use oban.SqlStore.Changes.{is_executing}
use oban.SqlStore.Keyed.{change_matched}
use oban.SqlStore.Refine.{Represents}
use oban.SqlStore.Adding.{RoundTrips}
use oban.SqlStore.Failing.{
  history-Mirrors, fail-Mirrors, one_read, read_lem, read-Represents, commit-Represents, read_out,
  held_one,
}

some_row :
    {row row' : List Value}
    → ◌≡◌ {A = Result (Option (List Value))} (ok (some row)) (ok (some row'))
    → row ≡ row'
some_row e = cc (e)

module _ (json : Json) {D : Type 0} (db : Database D) (table : D → Table) (w : Works db table)
    (dialect : SqlDialect) (f : Failure) (id : ℕ) (d : D) (s : MemStore) (j : Job) (g : Job → Job)
    (v : IsValid s) (r : Represents json db table w d s) (stored : get id s.jobs ≡ some j)
    (runs : is_executing j ≡ true) (keeps : (g j).id ≡ j.id)
    (trip : RoundTrips json (history_after f.last_err j.attempt f.at_time j.errors))
    (fits : (q : Row)
      → IsRowOf json q j
      → IsRowOf json
          (assigned (fail_sets f.ts_column) q (fail_args f trip.printed id)).0
          (g j)) where
  abbrev written : D → D
  written e = (db.tx_exec (fail_update f.ts_column) (fail_args f trip.printed id) e).1

  written-Represents :
      (e : D)
      → Represents json db table w e s
      → Represents json db table w (written e) (record s { jobs = put (g j) s.jobs })
  written-Represents e q = record {
    rows = rw (w.tx_exec_table (fail_update f.ts_column) (fail_args f trip.printed id) e) (
        subst (Mirrors json _)
          (change_matched id is_executing g s.jobs j v.distinct stored runs keeps)
          (fail-Mirrors json f id trip.printed g j (table e) s.jobs v.distinct stored fits q.rows));
    ids = rw (w.tx_exec_table (fail_update f.ts_column) (fail_args f trip.printed id) e) q.ids;
  }

  row_found :
      (out : Result (Option (List Value)) × D) (errs : String)
      → out.0 ≡ ok (some (text errs ∷ natural j.attempt ∷ []))
      → unmarshal_history json errs ≡ ok j.errors
      → Represents json db table w out.1 s
      → let c = fail_selected json db f id out in
        (c.0 ≡ none) × Represents json db table w c.1 (record s { jobs = put (g j) s.jobs })
  row_found (ok (some row), e) errs h u q =
      let same = some_row h in
      rw
        (
          same,
          u,
          trip.marshalled_eq,
          w.tx_exec_ok (fail_update f.ts_column) (fail_args f trip.printed id) e,
          w.commit_ok (written e),
        )
        (
          refl,
          commit-Represents json db table w dialect f id d s v r (written e)
              (record s { jobs = put (g j) s.jobs }) (written-Represents e q),
        )
  row_found (ok none, e) errs h u q = absurd (cc)
  row_found (err x, e) errs h u q = absurd (cc)

  sql_fail_lem :
      let out = sql_fail json db dialect f id d in
      (out.0 ≡ none) × Represents json db table w out.1 (record s { jobs = put (g j) s.jobs })
  unfolding sql_fail
  sql_fail_lem =
      let one =
        one_read json _ _ j (history-Mirrors json id (table d).rows s.jobs v.distinct r.rows)
          (held_one id (get id s.jobs) j stored runs) in
      rw (w.begin_ok d) (
        row_found (read_out json db table w dialect f id d s v r) one.0
          (read_lem json db table w dialect f id d s v r
            (some (text one.0 ∷ natural j.attempt ∷ [])) (ap first_row one.1))
          one.2 (read-Represents json db table w dialect f id d s v r))

-- What the history of a job becomes when an attempt fails.
abbrev pub failed_history : Err → ℤ → Job → List AttemptError
failed_history e now j = history_after (some e) j.attempt now j.errors

module _ (json : Json) {D : Type 0} (db : Database D) (table : D → Table) (w : Works db table)
    (dialect : SqlDialect) (id : ℕ) (e : Err) (now : ℤ) (d : D) (s : MemStore) (v : IsValid s)
    (r : Represents json db table w d s) (j : Job) (stored : get id s.jobs ≡ some j)
    (runs : is_executing j ≡ true) (trip : RoundTrips json (failed_history e now j)) where
  pub retry_refines :
      (scheduled_at : ℤ)
      → let out = Updates.retry json db dialect id scheduled_at (some e) now d in
        let m = Memory.retry id scheduled_at (some e) now s in
        (out.0 ≡ m.0) × Represents json db table w out.1 m.1
  unfolding Updates.retry Memory.retry
  retry_refines scheduled_at = rw stored (
      sql_fail_lem json db table w dialect (retry_failure scheduled_at (some e) now) id d s j
        (mark_retryable scheduled_at (some e) now) v r stored runs refl trip
        (λ q h. record {
          fixed = h.fixed;
          attempt_eq = h.attempt_eq;
          state_eq = refl;
          scheduled_at_eq = refl;
          attempted_at_eq = h.attempted_at_eq;
          completed_at_eq = h.completed_at_eq;
          discarded_at_eq = h.discarded_at_eq;
          last_error_eq = refl;
          history = (trip.printed, refl, trip.unmarshalled_eq);
          texts = h.texts;
        }))

  pub discard_refines :
      is_zero now ≡ false
      → let out = Updates.discard json db dialect id (some e) now d in
        let m = Memory.discard id (some e) now s in
        (out.0 ≡ m.0) × Represents json db table w out.1 m.1
  unfolding Updates.discard Memory.discard
  discard_refines z = rw stored (
      sql_fail_lem json db table w dialect (discard_failure (some e) now) id d s j
        (mark_discarded (some e) now) v r stored runs refl trip
        (λ q h. record {
          fixed = h.fixed;
          attempt_eq = h.attempt_eq;
          state_eq = refl;
          scheduled_at_eq = h.scheduled_at_eq;
          attempted_at_eq = h.attempted_at_eq;
          completed_at_eq = h.completed_at_eq;
          discarded_at_eq = null_time_pos now z;
          last_error_eq = refl;
          history = (trip.printed, refl, trip.unmarshalled_eq);
          texts = h.texts;
        }))
