-- ===== src/Examples/SqlRuns.antt =====
-- The theorems on the SQLStore at a concrete database.
use oban.Prelude.{
  ℕ, ℤ, pos, ◌-ℤ◌, ◌≡◌, refl, true, false, List, [], ◌∷◌, none, some, map, str_eq, if◌then◌else◌,
  count_if, keep, not, inl, inr,
}
use oban.Errors.{Err, ok, err, plain, wrapped, message}
use oban.Job.{available, executing, AttemptError, Job, is_zero}
use oban.Store.{MemStore}
use oban.Sql.{postgres, sqlite, natural, id_col, insert_columns}
use oban.Sql.Table.{Row, Table, perform, answers, set_column, inserted_row, no_row}
use oban.Sql.Database.{Database, Works, IsTransactional, first_row}
use oban.Sql.Rows.{Json, insert_values}
use oban.Sql.Schema.{rebind, codes}
use oban.Prelude.{◌<◌}
use oban.Sql.Marks.{woven, dollar, ten_pow, IsDecimal, rebind_lem}
use oban.SqlStore.Mirror.{IsRowOf}
use oban.SqlStore.Refine.{Represents}
use oban.SqlStore.Adding.{RoundTrips}
use oban.Store as Memory
use oban.Store.{stored_job}
use oban.Store.Caps
use oban.Store.Caps.{prunable}
use oban.Store.Ops.{run}
use oban.JobMap.{get}
use oban.Sql.{mysql, finished_states}
use oban.SqlStore.Mirror.{persisted}
use oban.SqlStore.Fetch
use oban.SqlStore.Updates
use oban.SqlStore.Enqueue.{sql_enqueue}
use oban.SqlStore.Runs.{
  StoreCall, retries, fetches, cancels, AllFit, fits_retry, fits_fetch, fits_cancel, memory_call,
  sql_run, run_refines,
}
use oban.SqlStore.Fetching.{fetch_available_refines}
use oban.SqlStore.Guard
use oban.SqlStore.Guard.{finish, cancel_sticks}
use oban.SqlStore.Refine.{delete_finished_before_lem}
use oban.SqlStore.Sweeps.{IsCoherent}
use oban.SqlStore.Atomic.{TxCall, report, transactions_undo}
use oban.Examples.Data.{mail, office, office-IsValid, archive, done_at}

-- A database that keeps one table and refuses nothing.
abbrev pub keeper : Database Table
keeper = record {
  begin = λ t. (none, t);
  commit = λ t. (none, t);
  rollback = λ t. t;
  exec = λ st args t. let r = perform st args t in (ok r.0, r.1);
  exec_text = λ st t. (none, t);
  query_row = λ st args t. (ok (first_row (answers st args t)), (perform st args t).1);
  tx_exec = λ st args t. let r = perform st args t in (ok r.0, r.1);
  tx_query = λ st args t.
      (ok (record { found = answers st args t; rows_err = none }), (perform st args t).1);
  tx_query_row = λ st args t. (ok (first_row (answers st args t)), (perform st args t).1);
}

abbrev same_table : Table → Table
same_table t = t

keeper-Works : Works keeper same_table
keeper-Works = record {
  begin_ok = λ d. refl;
  begin_table = λ d. refl;
  commit_ok = λ d. refl;
  commit_table = λ d. refl;
  exec_ok = λ st args d. refl;
  exec_table = λ st args d. refl;
  query_row_ok = λ st args d. refl;
  query_row_table = λ st args d. refl;
  tx_exec_ok = λ st args d. refl;
  tx_exec_table = λ st args d. refl;
  tx_query_ok = λ st args d. refl;
  tx_query_table = λ st args d. refl;
  tx_query_row_ok = λ st args d. refl;
  tx_query_row_table = λ st args d. refl;
}

-- The one failure of the examples, and a codec that knows it.
abbrev late : Err
late = plain "too late"

abbrev late_history : List AttemptError
late_history = record { attempt = 1; at_time = pos 30; text = "too late" } ∷ []

abbrev codec : Json
codec = record {
  marshal_errors = λ es. ok "[late]";
  unmarshal_errors = λ b. ok (if str_eq b "[late]" then late_history else []);
  marshal_tags = λ tags. ok "[]";
  marshal_meta = λ meta. ok "{}";
}

abbrev row_of : Job → Row
row_of j =
    set_column id_col (natural j.id) (inserted_row insert_columns (insert_values j "[]") no_row)

abbrev office_table : Table
office_table = record { rows = map row_of office.jobs; last_id = 3 }

new_row-IsRowOf : (j : Job) → j.errors ≡ [] → IsRowOf codec (row_of j) j
new_row-IsRowOf j e = record {
  fixed = (refl, refl, refl, refl, refl, refl, refl, refl, refl);
  attempt_eq = refl;
  state_eq = refl;
  scheduled_at_eq = refl;
  attempted_at_eq = refl;
  completed_at_eq = refl;
  discarded_at_eq = refl;
  last_error_eq = refl;
  history = ("[]", refl, rw e refl);
  texts = ("[]", "{}", refl, refl);
}

office-Represents : Represents codec keeper same_table keeper-Works office_table office
office-Represents = record {
  rows = (new_row-IsRowOf _ refl, (new_row-IsRowOf _ refl, (new_row-IsRowOf _ refl, tt)));
  ids = refl;
}

no_errors : RoundTrips codec []
no_errors = record { printed = "[]"; marshalled_eq = refl; unmarshalled_eq = refl }

late_trip : RoundTrips codec late_history
late_trip = record { printed = "[late]"; marshalled_eq = refl; unmarshalled_eq = refl }

abbrev running : Job
running = record (mail 3 executing (pos 0)) { attempted_at = pos 20; attempt = 1 }

-- The running job fails, both others are fetched, and the second is cancelled.
abbrev morning : List StoreCall
morning =
    retries 3 (pos 90) late (pos 30) ∷ fetches "default" (pos 2) (pos 40) ∷ cancels 2 (pos 50) ∷ []

morning-AllFit : AllFit codec office morning
unfolding get message
morning-AllFit = (
  fits_retry 3 (pos 90) late (pos 30) running refl refl late_trip,
  (fits_fetch "default" (pos 2) (pos 40) refl, (fits_cancel 2 (pos 50) refl, tt)),
)

run_refines_example :
    Represents codec keeper same_table keeper-Works
      (sql_run codec keeper sqlite office_table morning)
      (run office (map memory_call morning))
run_refines_example =
    run_refines codec keeper same_table keeper-Works sqlite morning office_table office
      morning-AllFit office-IsValid office-Represents

fetch_available_refines_example :
    let out = Fetch.fetch_available codec keeper postgres "default" (pos 2) (pos 40) office_table in
    let m = Memory.fetch_available "default" (pos 2) (pos 40) office in
    (out.0 ≡ ok (map persisted m.0)) × Represents codec keeper same_table keeper-Works out.1 m.1
fetch_available_refines_example =
    fetch_available_refines codec keeper same_table keeper-Works postgres "default" (pos 2) (pos 40)
      office_table office refl office-IsValid office-Represents

cancel_sticks_example :
    let out =
      finish codec keeper sqlite
        (Guard.retries (pos 90) (some late))
        3
        (pos 70)
        (Updates.cancel keeper 3 (pos 60) office_table).1 in
    (out.0 ≡ none)
    × Represents codec keeper same_table keeper-Works out.1 (Caps.cancel 3 (pos 60) office).1
cancel_sticks_example =
    cancel_sticks codec keeper same_table keeper-Works sqlite 3 (pos 60) (pos 70) refl refl
      office_table office office-IsValid office-Represents (Guard.retries (pos 90) (some late))

-- The archive as a table: three completed jobs.
abbrev archive_table : Table
archive_table = record { rows = map row_of archive.jobs; last_id = 3 }

archive-Represents : Represents codec keeper same_table keeper-Works archive_table archive
archive-Represents = record {
  rows = (new_row-IsRowOf _ refl, (new_row-IsRowOf _ refl, (new_row-IsRowOf _ refl, tt)));
  ids = refl;
}

done_at-IsCoherent : (id : ℕ) (t : ℤ) → is_zero t ≡ false → IsCoherent (done_at id t)
done_at-IsCoherent id t z = record {
  completed_once = λ e. z;
  discarded_once = λ e. absurd (elim e [ inl a ↦ cc (a) | inr a ↦ cc (a) ]);
}

delete_finished_before_lem_example :
    let out = Updates.delete_finished_before keeper (pos 45) archive_table in
    let gone = prunable finished_states (pos 45) in
    (out.0 ≡ ok (count_if gone archive.jobs))
    × Represents codec keeper same_table keeper-Works out.1
        (record archive { jobs = keep (λ j. not (gone j)) archive.jobs })
delete_finished_before_lem_example =
    delete_finished_before_lem codec keeper same_table keeper-Works (pos 45) archive_table archive
      (
        done_at-IsCoherent 1 (pos 30) refl,
        (done_at-IsCoherent 2 (pos 40) refl, (done_at-IsCoherent 3 (pos 50) refl, tt)),
      )
      archive-Represents

abbrev errand : Job
errand = record (mail 0 available (pos 0)) { unique_key = "daily" }

errand_added :
    (sql_enqueue codec keeper mysql (pos 60) (some errand) office_table).0
    ≡ ok (stored_job errand (pos 10) 4, true)
unfolding sql_enqueue ◌-ℤ◌
errand_added = refl

-- A database with transactions whose updates are all refused.
pub record Session : Type 0 where
  pub shared : Table
  pub own : Table

abbrev broken : Database Session
broken = record {
  begin = λ d. (none, record d { own = d.shared });
  commit = λ d. (none, record d { shared = d.own });
  rollback = λ d. record d { own = d.shared };
  exec = λ st args d. (err late, d);
  exec_text = λ st d. (some late, d);
  query_row = λ st args d. (ok (first_row (answers st args d.shared)), d);
  tx_exec = λ st args d. (err late, record d { own = (perform st args d.own).1 });
  tx_query = λ st args d. (ok (record { found = answers st args d.own; rows_err = none }), d);
  tx_query_row = λ st args d. (ok (first_row (answers st args d.own)), d);
}

broken-IsTransactional : IsTransactional broken (λ d. d.shared)
broken-IsTransactional = record {
  begin_keeps = λ d. refl;
  rollback_keeps = λ d. refl;
  failed_commit_keeps = λ d e h. absurd (cc (h));
  tx_exec_keeps = λ st args d. refl;
  tx_query_keeps = λ st args d. refl;
  tx_query_row_keeps = λ st args d. refl;
}

abbrev office_session : Session
office_session = record { shared = office_table; own = office_table }

abbrev fetch_call : TxCall
fetch_call = TxCall.fetches "default" (pos 2) (pos 40)

fetch_refused :
    (report codec broken sqlite fetch_call office_session).0
    ≡ some (wrapped "oban: fetch: transition" late)
unfolding report Fetch.fetch_available
fetch_refused = refl

transactions_undo_example :
    (report codec broken sqlite fetch_call office_session).1.shared ≡ office_table
transactions_undo_example =
    transactions_undo codec broken (λ d. d.shared) broken-IsTransactional sqlite office_session
      (wrapped "oban: fetch: transition" late) fetch_call fetch_refused

rebind_lem_example :
    (digits : ℕ → List ℕ) × ((k : ℕ) → 0 < k → k < ten_pow 20 → IsDecimal k (digits k))
    × (rebind postgres (codes "id = ? AND state = ?")
        ≡ woven (dollar digits) 1 (codes "id = ") (codes " AND state = " ∷ [] ∷ []))
rebind_lem_example =
    rebind_lem (codes "id = ") (codes " AND state = " ∷ [] ∷ [])
      (refl, (refl, (refl, (refl, (refl, tt)))))
      (
        (
          refl,
          (
            refl,
            (
              refl,
              (refl, (refl, (refl, (refl, (refl, (refl, (refl, (refl, (refl, (refl, tt)))))))))),
            ),
          ),
        ),
        (tt, tt),
      )
