-- ===== src/SqlStore/Fetch.antt =====
-- `FetchAvailable` of the SQLStore (sqlstore.go).
use oban.Prelude.{ℕ, ℤ, pos, leb_ℤ, String, List, [], ◌∷◌, ◌++◌, Option, none, some, if◌then◌else◌}
use oban.Errors.{Err, Result, ok, err, wrapped}
use oban.Job.{executing, Job}
use oban.Store.{start_job}
use oban.Sql.{SqlDialect, Value, natural, integer, text, moment, state_args, fetchable_states}
use oban.Sql.Text.{fetch_lock}
use oban.Sql.Table.{Done}
use oban.Sql.Database.{Database, Rows}
use oban.Sql.Rows.{Json, scan_job}
use oban.SqlStore.{commit_value, roll_back, fetch_query, start_update, state_value}

abbrev pub fetch_args : String → ℤ → ℤ → List Value
fetch_args queue limit now =
    text queue ∷ state_args fetchable_states ++ moment now ∷ integer limit ∷ []

abbrev pub start_args : ℤ → ℕ → List Value
start_args now id = state_value executing ∷ moment now ∷ natural id ∷ []

-- The error that ended a loop, if any, and what the loop has built.
abbrev scan_next : Result Job → Result (List Job) → Result (List Job)
scan_next (ok job) (ok jobs) = ok (job ∷ jobs)
scan_next (ok job) (err e) = err e
scan_next (err e) rest = err (wrapped "oban: fetch: scan" e)

abbrev rows_checked : Option Err → Result (List Job)
rows_checked none = ok []
rows_checked (some e) = err (wrapped "oban: fetch: rows" e)

module _ {D : Type 0} (json : Json) (db : Database D) where
  -- The loop over `rows.Next`, and `rows.Err` after it.
  abbrev pub scan_rows : List (List Value) → Option Err → Result (List Job)
  scan_rows [] rows_err = rows_checked rows_err
  scan_rows (row ∷ rows) rows_err = scan_next (scan_job json row) (scan_rows rows rows_err)

  abbrev pub scan_found : Result Rows → Result (List Job)
  scan_found (ok rows) = scan_rows rows.found rows.rows_err
  scan_found (err e) = err (wrapped "oban: fetch: select" e)

  abbrev pub start_next : Result Done × D → Job → Result (List Job) × D → Result (List Job) × D
  start_next (ok done, d) j (ok js, d') = (ok (j ∷ js), d')
  start_next (ok done, d) j (err e, d') = (err e, d')
  start_next (err e, d) j rest = (err (wrapped "oban: fetch: transition" e), d)

  -- The loop that starts the jobs, and the return from it at the first failure.
  abbrev pub start_rows : ℤ → List Job → D → Result (List Job) × D
  start_rows now [] d = (ok [], d)
  start_rows now (j ∷ js) d =
      let r = db.tx_exec start_update (start_args now j.id) d in
      start_next r (start_job now j) (start_rows now js r.1)

  abbrev pub fetch_finished : Result (List Job) × D → Result (List Job) × D
  fetch_finished (ok jobs, d) = commit_value "oban: fetch: commit" jobs (db.commit d)
  fetch_finished (err e, d) = roll_back db e d

  abbrev pub fetch_scanned : ℤ → Result (List Job) → D → Result (List Job) × D
  fetch_scanned now (ok jobs) d = fetch_finished (start_rows now jobs d)
  fetch_scanned now (err e) d = roll_back db e d

  abbrev pub fetch_begun : SqlDialect → String → ℤ → ℤ → Option Err × D → Result (List Job) × D
  fetch_begun dialect queue limit now (some e, d) = (err (wrapped "oban: fetch: begin" e), d)
  fetch_begun dialect queue limit now (none, d) =
      let r = db.tx_query (fetch_query (fetch_lock dialect)) (fetch_args queue limit now) d in
      fetch_scanned now (scan_found r.0) r.1

  unfoldable pub fetch_available : SqlDialect → String → ℤ → ℤ → D → Result (List Job) × D
  fetch_available dialect queue limit now d =
      if leb_ℤ limit (pos 0) then (ok [], d) else fetch_begun dialect queue limit now (db.begin d)
