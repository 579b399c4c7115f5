-- ===== src/Examples/SqlTexts.antt =====
-- The texts of the statements of sqlstore.go, as the source spells them.
use oban.Prelude.{◌≡◌, refl, true}
use oban.Sql.{postgres, sqlite, mysql, insert, insert_columns, scheduled_at_col}
use oban.Sql.Text.{statement_text, fetch_lock, row_lock}
use oban.Sql.Schema.{codes, rebind, itoa, create_index}
use oban.SqlStore.{
  conflict_query, fetch_query, start_update, complete_update, history_query, fail_update, get_query,
  prune_delete, rescue_update, cancel_update, delete_id, retry_now_update, tags_update,
}

fetch_text :
    statement_text "oban_jobs" (fetch_query (fetch_lock postgres))
    ≡ "SELECT id, queue, worker, args, max_attempts, attempt, priority, state, scheduled_at, inserted_at, attempted_at, completed_at, discarded_at, unique_key, unique_period_ns, last_error, errors, tags, meta FROM oban_jobs WHERE queue = ? AND state IN (?, ?, ?) AND scheduled_at <= ? ORDER BY priority ASC, scheduled_at ASC, id ASC LIMIT ? FOR UPDATE SKIP LOCKED"
fetch_text = refl

conflict_text :
    statement_text "jobs" conflict_query
    ≡ "SELECT id, queue, worker, args, max_attempts, attempt, priority, state, scheduled_at, inserted_at, attempted_at, completed_at, discarded_at, unique_key, unique_period_ns, last_error, errors, tags, meta FROM jobs WHERE queue = ? AND worker = ? AND unique_key = ? AND state IN (?, ?, ?, ?) AND inserted_at >= ? ORDER BY id ASC LIMIT 1"
conflict_text = refl

get_text :
    statement_text "jobs" get_query
    ≡ "SELECT id, queue, worker, args, max_attempts, attempt, priority, state, scheduled_at, inserted_at, attempted_at, completed_at, discarded_at, unique_key, unique_period_ns, last_error, errors, tags, meta FROM jobs WHERE id = ?"
get_text = refl

insert_text :
    statement_text "jobs" (insert insert_columns true)
    ≡ "INSERT INTO jobs (queue, worker, args, max_attempts, attempt, priority, state, scheduled_at, inserted_at, attempted_at, completed_at, discarded_at, unique_key, unique_period_ns, last_error, errors, tags, meta) VALUES (?, ?, ?, ?, ?, ?, ?, ?, ?, ?, ?, ?, ?, ?, ?, ?, ?, ?) RETURNING id"
insert_text = refl

start_text :
    statement_text "jobs" start_update
    ≡ "UPDATE jobs SET state = ?, attempt = attempt + 1, attempted_at = ? WHERE id = ?"
start_text = refl

complete_text :
    statement_text "jobs" complete_update
    ≡ "UPDATE jobs SET state = ?, completed_at = ? WHERE id = ? AND state = ?"
complete_text = refl

history_text :
    statement_text "jobs" (history_query (row_lock mysql))
    ≡ "SELECT errors, attempt FROM jobs WHERE id = ? AND state = ? FOR UPDATE"
history_text = refl

fail_text :
    statement_text "jobs" (fail_update scheduled_at_col)
    ≡ "UPDATE jobs SET state = ?, scheduled_at = ?, last_error = ?, errors = ? WHERE id = ? AND state = ?"
fail_text = refl

prune_text :
    statement_text "jobs" prune_delete
    ≡ "DELETE FROM jobs WHERE state IN (?, ?, ?) AND COALESCE(completed_at, discarded_at, inserted_at) < ?"
prune_text = refl

rescue_text :
    statement_text "jobs" rescue_update
    ≡ "UPDATE jobs SET state = CASE WHEN attempt < max_attempts THEN ? ELSE ? END, scheduled_at = CASE WHEN attempt < max_attempts THEN ? ELSE scheduled_at END, discarded_at = CASE WHEN attempt < max_attempts THEN discarded_at ELSE ? END WHERE state = ? AND attempted_at < ?"
rescue_text = refl

cancel_text :
    statement_text "jobs" cancel_update
    ≡ "UPDATE jobs SET state = ?, discarded_at = ? WHERE id = ? AND state NOT IN (?, ?, ?)"
cancel_text = refl

delete_text : statement_text "jobs" delete_id ≡ "DELETE FROM jobs WHERE id = ?"
delete_text = refl

retry_now_text :
    statement_text "jobs" retry_now_update
    ≡ "UPDATE jobs SET state = ?, scheduled_at = ?, completed_at = NULL, discarded_at = NULL WHERE id = ?"
retry_now_text = refl

tags_text : statement_text "jobs" tags_update ≡ "UPDATE jobs SET tags = ?, meta = ? WHERE id = ?"
tags_text = refl

rebound :
    rebind postgres (codes "UPDATE jobs SET tags = ?, meta = ? WHERE id = ?")
    ≡ codes "UPDATE jobs SET tags = $1, meta = $2 WHERE id = $3"
unfolding rebind
rebound = refl

index_text :
    create_index sqlite "app.jobs" "fetch" "queue, state, priority, scheduled_at, id"
    ≡ codes
        "CREATE INDEX IF NOT EXISTS idx_app_jobs_fetch ON app.jobs (queue, state, priority, scheduled_at, id)"
index_text = refl

numbers : itoa 1207 ≡ codes "1207"
unfolding itoa
numbers = refl
