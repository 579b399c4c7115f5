-- ===== src/Lib.antt =====
-- Oban is a job queue for Go: jobs are inserted into a store, fetched by queue, run by registered
-- workers under bounded concurrency, and then completed, retried after a backoff, or discarded.
--
-- The parts and their files:
-- - Prelude: native numbers, integers, lists, tests and the laws that the parts share. Go's integers
--   and times are integers; where a policy multiplies int64 the wrap-around is written out.
-- - Errors, Job: Go errors and how they wrap; the states of a job, the options of NewJob and the
--   queries on a job (job.go, job_query.go). A time is the number of nanoseconds since Go's zero time.
-- - JobMap, Store: the InMemoryStore (store.go) as a record that each method takes and returns, since
--   its mutex makes every method atomic. time.Now() is an argument. The map of jobs is a list with
--   distinct ids, whose order stands for the order in which range visits it. Store/Caps has the
--   optional capabilities (inmemory_caps.go), Store/Query the filters and queries (query.go,
--   inmemory_query.go), Store/Ops every call as data, so that a history is a list of calls.
-- - StoreApi: the interface Store and its capabilities over any state, which may also fail; a
--   capability that a store lacks is none. StoreApi/Memory fills it with the InMemoryStore.
-- - Insert: Insert, InsertMany and FindConflict (insert.go, batch.go, inmemory_caps.go). What
--   encoding/json prints is the parameter Json.
-- - Backoff: the constant, linear and Fibonacci policies (backoff_extra.go), and the exponential one
--   (backoff.go) in Backoff/Exponential. Float has the operations of float64 as a parameter, and what
--   IEEE 754 says of them as hypotheses.
-- - RateLimit: the token bucket (ratelimit.go).
-- - Worker: workers, registry, the chain of middleware, WorkerMiddleware and RunJob (worker.go,
--   middleware.go, worker_config.go, testing.go). A worker may change the whole state it runs in; a
--   panic is a way to end.
-- - Drain: Drain (drain.go) on the interface of a store. The loop takes fuel, one unit a round;
--   without recursion one unit is enough.
-- - Engine: New, Enqueue, EnqueueMany (batch.go), execute and the switch that settles an attempt
--   (oban.go). Engine/Steps has the goroutines as a step relation: dispatch, the end of an attempt
--   with any result or without a registered worker, and calls of the store by others in between, in
--   any order. An attempt holds a slot of its queue's semaphore. `Sparing` are the calls of others
--   that leave the jobs of attempts under way alone: a rescue, a retry or a snooze of such a job
--   makes it fetchable while its attempt runs, and then two attempts can hold it.
-- - Cron: a parsed schedule, Matches, Next and Upcoming (cron.go, cron_extra.go), and Prev in
--   Cron/Back. Cron/Calendar has what they use of Go's calendar, in UTC and whole minutes; a time
--   given to Prev also has nanoseconds, and years from 7 on. The fuel of Next and of Prev is the
--   distance to the limit. Cron/Parser has ParseCron and ParseCronSpec on the bytes of an ASCII text
--   (Cron/Text); the loop over the values of a range has 256 units of fuel, enough also where a
--   large step wraps.
-- - Plugins: one tick of the Pruner, the Lifeline and the CronPlugin, and of the engine's scheduler
--   (plugins.go, periodic.go, oban.go). The heap is a list from which a pop takes an entry with the
--   least time. The fuel of a tick is one round more than there are due entries.
-- - Events: the recorder, the telemetry hooks and the middleware that emit to it (events.go,
--   middleware.go). A recorder is a part of the world that handlers and subscribers pass on.
-- - Sql: what sqlstore.go needs of SQL. A statement is a syntax tree with its text (Sql/Text) and its
--   meaning on a table of jobs (Sql/Table); Sql/Schema has the dialects, the schema and rebind,
--   Sql/Rows jobs as rows, and Sql/Database the database, a parameter that may refuse any call.
-- - SqlStore: the statements and the methods of the SQLStore (sqlstore.go): SqlStore/Enqueue,
--   SqlStore/Fetch and SqlStore/Updates. What encoding/json prints and reads is a parameter.
--   A database in working order keeps every value exactly; of the schema's columns those of SQLite do,
--   while TIMESTAMPTZ and DATETIME(6) cut a time to microseconds, and JSONB and JSON print a text anew.
-- - Control: ControlledStore and Controller (control.go).
-- - Examples: the theorems at concrete jobs and stores.
--
-- The texts that fmt prints are parameters, and what is only logged is left out. Cancellation of a
-- context reaches the model as the error that a call returns. Not modelled: the supervisor and the
-- ticker loops of the plugins, Start and Stop of the engine, the work of the database and of
-- encoding/json, and the generator of the documentation.
pub mod Prelude
pub mod Errors
pub mod Job
pub mod JobMap
pub mod Store
pub mod Backoff
pub mod StoreApi
pub mod Insert
pub mod Worker
pub mod Drain
pub mod Engine
pub mod Control
pub mod Cron
pub mod Plugins
pub mod Events
pub mod Float
pub mod RateLimit
pub mod Sql
pub mod SqlStore
pub mod Examples
