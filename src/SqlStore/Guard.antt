-- ===== src/SqlStore/Guard.antt =====
-- The guard of the SQLStore (sqlstore.go): a job that an operator took away from its runner stays as
-- the operator left it.
use oban.Prelude.{ℕ, ◌≡◌, ℤ, Option, none, some, false, Option-cases, Bool-cases, inl, inr, arith}
use oban.Errors.{Err}
use oban.Job.{Job, is_finished, is_zero}
use oban.JobMap.{get, get-put, get-id}
use oban.Store.{MemStore}
use oban.Store.Caps
use oban.Store.Caps.{mark_cancelled}
use oban.Store.Invariant.{IsValid, cancel-IsValid}
use oban.Sql.{SqlDialect}
use oban.Sql.Table.{Table}
use oban.Sql.Database.{Database, Works}
use oban.Sql.Rows.{Json}
use oban.SqlStore.Updates
use oban.SqlStore.Changes.{is_executing}
use oban.SqlStore.Refine.{Represents, cancel_refines, complete_guarded}
use oban.SqlStore.Failing.{sql_fail_guarded}

-- What a finishing runner calls.
pub data Finish : Type 0 where
  completes : Finish
  retries : ℤ → Option Err → Finish
  discards : Option Err → Finish

unfoldable pub finish :
    {D : Type 0} → Json → Database D → SqlDialect → Finish → ℕ → ℤ → D → Option Err × D
finish json db dialect completes id now = Updates.complete db id now
finish json db dialect (retries at e) id now = Updates.retry json db dialect id at e now
finish json db dialect (discards e) id now = Updates.discard json db dialect id e now

module _ {D : Type 0} (json : Json) (db : Database D) (table : D → Table) (w : Works db table)
    (dialect : SqlDialect) (id : ℕ) (now : ℤ) (z : is_zero now ≡ false) (d : D) (s : MemStore)
    (v : IsValid s) (r : Represents json db table w d s) where
  -- Complete, Retry and Discard of a job that is not executing, or not there, report no error and
  -- change nothing.
  pub finish_guarded :
      (call : Finish)
      → ((j : Job) → get id s.jobs ≡ some j → is_executing j ≡ false)
      → let out = finish json db dialect call id now d in
        (out.0 ≡ none) × Represents json db table w out.1 s
  unfolding finish Updates.retry Updates.discard
  finish_guarded completes n = complete_guarded json db table w id now d s z v r n
  finish_guarded (retries at e) n =
      sql_fail_guarded json db table w dialect (Updates.retry_failure at e now) id d s v r n
  finish_guarded (discards e) n =
      sql_fail_guarded json db table w dialect (Updates.discard_failure e now) id d s v r n

cancelled_idle :
    (id : ℕ) (now : ℤ) (s : MemStore) (j : Job)
    → get id (Caps.cancel id now s).1.jobs ≡ some j
    → is_executing j ≡ false
unfolding Caps.cancel
cancelled_idle id now s j g = elim (Option-cases (get id s.jobs)) [
  | inl n ↦ absurd (cc (n, rw n at g))
  | inr (i, e) ↦ elim (Bool-cases (is_finished i.state)) [
    | inl f ↦ ground (arith, e, f, rw (e, f) at g)
    | inr f ↦
        ground
          (arith, f, rw (e, f) at g, get-put id (mark_cancelled now i) s.jobs, get-id id s.jobs i e)
  ]
]

module _ {D : Type 0} (json : Json) (db : Database D) (table : D → Table) (w : Works db table)
    (dialect : SqlDialect) (id : ℕ) (now later : ℤ) (z : is_zero now ≡ false)
    (z' : is_zero later ≡ false) (d : D) (s : MemStore) (v : IsValid s)
    (r : Represents json db table w d s) where
  -- A cancellation sticks: after a Cancel that came while the job was running, the Complete, Retry or
  -- Discard of its runner reports no error and leaves the job as Cancel left it.
  pub cancel_sticks :
      (call : Finish)
      → let cancelled_db = (Updates.cancel db id now d).1 in
        let out = finish json db dialect call id later cancelled_db in
        (out.0 ≡ none) × Represents json db table w out.1 (Caps.cancel id now s).1
  cancel_sticks call =
      finish_guarded json db table w dialect id later z' (Updates.cancel db id now d).1
        (Caps.cancel id now s).1 (cancel-IsValid id now s v)
        (cancel_refines json db table w id now d s z v r).1 call (cancelled_idle id now s)
