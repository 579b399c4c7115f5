-- ===== src/SqlStore/Lookup.antt =====
-- `Get` and `FindConflict` of the SQLStore (sqlstore.go) on a database in working order, and `Get`
-- after `Enqueue`.
use oban.Prelude.{
  ℕ, suc, ◌≡◌, refl, sym, ap, ◌∙◌, subst, ℤ, Bool, true, false, ◌&&◌, ◌==◌, List, [], ◌∷◌, Option,
  none, some, map, sort_by, arith,
}
use oban.Errors.{Result, ok, err, err_job_not_found}
use oban.Job.{Job}
use oban.JobMap.{get, put, get-put}
use oban.Store as Memory
use oban.Store.{MemStore, enqueue_time, stored_job, found_job, is_unique, conflicts}
use oban.Store.Invariant.{IsValid, enqueue-IsValid}
use oban.Store.Unique.{enqueue-Outcome, merged, added}
use oban.Sql.{SqlDialect, natural, select_columns}
use oban.Sql.Table.{Row, Table, row_before, read_columns}
use oban.Sql.Database.{Database, Works, first_row}
use oban.Sql.Rows.{Json}
use oban.SqlStore.{get_query}
use oban.SqlStore.Enqueue.{sql_enqueue}
use oban.SqlStore.Updates
use oban.SqlStore.Updates.{got_row}
use oban.SqlStore.Mirror.{Mirrors, Mirrors-keep, Mirrors-sort_by, persisted, scan_job-IsRowOf}
use oban.SqlStore.Changes.{always, id_alone, id_test}
use oban.SqlStore.Keyed.{keep-held, held}
use oban.SqlStore.Refine.{Represents}
use oban.SqlStore.Adding.{RoundTrips, enqueue_refines, same, both_merged}

-- What `Get` answers for the job that the map holds.
abbrev pub answer_of : Option Job → Result Job
answer_of none = err err_job_not_found
answer_of (some j) = ok (persisted j)

module _ {D : Type 0} (json : Json) (db : Database D) where
  got_lem :
      (rs : List Row) (js : List Job) (o : Option Job) (id : ℕ)
      → Mirrors json rs js
      → js ≡ held id always o
      → got_row json db (ok (first_row (map (read_columns select_columns) rs))) ≡ answer_of o
  got_lem [] js none id m e = refl
  got_lem [] [] (some j) id m e = absurd (cc)
  got_lem [] (i ∷ js) (some j) id m e = absurd m
  got_lem (r ∷ rs) [] o id m e = absurd m
  got_lem (r ∷ rs) (i ∷ js) none id m e = absurd (cc)
  got_lem (r ∷ rs) (i ∷ js) (some j) id m e = rw (scan_job-IsRowOf json r i m.0) (ground (arith, e))

  module _ (table : D → Table) (w : Works db table) (d : D) (s : MemStore) (v : IsValid s)
      (r : Represents json db table w d s) where
    -- Get answers the job that the InMemoryStore holds under the id, as a row keeps it, or that there
    -- is none.
    pub get_job_lem : (id : ℕ) → (Updates.get_job json db id d).0 ≡ answer_of (get id s.jobs)
    unfolding Updates.get_job
    get_job_lem id = rw (w.query_row_ok get_query (natural id ∷ []) d) (
        got_lem _ (sort_by (λ a b. false) (held id always (get id s.jobs))) (get id s.jobs) id
          (Mirrors-sort_by json (row_before []) (λ a b. false) (λ q q' j j' h h'. refl) _ _
            (subst (Mirrors json _) (keep-held id always s.jobs v.distinct) (
              Mirrors-keep json _ (λ j. (j.id == id) && always j)
                (λ q j h. id_alone (id_test json h id)) (table d).rows s.jobs r.rows)))
          (sorted_held (get id s.jobs)))
      where
        sorted_held :
            (o : Option Job) → sort_by (λ a b. false) (held id always o) ≡ held id always o
        sorted_held none = refl
        sorted_held (some j) = refl

not_merged : (a b : Job) → ◌≡◌ {A = Result (Job × Bool)} (ok (a, true)) (ok (b, false)) → ⊥
not_merged a b e = cc (e)

module _ {D : Type 0} (json : Json) (db : Database D) (table : D → Table) (w : Works db table)
    (dialect : SqlDialect) (wall : ℤ) (job : Job) (d : D) (s : MemStore)
    (trip : RoundTrips json job.errors) (v : IsValid s) (r : Represents json db table w d s) where
  abbrev stored : Job
  stored = stored_job job (enqueue_time wall job) (suc s.next_id)

  memory_added :
      (sql_enqueue json db dialect wall (some job) d).0 ≡ ok (stored, true)
      → (Memory.enqueue wall (some job) s).1.jobs ≡ put stored s.jobs
  memory_added e = elim (enqueue-Outcome wall job s) [
    | added _ m ↦ ap (λ (o : Result (Job × Bool) × MemStore). o.1.jobs) m
    | merged x _ _ _ m ↦
        absurd (elim (enqueue_refines json db table w dialect wall job d s trip v r).0 [
          | same q ↦
              not_merged stored x (sym e ∙ q ∙ ap (λ (o : Result (Job × Bool) × MemStore). o.0) m)
          | both_merged y z _ _ q _ ↦ not_merged stored (persisted y) (sym e ∙ q)
        ])
  ]

  stored_under : get (suc s.next_id) (put stored s.jobs) ≡ some stored
  stored_under = ground (arith, get-put (suc s.next_id) stored s.jobs)

  -- A job that Enqueue has added is what Get reads under its id: every field comes back, but for the
  -- relative delay, which is spent, and empty arguments, which are read as an empty object.
  pub enqueue-get_job :
      (sql_enqueue json db dialect wall (some job) d).0 ≡ ok (stored, true)
      → (Updates.get_job json db
          (suc s.next_id)
          (sql_enqueue json db dialect wall (some job) d).1).0
        ≡ ok (persisted stored)
  enqueue-get_job e =
      get_job_lem json db table w (sql_enqueue json db dialect wall (some job) d).1
        (Memory.enqueue wall (some job) s).1 (enqueue-IsValid wall (some job) s v)
        (enqueue_refines json db table w dialect wall job d s trip v r).1 (suc s.next_id)
      ∙ ap answer_of (ap (get (suc s.next_id)) (memory_added e) ∙ stored_under)
