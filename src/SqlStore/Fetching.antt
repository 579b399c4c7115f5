-- ===== src/SqlStore/Fetching.antt =====
-- `FetchAvailable` of the SQLStore (sqlstore.go) beside that of the InMemoryStore (store.go), on a
-- database in working order.
use oban.Prelude.{
  ℕ, zero, suc, ◌≤◌, ◌≡◌, ◌≢◌, refl, sym, ap, ◌∙◌, subst, ℤ, pos, pos_part, leb_ℤ, ltb, String,
  false, List, [], ◌∷◌, none, some, map, length, keep, sort_by, take, if_both, Bool-cases, inl, inr,
  arith, All,
}
use oban.Prelude.Laws.{All-of_In}
use oban.Errors.{Result, ok, err}
use oban.Job.{
  State, scheduled, available, executing, retryable, completed, discarded, cancelled, Job,
  fetchable, is_zero,
}
use oban.JobMap.{get, put, Distinct, get-put, put-Distinct}
use oban.JobMap.Distinct.{get-In}
use oban.Store as Memory
use oban.Store.{MemStore, candidates, cut, runnable, runs_before, start_job, start_all}
use oban.Store.Invariant.{IsValid}
use oban.Store.Fetch.{candidates-In, candidates-Distinct}
use oban.Sql.{
  SqlDialect, text, Statement, state_text, state_args, fetchable_states, select_columns,
  priority_col, scheduled_at_col, id_col,
}
use oban.Sql.Text.{fetch_lock}
use oban.Sql.Table.{Row, Table, answers, all_hold, row_before, eq_one_of, read_columns}
use oban.Sql.Database.{Database, Works}
use oban.Sql.Rows.{Json}
use oban.SqlStore.{fetch_query, fetch_conds, start_update}
use oban.SqlStore.Fetch
use oban.SqlStore.Fetch.{fetch_args, start_args, scan_rows, start_rows, fetch_finished}
use oban.SqlStore.Mirror.{
  IsRowOf, Mirrors, Mirrors-keep, Mirrors-sort_by, Mirrors-take, persisted, scan_job-IsRowOf,
}
use oban.SqlStore.Changes.{start-Mirrors, always}
use oban.SqlStore.Keyed.{change_matched}
use oban.SqlStore.Refine.{Represents}

fetchable_test :
    (s : State) → (eq_one_of 3 (text (state_text s)) (state_args fetchable_states)).0 ≡ fetchable s
fetchable_test scheduled = refl
fetchable_test available = refl
fetchable_test executing = refl
fetchable_test retryable = refl
fetchable_test completed = refl
fetchable_test discarded = refl
fetchable_test cancelled = refl

take-all : (n : ℕ) (js : List Job) → length js ≤ n → take n js ≡ js
take-all zero [] h = refl
take-all zero (j ∷ js) h = absurd (omega arith)
take-all (suc n) [] h = refl
take-all (suc n) (j ∷ js) h = ap (◌∷◌ j) (take-all n js (omega arith))

cut-take : (limit : ℤ) (js : List Job) → cut limit js ≡ take (pos_part limit) js
cut-take limit js =
    if_both (λ ks. ks ≡ take (pos_part limit) js) (ltb (pos_part limit) (length js)) (λ _. refl)
      (λ e. sym (take-all (pos_part limit) js (ground arith)))

still_stored :
    (now : ℤ) (c : Job) (cs js : List Job)
    → All (λ i. i.id ≢ c.id) cs
    → All (λ i. get i.id js ≡ some i) cs
    → All (λ i. get i.id (put (start_job now c) js) ≡ some i) cs
still_stored now c [] js n g = tt
still_stored now c (i ∷ cs) js n g =
    (ground (arith, get-put i.id (start_job now c) js, n.0, g.0), still_stored now c cs js n.1 g.1)

candidates_stored :
    (queue : String) (limit now : ℤ) (js : List Job)
    → Distinct js
    → All (λ c. get c.id js ≡ some c) (candidates queue limit now js)
candidates_stored queue limit now js d =
    All-of_In (λ c. get c.id js ≡ some c) (candidates queue limit now js)
      (λ c i. get-In js c d (candidates-In queue limit now js i).0)

module _ (json : Json) where
  order_test :
      (r r' : Row) (j j' : Job)
      → IsRowOf json r j
      → IsRowOf json r' j'
      → row_before (priority_col ∷ scheduled_at_col ∷ id_col ∷ []) r r' ≡ runs_before j j'
  order_test r r' j j' h h' =
      rw (h.fixed.0, h.fixed.5, h.scheduled_at_eq, h'.fixed.0, h'.fixed.5, h'.scheduled_at_eq)
        (ground arith)

  due_test :
      (queue : String) (limit now : ℤ) (r : Row) (j : Job)
      → IsRowOf json r j
      → (all_hold fetch_conds r (fetch_args queue limit now)).0 ≡ runnable queue now j
  due_test queue limit now r j h =
      rw (h.fixed.1, h.state_eq, h.scheduled_at_eq) (ground (arith, fetchable_test j.state))

  -- The rows that the query answers hold the candidates of the InMemoryStore.
  fetched-Mirrors :
      (queue : String) (limit now : ℤ) (t : Table) (js : List Job)
      → Mirrors json t.rows js
      → Mirrors json
          (take (pos_part limit) (
            sort_by
              (row_before (priority_col ∷ scheduled_at_col ∷ id_col ∷ []))
              (keep (λ r. (all_hold fetch_conds r (fetch_args queue limit now)).0) t.rows)))
          (candidates queue limit now js)
  unfolding candidates
  fetched-Mirrors queue limit now t js m =
      rw (cut-take limit (sort_by runs_before (keep (runnable queue now) js))) (
        Mirrors-take json (pos_part limit) _ _ (
          Mirrors-sort_by json _ runs_before order_test _ _
            (Mirrors-keep json _ (runnable queue now) (due_test queue limit now) t.rows js m)))

  module _ {D : Type 0} (db : Database D) where
    scan_rows-Mirrors :
        (rs : List Row) (js : List Job)
        → Mirrors json rs js
        → scan_rows json db (map (read_columns select_columns) rs) none ≡ ok (map persisted js)
    scan_rows-Mirrors [] [] m = refl
    scan_rows-Mirrors [] (j ∷ js) m = absurd m
    scan_rows-Mirrors (r ∷ rs) [] m = absurd m
    scan_rows-Mirrors (r ∷ rs) (j ∷ js) m =
        rw (scan_job-IsRowOf json r j m.0, scan_rows-Mirrors rs js m.1) refl

    module _ (table : D → Table) (w : Works db table) where
      start_rows-Represents :
          (now : ℤ) (cs : List Job) (d : D) (s : MemStore)
          → is_zero now ≡ false
          → Distinct s.jobs
          → All (λ c. get c.id s.jobs ≡ some c) cs
          → Distinct cs
          → Represents json db table w d s
          → let out = start_rows json db now (map persisted cs) d in
            let m = start_all now cs s.jobs in
            (out.0 ≡ ok (map persisted m.0))
            × Represents json db table w out.1 (record s { jobs = m.1 })
      unfolding start_all
      start_rows-Represents now [] d s z u g k r = (refl, r)
      start_rows-Represents now (c ∷ cs) d s z u g k r =
          let rest =
            start_rows-Represents now cs (db.tx_exec start_update (start_args now c.id) d).1
              (record s { jobs = put (start_job now c) s.jobs }) z
              (put-Distinct (start_job now c) s.jobs u) (still_stored now c cs s.jobs k.0 g.1) k.1
              (record {
                rows = rw (w.tx_exec_table start_update (start_args now c.id) d) (
                    subst (Mirrors json _)
                      (change_matched c.id always (start_job now) s.jobs c u g.0 refl refl)
                      (start-Mirrors json c.id now (table d) s.jobs z r.rows));
                ids = rw (w.tx_exec_table start_update (start_args now c.id) d) r.ids;
              }) in
          rw (w.tx_exec_ok start_update (start_args now c.id) d, rest.0) (refl, rest.1)

      module _ (dialect : SqlDialect) (queue : String) (limit now : ℤ) (d : D) (s : MemStore)
          (z : is_zero now ≡ false) (v : IsValid s) (r : Represents json db table w d s) where
        abbrev asked : Statement
        asked = fetch_query (fetch_lock dialect)

        abbrev begun : D
        begun = (db.begin d).1

        abbrev queried : D
        queried = (db.tx_query asked (fetch_args queue limit now) begun).1

        abbrev chosen : List Job
        chosen = candidates queue limit now s.jobs

        queried_table : table queried ≡ table d
        queried_table = w.tx_query_table asked (fetch_args queue limit now) begun ∙ w.begin_table d

        queried-Represents : Represents json db table w queried s
        queried-Represents = record { rows = rw queried_table r.rows; ids = rw queried_table r.ids }

        answered :
            (db.tx_query asked (fetch_args queue limit now) begun).0
            ≡ ok (record {
              found = answers asked (fetch_args queue limit now) (table d);
              rows_err = none;
            })
        answered =
            rw (sym (w.begin_table d)) (w.tx_query_ok asked (fetch_args queue limit now) begun)

        scanned :
            scan_rows json db (answers asked (fetch_args queue limit now) (table d)) none
            ≡ ok (map persisted chosen)
        scanned =
            scan_rows-Mirrors _ chosen (fetched-Mirrors queue limit now (table d) s.jobs r.rows)

        commit-Represents :
            (e : D) (t : MemStore)
            → Represents json db table w e t
            → Represents json db table w (db.commit e).1 t
        commit-Represents e t q = record {
          rows = rw (w.commit_table e) q.rows;
          ids = rw (w.commit_table e) q.ids;
        }

        finished :
            (out : Result (List Job) × D) (js : List Job) (t : MemStore)
            → out.0 ≡ ok js
            → Represents json db table w out.1 t
            → let f = fetch_finished json db out in (f.0 ≡ ok js) × Represents json db table w f.1 t
        finished (ok ks, e) js t h q = rw (w.commit_ok e) (h, commit-Represents e t q)
        finished (err x, e) js t h q = absurd (cc)

        fetch_started :
            leb_ℤ limit (pos 0) ≡ false
            → let out = Fetch.fetch_available json db dialect queue limit now d in
              let m = Memory.fetch_available queue limit now s in
              (out.0 ≡ ok (map persisted m.0)) × Represents json db table w out.1 m.1
        unfolding Fetch.fetch_available Memory.fetch_available
        fetch_started e =
            let run =
              start_rows-Represents now chosen queried s z v.distinct
                (candidates_stored queue limit now s.jobs v.distinct)
                (candidates-Distinct queue limit now s.jobs v.distinct) queried-Represents in
            rw (e, w.begin_ok d, answered, scanned)
              (finished (start_rows json db now (map persisted chosen) queried)
                (map persisted (start_all now chosen s.jobs).0)
                (record s { jobs = (start_all now chosen s.jobs).1 }) run.0 run.1)

        -- FetchAvailable hands out the jobs that the InMemoryStore hands out, in its order.
        pub fetch_available_refines :
            let out = Fetch.fetch_available json db dialect queue limit now d in
            let m = Memory.fetch_available queue limit now s in
            (out.0 ≡ ok (map persisted m.0)) × Represents json db table w out.1 m.1
        unfolding Fetch.fetch_available Memory.fetch_available
        fetch_available_refines = elim (Bool-cases (leb_ℤ limit (pos 0))) [
          | inl e ↦ rw e (refl, r)
          | inr e ↦ fetch_started e
        ]
