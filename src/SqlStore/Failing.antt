-- ===== src/SqlStore/Failing.antt =====
-- `Retry` and `Discard` of the SQLStore (sqlstore.go) beside those of the InMemoryStore (store.go),
-- on a database in working order.
use oban.Prelude.{
  ℕ, ◌≡◌, refl, sym, ap, ◌∙◌, subst, String, true, false, ◌&&◌, ◌==◌, ==_iff, List, [], ◌∷◌, Option,
  none, some, All, map, keep, sort_by, Bool-cases, inl, inr, arith,
}
use oban.Prelude.Laws.{All-of_In}
use oban.Errors.{Result, ok, err}
use oban.Job.{Job, executing}
use oban.JobMap.{get, Distinct}
use oban.JobMap.Distinct.{get-In}
use oban.Store.{MemStore}
use oban.Store.Invariant.{IsValid}
use oban.Sql.{
  SqlDialect, Value, natural, text, Statement, id_col, state_col, errors_col, attempt_col, equals,
}
use oban.Sql.Text.{row_lock}
use oban.Sql.Table.{Row, Table, perform, answers, assigned, all_hold, row_before, read_columns}
use oban.Sql.Database.{Database, Works, first_row}
use oban.Sql.Rows.{Json, unmarshal_history}
use oban.SqlStore.{history_query, fail_update, fail_sets, state_value}
use oban.SqlStore.Updates.{Failure, fail_args, sql_fail, fail_selected}
use oban.SqlStore.Mirror.{IsRowOf, Mirrors, Mirrors-keep, Mirrors-sort_by, Mirrors-map_on}
use oban.SqlStore.Changes.{change_where, is_executing, both_tests, id_test, executing_test}
use oban.SqlStore.Keyed.{keep-held, held}
use oban.SqlStore.Refine.{Represents}

same_of_id :
    (id : ℕ) (js : List Job) (j : Job)
    → Distinct js
    → get id js ≡ some j
    → All (λ i. (i.id == id) ≡ true → i ≡ j) js
same_of_id id js j d g =
    All-of_In (λ i. (i.id == id) ≡ true → i ≡ j) js
      (λ i k e. cc (get-In js i d k, g, (==_iff i.id id).0 e))

abbrev pub history_args : ℕ → List Value
history_args id = natural id ∷ state_value executing ∷ []

abbrev head_or : Job → List Job → Job
head_or j [] = j
head_or j (i ∷ js) = i

pub held_one :
    (id : ℕ) (o : Option Job) (j : Job)
    → o ≡ some j
    → is_executing j ≡ true
    → sort_by (λ a b. false) (held id is_executing o) ≡ j ∷ []
held_one id none j e q = absurd (cc)
held_one id (some i) j e q =
    let same : i ≡ j = cc (e) in rw (ap is_executing same, q) (ap (λ k. k ∷ []) same)

module _ (json : Json) where
  executing_id_test :
      (id : ℕ) (r : Row) (j : Job)
      → IsRowOf json r j
      → (all_hold (equals id_col ∷ equals state_col ∷ []) r (history_args id)).0
        ≡ ((j.id == id) && is_executing j)
  executing_id_test id r j h = both_tests (id_test json h id) (executing_test json h)

  -- The rows that the first query reads hold the job, if it is executing.
  pub history-Mirrors :
      (id : ℕ) (rs : List Row) (js : List Job)
      → Distinct js
      → Mirrors json rs js
      → Mirrors json
          (sort_by (row_before []) (
            keep
              (λ r. (all_hold (equals id_col ∷ equals state_col ∷ []) r (history_args id)).0)
              rs))
          (sort_by (λ a b. false) (held id is_executing (get id js)))
  history-Mirrors id rs js d m =
      Mirrors-sort_by json (row_before []) (λ a b. false) (λ r r' j j' h h'. refl) _ _
        (subst (Mirrors json _) (keep-held id is_executing js d) (
          Mirrors-keep json _ (λ j. (j.id == id) && is_executing j) (executing_id_test id) rs js m))

  -- A failing attempt changes the row of the job `j`, and so does `g` the job.
  pub fail-Mirrors :
      (f : Failure) (id : ℕ) (errs : String) (g : Job → Job) (j : Job) (t : Table) (js : List Job)
      → Distinct js
      → get id js ≡ some j
      → ((r : Row)
          → IsRowOf json r j
          → IsRowOf json (assigned (fail_sets f.ts_column) r (fail_args f errs id)).0 (g j))
      → Mirrors json t.rows js
      → Mirrors json
          (perform (fail_update f.ts_column) (fail_args f errs id) t).1.rows
          (map (change_where id is_executing g) js)
  fail-Mirrors f id errs g j t js d e k m =
      Mirrors-map_on json (λ i. (i.id == id) ≡ true → i ≡ j) _ (change_where id is_executing g)
        (λ r i p h. elim (Bool-cases ((i.id == id) && is_executing i)) [
          | inl x ↦
              rw (executing_id_test id r i h, x)
                (let same = p (ground (arith, x)) in
                  subst
                    (λ l.
                      IsRowOf json (assigned (fail_sets f.ts_column) r (fail_args f errs id)).0
                        (g l))
                    (sym same) (k r (subst (IsRowOf json r) same h)))
          | inr x ↦ rw (executing_id_test id r i h, x) h
        ])
        t.rows js (same_of_id id js j d e) m

  nothing_read :
      (rs : List Row) (js : List Job)
      → Mirrors json rs js
      → js ≡ []
      → map (read_columns (errors_col ∷ attempt_col ∷ [])) rs ≡ []
  nothing_read [] js m e = refl
  nothing_read (r ∷ rs) [] m e = absurd m
  nothing_read (r ∷ rs) (j ∷ js) m e = absurd (cc)

  pub one_read :
      (rs : List Row) (js : List Job) (j : Job)
      → Mirrors json rs js
      → js ≡ j ∷ []
      → (errs : String) × (map (read_columns (errors_col ∷ attempt_col ∷ [])) rs
          ≡ (text errs ∷ natural j.attempt ∷ []) ∷ [])
        × (unmarshal_history json errs ≡ ok j.errors)
  one_read [] [] j m e = absurd (cc)
  one_read [] (i ∷ js) j m e = absurd m
  one_read (r ∷ rs) [] j m e = absurd m
  one_read (r ∷ []) (i ∷ []) j m e =
      let h = subst (IsRowOf json r) (ap (λ (ks : List Job). head_or j ks) e) m.0 in
      (h.history.0, rw (h.history.1, h.attempt_eq) refl, h.history.2)
  one_read (r ∷ []) (i ∷ k ∷ js) j m e = absurd (cc)
  one_read (r ∷ q ∷ rs) (i ∷ []) j m e = absurd m.1
  one_read (r ∷ q ∷ rs) (i ∷ k ∷ js) j m e = absurd (cc)

  module _ {D : Type 0} (db : Database D) (table : D → Table) (w : Works db table)
      (dialect : SqlDialect) (f : Failure) (id : ℕ) (d : D) (s : MemStore) (v : IsValid s)
      (r : Represents json db table w d s) where
    abbrev pub asked : Statement
    asked = history_query (row_lock dialect)

    abbrev pub begun : D
    begun = (db.begin d).1

    abbrev pub read_out : Result (Option (List Value)) × D
    read_out = db.tx_query_row asked (history_args id) begun

    pub read_lem :
        (row : Option (List Value))
        → first_row (answers asked (history_args id) (table d)) ≡ row
        → read_out.0 ≡ ok row
    read_lem row e =
        w.tx_query_row_ok asked (history_args id) begun
        ∙ rw (w.begin_table d) (ap (λ (x : Option (List Value)). ok x) e)

    pub read-Represents : Represents json db table w read_out.1 s
    read-Represents = record {
      rows = rw (w.tx_query_row_table asked (history_args id) begun, w.begin_table d) r.rows;
      ids = rw (w.tx_query_row_table asked (history_args id) begun, w.begin_table d) r.ids;
    }

    pub commit-Represents :
        (e : D) (t : MemStore)
        → Represents json db table w e t
        → Represents json db table w (db.commit e).1 t
    commit-Represents e t q = record {
      rows = rw (w.commit_table e) q.rows;
      ids = rw (w.commit_table e) q.ids;
    }

    no_row :
        (out : Result (Option (List Value)) × D)
        → out.0 ≡ ok none
        → Represents json db table w out.1 s
        → let c = fail_selected json db f id out in (c.0 ≡ none) × Represents json db table w c.1 s
    no_row (ok none, e) h q = (w.commit_ok e, commit-Represents e s q)
    no_row (ok (some row), e) h q = absurd (cc)
    no_row (err x, e) h q = absurd (cc)

    held_none :
        (o : Option Job)
        → ((j : Job) → o ≡ some j → is_executing j ≡ false)
        → sort_by (λ a b. false) (held id is_executing o) ≡ []
    held_none none n = refl
    held_none (some j) n = rw (n j refl) refl

    pub sql_fail_guarded :
        ((j : Job) → get id s.jobs ≡ some j → is_executing j ≡ false)
        → let out = sql_fail json db dialect f id d in
          (out.0 ≡ none) × Represents json db table w out.1 s
    unfolding sql_fail
    sql_fail_guarded n = rw (w.begin_ok d) (
        no_row read_out
          (read_lem none (
            ap first_row (
              nothing_read _ _ (history-Mirrors id (table d).rows s.jobs v.distinct r.rows)
                (held_none (get id s.jobs) n))))
          read-Represents)
