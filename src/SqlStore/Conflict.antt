-- ===== src/SqlStore/Conflict.antt =====
-- `sqlstoreFindConflict` (sqlstore.go) on a database in working order.
use oban.Prelude.{
  ◌≡◌, refl, sym, subst, ℤ, String, true, false, List, [], ◌∷◌, Option, none, some, In, here, keep,
  sort_by, map, take, Option-cases, Bool-cases, inl, inr, str_eq, str_eq_iff, arith,
}
use oban.Prelude.Laws.{
  In-keep, keep-In, In-sort_by, sort_by-In, find_first-eq-none, find_first-eq-some, In-All,
}
use oban.Errors.{Result, ok}
use oban.Job.{
  State, scheduled, available, executing, retryable, completed, discarded, cancelled, Job,
  unfinished,
}
use oban.Store.{conflicts, id_before, find_unique, is_unique}
use oban.Sql.{text, state_text, state_args, unfinished_states, id_col, select_columns}
use oban.Sql.Table.{Row, Table, value_eq, eq_one_of, all_hold, row_before, read_columns, answers}
use oban.Sql.Database.{first_row}
use oban.Sql.Rows.{Json, null_str}
use oban.SqlStore.{conflict_query, conflict_conds}
use oban.SqlStore.Enqueue.{conflict_args, conflict_answer}
use oban.SqlStore.Mirror.{
  IsRowOf, Mirrors, Mirrors-keep, Mirrors-sort_by, persisted, scan_job-IsRowOf,
}

unfinished_test :
    (s : State)
    → (eq_one_of 4 (text (state_text s)) (state_args unfinished_states)).0 ≡ unfinished s
unfinished_test scheduled = refl
unfinished_test available = refl
unfinished_test executing = refl
unfinished_test retryable = refl
unfinished_test completed = refl
unfinished_test discarded = refl
unfinished_test cancelled = refl

key_test :
    (key key' : String)
    → str_eq key' "" ≡ false
    → value_eq (null_str key) (text key') ≡ str_eq key key'
key_test key key' e = elim (Bool-cases (str_eq key "")) [
  | inr f ↦ rw f refl
  | inl f ↦ rw (f, (str_eq_iff key "").0 f) (ground (arith, str_eq_iff key' "", str_eq_iff "" key'))
]

-- The jobs that stand in the way of a unique insert, by id.
abbrev pub blocking : Job → ℤ → List Job → List Job
blocking job now js = sort_by id_before (keep (conflicts job now) js)

-- Whether some job stands in the way does not depend on the order of the map.
pub data Blocking (job : Job) (now : ℤ) (js : List Job) : Type 0 where
  clear : blocking job now js ≡ [] → find_unique job now js ≡ none → Blocking job now js
  blocked :
      (x : Job) (xs : List Job) (y : Job)
      → blocking job now js ≡ x ∷ xs
      → In x js
      → conflicts job now x ≡ true
      → find_unique job now js ≡ some y
      → Blocking job now js

blocking_of :
    (job : Job) (now : ℤ) (js cs : List Job) → blocking job now js ≡ cs → Blocking job now js
unfolding find_unique
blocking_of job now js [] e = elim (Option-cases (find_unique job now js)) [
  | inl n ↦ clear e n
  | inr (x, f) ↦
      let found = find_first-eq-some (conflicts job now) js x f in
      absurd (
        elim (subst (In x) e (
          In-sort_by id_before (keep (conflicts job now) js)
            (In-keep (conflicts job now) js found.0 found.1))) [ ])
]
blocking_of job now js (x ∷ xs) e =
    let there_is = sort_by-In id_before (keep (conflicts job now) js) (subst (In x) (sym e) here) in
    let kept = keep-In (conflicts job now) js there_is in
    elim (Option-cases (find_unique job now js)) [
      | inl n ↦ absurd (
          cc (
            kept.1,
            In-All (λ y. conflicts job now y ≡ false) js kept.0
                (find_first-eq-none (conflicts job now) js n),
          ))
      | inr (y, f) ↦ blocked x xs y e kept.0 kept.1 f
    ]

pub Blocking-all : (job : Job) (now : ℤ) (js : List Job) → Blocking job now js
Blocking-all job now js = blocking_of job now js (blocking job now js) refl

module _ (json : Json) where
  conflict_test :
      (job : Job) (now : ℤ) (r : Row) (j : Job)
      → is_unique job ≡ true
      → IsRowOf json r j
      → (all_hold conflict_conds r (conflict_args job now)).0 ≡ conflicts job now j
  conflict_test job now r j u h =
      rw
        (
          h.fixed.1,
          h.fixed.2,
          h.fixed.7,
          h.fixed.6,
          h.state_eq,
          key_test j.unique_key job.unique_key (ground (arith, u)),
        )
        (ground (arith, unfinished_test j.state))

  id_order_test :
      (r r' : Row) (j j' : Job)
      → IsRowOf json r j
      → IsRowOf json r' j'
      → row_before (id_col ∷ []) r r' ≡ id_before j j'
  id_order_test r r' j j' h h' = rw (h.fixed.0, h'.fixed.0) (ground arith)

  blocking-Mirrors :
      (job : Job) (now : ℤ) (rs : List Row) (js : List Job)
      → is_unique job ≡ true
      → Mirrors json rs js
      → Mirrors json
          (sort_by
            (row_before (id_col ∷ []))
            (keep (λ r. (all_hold conflict_conds r (conflict_args job now)).0) rs))
          (blocking job now js)
  blocking-Mirrors job now rs js u m =
      Mirrors-sort_by json _ id_before id_order_test _ _
        (Mirrors-keep json _ (conflicts job now) (λ r j h. conflict_test job now r j u h) rs js m)

  -- What the lookup answers, by the jobs that stand in the way.
  abbrev pub first_blocking : List Job → Result (Option Job)
  first_blocking [] = ok none
  first_blocking (x ∷ xs) = ok (some (persisted x))

  answer_lem :
      (rs : List Row) (js : List Job)
      → Mirrors json rs js
      → conflict_answer json (ok (first_row (map (read_columns select_columns) (take 1 rs))))
        ≡ first_blocking js
  answer_lem [] [] m = refl
  answer_lem [] (j ∷ js) m = absurd m
  answer_lem (r ∷ rs) [] m = absurd m
  answer_lem (r ∷ rs) (j ∷ js) m = rw (scan_job-IsRowOf json r j m.0) refl

  pub conflict_answer_lem :
      (job : Job) (now : ℤ) (t : Table) (js : List Job)
      → is_unique job ≡ true
      → Mirrors json t.rows js
      → conflict_answer json (ok (first_row (answers conflict_query (conflict_args job now) t)))
        ≡ first_blocking (blocking job now js)
  conflict_answer_lem job now t js u m =
      answer_lem _ (blocking job now js) (blocking-Mirrors job now t.rows js u m)
