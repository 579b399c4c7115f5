-- ===== src/SqlStore/Mirror.antt =====
-- Rows that hold jobs (sqlstore.go): what a row must hold for `sqlstoreScanJob` to read a job.
use oban.Prelude.{
  ℕ, ◌≡◌, refl, ℤ, pos, String, Bool, false, List, [], ◌∷◌, ◌++◌, keep, count_if, map, take, zero,
  suc, sort_insert, sort_by, Bool-cases, inl, inr, arith, str_eq_iff, eqb_ℤ_iff, All,
}
use oban.Errors.{ok}
use oban.Job.{
  State, scheduled, available, executing, retryable, completed, discarded, cancelled, Job, is_zero,
  zero_time,
}
use oban.Sql.{
  text, natural, integer, moment, state_text, select_columns, id_col, queue_col, worker_col,
  args_col, max_attempts_col, attempt_col, priority_col, state_col, scheduled_at_col,
  inserted_at_col, attempted_at_col, completed_at_col, discarded_at_col, unique_key_col,
  unique_period_col, last_error_col, errors_col, tags_col, meta_col,
}
use oban.Sql.Table.{Row, read_columns}
use oban.Sql.Rows.{
  Json, scan_null_time, scan_null_str, scan_job, state_of_text, unmarshal_history, null_time,
  null_str, stored_args,
}

pub state_of_text-state_text : (s : State) → state_of_text (state_text s) ≡ ok s
state_of_text-state_text scheduled = refl
state_of_text-state_text available = refl
state_of_text-state_text executing = refl
state_of_text-state_text retryable = refl
state_of_text-state_text completed = refl
state_of_text-state_text discarded = refl
state_of_text-state_text cancelled = refl

pub scan_null_time-null_time : (t : ℤ) → scan_null_time (null_time t) ≡ ok t
scan_null_time-null_time t = ground (arith, eqb_ℤ_iff t zero_time)

pub scan_null_str-null_str : (s : String) → scan_null_str (null_str s) ≡ ok s
scan_null_str-null_str s = ground (arith, str_eq_iff s "")

pub null_time_pos : (t : ℤ) → is_zero t ≡ false → moment t ≡ null_time t
null_time_pos t e = rw e refl

-- What a row keeps of a job: empty arguments become an empty object, and there is no relative delay.
abbrev pub persisted : Job → Job
persisted j = record j { args = stored_args j.args; schedule_in = pos 0; has_schedule_in = false }

module _ (json : Json) where
  -- The columns that no statement assigns but for tags and meta, which a job does not have.
  abbrev pub Fixed : Row → Job → Type 0
  Fixed r j =
      (r id_col ≡ natural j.id)
      × (r queue_col ≡ text j.queue)
      × (r worker_col ≡ text j.worker)
      × (r args_col ≡ text (stored_args j.args))
      × (r max_attempts_col ≡ integer j.max_attempts)
      × (r priority_col ≡ integer j.priority)
      × (r inserted_at_col ≡ moment j.inserted_at)
      × (r unique_key_col ≡ null_str j.unique_key)
      × (r unique_period_col ≡ integer j.unique_period)

  abbrev pub HasTexts : Row → Type 0
  HasTexts r =
      (tags : String) × (meta : String) × (r tags_col ≡ text tags) × (r meta_col ≡ text meta)

  abbrev pub HasHistory : Row → Job → Type 0
  HasHistory r j =
      (errs : String) × (r errors_col ≡ text errs) × (unmarshal_history json errs ≡ ok j.errors)

  -- The row `r` holds the job `j`.
  pub record IsRowOf (r : Row) (j : Job) : Type 0 where
    pub fixed : Fixed r j
    pub attempt_eq : r attempt_col ≡ natural j.attempt
    pub state_eq : r state_col ≡ text (state_text j.state)
    pub scheduled_at_eq : r scheduled_at_col ≡ moment j.scheduled_at
    pub attempted_at_eq : r attempted_at_col ≡ null_time j.attempted_at
    pub completed_at_eq : r completed_at_col ≡ null_time j.completed_at
    pub discarded_at_eq : r discarded_at_col ≡ null_time j.discarded_at
    pub last_error_eq : r last_error_col ≡ null_str j.last_error
    pub history : HasHistory r j
    pub texts : HasTexts r

  -- A row that holds a job is read as what it keeps of the job.
  pub scan_job-IsRowOf :
      (r : Row) (j : Job)
      → IsRowOf r j
      → scan_job json (read_columns select_columns r) ≡ ok (persisted j)
  scan_job-IsRowOf r j h =
      let (e0, e1, e2, e3, e4, e5, e6, e7, e8) = h.fixed in
      rw
        (
          e0,
          e1,
          e2,
          e3,
          e4,
          e5,
          e6,
          e7,
          e8,
          h.attempt_eq,
          h.state_eq,
          state_of_text-state_text j.state,
          h.scheduled_at_eq,
          h.attempted_at_eq,
          h.completed_at_eq,
          h.discarded_at_eq,
          h.last_error_eq,
          scan_null_time-null_time j.attempted_at,
          scan_null_time-null_time j.completed_at,
          scan_null_time-null_time j.discarded_at,
          scan_null_str-null_str j.unique_key,
          scan_null_str-null_str j.last_error,
          h.history.1,
          h.texts.2,
          h.texts.3,
          h.history.2,
        )
        refl

  -- The rows of a table hold the jobs of a list, one each, in order.
  abbrev pub Mirrors : List Row → List Job → Type 0
  Mirrors [] [] = Unit
  Mirrors [] (j ∷ js) = ⊥
  Mirrors (r ∷ rs) [] = ⊥
  Mirrors (r ∷ rs) (j ∷ js) = IsRowOf r j × Mirrors rs js

  All-unit : (js : List Job) → All (λ j. Unit {0}) js
  All-unit [] = tt
  All-unit (j ∷ js) = (tt, All-unit js)

  -- A change of the rows that goes with a change of the jobs, for jobs that meet `P`.
  pub Mirrors-map_on :
      (P : Job → Type 0) (g : Row → Row) (f : Job → Job)
      → ((r : Row) (j : Job) → P j → IsRowOf r j → IsRowOf (g r) (f j))
      → (rs : List Row) (js : List Job) → All P js
      → Mirrors rs js
      → Mirrors (map g rs) (map f js)
  Mirrors-map_on P g f k [] [] a m = tt
  Mirrors-map_on P g f k [] (j ∷ js) a m = m
  Mirrors-map_on P g f k (r ∷ rs) [] a m = m
  Mirrors-map_on P g f k (r ∷ rs) (j ∷ js) a m =
      (k r j a.0 m.0, Mirrors-map_on P g f k rs js a.1 m.1)

  pub Mirrors-map :
      (g : Row → Row) (f : Job → Job)
      → ((r : Row) (j : Job) → IsRowOf r j → IsRowOf (g r) (f j))
      → (rs : List Row) (js : List Job) → Mirrors rs js
      → Mirrors (map g rs) (map f js)
  Mirrors-map g f k rs js m =
      Mirrors-map_on (λ j. Unit) g f (λ r j _ h. k r j h) rs js (All-unit js) m

  pub Mirrors-append :
      (rs : List Row) (js : List Job) (r : Row) (j : Job)
      → Mirrors rs js
      → IsRowOf r j
      → Mirrors (rs ++ r ∷ []) (js ++ j ∷ [])
  Mirrors-append [] [] r j m h = (h, tt)
  Mirrors-append [] (i ∷ js) r j m h = absurd m
  Mirrors-append (q ∷ rs) [] r j m h = absurd m
  Mirrors-append (q ∷ rs) (i ∷ js) r j m h = (m.0, Mirrors-append rs js r j m.1 h)

  pub Mirrors-take :
      (n : ℕ) (rs : List Row) (js : List Job) → Mirrors rs js → Mirrors (take n rs) (take n js)
  Mirrors-take zero rs js m = tt
  Mirrors-take (suc n) [] [] m = tt
  Mirrors-take (suc n) [] (j ∷ js) m = absurd m
  Mirrors-take (suc n) (r ∷ rs) [] m = absurd m
  Mirrors-take (suc n) (r ∷ rs) (j ∷ js) m = (m.0, Mirrors-take n rs js m.1)

  module _ (P : Job → Type 0) (p : Row → Bool) (q : Job → Bool)
      (agree : (r : Row) (j : Job) → P j → IsRowOf r j → p r ≡ q j) where
    pub Mirrors-keep_on :
        (rs : List Row) (js : List Job)
        → All P js
        → Mirrors rs js
        → Mirrors (keep p rs) (keep q js) × (count_if p rs ≡ count_if q js)
    Mirrors-keep_on [] [] a m = (tt, refl)
    Mirrors-keep_on [] (j ∷ js) a m = absurd m
    Mirrors-keep_on (r ∷ rs) [] a m = absurd m
    Mirrors-keep_on (r ∷ rs) (j ∷ js) a m =
        let rest = Mirrors-keep_on rs js a.1 m.1 in
        elim (Bool-cases (q j)) [
          | inl e ↦ rw (agree r j a.0 m.0, e) ((m.0, rest.0), ground (arith, rest.1))
          | inr e ↦ rw (agree r j a.0 m.0, e) (rest.0, ground (arith, rest.1))
        ]

  pub Mirrors-keep :
      (p : Row → Bool) (q : Job → Bool)
      → ((r : Row) (j : Job) → IsRowOf r j → p r ≡ q j)
      → (rs : List Row) (js : List Job) → Mirrors rs js
      → Mirrors (keep p rs) (keep q js)
  Mirrors-keep p q agree rs js m =
      (Mirrors-keep_on (λ j. Unit) p q (λ r j _ h. agree r j h) rs js (All-unit js) m).0

  module _ (less : Row → Row → Bool) (less' : Job → Job → Bool)
      (agree : (r r' : Row) (j j' : Job)
        → IsRowOf r j
        → IsRowOf r' j'
        → less r r' ≡ less' j j') where
    Mirrors-sort_insert :
        (r : Row) (j : Job) (rs : List Row) (js : List Job)
        → IsRowOf r j
        → Mirrors rs js
        → Mirrors (sort_insert less r rs) (sort_insert less' j js)
    Mirrors-sort_insert r j [] [] h m = (h, tt)
    Mirrors-sort_insert r j [] (i ∷ js) h m = absurd m
    Mirrors-sort_insert r j (q ∷ rs) [] h m = absurd m
    Mirrors-sort_insert r j (q ∷ rs) (i ∷ js) h m = elim (Bool-cases (less' j i)) [
      | inl e ↦ rw (agree r q j i h m.0, e) (h, m)
      | inr e ↦ rw (agree r q j i h m.0, e) (m.0, Mirrors-sort_insert r j rs js h m.1)
    ]

    pub Mirrors-sort_by :
        (rs : List Row) (js : List Job)
        → Mirrors rs js
        → Mirrors (sort_by less rs) (sort_by less' js)
    Mirrors-sort_by [] [] m = tt
    Mirrors-sort_by [] (j ∷ js) m = absurd m
    Mirrors-sort_by (r ∷ rs) [] m = absurd m
    Mirrors-sort_by (r ∷ rs) (j ∷ js) m =
        Mirrors-sort_insert r j (sort_by less rs) (sort_by less' js) m.0 (Mirrors-sort_by rs js m.1)
