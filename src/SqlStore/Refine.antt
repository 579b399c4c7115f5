-- ===== src/SqlStore/Refine.antt =====
-- The updating methods of the SQLStore (sqlstore.go) beside those of the InMemoryStore (store.go,
-- inmemory_caps.go), on a database in working order.
use oban.Prelude.{
  ℕ, ◌≡◌, refl, sym, ◌∙◌, subst, ℤ, true, false, not, List, [], ◌∷◌, Option, none, some, map, keep,
  Bool-cases, inl, inr, arith, All, count_if, ◌+◌,
}
use oban.Errors.{ok}
use oban.Job.{Job, is_zero, is_finished}
use oban.JobMap.{get, put}
use oban.Store as Memory
use oban.Store.{MemStore, mark_completed}
use oban.Store.Caps
use oban.Store.Caps.{mark_cancelled, mark_runnable, is_stuck, prunable}
use oban.Store.Invariant.{IsValid}
use oban.Store.Rescue.{rescue_all-map}
use oban.Sql.{Value, Statement, finished_states}
use oban.Sql.Table.{Table, perform}
use oban.Sql.Database.{Database, Works}
use oban.Sql.Rows.{Json}
use oban.SqlStore.Updates
use oban.SqlStore.Mirror.{Mirrors}
use oban.SqlStore.Changes.{
  change_where, is_executing, not_finished, always, complete-Mirrors, cancel-Mirrors,
  retry_now-Mirrors, delete-Mirrors,
}
use oban.SqlStore.Keyed.{change_matched, change_unmatched, keep-remove}
use oban.SqlStore.Sweeps.{IsStarted, IsCoherent, rescue-Mirrors, prune-Mirrors}

module _ {D : Type 0} (json : Json) (db : Database D) (table : D → Table) (w : Works db table) where
  -- The rows of the database hold the jobs of a store, and its last id is the store's counter.
  pub record Represents (d : D) (s : MemStore) : Type 0 where
    pub rows : Mirrors json (table d).rows s.jobs
    pub ids : (table d).last_id ≡ s.next_id

  exec-Represents :
      (st : Statement) (args : List Value) (d : D) (s s' : MemStore)
      → (perform st args (table d)).1.last_id ≡ (table d).last_id
      → Mirrors json (perform st args (table d)).1.rows s'.jobs
      → s.next_id ≡ s'.next_id
      → Represents d s
      → Represents (db.exec st args d).1 s'
  exec-Represents st args d s s' e m n r = record {
    rows = rw (w.exec_table st args d) m;
    ids = rw (w.exec_table st args d) (e ∙ r.ids ∙ n);
  }

  module _ (id : ℕ) (now : ℤ) (d : D) (s : MemStore) (z : is_zero now ≡ false) (v : IsValid s)
      (r : Represents d s) where
    pub complete_refines :
        (j : Job)
        → get id s.jobs ≡ some j
        → is_executing j ≡ true
        → let out = Updates.complete db id now d in
          let m = Memory.complete id now s in (out.0 ≡ m.0) × Represents out.1 m.1
    unfolding Updates.complete Memory.complete
    complete_refines j g e =
        rw (g, w.exec_ok _ _ d)
          (
            refl,
            exec-Represents _ _ d s (record s { jobs = put (mark_completed now j) s.jobs }) refl
                (rw
                  (sym (
                    change_matched id is_executing (mark_completed now) s.jobs j v.distinct g e
                      refl))
                  (complete-Mirrors json id now (table d) s.jobs z r.rows))
                refl r,
          )

    pub complete_guarded :
        ((j : Job) → get id s.jobs ≡ some j → is_executing j ≡ false)
        → let out = Updates.complete db id now d in (out.0 ≡ none) × Represents out.1 s
    unfolding Updates.complete
    complete_guarded n = rw (w.exec_ok _ _ d) (
      refl,
      exec-Represents _ _ d s s refl
          (subst (Mirrors json _)
            (change_unmatched id is_executing (mark_completed now) s.jobs v.distinct n)
            (complete-Mirrors json id now (table d) s.jobs z r.rows))
          refl r,
    )

    cancel_jobs :
        (o : Option Job)
        → get id s.jobs ≡ o
        → (Caps.cancel_found o now s).1.jobs
          ≡ map (change_where id not_finished (mark_cancelled now)) s.jobs
    cancel_jobs none g = sym (
        change_unmatched id not_finished (mark_cancelled now) s.jobs v.distinct
          (λ j e. absurd (cc)))
    cancel_jobs (some j) g = elim (Bool-cases (is_finished j.state)) [
      | inl e ↦ rw e (
          sym (
            change_unmatched id not_finished (mark_cancelled now) s.jobs v.distinct
              (λ i f. ground (arith, e))))
      | inr e ↦ rw e (
          sym (
            change_matched id not_finished (mark_cancelled now) s.jobs j v.distinct g (rw e refl)
              refl))
    ]

    cancel_ids : (o : Option Job) → s.next_id ≡ (Caps.cancel_found o now s).1.next_id
    cancel_ids none = refl
    cancel_ids (some j) = elim (Bool-cases (is_finished j.state)) [
      | inl e ↦ rw e refl
      | inr e ↦ rw e refl
    ]

    -- Cancel does what it does in the InMemoryStore, but reports no error for a missing id.
    pub cancel_refines :
        let out = Updates.cancel db id now d in
        (out.0 ≡ none) × Represents out.1 (Caps.cancel id now s).1
    unfolding Updates.cancel Caps.cancel
    cancel_refines = rw (w.exec_ok _ _ d) (
      refl,
      exec-Represents _ _ d s (Caps.cancel_found (get id s.jobs) now s).1 refl
          (rw (cancel_jobs (get id s.jobs) refl)
            (cancel-Mirrors json id now (table d) s.jobs z r.rows))
          (cancel_ids (get id s.jobs)) r,
    )

    retry_now_jobs :
        (o : Option Job)
        → get id s.jobs ≡ o
        → (Memory.change_found o (mark_runnable now) s).1.jobs
          ≡ map (change_where id always (mark_runnable now)) s.jobs
    retry_now_jobs none g =
        sym (change_unmatched id always (mark_runnable now) s.jobs v.distinct (λ j e. absurd (cc)))
    retry_now_jobs (some j) g =
        sym (change_matched id always (mark_runnable now) s.jobs j v.distinct g refl refl)

    retry_now_ids :
        (o : Option Job) → s.next_id ≡ (Memory.change_found o (mark_runnable now) s).1.next_id
    retry_now_ids none = refl
    retry_now_ids (some j) = refl

    pub retry_now_refines :
        let out = Updates.retry_now db id now d in
        (out.0 ≡ none) × Represents out.1 (Caps.retry_now id now s).1
    unfolding Updates.retry_now Caps.retry_now
    retry_now_refines = rw (w.exec_ok _ _ d) (
      refl,
      exec-Represents _ _ d s (Memory.change id (mark_runnable now) s).1 refl
          (rw (retry_now_jobs (get id s.jobs) refl)
            (retry_now-Mirrors json id now (table d) s.jobs r.rows))
          (retry_now_ids (get id s.jobs)) r,
    )

  pub delete_refines :
      (id : ℕ) (d : D) (s : MemStore)
      → IsValid s
      → Represents d s
      → let out = Updates.delete_job db id d in
        let m = Caps.delete id s in (out.0 ≡ m.0) × Represents out.1 m.1
  unfolding Updates.delete_job Caps.delete
  delete_refines id d s v r = rw (w.exec_ok _ _ d) (
    refl,
    exec-Represents _ _ d s (Caps.erase_job id s) refl
        (subst (Mirrors json _) (keep-remove id s.jobs v.distinct)
          (delete-Mirrors json id (table d) s.jobs r.rows))
        refl r,
  )

  rescue_counts :
      (older_than now : ℤ) (js : List Job)
      → let r = Caps.rescue_all older_than now js in r.1 + r.2 ≡ count_if (is_stuck older_than) js
  unfolding Caps.rescue_all
  rescue_counts older_than now [] = refl
  rescue_counts older_than now (j ∷ js) = ground (arith, rescue_counts older_than now js)

  -- A rescue changes the jobs that the InMemoryStore's changes, and reports how many they are.
  pub rescue_executing_refines :
      (older_than now : ℤ) (d : D) (s : MemStore)
      → is_zero now ≡ false
      → All IsStarted s.jobs
      → Represents d s
      → let out = Updates.rescue_executing db older_than now d in
        let m = Caps.rescue_executing older_than now s in
        (out.0 ≡ ok (m.0.0 + m.0.1)) × Represents out.1 m.1
  unfolding Updates.rescue_executing Caps.rescue_executing
  rescue_executing_refines older_than now d s z a r =
      let m = rescue-Mirrors json older_than now (table d) s.jobs z a r.rows in
      rw (w.exec_ok _ _ d) (
        rw (m.0, rescue_counts older_than now s.jobs) refl,
        exec-Represents _ _ d s (Caps.rescue_executing older_than now s).1 refl
            (rw (rescue_all-map older_than now s.jobs) m.1) refl r,
      )

  -- A pruning pass removes the finished jobs whose time lies before the cutoff and no other, and
  -- reports their number, if each finished job has the time of its finish and no other such time.
  pub delete_finished_before_lem :
      (cutoff : ℤ) (d : D) (s : MemStore)
      → All IsCoherent s.jobs
      → Represents d s
      → let out = Updates.delete_finished_before db cutoff d in
        let gone = prunable finished_states cutoff in
        (out.0 ≡ ok (count_if gone s.jobs))
        × Represents out.1 (record s { jobs = keep (λ j. not (gone j)) s.jobs })
  unfolding Updates.delete_finished_before
  delete_finished_before_lem cutoff d s c r =
      let m = prune-Mirrors json cutoff (table d) s.jobs c r.rows in
      rw (w.exec_ok _ _ d) (
        rw m.0 refl,
        exec-Represents _ _ d s
            (record s { jobs = keep (λ j. not (prunable finished_states cutoff j)) s.jobs }) refl
            m.1 refl r,
      )
