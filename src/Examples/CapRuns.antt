-- ===== src/Examples/CapRuns.antt =====
-- The theorems on the capabilities of the InMemoryStore, applied to the example stores.
use oban.Prelude.{
  ℕ, ◌+◌, length, ◌≤◌, ◌≡◌, refl, pos, ◌<ℤ◌, ◌⊎◌, ◌&&◌, not, List, [], ◌∷◌, none, some, count_if,
}
use oban.Job.{State, executing, completed, Job}
use oban.JobMap.{get}
use oban.Store.{complete, retry, mark_completed, mark_retryable}
use oban.Store.Caps.{
  cancel, delete_finished_before, rescue_executing, is_stuck, has_attempts, mark_cancelled,
}
use oban.Store.Pruned.{Passed, delete_finished_before-Passed}
use oban.Store.Rescue.{Rescued, rescue_executing_lem}
use oban.Store.Override.{cancel_overwritten}
use oban.Examples.Data.{mail, office, archive, archive-IsValid}

-- A pass over the archive with the cutoff 45 and room for one job.
abbrev old : List State
old = completed ∷ []

delete_finished_before-Passed_example :
    let out = delete_finished_before old (pos 45) (pos 1) archive in
    (out.0 + length out.1.jobs ≡ length archive.jobs)
    × (pos 0 <ℤ pos 1 → out.0 ≤ 1)
    × ((k : ℕ) (j : Job)
        → get k archive.jobs ≡ some j
        → Passed old (pos 45) (pos 1) archive archive-IsValid out k j)
    × ((k : ℕ) → get k archive.jobs ≡ none → get k out.1.jobs ≡ none)
delete_finished_before-Passed_example =
    delete_finished_before-Passed old (pos 45) (pos 1) archive archive-IsValid

rescue_executing_lem_example :
    ((rescue_executing (pos 60) (pos 70) office).0.0
      ≡ count_if (λ j. is_stuck (pos 60) j && has_attempts j) office.jobs)
    × ((rescue_executing (pos 60) (pos 70) office).0.1
        ≡ count_if (λ j. is_stuck (pos 60) j && not (has_attempts j)) office.jobs)
    × ((k : ℕ)
        → ((get k office.jobs ≡ none)
            × (get k (rescue_executing (pos 60) (pos 70) office).1.jobs ≡ none))
          ⊎ ((j j' : Job) × (get k office.jobs ≡ some j)
              × (get k (rescue_executing (pos 60) (pos 70) office).1.jobs ≡ some j')
              × Rescued (pos 60) (pos 70) j j'))
rescue_executing_lem_example = rescue_executing_lem (pos 60) (pos 70) office

abbrev sending : Job
sending = record (mail 3 executing (pos 0)) { attempted_at = pos 20; attempt = 1 }

cancel_overwritten_example :
    (get 3 (complete 3 (pos 35) (cancel 3 (pos 30) office).1).1.jobs
      ≡ some (mark_completed (pos 35) (mark_cancelled (pos 30) sending)))
    × (get 3 (retry 3 (pos 50) none (pos 35) (cancel 3 (pos 30) office).1).1.jobs
        ≡ some (mark_retryable (pos 50) none (pos 35) (mark_cancelled (pos 30) sending)))
unfolding get
cancel_overwritten_example =
    cancel_overwritten 3 (pos 30) (pos 35) (pos 50) none office sending refl refl
