-- ===== src/Examples/StoreRuns.antt =====
-- The theorems on the InMemoryStore, applied to the example stores.
use oban.Prelude.{
  ℕ, ◌≡◌, ◌≢◌, refl, pos, false, ◌⊎◌, List, [], ◌∷◌, some, All, In, here, length, arith,
}
use oban.Job.{available, Job}
use oban.JobMap.{get, put}
use oban.Store.{new_store, enqueue, start_job, fetch_available, runs_before, candidates, start_all}
use oban.Store.Ops.{run, fetches, completes, enqueues}
use oban.Store.Invariant.{IsValid, run-new_store-IsValid}
use oban.Store.Handout.{
  Handed, fetch_available-Handed, fetch_available_best, fetch_available_exclusive,
}
use oban.Store.MapOrder.{candidates_visit_order}
use oban.Store.Unique.{Outcome, enqueue-Outcome}
use oban.Store.Evolves.{Tracks}
use oban.Store.History.{run-Tracks}
use oban.Examples.Data.{mail, office, office-IsValid}

-- The two fetches of one job each hand out job 2 first and then job 1.
fetch_available_exclusive_example :
    (start_job (pos 21) (mail 2 available (pos 1))).id
    ≢ (start_job (pos 22) (mail 1 available (pos 5))).id
unfolding fetch_available candidates start_all put
fetch_available_exclusive_example =
    fetch_available_exclusive "default" "default" (pos 1) (pos 1) (pos 21) (pos 22) office
      (start_job (pos 21) (mail 2 available (pos 1)))
      (start_job (pos 22) (mail 1 available (pos 5))) office-IsValid here here

fetch_available-Handed_example :
    Handed "default"
      (pos 21)
      office
      (fetch_available "default" (pos 1) (pos 21) office).1
      (start_job (pos 21) (mail 2 available (pos 1)))
unfolding fetch_available candidates start_all put
fetch_available-Handed_example =
    fetch_available-Handed "default" (pos 1) (pos 21) office
      (start_job (pos 21) (mail 2 available (pos 1))) office-IsValid here

fetch_available_best_example :
    In
      (start_job (pos 21) (mail 1 available (pos 5)))
      (fetch_available "default" (pos 1) (pos 21) office).0
    ⊎ ((length (fetch_available "default" (pos 1) (pos 21) office).0 ≡ 1)
        × All
            (λ c. runs_before (mail 1 available (pos 5)) c ≡ false)
            (fetch_available "default" (pos 1) (pos 21) office).0)
fetch_available_best_example =
    fetch_available_best "default" (pos 1) (pos 21) office (mail 1 available (pos 5)) refl here refl

abbrev swapped : List Job
swapped = mail 2 available (pos 1) ∷ mail 1 available (pos 5) ∷ []

abbrev straight : List Job
straight = mail 1 available (pos 5) ∷ mail 2 available (pos 1) ∷ []

same_map : (k : ℕ) → get k straight ≡ get k swapped
unfolding get
same_map k = ground arith

candidates_visit_order_example :
    candidates "default" (pos 1) (pos 21) straight ≡ candidates "default" (pos 1) (pos 21) swapped
candidates_visit_order_example =
    candidates_visit_order "default" (pos 1) (pos 21) straight swapped ((omega arith, tt), (tt, tt))
      ((omega arith, tt), (tt, tt)) same_map

abbrev weekly : Job
weekly = record (mail 0 available (pos 2)) { inserted_at = pos 60 }

enqueue-Outcome_example : Outcome weekly (pos 60) office (enqueue (pos 99) (some weekly) office)
enqueue-Outcome_example = enqueue-Outcome (pos 99) weekly office

run-new_store-IsValid_example :
    IsValid
      (run new_store (enqueues (pos 99) (some weekly) ∷ fetches "default" (pos 1) (pos 100) ∷ []))
run-new_store-IsValid_example =
    run-new_store-IsValid
      (enqueues (pos 99) (some weekly) ∷ fetches "default" (pos 1) (pos 100) ∷ [])

run-Tracks_example :
    Tracks
      (get 2 office.jobs)
      (get 2 (run office (fetches "default" (pos 1) (pos 21) ∷ completes 2 (pos 25) ∷ [])).jobs)
run-Tracks_example =
    run-Tracks 2 office (fetches "default" (pos 1) (pos 21) ∷ completes 2 (pos 25) ∷ [])
      office-IsValid (omega arith)
