-- ===== src/Engine/Batch.antt =====
-- `EnqueueMany` (batch.go). `at_index` stands for the text with the index of the failed job in the
-- batch, which fmt prints.
use oban.Prelude.{
  ℕ, suc, ◌+◌, ◌≡◌, refl, ◌∙◌, ap, String, Bool, List, [], ◌∷◌, ◌++◌, length, Option, none, some,
  arith,
}
use oban.Errors.{Err, Result, ok, err, plain, wrapped}
use oban.Backoff.{Backoff}
use oban.Job.{Job}
use oban.StoreApi.{StoreApi}
use oban.Worker.{Clock}
use oban.Engine.{engine_enqueue}

abbrev pub Batch : Type 0 → Type 0
Batch W = (List (Job × Bool) × Option Err) × W

module _ {W : Type 0} (at_index : ℕ → String) where
  abbrev pub after_job :
      (List (Job × Bool) → W → Batch W) → ℕ → List (Job × Bool) → Result (Job × Bool) × W → Batch W
  after_job next i results (err e, w) = ((results, some (wrapped (at_index i) e)), w)
  after_job next i results (ok r, w) = next (results ++ r ∷ []) w

module _ {W : Type 0} (api : StoreApi W) (backoff : Backoff) (clock : Clock W)
    (at_index : ℕ → String) where
  unfoldable pub enqueue_many_from : ℕ → List (Option Job) → List (Job × Bool) → W → Batch W
  enqueue_many_from i [] results w = ((results, none), w)
  enqueue_many_from i (none ∷ jobs) results w =
      ((results, some (plain "oban: cannot enqueue nil job in batch")), w)
  enqueue_many_from i (some job ∷ jobs) results w =
      after_job at_index (enqueue_many_from (suc i) jobs) i results
        (engine_enqueue api backoff clock (some job) w)

  unfoldable pub enqueue_many : List (Option Job) → W → Batch W
  unfolding enqueue_many_from
  enqueue_many jobs w = enqueue_many_from 0 jobs [] w

  -- What follows a batch: nothing after an error, and otherwise the jobs that are left.
  abbrev pub followed : ℕ → List (Option Job) → Batch W → Batch W
  followed i jobs ((results, none), w) = enqueue_many_from i jobs results w
  followed i jobs ((results, some e), w) = ((results, some e), w)

  split_from :
      (i : ℕ) (xs ys : List (Option Job)) (results : List (Job × Bool)) (w : W)
      → enqueue_many_from i (xs ++ ys) results w
        ≡ followed (i + length xs) ys (enqueue_many_from i xs results w)
  unfolding enqueue_many_from
  split_from i [] ys results w =
      let p : i ≡ i + 0 = omega arith in ap (λ (k : ℕ). enqueue_many_from k ys results w) p
  split_from i (none ∷ xs) ys results w = refl
  split_from i (some job ∷ xs) ys results w =
      go (λ rs v. split_from (suc i) xs ys rs v) (engine_enqueue api backoff clock (some job) w)
    where
      go :
          ((rs : List (Job × Bool)) (v : W)
            → enqueue_many_from (suc i) (xs ++ ys) rs v
              ≡ followed (suc i + length xs) ys (enqueue_many_from (suc i) xs rs v))
          → (r : Result (Job × Bool) × W)
          → after_job at_index (enqueue_many_from (suc i) (xs ++ ys)) i results r
            ≡ followed
                (i + length (some job ∷ xs))
                ys
                (after_job at_index (enqueue_many_from (suc i) xs) i results r)
      go again (err e, v) = refl
      go again (ok r, v) =
          let p : suc i + length xs ≡ i + length (some job ∷ xs) = omega arith in
          again (results ++ r ∷ []) v
          ∙ ap (λ (k : ℕ). followed k ys (enqueue_many_from (suc i) xs (results ++ r ∷ []) v)) p

  -- A batch is enqueued as its first jobs, and then, unless one of them failed, the others: the
  -- results go on, and an index counts from the start of the whole batch.
  pub enqueue_many-++ :
      (xs ys : List (Option Job)) (w : W)
      → enqueue_many (xs ++ ys) w ≡ followed (length xs) ys (enqueue_many xs w)
  unfolding enqueue_many
  enqueue_many-++ xs ys w =
      let p : 0 + length xs ≡ length xs = omega arith in
      split_from 0 xs ys [] w ∙ ap (λ (k : ℕ). followed k ys (enqueue_many_from 0 xs [] w)) p
