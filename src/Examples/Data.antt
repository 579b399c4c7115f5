-- ===== src/Examples/Data.antt =====
-- The jobs and stores of the examples.
use oban.Prelude.{ℕ, ℤ, pos, [], ◌∷◌, arith}
use oban.Job.{State, available, executing, completed, Job, fresh_job}
use oban.Store.{MemStore}
use oban.Store.Invariant.{IsValid}

abbrev pub mail : ℕ → State → ℤ → Job
mail id st p = record (fresh_job "mail" "{}") {
  id = id;
  state = st;
  priority = p;
  scheduled_at = pos 10;
  inserted_at = pos 10;
  unique_key = "weekly";
  unique_period = pos 100;
}

-- Two jobs to run, the second of them first, and one that runs since time 20.
abbrev pub office : MemStore
office = record {
  jobs =
      mail 1 available (pos 5)
      ∷ mail 2 available (pos 1)
      ∷ record (mail 3 executing (pos 0)) { attempted_at = pos 20; attempt = 1 }
      ∷ [];
  next_id = 3;
  tags = [];
  metas = [];
}

pub office-IsValid : IsValid office
office-IsValid = record {
  distinct = ((omega arith, (omega arith, tt)), ((omega arith, tt), (tt, tt)));
  issued =
      ((omega arith, omega arith), ((omega arith, omega arith), ((omega arith, omega arith), tt)));
}

-- Three jobs that have completed at 30, 40 and 50.
abbrev pub done_at : ℕ → ℤ → Job
done_at id t = record (mail id completed (pos 0)) { completed_at = t }

abbrev pub archive : MemStore
archive = record {
  jobs = done_at 1 (pos 30) ∷ done_at 2 (pos 40) ∷ done_at 3 (pos 50) ∷ [];
  next_id = 3;
  tags = [];
  metas = [];
}

pub archive-IsValid : IsValid archive
archive-IsValid = record {
  distinct = ((omega arith, (omega arith, tt)), ((omega arith, tt), (tt, tt)));
  issued =
      ((omega arith, omega arith), ((omega arith, omega arith), ((omega arith, omega arith), tt)));
}
