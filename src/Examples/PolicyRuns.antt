-- ===== src/Examples/PolicyRuns.antt =====
-- The theorems on retry policies and on inserts, applied to concrete policies, rules and stores.
use oban.Prelude.{◌≡◌, refl, pos, ◌-ℤ◌, false, [], ◌∷◌, none, some, arith}
use oban.Errors.{ok}
use oban.Job.{Job, available}
use oban.Store.{MemStore}
use oban.Backoff.{LinearBackoff, fibonacci_next}
use oban.Backoff.Fibonacci.{fib, fibonacci_next_lem}
use oban.Insert.{
  UniqueBy, InsertOpts, by_queue, by_worker, replace_priority, insert_with_defaults, find_conflict,
  insert_unique_key,
}
use oban.Insert.Replace.{memory_insert, insert_replace_not_stored}
use oban.Examples.Encodings.{plain_json}
use oban.Examples.Data.{mail, office}

-- One second more per attempt, and at most five minutes.
abbrev patient : LinearBackoff
patient = record { base = pos 1000000000; step = pos 1000000000; max_delay = pos 300000000000 }

fibonacci_next_lem_example :
    fibonacci_next (record { unit_delay = pos 1000000000; max_delay = pos 3600000000000 }) (pos 7)
    ≡ pos 13000000000
unfolding fib
fibonacci_next_lem_example =
    fibonacci_next_lem 1000000000 3600000000000 6 (omega arith) (omega arith) (omega arith)
      (omega arith)

abbrev by_two : UniqueBy
by_two = record {
  period = pos 100;
  states = none;
  fields = some (by_queue ∷ by_worker ∷ []);
  keys = [];
}

abbrev urgent : InsertOpts
urgent = record { unique = some by_two; replace = replace_priority ∷ []; tags = []; metas = [] }

insert_replace_not_stored_example :
    (t : MemStore) × (memory_insert plain_json
        (pos 60)
        (some (mail 0 available (pos 9)))
        urgent
        office
      ≡ (ok (mail 1 available (pos 9), false), t))
    × (t.jobs ≡ office.jobs)
    × ((false ≡ false) → (false ≡ false) → t ≡ office)
unfolding find_conflict insert_unique_key insert_with_defaults ◌-ℤ◌
insert_replace_not_stored_example =
    insert_replace_not_stored plain_json (pos 60) (mail 0 available (pos 9))
      (mail 1 available (pos 5)) urgent by_two office (omega arith) (omega arith) refl (omega arith)
      refl
