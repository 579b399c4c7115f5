-- ===== src/Engine/Exclusive.antt =====
-- Attempts and other callers, step by step (oban.go), and the jobs that attempts hold.
use oban.Prelude.{ℤ, String, List}
use oban.Prelude.Laws.{All-of_In, In-All}
use oban.Errors.{plain}
use oban.Backoff.{Backoff}
use oban.Store.{MemStore, new_store}
use oban.Store.Ops.{step}
use oban.Store.Invariant.{step-IsValid}
use oban.Engine.Steps.{
  Attempt, Running, Leaves, Sparing, Moves, dispatches, settles, unregistered, called, Reached,
  starts, moves,
}
use oban.Engine.Held.{
  Held, settle-IsChange, finish_discard-IsChange, IsChange, IsChange-IsValid, IsSound, AllHeld-ne,
  Leaves-All, Leaves-Distinct,
}
use oban.Engine.Fetched.{dispatch-IsSound}
use oban.Engine.Outside.{outside-Held}

-- An attempt that ends changes its own job.
ended-IsSound :
    (a : Attempt) (rest : List Attempt) (r : Running) (t : MemStore)
    → Leaves a r.attempts rest
    → IsChange a.1.id r.store t
    → IsSound r
    → IsSound (record { store = t; attempts = rest })
ended-IsSound a rest r t l change i =
    let others = Leaves-Distinct l i.distinct in
    record {
      valid = IsChange-IsValid a.1.id r.store t change i.valid;
      distinct = others.1;
      held =
          AllHeld-ne a.1.id r.store t rest change others.0
            (Leaves-All (λ b. Held b.1.id r.store) l i.held).1;
    }

module _ (queues : List (String × ℤ)) (backoff : Backoff) where
  Moves-IsSound : {r r' : Running} → Moves queues backoff Sparing r r' → IsSound r → IsSound r'
  Moves-IsSound (dispatches q conc now r c) i = dispatch-IsSound q conc now r i
  Moves-IsSound (settles a rest e now later_on r l) i =
      ended-IsSound a rest r _ l (settle-IsChange backoff e a.1 now later_on now r.store) i
  Moves-IsSound (unregistered a rest text now r l) i =
      ended-IsSound a rest r _ l (finish_discard-IsChange backoff (plain text) a.1 now now r.store)
        i
  Moves-IsSound (called c r o) i = record {
    valid = step-IsValid r.store c i.valid;
    distinct = i.distinct;
    held =
        All-of_In (λ a. Held a.1.id (step r.store c)) r.attempts
          (λ a k.
            outside-Held r a c k o i.valid (In-All (λ b. Held b.1.id r.store) r.attempts k i.held));
  }

  -- Attempts start and end, with any results, while other callers call the store; these calls may be
  -- any, but retries, snoozes, completions and discards only of jobs that no attempt is under way of,
  -- and rescues only if no job of an attempt is stuck by their measure. Then no two attempts under way
  -- hold the same job, and no fetch can hand out a job that an attempt holds.
  pub Reached-IsSound : {r : Running} → Reached queues backoff Sparing r → IsSound r
  unfolding new_store
  Reached-IsSound starts = record {
    valid = record { distinct = tt; issued = tt };
    distinct = tt;
    held = tt;
  }
  Reached-IsSound (moves p m) = Moves-IsSound m (Reached-IsSound p)
