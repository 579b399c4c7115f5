-- ===== src/Insert/Conflict.antt =====
-- `FindConflict` of the InMemoryStore (inmemory_caps.go), and when two jobs share a unique key.
use oban.Prelude.{◌≡◌, ℤ, ◌-ℤ◌, ◌≤ℤ◌, true, false, All, In, arith}
use oban.Prelude.Laws.{IsOrder}
use oban.Job.{Job}
use oban.Store.{id_before}
use oban.Insert.Keys.{Agrees}
use oban.Insert.{UniqueBy, Json, list_of}

id_before-asym : (a b : Job) → id_before a b ≡ true → id_before b a ≡ false
id_before-asym a b h = ground arith

id_before-negatively_trans :
    (a b c : Job) → id_before b a ≡ false → id_before c b ≡ false → id_before c a ≡ false
id_before-negatively_trans a b c h k = ground arith

pub id_before-IsOrder : IsOrder id_before
id_before-IsOrder = record { asym = id_before-asym; negatively_trans = id_before-negatively_trans }

module _ (json : Json) where
  -- A stored job that the rule makes a duplicate of `job` at `now`: in one of its states, inserted within
  -- its period, and with the same worker, queue, args or priority, for each of these fields that it names.
  pub record Duplicates (job : Job) (by : UniqueBy) (now : ℤ) (e : Job) : Type 0 where
    pub in_state : In e.state (list_of by.states)
    pub is_recent : now -ℤ by.period ≤ℤ e.inserted_at
    pub agrees : All (Agrees json e job) (list_of by.fields)
