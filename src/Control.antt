-- ===== src/Control.antt =====
-- control.go: a store whose queues can be paused and scaled, and the operations on one job.
pub mod Gate
pub mod Operators
use oban.Prelude.{
  ℕ, ℤ, pos, leb_ℤ, ltb_ℤ, String, Bool, true, false, ◌&&◌, List, [], ◌∷◌, Option, none, some,
  if◌then◌else◌, str_eq,
}
use oban.Errors.{Err, Result, ok, err, err_unsupported}
use oban.Job.{Job}
use oban.StoreApi.{StoreApi}
use oban.Worker.{Clock}

-- `ControlledStore`: the queues that are paused, and the batch caps of the queues that are scaled.
pub record Controls : Type 0 where
  pub paused : List String
  pub caps : List (String × ℤ)

abbrev pub new_controls : Controls
new_controls = record { paused = []; caps = [] }

unfoldable pub listed : String → List String → Bool
listed q [] = false
listed q (p ∷ ps) = if str_eq p q then true else listed q ps

unfoldable pub unlisted : String → List String → List String
unlisted q [] = []
unlisted q (p ∷ ps) = let rest = unlisted q ps in if str_eq p q then rest else p ∷ rest

-- `c.caps[queue]`: 0 for a queue without a cap.
unfoldable pub cap_of : String → List (String × ℤ) → ℤ
cap_of q [] = pos 0
cap_of q ((p, n) ∷ m) = if str_eq p q then n else cap_of q m

unfoldable pub uncapped : String → List (String × ℤ) → List (String × ℤ)
uncapped q [] = []
uncapped q ((p, n) ∷ m) = let rest = uncapped q m in if str_eq p q then rest else (p, n) ∷ rest

unfoldable pub pause : String → Controls → Controls
unfolding unlisted
pause q c = record c { paused = q ∷ unlisted q c.paused }

unfoldable pub resume : String → Controls → Controls
unfolding unlisted
resume q c = record c { paused = unlisted q c.paused }

unfoldable pub is_paused : String → Controls → Bool
unfolding listed
is_paused q c = listed q c.paused

unfoldable pub scale : String → ℤ → Controls → Controls
unfolding uncapped
scale q max_batch c =
    if leb_ℤ max_batch (pos 0)
    then record c { caps = uncapped q c.caps }
    else record c { caps = (q, max_batch) ∷ uncapped q c.caps }

-- The limit that the inner store is asked for.
unfoldable pub batch_limit : String → ℤ → Controls → ℤ
unfolding cap_of
batch_limit q limit c =
    if ltb_ℤ (pos 0) (cap_of q c.caps) && ltb_ℤ (cap_of q c.caps) limit
    then cap_of q c.caps
    else limit

module _ {W : Type 0} (api : StoreApi W) where
  -- `FetchAvailable` of the ControlledStore.
  unfoldable pub controlled_fetch : Controls → String → ℤ → ℤ → W → Result (List Job) × W
  controlled_fetch c queue limit now w =
      if is_paused queue c
      then (ok [], w)
      else api.fetch_available queue (batch_limit queue limit c) now w

  -- The ControlledStore as a store: every other method is the inner one's, and it has no capability.
  abbrev pub controlled : Controls → StoreApi W
  controlled c = record {
    enqueue = api.enqueue;
    fetch_available = controlled_fetch c;
    complete = api.complete;
    retry = api.retry;
    discard = api.discard;
    get_job = api.get_job;
    cancel? = none;
    snooze? = none;
    retry_now? = none;
    delete? = none;
    taggable? = none;
  }

  abbrev found_error : Result Job → Option Err
  found_error (ok j) = none
  found_error (err e) = some e

  -- `controlEnsureExists`.
  unfoldable pub ensure_exists : ℕ → W → Option Err × W
  ensure_exists id w = let out = api.get_job id w in (found_error out.0, out.1)

  abbrev after_check : (W → Option Err × W) → Option Err × W → Option Err × W
  after_check act (some e, w) = (some e, w)
  after_check act (none, w) = act w

  module _ (clock : Clock W) where
    abbrev at_now : (ℤ → W → Option Err × W) → W → Option Err × W
    at_now act w = let read = clock w in act read.0 read.1

    abbrev cancel_by : Option (ℕ → ℤ → W → Option Err × W) → ℕ → W → Option Err × W
    cancel_by none id w = (some err_unsupported, w)
    cancel_by (some act) id w = after_check (at_now (act id)) (ensure_exists id w)

    -- The Controller's `Cancel`, `Retry` and `Delete`.
    unfoldable pub operator_cancel : ℕ → W → Option Err × W
    unfolding ensure_exists
    operator_cancel id w = cancel_by api.cancel? id w

    unfoldable pub operator_retry : ℕ → W → Option Err × W
    unfolding ensure_exists
    operator_retry id w = cancel_by api.retry_now? id w

  abbrev delete_by : Option (ℕ → W → Option Err × W) → ℕ → W → Option Err × W
  delete_by none id w = (some err_unsupported, w)
  delete_by (some act) id w = after_check (act id) (ensure_exists id w)

  unfoldable pub operator_delete : ℕ → W → Option Err × W
  unfolding ensure_exists
  operator_delete id w = delete_by api.delete? id w
