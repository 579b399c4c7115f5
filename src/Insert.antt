-- ===== src/Insert.antt =====
-- insert.go, and `FindConflict` of inmemory_caps.go: inserts that are unique over several fields,
-- replace fields on a conflict, and carry tags and meta. encoding/json is a parameter.
pub mod Flow
pub mod Replace
pub mod Keys
pub mod Conflict
use Prim.Native.String.{◌++◌, compare}
use text.Mathlib.Text.{is_lt}
use oban.Prelude.{
  ℕ, ℤ, pos, negsuc, ltb_ℤ, ltb, leb_ℤ, ◌-ℤ◌, String, Bool, true, false, ◌&&◌, ◌||◌, not, List, [],
  ◌∷◌, ◌++◌ as append, Option, none, some, find_first, sort_by, length, if◌then◌else◌, str_eq,
}
use oban.Errors.{Err, Result, ok, err, plain}
use oban.Job.{State, available, scheduled, executing, retryable, Job, in_states, before, is_zero}
use oban.Store.{MemStore, id_before}
use oban.StoreApi.{StoreApi, TaggableStore}

pub data UniqueField : Type 0 where
  by_worker by_queue by_args by_priority : UniqueField
  other_field : String → UniqueField

-- `nil` slices are `none`.
pub record UniqueBy : Type 0 where
  pub period : ℤ
  pub states : Option (List State)
  pub fields : Option (List UniqueField)
  pub keys : List String

abbrev pub default_states : List State
default_states = available ∷ scheduled ∷ executing ∷ retryable ∷ []

abbrev pub default_fields : List UniqueField
default_fields = by_worker ∷ by_queue ∷ by_args ∷ []

abbrev pub or_default {ℓ} : {A : Type ℓ} → Option A → A → Option A
or_default none a = some a
or_default (some b) a = some b

-- `insertWithDefaults`.
unfoldable pub insert_with_defaults : UniqueBy → UniqueBy
insert_with_defaults by = record by {
  states = or_default by.states default_states;
  fields = or_default by.fields default_fields;
}

abbrev pub list_of {ℓ} : {A : Type ℓ} → Option (List A) → List A
list_of none = []
list_of (some xs) = xs

pub data ReplaceField : Type 0 where
  replace_scheduled_at replace_priority replace_max_attempts replace_args replace_tags
        replace_meta :
      ReplaceField
  other_replace : String → ReplaceField

pub record InsertOpts : Type 0 where
  pub unique : Option UniqueBy
  pub replace : List ReplaceField
  pub tags : List String
  pub metas : List (String × String)

abbrev pub err_priority : Err
err_priority = plain "oban: priority must be between 0 and 9"

unfoldable pub validate_priority : ℤ → Option Err
validate_priority p = if ltb_ℤ p (pos 0) || ltb_ℤ (pos 9) p then some err_priority else none

-- encoding/json: decoding a text and encoding the value again (`none` where either fails), and the
-- encodings of a list of texts and of a number.
pub record Json : Type 0 where
  pub canonical : String → Option String
  pub print_list : List String → String
  pub print_int : ℤ → String

abbrev or_raw : Option String → String → String
or_raw none raw = raw
or_raw (some text) raw = text

abbrev pub string_less : String → String → Bool
string_less a b = is_lt (compare a b)

module _ (json : Json) where
  unfoldable pub insert_canonical_args : String → String
  insert_canonical_args raw = if str_eq raw "" then "" else or_raw (json.canonical raw) raw

  abbrev field_part : Job → UniqueField → List String
  field_part job by_worker = ("worker=" ++ job.worker) ∷ []
  field_part job by_queue = ("queue=" ++ job.queue) ∷ []
  field_part job by_args = ("args=" ++ insert_canonical_args job.args) ∷ []
  field_part job by_priority = ("priority=" ++ json.print_int job.priority) ∷ []
  field_part job (other_field name) = []

  abbrev pub field_parts : Job → List UniqueField → List String
  field_parts job [] = []
  field_parts job (f ∷ fs) = append (field_part job f) (field_parts job fs)

  -- `insertUniqueKey`.
  unfoldable pub insert_unique_key : Job → UniqueBy → String
  unfolding insert_canonical_args
  insert_unique_key job by =
      json.print_list (sort_by string_less (append by.keys (field_parts job (list_of by.fields))))

  abbrev pub rich_conflict : Job → UniqueBy → ℤ → Job → Bool
  rich_conflict job by now existing =
      in_states (list_of by.states) existing.state
      && not (before existing.inserted_at (now -ℤ by.period))
      && str_eq (insert_unique_key existing by) (insert_unique_key job by)

  -- `FindConflict` of the InMemoryStore: the earliest conflict by id.
  unfoldable pub find_conflict : Job → UniqueBy → ℤ → MemStore → Option Job
  find_conflict job by now s =
      if leb_ℤ by.period (pos 0)
      then none
      else find_first (rich_conflict job (insert_with_defaults by) now) (sort_by id_before s.jobs)
