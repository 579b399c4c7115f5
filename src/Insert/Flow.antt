-- ===== src/Insert/Flow.antt =====
-- `Insert`, `insertApplyReplace` and `Tags` (insert.go), and the batch inserts of batch.go.
use oban.Prelude.{
  ℕ, suc, ℤ, pos, ltb_ℤ, String, Bool, true, false, ◌&&◌, ◌||◌, not, List, [], ◌∷◌, ◌++◌, Option,
  none, some, if◌then◌else◌,
}
use oban.Errors.{Err, Result, ok, err, plain, wrapped}
use oban.Job.{Job, is_zero}
use oban.StoreApi.{StoreApi, TaggableStore}
use oban.Insert.{
  UniqueBy, ReplaceField, InsertOpts, Json, replace_scheduled_at, replace_priority,
  replace_max_attempts, replace_args, replace_tags, replace_meta, other_replace,
  insert_with_defaults, insert_unique_key, validate_priority,
}

-- The capability `UniqueStore`.
abbrev pub UniqueStore : Type 0 → Type 0
UniqueStore W = Job → UniqueBy → ℤ → W → Result (Option Job) × W

-- The switch of `insertApplyReplace` over the job fields.
abbrev pub replace_field : ReplaceField → Job → Job → Job
replace_field replace_scheduled_at incoming c = record c { scheduled_at = incoming.scheduled_at }
replace_field replace_priority incoming c = record c { priority = incoming.priority }
replace_field replace_max_attempts incoming c = record c { max_attempts = incoming.max_attempts }
replace_field replace_args incoming c = record c { args = incoming.args }
replace_field replace_tags incoming c = c
replace_field replace_meta incoming c = c
replace_field (other_replace name) incoming c = c

abbrev pub replace_fields : List ReplaceField → Job → Job → Job
replace_fields [] incoming c = c
replace_fields (f ∷ fs) incoming c = replace_fields fs incoming (replace_field f incoming c)

abbrev is_tags : ReplaceField → Bool
is_tags replace_tags = true
is_tags _ = false

abbrev is_meta : ReplaceField → Bool
is_meta replace_meta = true
is_meta _ = false

abbrev pub replaces_tags : List ReplaceField → Bool
replaces_tags [] = false
replaces_tags (f ∷ fs) = is_tags f || replaces_tags fs

abbrev pub replaces_meta : List ReplaceField → Bool
replaces_meta [] = false
replaces_meta (f ∷ fs) = is_meta f || replaces_meta fs

abbrev pub nonempty {ℓ} : {A : Type ℓ} → List A → Bool
nonempty [] = false
nonempty (x ∷ xs) = true

module _ {W : Type 0} (api : StoreApi W) where
  abbrev write_labels :
      TaggableStore W
      → ℕ
      → InsertOpts
      → Result (List String × List (String × String)) × W
      → Option Err × W
  write_labels ts id opts (err e, w) = (some e, w)
  write_labels ts id opts (ok (tags, metas), w) =
      ts.set_tags_meta id (if replaces_tags opts.replace then opts.tags else tags)
        (if replaces_meta opts.replace then opts.metas else metas) w

  abbrev replace_labels : Option (TaggableStore W) → ℕ → InsertOpts → W → Option Err × W
  replace_labels none id opts w = (none, w)
  replace_labels (some ts) id opts w = write_labels ts id opts (ts.tags_meta id w)

  -- `insertApplyReplace`: the conflict is the caller's copy, which is returned changed.
  unfoldable pub insert_apply_replace : Job → Job → InsertOpts → W → (Job × Option Err) × W
  insert_apply_replace conflict incoming opts w =
      let changed = replace_fields opts.replace incoming conflict in
      if not (replaces_tags opts.replace) && not (replaces_meta opts.replace)
      then ((changed, none), w)
      else let labelled = replace_labels api.taggable? changed.id opts w in
        ((changed, labelled.0), labelled.1)

  abbrev after_replace : (Job × Option Err) × W → Result (Job × Bool) × W
  after_replace ((c, some e), w) = (err e, w)
  after_replace ((c, none), w) = (ok (c, false), w)

  abbrev on_conflict : Job → Job → InsertOpts → W → Result (Job × Bool) × W
  on_conflict conflict job opts w =
      if nonempty opts.replace
      then after_replace (insert_apply_replace conflict job opts w)
      else (ok (conflict, false), w)

  abbrev labelled : Job → Option Err × W → Result (Job × Bool) × W
  labelled j (none, w) = (ok (j, true), w)
  labelled j (some e, w) = (err e, w)

  abbrev label_new : Option (TaggableStore W) → Job → InsertOpts → W → Result (Job × Bool) × W
  label_new none j opts w = (ok (j, true), w)
  label_new (some ts) j opts w = labelled j (ts.set_tags_meta j.id opts.tags opts.metas w)

  abbrev after_enqueue : InsertOpts → Result (Job × Bool) × W → Result (Job × Bool) × W
  after_enqueue opts (err e, w) = (err e, w)
  after_enqueue opts (ok (j, false), w) = (ok (j, false), w)
  after_enqueue opts (ok (j, true), w) =
      if nonempty opts.tags || nonempty opts.metas
      then label_new api.taggable? j opts w
      else (ok (j, true), w)

  abbrev insert_plain : Job → InsertOpts → W → Result (Job × Bool) × W
  insert_plain job opts w = after_enqueue opts (api.enqueue (some job) w)

  abbrev after_lookup : Job → InsertOpts → Result (Option Job) × W → Result (Job × Bool) × W
  after_lookup job opts (err e, w) = (err e, w)
  after_lookup job opts (ok none, w) = insert_plain job opts w
  after_lookup job opts (ok (some c), w) = on_conflict c job opts w

  module _ (json : Json) (wall : ℤ) (unique? : Option (UniqueStore W)) where
    -- Without the capability the rule is folded onto the job's own unique key.
    abbrev insert_unique :
        Option (UniqueStore W) → Job → UniqueBy → InsertOpts → W → Result (Job × Bool) × W
    insert_unique none job by opts w =
        insert_plain
          (record job { unique_key = insert_unique_key json job by; unique_period = by.period })
          opts w
    insert_unique (some find) job by opts w =
        after_lookup job opts
          (find job by (if is_zero job.inserted_at then wall else job.inserted_at) w)

    abbrev insert_by : Option UniqueBy → Job → InsertOpts → W → Result (Job × Bool) × W
    insert_by none job opts w = insert_plain job opts w
    insert_by (some by) job opts w =
        if ltb_ℤ (pos 0) by.period
        then insert_unique unique? job (insert_with_defaults by) opts w
        else insert_plain job opts w

    abbrev insert_valid : Option Err → Job → InsertOpts → W → Result (Job × Bool) × W
    insert_valid (some e) job opts w = (err e, w)
    insert_valid none job opts w = insert_by opts.unique job opts w

    unfoldable pub insert : Option Job → InsertOpts → W → Result (Job × Bool) × W
    insert none opts w = (err (plain "oban: cannot insert nil job"), w)
    insert (some job) opts w = insert_valid (validate_priority job.priority) job opts w

  abbrev tags_of : Result (List String × List (String × String)) × W → Result (List String) × W
  tags_of (err e, w) = (err e, w)
  tags_of (ok (tags, metas), w) = (ok tags, w)

  abbrev read_tags : Option (TaggableStore W) → ℕ → W → Result (List String) × W
  read_tags none id w = (ok [], w)
  read_tags (some ts) id w = tags_of (ts.tags_meta id w)

  -- `Tags`.
  unfoldable pub tags : ℕ → W → Result (List String) × W
  tags id w = read_tags api.taggable? id w

  -- The loop of `InsertMany`: the results so far, and the error that ended the batch. `at_index`
  -- stands for the text with the index of the failed job in the batch, which fmt prints.
  module _ (at_index : ℕ → String) where
    abbrev after_one :
        (List (Job × Bool) → W → (List (Job × Bool) × Option Err) × W)
        → ℕ
        → List (Job × Bool)
        → Result (Job × Bool) × W
        → (List (Job × Bool) × Option Err) × W
    after_one next i results (err e, w) = ((results, some (wrapped (at_index i) e)), w)
    after_one next i results (ok r, w) = next (results ++ r ∷ []) w

    unfoldable pub insert_many_from :
        ℕ → List (Option Job) → List (Job × Bool) → W → (List (Job × Bool) × Option Err) × W
    insert_many_from i [] results w = ((results, none), w)
    insert_many_from i (none ∷ jobs) results w =
        ((results, some (plain "oban: cannot insert nil job in batch")), w)
    insert_many_from i (some job ∷ jobs) results w =
        after_one (insert_many_from (suc i) jobs) i results (api.enqueue (some job) w)

    unfoldable pub insert_many : List (Option Job) → W → (List (Job × Bool) × Option Err) × W
    unfolding insert_many_from
    insert_many jobs w = insert_many_from 0 jobs [] w
