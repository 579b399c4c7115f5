-- ===== src/Insert/Replace.antt =====
-- `Insert` (insert.go) on an InMemoryStore that has a conflict for the new job.
use oban.Prelude.{
  ◌≡◌, refl, ℤ, pos, ltb_ℤ, ◌<ℤ◌, ◌≤ℤ◌, Bool, true, false, ◌&&◌, ◌||◌, not, List, [], ◌∷◌, Option,
  none, some, ◌⊎◌, inl, inr, if◌then◌else◌, Bool-cases, arith,
}
use oban.Errors.{Result, ok, err}
use oban.Job.{Job, is_zero}
use oban.Store.{MemStore}
use oban.Store.Caps.{set_tags_meta}
use oban.StoreApi.Memory.{memory}
use oban.Insert.{
  UniqueBy, InsertOpts, Json, ReplaceField, validate_priority, err_priority, insert_with_defaults,
  find_conflict,
}
use oban.Insert.Flow.{
  UniqueStore, insert, insert_apply_replace, replace_fields, replaces_tags, replaces_meta, nonempty,
}

module _ (json : Json) (wall : ℤ) where
  -- The InMemoryStore's capability `UniqueStore`.
  abbrev pub memory_unique : UniqueStore MemStore
  memory_unique job by now s = (ok (find_conflict json job by now s), s)

  abbrev pub memory_insert : Option Job → InsertOpts → MemStore → Result (Job × Bool) × MemStore
  memory_insert = insert (memory wall) json wall (some memory_unique)

  abbrev pub insert_time : Job → ℤ
  insert_time job = if is_zero job.inserted_at then wall else job.inserted_at

  -- A priority outside 0 to 9 is refused and the store is left alone.
  pub insert_bad_priority :
      (job : Job) (opts : InsertOpts) (s : MemStore)
      → (job.priority <ℤ pos 0) ⊎ (pos 9 <ℤ job.priority)
      → memory_insert (some job) opts s ≡ (err err_priority, s)
  unfolding insert validate_priority
  insert_bad_priority job opts s h = rw (bad job.priority h)
    where
      bad : (p : ℤ) → (p <ℤ pos 0) ⊎ (pos 9 <ℤ p) → (ltb_ℤ p (pos 0) || ltb_ℤ (pos 9) p) ≡ true
      bad p g = ground arith

  good_priority : (p : ℤ) → pos 0 ≤ℤ p → p ≤ℤ pos 9 → validate_priority p ≡ none
  unfolding validate_priority
  good_priority p h k = ground arith

  -- What a replace leaves of the store: the jobs always, and everything if no label is replaced.
  abbrev Untouched : InsertOpts → MemStore → MemStore → Type 0
  Untouched opts s t =
      (t.jobs ≡ s.jobs)
      × ((replaces_tags opts.replace ≡ false) → (replaces_meta opts.replace ≡ false) → t ≡ s)

  insert_apply_replace-Untouched :
      (c job : Job) (opts : InsertOpts) (s : MemStore)
      → (t : MemStore) × (insert_apply_replace (memory wall) c job opts s
          ≡ ((replace_fields opts.replace job c, none), t))
        × Untouched opts s t
  unfolding insert_apply_replace set_tags_meta
  insert_apply_replace-Untouched c job opts s =
      elim (Bool-cases (not (replaces_tags opts.replace) && not (replaces_meta opts.replace))) [
        | inl none_replaced ↦ (s, rw none_replaced, (refl, λ _ _. refl))
        | inr some_replaced ↦ (
          (insert_apply_replace (memory wall) c job opts s).1,
          rw some_replaced,
          (rw some_replaced, λ a b. absurd (ground arith)),
        )
      ]

  -- On a conflict `Insert` answers the conflicting job, not inserted, with the fields of the list
  -- `Replace` taken over from the new job. The stored jobs stay as they are: the replacement is made
  -- on the caller's copy alone, and without tags or meta in the list the store does not change.
  pub insert_replace_not_stored :
      (job c : Job) (opts : InsertOpts) (by : UniqueBy) (s : MemStore)
      → pos 0 ≤ℤ job.priority
      → job.priority ≤ℤ pos 9
      → opts.unique ≡ some by
      → pos 0 <ℤ by.period
      → find_conflict json job (insert_with_defaults by) (insert_time job) s ≡ some c
      → (t : MemStore) × (memory_insert (some job) opts s
          ≡ (ok (replace_fields opts.replace job c, false), t))
        × (t.jobs ≡ s.jobs)
        × ((replaces_tags opts.replace ≡ false) → (replaces_meta opts.replace ≡ false) → t ≡ s)
  unfolding insert insert_apply_replace insert_apply_replace-Untouched
  insert_replace_not_stored job c opts by s lo hi u p f =
      rw (good_priority job.priority lo hi, u, period_pos by.period p, f)
        (elim (list_cases opts.replace) [
          | inl e ↦ (s, rw e, refl, λ _ _. refl)
          | inr e ↦
              let (t, r, same) = insert_apply_replace-Untouched c job opts s in
              (t, rw (e, r), same.0, same.1)
        ])
    where
      period_pos : (q : ℤ) → pos 0 <ℤ q → ltb_ℤ (pos 0) q ≡ true
      period_pos q g = ground arith

      list_cases : (fs : List ReplaceField) → (fs ≡ []) ⊎ (nonempty fs ≡ true)
      list_cases [] = inl refl
      list_cases (x ∷ xs) = inr refl
