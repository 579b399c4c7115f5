-- ===== src/Store/Pruned.antt =====
-- What a pass of `DeleteFinishedBefore` (inmemory_caps.go) does to each job.
use oban.Prelude.{
  ℕ, ◌+◌, ◌-◌, ◌≤◌, ◌≡◌, ◌≢◌, ◌∙◌, subst, ℤ, pos, pos_part, ltb_ℤ, ◌<ℤ◌, ltb, false, ◌⊎◌, inl, inr,
  List, none, some, All, In, keep, map, length, if_both, Bool-cases, arith,
}
use oban.Prelude.Laws.{Ordered, In-All, All-of_In, In-take, length-take_le}
use oban.Job.{Job, State}
use oban.JobMap.{get, get-id}
use oban.JobMap.Distinct.{In-get, get-In, keep-Distinct}
use oban.Store.{MemStore}
use oban.Store.Caps.{prune_candidates, prunable, delete_finished_before}
use oban.Store.Invariant.{IsValid}
use oban.Store.PruneLoop.{
  delete_finished_before_loop, within, erase_all, get-erase_all_erased, get-erase_all_out,
  get-erase_all-none,
}
use oban.Store.PruneCount.{Apart, map_id-Apart, sort_by-Apart, take-Apart, erase_all-length}
use oban.Store.Prune.{
  Expired, prune_candidates-In, In-prune_candidates, prunable→Expired, Expired→prunable,
  prune_candidates-Ordered, ltb_false→le, In-or-not, within_best, limit_pos,
}

-- What a pass that removes at most `limit` jobs leaves of a job that stood under the id `k`.
module _ (states : List State) (cutoff limit : ℤ) (s : MemStore) (v : IsValid s) where
  chosen : List ℕ
  chosen = within limit 0 (prune_candidates states cutoff s.jobs)

  pass : delete_finished_before states cutoff limit s ≡ (length chosen, erase_all chosen s)
  unfolding chosen
  pass = delete_finished_before_loop states cutoff limit s

  chosen-In : {k : ℕ} → In k chosen → In k (prune_candidates states cutoff s.jobs)
  unfolding chosen
  chosen-In {k} =
      if_both (λ ids. In k ids → In k (prune_candidates states cutoff s.jobs)) (ltb_ℤ (pos 0) limit)
        (λ _. In-take (pos_part limit - 0) (prune_candidates states cutoff s.jobs)) (λ _ i. i)

  delete_finished_before_keeps :
      (k : ℕ) (j : Job)
      → get k s.jobs ≡ some j
      → ¬ Expired states cutoff j
      → get k (delete_finished_before states cutoff limit s).1.jobs ≡ some j
  delete_finished_before_keeps k j e n =
      rw pass (get-erase_all_out k chosen s v (All-of_In (λ id. id ≢ k) chosen spared) ∙ e)
    where
      spared : (id : ℕ) → In id chosen → id ≢ k
      spared id i same =
          let r = prune_candidates-In states cutoff s.jobs (chosen-In i) in
          let again = get-In s.jobs r.0 v.distinct r.1 in
          n (
            subst (Expired states cutoff) (cc (again, e, r.2, same))
              (prunable→Expired states cutoff r.0 r.3))

  delete_finished_before_bound :
      pos 0 <ℤ limit → (delete_finished_before states cutoff limit s).0 ≤ pos_part limit
  unfolding chosen
  delete_finished_before_bound h = rw pass (
      rw (limit_pos limit h) (
        omega (arith, length-take_le (pos_part limit - 0) (prune_candidates states cutoff s.jobs))))

  delete_finished_before_rest :
      (k : ℕ) (j : Job)
      → get k s.jobs ≡ some j
      → Expired states cutoff j
      → let out = delete_finished_before states cutoff limit s in
        (get k out.1.jobs ≡ none)
        ⊎ ((pos 0 <ℤ limit)
            × (out.0 ≡ pos_part limit)
            × ((i : ℕ) (gone : Job) → get i s.jobs ≡ some gone → get i out.1.jobs ≡ none → i ≤ k))
  unfolding chosen
  delete_finished_before_rest k j e x = rw pass (elim (within_best limit ids k sorted listed) [
    | inl i ↦ inl (get-erase_all_erased k chosen s v i)
    | inr full ↦ inr (
      full.0,
      full.1,
      λ i gone h g. elim (In-or-not i chosen) [
        | inl c ↦ ltb_false→le k i (In-All (λ c. ltb k c ≡ false) chosen c full.2)
        | inr n ↦ absurd (cc (get-erase_all_out i chosen s v n, h, g))
      ],
    )
  ])
    where
      ids : List ℕ
      ids = prune_candidates states cutoff s.jobs

      sorted : Ordered ltb ids
      sorted = prune_candidates-Ordered states cutoff s.jobs

      listed : In k ids
      listed =
          subst (λ i. In i ids) (get-id k s.jobs j e)
            (In-prune_candidates states cutoff s.jobs j (In-get k s.jobs j e)
              (Expired→prunable states cutoff j x))

  chosen-Expired :
      (i : ℕ) (gone : Job) → get i s.jobs ≡ some gone → In i chosen → Expired states cutoff gone
  chosen-Expired i gone e c =
      let r = prune_candidates-In states cutoff s.jobs (chosen-In c) in
      let again = get-In s.jobs r.0 v.distinct r.1 in
      subst (Expired states cutoff) (cc (again, e, r.2)) (prunable→Expired states cutoff r.0 r.3)

  removed-Expired :
      (i : ℕ) (gone : Job)
      → get i s.jobs ≡ some gone
      → get i (delete_finished_before states cutoff limit s).1.jobs ≡ none
      → Expired states cutoff gone
  removed-Expired i gone e g = elim (In-or-not i chosen) [
    | inl c ↦ chosen-Expired i gone e c
    | inr n ↦ absurd (cc (get-erase_all_out i chosen s v n, e, rw pass at g))
  ]

  chosen-Apart : Apart chosen
  unfolding chosen prune_candidates
  chosen-Apart =
      let sorted = sort_by-Apart ltb (map (λ j. j.id) (keep (prunable states cutoff) s.jobs)) (
        map_id-Apart (keep (prunable states cutoff) s.jobs)
          (keep-Distinct (prunable states cutoff) s.jobs v.distinct)) in
      if_both Apart (ltb_ℤ (pos 0) limit) (λ _. take-Apart (pos_part limit - 0) _ sorted)
        (λ _. sorted)

  chosen_there : All (λ k. get k s.jobs ≢ none) chosen
  chosen_there =
      All-of_In (λ k. get k s.jobs ≢ none) chosen
        λ k c e.
          let r = prune_candidates-In states cutoff s.jobs (chosen-In c) in
          cc (get-In s.jobs r.0 v.distinct r.1, e, r.2)

  -- What a pass makes of a stored job: it stays if it is not expired; if it is expired it is removed,
  -- or it stays since a positive limit is used up by expired jobs with no larger ids.
  pub data Passed (out : ℕ × MemStore) (k : ℕ) (j : Job) : Type 0 where
    kept : ¬ Expired states cutoff j → get k out.1.jobs ≡ some j → Passed out k j
    removed : Expired states cutoff j → get k out.1.jobs ≡ none → Passed out k j
    used_up :
        Expired states cutoff j
        → pos 0 <ℤ limit
        → out.0 ≡ pos_part limit
        → ((i : ℕ) (gone : Job)
            → get i s.jobs ≡ some gone
            → get i out.1.jobs ≡ none
            → Expired states cutoff gone × (i ≤ k))
        → Passed out k j

  job-Passed :
      (k : ℕ) (j : Job)
      → get k s.jobs ≡ some j
      → Passed (delete_finished_before states cutoff limit s) k j
  job-Passed k j e = elim (Bool-cases (prunable states cutoff j)) [
    | inr f ↦ kept (not_expired f) (delete_finished_before_keeps k j e (not_expired f))
    | inl y ↦
        let x = prunable→Expired states cutoff j y in
        elim (delete_finished_before_rest k j e x) [
          | inl gone ↦ removed x gone
          | inr full ↦
              used_up x full.0 full.1
                (λ i gone h g. (removed-Expired i gone h g, full.2 i gone h g))
        ]
  ]
    where
      not_expired : prunable states cutoff j ≡ false → ¬ Expired states cutoff j
      not_expired f x = cc (Expired→prunable states cutoff j x, f)

  -- A pruning pass reports how many jobs it removed, at most a positive limit. A job is expired if it is
  -- in one of the states and ended before the cutoff. A stored job that is not expired stays as it is. One that is expired is removed, or a positive limit is used up by other
  -- expired jobs, none with a larger id. No job is added.
  pub delete_finished_before-Passed :
      let out = delete_finished_before states cutoff limit s in
      (out.0 + length out.1.jobs ≡ length s.jobs)
      × (pos 0 <ℤ limit → out.0 ≤ pos_part limit)
      × ((k : ℕ) (j : Job) → get k s.jobs ≡ some j → Passed out k j)
      × ((k : ℕ) → get k s.jobs ≡ none → get k out.1.jobs ≡ none)
  delete_finished_before-Passed = (
    rw pass (erase_all-length chosen s v chosen-Apart chosen_there),
    delete_finished_before_bound,
    job-Passed,
    λ k e. rw pass (get-erase_all-none k chosen s v e),
  )
