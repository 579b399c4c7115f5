-- ===== src/Store/PruneCount.antt =====
-- How many jobs the loop of `DeleteFinishedBefore` (inmemory_caps.go) removes.
use oban.Prelude.{
  ℕ, zero, suc, ◌+◌, ◌≡◌, ◌≢◌, refl, sym, ap, ◌==◌, List, [], ◌∷◌, none, All, map, take, length,
  sort_insert, sort_by, if_both, Bool-cases, inl, inr, Bool, arith,
}
use oban.Prelude.Laws.{take-All, sort_insert-All, sort_by-All}
use oban.Job.{Job}
use oban.JobMap.{get, remove, Distinct}
use oban.Store.{MemStore}
use oban.Store.Caps.{erase_job}
use oban.Store.Invariant.{IsValid, erase_job-IsValid}
use oban.Store.PruneLoop.{erase_all, get-erase_job}

-- No id stands twice.
abbrev pub Apart : List ℕ → Type 0
Apart [] = Unit
Apart (k ∷ ks) = All (λ i. i ≢ k) ks × Apart ks

map_id-All :
    (k : ℕ) (js : List Job) → All (λ j. j.id ≢ k) js → All (λ i. i ≢ k) (map (λ j. j.id) js)
map_id-All k [] h = tt
map_id-All k (j ∷ js) h = (h.0, map_id-All k js h.1)

pub map_id-Apart : (js : List Job) → Distinct js → Apart (map (λ j. j.id) js)
map_id-Apart [] d = tt
map_id-Apart (j ∷ js) d = (map_id-All j.id js d.0, map_id-Apart js d.1)

pub take-Apart : (n : ℕ) (ks : List ℕ) → Apart ks → Apart (take n ks)
take-Apart zero ks d = tt
take-Apart (suc n) [] d = tt
take-Apart (suc n) (k ∷ ks) d = (take-All (λ i. i ≢ k) n ks d.0, take-Apart n ks d.1)

sort_insert-Apart :
    (less : ℕ → ℕ → Bool) (k : ℕ) (ks : List ℕ)
    → All (λ i. i ≢ k) ks
    → Apart ks
    → Apart (sort_insert less k ks)
sort_insert-Apart less k [] n d = (tt, tt)
sort_insert-Apart less k (i ∷ ks) n d =
    if_both Apart (less k i) (λ _. (n, d))
      (λ _. (
        sort_insert-All less (λ l. l ≢ i) k ks (λ e. n.0 (sym e)) d.0,
        sort_insert-Apart less k ks n.1 d.1,
      ))

pub sort_by-Apart : (less : ℕ → ℕ → Bool) (ks : List ℕ) → Apart ks → Apart (sort_by less ks)
sort_by-Apart less [] d = tt
sort_by-Apart less (k ∷ ks) d =
    sort_insert-Apart less k (sort_by less ks) (sort_by-All less (λ i. i ≢ k) ks d.0)
      (sort_by-Apart less ks d.1)

length-remove : (k : ℕ) (js : List Job) → get k js ≢ none → suc (length (remove k js)) ≡ length js
unfolding get remove
length-remove k [] n = absurd (n refl)
length-remove k (j ∷ js) n = elim (Bool-cases (j.id == k)) [
  | inl e ↦ rw e refl
  | inr e ↦ rw e (ap suc (length-remove k js (λ g. n (rw e g))))
]

still_there :
    (id : ℕ) (ids : List ℕ) (s : MemStore)
    → IsValid s
    → All (λ k. k ≢ id) ids
    → All (λ k. get k s.jobs ≢ none) ids
    → All (λ k. get k (erase_job id s).jobs ≢ none) ids
still_there id [] s v a h = tt
still_there id (k ∷ ids) s v a h =
    (λ g. h.0 (ground (arith, g, a.0, get-erase_job k id s v)), still_there id ids s v a.1 h.1)

-- Each removal of a stored id makes the map smaller by one job.
pub erase_all-length :
    (ids : List ℕ) (s : MemStore)
    → IsValid s
    → Apart ids
    → All (λ k. get k s.jobs ≢ none) ids
    → length ids + length (erase_all ids s).jobs ≡ length s.jobs
erase_all-length [] s v a h = omega arith
erase_all-length (id ∷ ids) s v a h =
    let rest =
      erase_all-length ids (erase_job id s) (erase_job-IsValid id s v) a.1
        (still_there id ids s v a.0 h.1) in
    omega (arith, rest, length-remove id s.jobs h.0)
