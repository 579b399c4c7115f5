-- ===== src/Store/PruneLoop.antt =====
-- The loop of `DeleteFinishedBefore` (inmemory_caps.go), and the map after removals by id.
use oban.Prelude.{
  ℕ, zero, suc, ◌+◌, ◌-◌, ◌<◌, ◌≡◌, ◌≢◌, refl, ◌∙◌, ap, ℤ, pos, pos_part, ltb_ℤ, ◌==◌, inl, inr,
  List, [], ◌∷◌, none, All, In, here, there, take, length, if◌then◌else◌, if_both, Bool-cases,
  arith,
}
use oban.Job.{State}
use oban.JobMap.{get, get-remove}
use oban.Store.{MemStore}
use oban.Store.Caps.{erase_job, prune_ids, prune_candidates, delete_finished_before}
use oban.Store.Invariant.{IsValid, erase_job-IsValid}

-- The ids that the loop removes, with `n` removed before.
abbrev pub within : ℤ → ℕ → List ℕ → List ℕ
within limit n ids = if ltb_ℤ (pos 0) limit then take (pos_part limit - n) ids else ids

abbrev pub erase_all : List ℕ → MemStore → MemStore
erase_all [] s = s
erase_all (id ∷ ids) s = erase_all ids (erase_job id s)

pub pair_path : {m n : ℕ} {s t : MemStore} → m ≡ n → s ≡ t → ◌≡◌ {A = ℕ × MemStore} (m, s) (n, t)
pair_path p q = λ i. (p i, q i)

pub take-nil : (m : ℕ) → take m [] ≡ (let xs : List ℕ = [] in xs)
take-nil zero = refl
take-nil (suc m) = refl

pub within-nil : (limit : ℤ) (n : ℕ) → within limit n [] ≡ []
within-nil limit n =
    if_both (λ ids. ids ≡ []) (ltb_ℤ (pos 0) limit) (λ _. take-nil (pos_part limit - n)) (λ _. refl)

pub take_none : (m : ℕ) (ids : List ℕ) → m ≡ 0 → take m ids ≡ []
take_none zero ids e = refl
take_none (suc m) ids e = absurd (omega arith)

pub take_some : (m : ℕ) (id : ℕ) (ids : List ℕ) → 0 < m → take m (id ∷ ids) ≡ id ∷ take (m - 1) ids
take_some zero id ids h = absurd (omega arith)
take_some (suc m) id ids h = ap (λ (k : ℕ). id ∷ take k ids) (omega arith)

pub minus_suc : (m n : ℕ) → m - suc n ≡ m - n - 1
minus_suc m n = omega arith

pub minus_zero : (m : ℕ) → m - 0 ≡ m
minus_zero m = omega arith

-- The loop stops at the limit.
pub prune_ids_lem :
    (limit : ℤ) (n : ℕ) (ids : List ℕ) (s : MemStore)
    → prune_ids limit n ids s ≡ (n + length (within limit n ids), erase_all (within limit n ids) s)
unfolding prune_ids
prune_ids_lem limit n [] s = rw (within-nil limit n) (pair_path (omega arith) refl)
prune_ids_lem limit n (id ∷ ids) s = elim (Bool-cases (ltb_ℤ (pos 0) limit)) [
  | inr e ↦
      rw e (prune_ids_lem limit (suc n) ids (erase_job id s) ∙ rw e (pair_path (omega arith) refl))
  | inl e ↦ elim (Bool-cases (ltb_ℤ (pos n) limit)) [
    | inr f ↦
        rw (e, f)
          (rw (take_none (pos_part limit - n) (id ∷ ids) (ground arith))
            (pair_path (omega arith) refl))
    | inl f ↦
        rw (e, f)
          (rw (take_some (pos_part limit - n) id ids (ground arith)) (
            prune_ids_lem limit (suc n) ids (erase_job id s)
            ∙ rw (e, minus_suc (pos_part limit) n) (pair_path (omega arith) refl)))
  ]
]

pub erase_all-IsValid : (ids : List ℕ) (s : MemStore) → IsValid s → IsValid (erase_all ids s)
erase_all-IsValid [] s v = v
erase_all-IsValid (id ∷ ids) s v = erase_all-IsValid ids (erase_job id s) (erase_job-IsValid id s v)

pub get-erase_job :
    (k id : ℕ) (s : MemStore)
    → IsValid s
    → get k (erase_job id s).jobs ≡ (if id == k then none else get k s.jobs)
get-erase_job k id s v = get-remove k id s.jobs v.distinct

pub get-erase_all-none :
    (k : ℕ) (ids : List ℕ) (s : MemStore)
    → IsValid s
    → get k s.jobs ≡ none
    → get k (erase_all ids s).jobs ≡ none
get-erase_all-none k [] s v e = e
get-erase_all-none k (id ∷ ids) s v e =
    get-erase_all-none k ids (erase_job id s) (erase_job-IsValid id s v)
      (ground (arith, get-erase_job k id s v))

pub get-erase_all_erased :
    (k : ℕ) (ids : List ℕ) (s : MemStore)
    → IsValid s
    → In k ids
    → get k (erase_all ids s).jobs ≡ none
get-erase_all_erased k [] s v i = elim i [ ]
get-erase_all_erased k (_ ∷ ids) s v here =
    get-erase_all-none k ids (erase_job k s) (erase_job-IsValid k s v)
      (ground (arith, get-erase_job k k s v))
get-erase_all_erased k (id ∷ ids) s v (there i) =
    get-erase_all_erased k ids (erase_job id s) (erase_job-IsValid id s v) i

pub get-erase_all_out :
    (k : ℕ) (ids : List ℕ) (s : MemStore)
    → IsValid s
    → All (λ id. id ≢ k) ids
    → get k (erase_all ids s).jobs ≡ get k s.jobs
get-erase_all_out k [] s v h = refl
get-erase_all_out k (id ∷ ids) s v h =
    get-erase_all_out k ids (erase_job id s) (erase_job-IsValid id s v) h.1
    ∙ ground (arith, get-erase_job k id s v)

pub delete_finished_before_loop :
    (states : List State) (cutoff limit : ℤ) (s : MemStore)
    → let ids = within limit 0 (prune_candidates states cutoff s.jobs) in
      delete_finished_before states cutoff limit s ≡ (length ids, erase_all ids s)
unfolding delete_finished_before
delete_finished_before_loop states cutoff limit s =
    prune_ids_lem limit 0 (prune_candidates states cutoff s.jobs) s ∙ pair_path (omega arith) refl
