-- ===== src/SqlStore/Keyed.antt =====
-- Statements on one id (sqlstore.go) and the map of jobs: since no id stands twice, what they
-- change, remove or find is what the map holds under the id.
use oban.Prelude.{
  ℕ, ◌≡◌, ◌≢◌, refl, sym, ap, Bool, true, false, ◌&&◌, not, List, [], ◌∷◌, ◌++◌, Option, none, some,
  All, map, keep, ◌==◌, ==_iff, if◌then◌else◌, Bool-cases, inl, inr, arith,
}
use oban.Job.{Job}
use oban.JobMap.{get, put, remove, Distinct, get-id}
use oban.SqlStore.Changes.{change_where}

module _ (id : ℕ) where
  module _ (p : Job → Bool) (f : Job → Job) where
    change_absent : (js : List Job) → All (λ i. i.id ≢ id) js → map (change_where id p f) js ≡ js
    change_absent [] h = refl
    change_absent (j ∷ js) h = ground (arith, change_absent js h.1)

    pub change_unmatched :
        (js : List Job)
        → Distinct js
        → ((j : Job) → get id js ≡ some j → p j ≡ false)
        → map (change_where id p f) js ≡ js
    unfolding get
    change_unmatched [] d n = refl
    change_unmatched (j ∷ js) d n = elim (Bool-cases (j.id == id)) [
      | inl e ↦
          let rest = change_absent js (rw (sym ((==_iff j.id id).0 e)) d.0) in
          rw (e, n j (rw e refl)) (ap (◌∷◌ j) rest)
      | inr e ↦ rw e (ap (◌∷◌ j) (change_unmatched js d.1 (λ i g. n i (rw e g))))
    ]

    pub change_matched :
        (js : List Job) (j : Job)
        → Distinct js
        → get id js ≡ some j
        → p j ≡ true
        → (f j).id ≡ j.id
        → map (change_where id p f) js ≡ put (f j) js
    unfolding get put
    change_matched [] j d g e k = absurd (cc)
    change_matched (i ∷ js) j d g e k = elim (Bool-cases (i.id == id)) [
      | inl t ↦
          let rest = change_absent js (rw (sym ((==_iff i.id id).0 t)) d.0) in ground (arith, rest)
      | inr t ↦
          let later = rw t at g in
          ground (arith, change_matched js j d.1 later e k, get-id id js j later)
    ]

  keep_absent : (js : List Job) → All (λ i. i.id ≢ id) js → keep (λ j. not (j.id == id)) js ≡ js
  keep_absent [] h = refl
  keep_absent (j ∷ js) h = ground (arith, keep_absent js h.1)

  pub keep-remove : (js : List Job) → Distinct js → keep (λ j. not (j.id == id)) js ≡ remove id js
  unfolding remove
  keep-remove [] d = refl
  keep-remove (j ∷ js) d = elim (Bool-cases (j.id == id)) [
    | inl e ↦ rw e (keep_absent js (rw (sym ((==_iff j.id id).0 e)) d.0))
    | inr e ↦ rw e (ap (◌∷◌ j) (keep-remove js d.1))
  ]

  -- The jobs under an id that pass a test: one or none.
  abbrev pub held : (Job → Bool) → Option Job → List Job
  held q none = []
  held q (some j) = if q j then j ∷ [] else []

  keep_none :
      (q : Job → Bool) (js : List Job)
      → All (λ i. i.id ≢ id) js
      → keep (λ j. (j.id == id) && q j) js ≡ []
  keep_none q [] h = refl
  keep_none q (j ∷ js) h = ground (arith, keep_none q js h.1)

  pub keep-held :
      (q : Job → Bool) (js : List Job)
      → Distinct js
      → keep (λ j. (j.id == id) && q j) js ≡ held q (get id js)
  unfolding get
  keep-held q [] d = refl
  keep-held q (j ∷ js) d = elim (Bool-cases (j.id == id)) [
    | inl e ↦ rw (e, keep_none q js (rw (sym ((==_iff j.id id).0 e)) d.0)) refl
    | inr e ↦ rw e (keep-held q js d.1)
  ]

-- A job with a new id is added at the end.
pub put-append : (j : Job) (js : List Job) → All (λ i. i.id ≢ j.id) js → put j js ≡ (js ++ j ∷ [])
unfolding put
put-append j [] h = refl
put-append j (i ∷ js) h = ground (arith, put-append j js h.1)
