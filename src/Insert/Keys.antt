-- ===== src/Insert/Keys.antt =====
-- The parts of a unique key (insert.go): what equal keys say of the two jobs.
use Prim.Native.String.{◌++◌, count}
use text.Mathlib.TextLemmas.{append_assoc, append_cancel_left, append_inj}
use oban.Prelude.{
  ◌+◌, ◌<◌, ◌≡◌, ◌≢◌, refl, sym, ap, ◌∙◌, subst, ℤ, String, Bool, false, List, [], ◌∷◌,
  ◌++◌ as append, none, some, All, In, here, there, count_if, sort_by, sort_insert, if_both,
  if◌then◌else◌, Bool-cases, Option-cases, ◌⊎◌, inl, inr, str_eq, str_eq_iff, arith,
}
use oban.Prelude.Laws.{In-cons, All-of_In}
use oban.Job.{Job}
use oban.Insert.{
  UniqueField, by_worker, by_queue, by_args, by_priority, other_field, UniqueBy, Json, field_part,
  field_parts, insert_unique_key, insert_canonical_args, list_of, string_less,
}

-- encoding/json writes different lists of texts, and different numbers, differently.
pub record IsFaithful (json : Json) : Type 0 where
  pub list_injective : (xs ys : List String) → json.print_list xs ≡ json.print_list ys → xs ≡ ys
  pub int_injective : (m n : ℤ) → json.print_int m ≡ json.print_int n → m ≡ n

module _ (p : String → Bool) where
  count_if-sort_insert :
      (x : String) (xs : List String)
      → count_if p (sort_insert string_less x xs) ≡ (if p x then 1 else 0) + count_if p xs
  count_if-sort_insert x [] = refl
  count_if-sort_insert x (y ∷ ys) =
      if_both (λ (l : List String). count_if p l ≡ (if p x then 1 else 0) + count_if p (y ∷ ys))
        (string_less x y) (λ _. refl) (λ _. omega (arith, count_if-sort_insert x ys))

  count_if-sort_by : (xs : List String) → count_if p (sort_by string_less xs) ≡ count_if p xs
  count_if-sort_by [] = refl
  count_if-sort_by (x ∷ xs) =
      omega (arith, count_if-sort_insert x (sort_by string_less xs), count_if-sort_by xs)

  count_if-append :
      (xs ys : List String) → count_if p (append xs ys) ≡ count_if p xs + count_if p ys
  count_if-append [] ys = omega arith
  count_if-append (x ∷ xs) ys = omega (arith, count_if-append xs ys)

In-count_if : (x : String) (xs : List String) → In x xs → 0 < count_if (str_eq x) xs
In-count_if x [] i = elim i [ ]
In-count_if x (_ ∷ xs) here = rw ((str_eq_iff x x).1 refl) (omega arith)
In-count_if x (y ∷ xs) (there i) = omega (arith, In-count_if x xs i)

count_if-In : (x : String) (xs : List String) → 0 < count_if (str_eq x) xs → In x xs
count_if-In x [] h = absurd (omega (arith, h))
count_if-In x (y ∷ xs) h = elim (Bool-cases (str_eq x y)) [
  | inl e ↦ subst (λ z. In x (z ∷ xs)) ((str_eq_iff x y).0 e) here
  | inr e ↦ there (count_if-In x xs (omega (arith, rw e at h)))
]

-- Lists whose sorted common extensions are equal have the same members.
sorted_same :
    (keys xs ys : List String)
    → sort_by string_less (append keys xs) ≡ sort_by string_less (append keys ys)
    → (x : String) → In x xs
    → In x ys
sorted_same keys xs ys e x i =
    let p = str_eq x in
    count_if-In x ys (
      omega (
        arith,
        ap (count_if p) e,
        count_if-sort_by p (append keys xs),
        count_if-sort_by p (append keys ys),
        count_if-append p keys xs,
        count_if-append p keys ys,
        In-count_if x xs i,
      ))

-- The text of args: as it is where it is empty or no JSON, and otherwise in canonical form.
pub data Canonical (json : Json) (raw : String) : String → Type 0 where
  no_args : raw ≡ "" → Canonical json raw ""
  is_json : {text : String} → raw ≢ "" → json.canonical raw ≡ some text → Canonical json raw text
  no_json : raw ≢ "" → json.canonical raw ≡ none → Canonical json raw raw

module _ (json : Json) where
  -- What a rule compares of two jobs for one field.
  abbrev pub Agrees : Job → Job → UniqueField → Type 0
  Agrees i j by_worker = i.worker ≡ j.worker
  Agrees i j by_queue = i.queue ≡ j.queue
  Agrees i j by_args = (text : String) × Canonical json i.args text × Canonical json j.args text
  Agrees i j by_priority = i.priority ≡ j.priority
  Agrees i j (other_field name) = Unit {0}

  insert_canonical_args-Canonical :
      (raw : String) → Canonical json raw (insert_canonical_args json raw)
  unfolding insert_canonical_args
  insert_canonical_args-Canonical raw = elim (Bool-cases (str_eq raw "")) [
    | inl e ↦ rw e (no_args ((str_eq_iff raw "").0 e))
    | inr n ↦ rw n (elim (Option-cases (json.canonical raw)) [
      | inl e ↦ rw e (no_json (given n) e)
      | inr (t, e) ↦ rw e (is_json (given n) e)
    ])
  ]
    where
      given : str_eq raw "" ≡ false → raw ≢ ""
      given n e = cc ((str_eq_iff raw "").1 e, n)

  Canonical-unique : (raw t u : String) → Canonical json raw t → Canonical json raw u → t ≡ u
  Canonical-unique raw t u (no_args e) (no_args f) = refl
  Canonical-unique raw t u (no_args e) (is_json n f) = absurd (n e)
  Canonical-unique raw t u (no_args e) (no_json n f) = absurd (n e)
  Canonical-unique raw t u (is_json n f) (no_args e) = absurd (n e)
  Canonical-unique raw t u (is_json n e) (is_json m f) = cc (e, f)
  Canonical-unique raw t u (is_json n e) (no_json m f) = absurd (cc (e, f))
  Canonical-unique raw t u (no_json n f) (no_args e) = absurd (n e)
  Canonical-unique raw t u (no_json n e) (is_json m f) = absurd (cc (e, f))
  Canonical-unique raw t u (no_json n e) (no_json m f) = refl

  -- The first letter of the part of a field, and what follows it.
  initial : UniqueField → String
  initial by_worker = "w"
  initial by_queue = "q"
  initial by_args = "a"
  initial by_priority = "p"
  initial (other_field name) = ""

  tail_of : Job → UniqueField → String
  tail_of j by_worker = "orker=" ++ j.worker
  tail_of j by_queue = "ueue=" ++ j.queue
  tail_of j by_args = "rgs=" ++ insert_canonical_args json j.args
  tail_of j by_priority = "riority=" ++ json.print_int j.priority
  tail_of j (other_field name) = ""

  In-one : {x y : String} → In x (y ∷ []) → x ≡ y
  In-one i = elim (In-cons i) [ inl e ↦ e | inr k ↦ elim k [ ] ]

  spelled :
      (j : Job) (f : UniqueField) (z : String)
      → In z (field_part json j f)
      → z ≡ initial f ++ tail_of j f
  unfolding initial tail_of
  spelled j by_worker z i = In-one i ∙ append_assoc "w" "orker=" j.worker
  spelled j by_queue z i = In-one i ∙ append_assoc "q" "ueue=" j.queue
  spelled j by_args z i = In-one i ∙ append_assoc "a" "rgs=" (insert_canonical_args json j.args)
  spelled j by_priority z i = In-one i ∙ append_assoc "p" "riority=" (json.print_int j.priority)
  spelled j (other_field name) z i = elim i [ ]

  different : (c d : String) → str_eq c d ≡ false → c ≡ d → ⊥
  different c d n e = cc ((str_eq_iff c d).1 e, n)

  one_letter :
      (j : Job) (f : UniqueField) (z : String) → In z (field_part json j f) → count (initial f) ≡ 1
  unfolding initial
  one_letter j by_worker z i = refl
  one_letter j by_queue z i = refl
  one_letter j by_args z i = refl
  one_letter j by_priority z i = refl
  one_letter j (other_field name) z i = elim i [ ]

  field_eq :
      {z : String} (i j : Job) (f g : UniqueField)
      → In z (field_part json i f)
      → In z (field_part json j g)
      → initial f ≡ initial g
      → f ≡ g
  unfolding initial
  field_eq i j by_worker by_worker p q e = refl
  field_eq i j by_worker by_queue p q e = absurd (different "w" "q" refl e)
  field_eq i j by_worker by_args p q e = absurd (different "w" "a" refl e)
  field_eq i j by_worker by_priority p q e = absurd (different "w" "p" refl e)
  field_eq i j by_worker (other_field n) p q e = elim q [ ]
  field_eq i j by_queue by_worker p q e = absurd (different "q" "w" refl e)
  field_eq i j by_queue by_queue p q e = refl
  field_eq i j by_queue by_args p q e = absurd (different "q" "a" refl e)
  field_eq i j by_queue by_priority p q e = absurd (different "q" "p" refl e)
  field_eq i j by_queue (other_field n) p q e = elim q [ ]
  field_eq i j by_args by_worker p q e = absurd (different "a" "w" refl e)
  field_eq i j by_args by_queue p q e = absurd (different "a" "q" refl e)
  field_eq i j by_args by_args p q e = refl
  field_eq i j by_args by_priority p q e = absurd (different "a" "p" refl e)
  field_eq i j by_args (other_field n) p q e = elim q [ ]
  field_eq i j by_priority by_worker p q e = absurd (different "p" "w" refl e)
  field_eq i j by_priority by_queue p q e = absurd (different "p" "q" refl e)
  field_eq i j by_priority by_args p q e = absurd (different "p" "a" refl e)
  field_eq i j by_priority by_priority p q e = refl
  field_eq i j by_priority (other_field n) p q e = elim q [ ]
  field_eq i j (other_field m) g p q e = elim p [ ]

  -- The part of one field is not the part of another.
  same_field :
      (i j : Job) (f g : UniqueField) (z : String)
      → In z (field_part json i f)
      → In z (field_part json j g)
      → f ≡ g
  same_field i j f g z p q =
      field_eq i j f g p q
        (append_inj (sym (spelled i f z p) ∙ spelled j g z q)
          (one_letter i f z p ∙ sym (one_letter j g z q))).0

  part-Agrees :
      (faithful : IsFaithful json) (i j : Job) (f : UniqueField) (z : String)
      → In z (field_part json i f)
      → In z (field_part json j f)
      → Agrees i j f
  part-Agrees faithful i j by_worker z p q =
      append_cancel_left "worker=" _ _ (sym (In-one p) ∙ In-one q)
  part-Agrees faithful i j by_queue z p q =
      append_cancel_left "queue=" _ _ (sym (In-one p) ∙ In-one q)
  part-Agrees faithful i j by_args z p q =
      let same = append_cancel_left "args=" _ _ (sym (In-one p) ∙ In-one q) in
      (
        insert_canonical_args json i.args,
        insert_canonical_args-Canonical i.args,
        subst (Canonical json j.args) (sym same) (insert_canonical_args-Canonical j.args),
      )
  part-Agrees faithful i j by_priority z p q =
      faithful.int_injective _ _ (append_cancel_left "priority=" _ _ (sym (In-one p) ∙ In-one q))
  part-Agrees faithful i j (other_field name) z p q = tt

  In-append_left : {z : String} (xs ys : List String) → In z xs → In z (append xs ys)
  In-append_left [] ys i = elim i [ ]
  In-append_left (_ ∷ xs) ys here = here
  In-append_left (x ∷ xs) ys (there i) = there (In-append_left xs ys i)

  In-append_right : {z : String} (xs ys : List String) → In z ys → In z (append xs ys)
  In-append_right [] ys i = i
  In-append_right (x ∷ xs) ys i = there (In-append_right xs ys i)

  append-In : {z : String} (xs ys : List String) → In z (append xs ys) → In z xs ⊎ In z ys
  append-In [] ys i = inr i
  append-In (x ∷ xs) ys i = elim (In-cons i) [
    | inl e ↦ inl (subst (λ w. In w (x ∷ xs)) (sym e) here)
    | inr k ↦ elim (append-In xs ys k) [ inl l ↦ inl (there l) | inr r ↦ inr r ]
  ]

  In-field_parts :
      {z : String} {f : UniqueField} (j : Job) (fs : List UniqueField)
      → In f fs
      → In z (field_part json j f)
      → In z (field_parts json j fs)
  In-field_parts j [] k i = elim k [ ]
  In-field_parts j (f ∷ fs) here i = In-append_left (field_part json j f) (field_parts json j fs) i
  In-field_parts j (g ∷ fs) (there k) i =
      In-append_right (field_part json j g) (field_parts json j fs) (In-field_parts j fs k i)

  field_parts-In :
      {z : String} (j : Job) (fs : List UniqueField)
      → In z (field_parts json j fs)
      → (g : UniqueField) × In z (field_part json j g)
  field_parts-In j [] i = elim i [ ]
  field_parts-In j (g ∷ fs) i = elim (append-In (field_part json j g) (field_parts json j fs) i) [
    | inl k ↦ (g, k)
    | inr k ↦ field_parts-In j fs k
  ]

  -- Jobs with equal keys agree on each field of the rule, and jobs that agree have equal keys.
  pub key_eq→Agrees :
      (faithful : IsFaithful json) (i j : Job) (by : UniqueBy)
      → insert_unique_key json i by ≡ insert_unique_key json j by
      → All (Agrees i j) (list_of by.fields)
  unfolding insert_unique_key
  key_eq→Agrees faithful i j by e = All-of_In (Agrees i j) (list_of by.fields) of_part
    where
      members :
          (z : String)
          → In z (field_parts json i (list_of by.fields))
          → In z (field_parts json j (list_of by.fields))
      members =
          sorted_same by.keys (field_parts json i (list_of by.fields))
            (field_parts json j (list_of by.fields)) (faithful.list_injective _ _ e)

      of_member :
          (f : UniqueField) (z : String)
          → In f (list_of by.fields)
          → In z (field_part json i f)
          → Agrees i j f
      of_member f z k p =
          let r =
            field_parts-In j (list_of by.fields)
              (members z (In-field_parts i (list_of by.fields) k p)) in
          let same = same_field i j f r.0 z p r.1 in
          part-Agrees faithful i j f z p
            (subst (λ (g : UniqueField). In z (field_part json j g)) (sym same) r.1)

      of_part : (f : UniqueField) → In f (list_of by.fields) → Agrees i j f
      of_part by_worker k = of_member by_worker _ k here
      of_part by_queue k = of_member by_queue _ k here
      of_part by_args k = of_member by_args _ k here
      of_part by_priority k = of_member by_priority _ k here
      of_part (other_field name) k = tt

  field_parts_agree :
      (i j : Job) (fs : List UniqueField)
      → All (Agrees i j) fs
      → field_parts json i fs ≡ field_parts json j fs
  field_parts_agree i j [] h = refl
  field_parts_agree i j (by_worker ∷ fs) h = rw (h.0, field_parts_agree i j fs h.1)
  field_parts_agree i j (by_queue ∷ fs) h = rw (h.0, field_parts_agree i j fs h.1)
  field_parts_agree i j (by_args ∷ fs) h =
      let same : insert_canonical_args json i.args ≡ insert_canonical_args json j.args =
        Canonical-unique i.args _ _ (insert_canonical_args-Canonical i.args) h.0.1
        ∙ Canonical-unique j.args _ _ h.0.2 (insert_canonical_args-Canonical j.args) in
      rw (same, field_parts_agree i j fs h.1)
  field_parts_agree i j (by_priority ∷ fs) h = rw (h.0, field_parts_agree i j fs h.1)
  field_parts_agree i j (other_field name ∷ fs) h = field_parts_agree i j fs h.1

  pub Agrees→key_eq :
      (i j : Job) (by : UniqueBy)
      → All (Agrees i j) (list_of by.fields)
      → insert_unique_key json i by ≡ insert_unique_key json j by
  unfolding insert_unique_key
  Agrees→key_eq i j by h =
      ap (λ (parts : List String). json.print_list (sort_by string_less (append by.keys parts)))
        (field_parts_agree i j (list_of by.fields) h)
