-- ===== src/Worker/Register.antt =====
-- The registry of workers (worker.go).
use oban.Prelude.{
  ◌≡◌, ◌≢◌, refl, String, false, ◌∷◌, none, some, ◌⊎◌, inl, inr, Bool-cases, Option-cases, str_eq,
  str_eq_iff, arith,
}
use oban.Errors.{Err, Result, ok, err}
use oban.Worker.{Worker, Registry, lookup_worker, register, names}

module _ (W : Type 0) (name : String) (w : Worker W) (r : Registry W) where
  -- How a registration ends.
  pub data Registered : Result (Registry W) → Type 0 where
    refused :
        (e : Err)
        → (name ≡ "") ⊎ ((old : Worker W) × (lookup_worker W name r ≡ some old))
        → Registered (err e)
    accepted :
        (r' : Registry W)
        → name ≢ ""
        → lookup_worker W name r ≡ none
        → lookup_worker W name r' ≡ some w
        → ((n : String) → name ≢ n → lookup_worker W n r' ≡ lookup_worker W n r)
        → names W r' ≡ name ∷ names W r
        → Registered (ok r')

  differs : (n : String) → name ≢ n → str_eq name n ≡ false
  differs n h = elim (Bool-cases (str_eq name n)) [
    | inl y ↦ absurd (h ((str_eq_iff name n).0 y))
    | inr e ↦ e
  ]

  named : str_eq name "" ≡ false → name ≢ ""
  named h e = absurd (ground (arith, h, (str_eq_iff name "").1 e))

  -- A registration is refused for an empty or a known name. Otherwise the worker is found under its name,
  -- every other name finds what it found before, and the name is listed.
  pub register-Registered : Registered (register W name (some w) r)
  unfolding register lookup_worker names
  register-Registered = elim (Bool-cases (str_eq name "")) [
    | inl y ↦ rw y (refused _ (inl ((str_eq_iff name "").0 y)))
    | inr n ↦ rw n (elim (Option-cases (lookup_worker W name r)) [
      | inr (old, e) ↦ rw (e, lookup_worker) (refused _ (inr (old, e)))
      | inl e ↦
          rw (e, lookup_worker)
            (accepted ((name, w) ∷ r) (named n) e (rw (str_eq_iff name name).1 refl)
              (λ m h. rw (differs m h)) refl)
    ])
  ]
