-- ===== src/Examples/Encodings.antt =====
-- An encoding of lists of texts and of numbers that writes different ones differently.
use Prim.Native.String.{◌++◌, count}
use text.Mathlib.TextLemmas.{append_cancel_left, append_inj}
use oban.Prelude.{
  ℕ, zero, suc, ◌≡◌, refl, sym, ap, ap₂, ℤ, pos, negsuc, String, false, List, [], ◌∷◌, some, str_eq,
  str_eq_iff,
}
use oban.Insert.{Json}
use oban.Insert.Keys.{IsFaithful}

-- A text after n strokes and a circle.
abbrev pub after_strokes : ℕ → String → String
after_strokes zero s = "0" ++ s
after_strokes (suc n) s = "1" ++ after_strokes n s

-- Each text after the number of its letters.
abbrev pub print_texts : List String → String
print_texts [] = "2"
print_texts (x ∷ xs) = after_strokes (count x) (x ++ print_texts xs)

abbrev pub print_number : ℤ → String
print_number (pos n) = "p" ++ after_strokes n ""
print_number (negsuc n) = "n" ++ after_strokes n ""

abbrev pub plain_json : Json
plain_json = record {
  canonical = λ raw. some raw;
  print_list = print_texts;
  print_int = print_number;
}

apart : (c d s t : String) → str_eq c d ≡ false → count c ≡ count d → c ++ s ≡ d ++ t → ⊥
apart c d s t n k e = cc ((str_eq_iff c d).1 (append_inj e k).0, n)

after_strokes_inj :
    (m n : ℕ) (s t : String) → after_strokes m s ≡ after_strokes n t → (m ≡ n) × (s ≡ t)
after_strokes_inj zero zero s t e = (refl, append_cancel_left "0" s t e)
after_strokes_inj zero (suc n) s t e = absurd (apart "0" "1" s (after_strokes n t) refl refl e)
after_strokes_inj (suc m) zero s t e = absurd (apart "1" "0" (after_strokes m s) t refl refl e)
after_strokes_inj (suc m) (suc n) s t e =
    let r = after_strokes_inj m n s t (append_cancel_left "1" _ _ e) in (ap suc r.0, r.1)

not_ended : (n : ℕ) (s : String) → "2" ≡ after_strokes n s → ⊥
not_ended zero s e = apart "2" "0" "" s refl refl e
not_ended (suc n) s e = apart "2" "1" "" (after_strokes n s) refl refl e

print_texts_inj : (xs ys : List String) → print_texts xs ≡ print_texts ys → xs ≡ ys
print_texts_inj [] [] e = refl
print_texts_inj [] (y ∷ ys) e = absurd (not_ended (count y) _ e)
print_texts_inj (x ∷ xs) [] e = absurd (not_ended (count x) _ (sym e))
print_texts_inj (x ∷ xs) (y ∷ ys) e =
    let r = after_strokes_inj (count x) (count y) _ _ e in
    let q = append_inj r.1 r.0 in
    ap₂ (λ (z : String) (zs : List String). z ∷ zs) q.0 (print_texts_inj xs ys q.1)

print_number_inj : (m n : ℤ) → print_number m ≡ print_number n → m ≡ n
print_number_inj (pos m) (pos n) e =
    ap pos (after_strokes_inj m n "" "" (append_cancel_left "p" _ _ e)).0
print_number_inj (pos m) (negsuc n) e = absurd (apart "p" "n" _ _ refl refl e)
print_number_inj (negsuc m) (pos n) e = absurd (apart "n" "p" _ _ refl refl e)
print_number_inj (negsuc m) (negsuc n) e =
    ap negsuc (after_strokes_inj m n "" "" (append_cancel_left "n" _ _ e)).0

pub plain_json-IsFaithful : IsFaithful plain_json
plain_json-IsFaithful = record {
  list_injective = print_texts_inj;
  int_injective = print_number_inj;
}
