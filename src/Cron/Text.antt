-- ===== src/Cron/Text.antt =====
-- What cron.go and cron_extra.go use of `strings` and `strconv`, on the bytes of an ASCII text.
use oban.Prelude.{
  ℕ, zero, suc, ◌+◌, ◌-◌, ◌*◌, ℤ, pos, negsuc, Bool, true, false, ◌&&◌, ◌||◌, List, [], ◌∷◌, map,
  Option, none, some, ltb, leb, ◌==◌, if◌then◌else◌,
}

abbrev pub same_bytes : List ℕ → List ℕ → Bool
same_bytes [] [] = true
same_bytes (c ∷ cs) (d ∷ ds) = (c == d) && same_bytes cs ds
same_bytes [] (d ∷ ds) = false
same_bytes (c ∷ cs) [] = false

abbrev pub is_space : ℕ → Bool
is_space c = (c == b' ') || (leb 9 c && leb c 13)

abbrev pub lower : ℕ → ℕ
lower c = if leb b'A' c && leb c b'Z' then c + 32 else c

abbrev pub is_digit : ℕ → Bool
is_digit c = leb b'0' c && leb c b'9'

-- `strings.TrimSpace`.
abbrev pub trim_left : List ℕ → List ℕ
trim_left [] = []
trim_left (c ∷ cs) = if is_space c then trim_left cs else c ∷ cs

abbrev pub reverse_onto : List ℕ → List ℕ → List ℕ
reverse_onto acc [] = acc
reverse_onto acc (c ∷ cs) = reverse_onto (c ∷ acc) cs

abbrev pub trim_space : List ℕ → List ℕ
trim_space s = reverse_onto [] (trim_left (reverse_onto [] (trim_left s)))

-- Puts a byte in front of the first piece.
abbrev pub onto_first : ℕ → List (List ℕ) → List (List ℕ)
onto_first c [] = (c ∷ []) ∷ []
onto_first c (p ∷ ps) = (c ∷ p) ∷ ps

-- `strings.Split` at a byte.
abbrev pub split : ℕ → List ℕ → List (List ℕ)
split sep [] = [] ∷ []
split sep (c ∷ cs) = let rest = split sep cs in if c == sep then [] ∷ rest else onto_first c rest

abbrev pub drop_empty : List (List ℕ) → List (List ℕ)
drop_empty [] = []
drop_empty ([] ∷ ps) = drop_empty ps
drop_empty ((c ∷ p) ∷ ps) = (c ∷ p) ∷ drop_empty ps

-- `strings.Fields`.
abbrev pub fields : List ℕ → List (List ℕ)
fields s = drop_empty (split b' ' (map (λ c. if is_space c then b' ' else c) s))

-- The text before the first `sep` and the text after it, if there is one.
abbrev pub cut_at : ℕ → List ℕ → Option (List ℕ × List ℕ)
cut_at sep [] = none
cut_at sep (c ∷ cs) =
    let rest = cut_at sep cs in
    if c == sep then some ([], cs) else elim rest [ none ↦ none | some r ↦ some (c ∷ r.0, r.1) ]

-- `strconv.Atoi` reads a sign and digits, and refuses what is not an int64.
abbrev pub digits_value : ℕ → List ℕ → Option ℕ
digits_value acc [] = some acc
digits_value acc (c ∷ cs) =
    let rest = digits_value (acc * 10 + (c - 48)) cs in if is_digit c then rest else none

abbrev pub some_digits : List ℕ → Option ℕ
some_digits [] = none
some_digits (c ∷ cs) = digits_value 0 (c ∷ cs)

abbrev pub two_63 : ℕ
two_63 = 9223372036854775808

abbrev pub positive_int : Option ℕ → Option ℤ
positive_int none = none
positive_int (some n) = if ltb n two_63 then some (pos n) else none

abbrev pub negative_int : Option ℕ → Option ℤ
negative_int none = none
negative_int (some zero) = some (pos 0)
negative_int (some (suc n)) = if ltb n two_63 then some (negsuc n) else none

abbrev pub atoi : List ℕ → Option ℤ
atoi [] = none
atoi (c ∷ cs) =
    if c == b'-'
    then negative_int (some_digits cs)
    else if c == b'+'
    then positive_int (some_digits cs)
    else positive_int (some_digits (c ∷ cs))
