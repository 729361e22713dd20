-- ===== src/Text/Case.antt =====
-- Laws of the case folding and of the comparison of texts.
use postbud.Prelude.{ℕ, ◌≡◌, refl, ◌↔◌, true, false, [], ◌∷◌, arith, leb}
use postbud.Text.{
  Str, str_eq, is_whitespace, lower, to_ascii_lowercase, eq_ignore_ascii_case, contains_char,
}

pub eq_of_str_eq : (a b : Str) → str_eq a b ≡ true → a ≡ b
eq_of_str_eq [] [] h = refl
eq_of_str_eq [] (y ∷ ys) h = cc
eq_of_str_eq (x ∷ xs) [] h = cc
eq_of_str_eq (x ∷ xs) (y ∷ ys) h = ground (arith, eq_of_str_eq xs ys)

pub str_eq_refl : (a : Str) → str_eq a a ≡ true
str_eq_refl [] = refl
str_eq_refl (x ∷ xs) = ground (arith, str_eq_refl xs)

pub str_eq_iff : (a b : Str) → str_eq a b ≡ true ↔ (a ≡ b)
str_eq_iff a b = (eq_of_str_eq a b, λ e. rw e (str_eq_refl b))

pub lower_idem : (c : ℕ) → lower (lower c) ≡ lower c
unfolding lower
lower_idem c = ground arith

pub to_ascii_lowercase_idem :
    (s : Str) → to_ascii_lowercase (to_ascii_lowercase s) ≡ to_ascii_lowercase s
to_ascii_lowercase_idem [] = refl
to_ascii_lowercase_idem (c ∷ s) = cc (lower_idem c, to_ascii_lowercase_idem s)

-- A letter is no whitespace, so folding the case does not change what is.
pub is_whitespace-lower : (c : ℕ) → is_whitespace (lower c) ≡ is_whitespace c
unfolding is_whitespace lower
is_whitespace-lower c = ground arith

-- A character that is no letter is found in the folded text exactly if it is in the text.
pub contains_char-to_ascii_lowercase :
    (d : ℕ) (s : Str)
    → leb b'A' d ≡ false
    → contains_char d (to_ascii_lowercase s) ≡ contains_char d s
unfolding lower
contains_char-to_ascii_lowercase d [] h = refl
contains_char-to_ascii_lowercase d (c ∷ s) h =
    ground (arith, contains_char-to_ascii_lowercase d s h)

pub eq_ignore_ascii_case_iff :
    (a b : Str) → eq_ignore_ascii_case a b ≡ true ↔ (to_ascii_lowercase a ≡ to_ascii_lowercase b)
unfolding eq_ignore_ascii_case
eq_ignore_ascii_case_iff a b = str_eq_iff (to_ascii_lowercase a) (to_ascii_lowercase b)
