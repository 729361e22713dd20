-- ===== src/Text.antt =====
-- The `str` and `char` operations of the Rust standard library that the crates call, on a text
-- as the list of its code points. `len` and `slice_to` count bytes of UTF-8, as `str` does.
pub mod Case
pub mod Trim
pub mod Split
pub mod Contains
pub mod Bytes
pub mod Lines
use Prim.Native.Char.{code}
use Prim.Native.String.{String}
use postbud.Prelude.{
  ℕ, zero, suc, ◌+◌, ◌-◌, ◌/◌, ◌%◌, Bool, true, false, ◌&&◌, ◌||◌, List, [], ◌∷◌, ◌++◌, map, Option,
  none, some, ltb, leb, ◌==◌, if◌then◌else◌, is_empty, any,
}

abbrev pub Str : Type 0
Str = List ℕ

-- The code points of a literal.
abbrev pub codes : String → Str
codes String.[] = []
codes (String.◌∷◌ c s) = code c ∷ codes s

abbrev pub str_eq : Str → Str → Bool
str_eq [] [] = true
str_eq (x ∷ xs) (y ∷ ys) = x == y && str_eq xs ys
str_eq _ _ = false

-- `char::is_whitespace`: the code points with the property White_Space.
unfoldable pub is_whitespace : ℕ → Bool
is_whitespace c =
    (leb 9 c && leb c 13)
    || c == 32
    || c == 0x85
    || c == 0xa0
    || c == 0x1680
    || (leb 0x2000 c && leb c 0x200a)
    || c == 0x2028
    || c == 0x2029
    || c == 0x202f
    || c == 0x205f
    || c == 0x3000

-- `to_ascii_lowercase` on one character.
unfoldable pub lower : ℕ → ℕ
lower c = if leb b'A' c && leb c b'Z' then c + 32 else c

abbrev pub to_ascii_lowercase : Str → Str
to_ascii_lowercase = map lower

unfoldable pub eq_ignore_ascii_case : Str → Str → Bool
eq_ignore_ascii_case a b = str_eq (to_ascii_lowercase a) (to_ascii_lowercase b)

unfoldable pub trim_start : Str → Str
trim_start [] = []
trim_start (c ∷ s) = let rest = trim_start s in if is_whitespace c then rest else c ∷ s

unfoldable pub trim_end : Str → Str
trim_end [] = []
trim_end (c ∷ s) =
    let rest = trim_end s in if is_whitespace c && is_empty rest then [] else c ∷ rest

unfoldable pub trim : Str → Str
unfolding trim_start trim_end
trim s = trim_end (trim_start s)

-- `split_once` and `rsplit_once` at a character.
unfoldable pub split_once : ℕ → Str → Option (Str × Str)
split_once d [] = none
split_once d (c ∷ s) = elim (c == d) [
  | true ↦ some ([], s)
  | false ↦ elim (split_once d s) [ none ↦ none | some (a, b) ↦ some (c ∷ a, b) ]
]

unfoldable pub rsplit_once : ℕ → Str → Option (Str × Str)
rsplit_once d [] = none
rsplit_once d (c ∷ s) = elim (rsplit_once d s) [
  | none ↦ if c == d then some ([], s) else none
  | some (a, b) ↦ some (c ∷ a, b)
]

-- The first piece of `split` at a character: all of the text if it holds none.
unfoldable pub first_piece : ℕ → Str → Str
first_piece d [] = []
first_piece d (c ∷ s) = let rest = first_piece d s in if c == d then [] else c ∷ rest

abbrev push_front : ℕ → List Str → List Str
push_front c [] = (c ∷ []) ∷ []
push_front c (p ∷ ps) = (c ∷ p) ∷ ps

-- `split` at a character: one piece more than the text has separators.
unfoldable pub split : ℕ → Str → List Str
split d [] = [] ∷ []
split d (c ∷ s) = let rest = split d s in if c == d then [] ∷ rest else push_front c rest

-- `starts_with` a text, and `contains` a text or a character.
unfoldable pub starts_with : Str → Str → Bool
starts_with [] s = true
starts_with (p ∷ ps) [] = false
starts_with (p ∷ ps) (c ∷ s) = p == c && starts_with ps s

unfoldable pub contains : Str → Str → Bool
unfolding starts_with
contains p [] = is_empty p
contains p (c ∷ s) = starts_with p (c ∷ s) || contains p s

abbrev pub contains_char : ℕ → Str → Bool
contains_char d s = any (λ c. c == d) s

-- `join` with a separator.
unfoldable pub join : Str → List Str → Str
join sep [] = []
join sep (p ∷ []) = p
join sep (p ∷ q ∷ ps) = p ++ sep ++ join sep (q ∷ ps)

-- `split_whitespace`: the non-empty pieces between runs of whitespace.
words_from : Str → Str → List Str
words_from w [] = if is_empty w then [] else w ∷ []
words_from w (c ∷ s) = elim (is_whitespace c) [
  | true ↦ let rest = words_from [] s in if is_empty w then rest else w ∷ rest
  | false ↦ words_from (w ++ c ∷ []) s
]

unfoldable pub split_whitespace : Str → List Str
unfolding words_from
split_whitespace s = words_from [] s

-- `lines`: pieces that end at a line feed, without it and without a carriage return before it.
-- The text behind the last line feed is a line too, kept as it is, unless it is empty.
strip_carriage_return : Str → Str
strip_carriage_return [] = []
strip_carriage_return (c ∷ s) =
    let rest = strip_carriage_return s in if c == b'\r' && is_empty s then [] else c ∷ rest

lines_from : Str → Str → List Str
unfolding strip_carriage_return
lines_from line [] = if is_empty line then [] else line ∷ []
lines_from line (c ∷ s) = elim (c == b'\n') [
  | true ↦ strip_carriage_return line ∷ lines_from [] s
  | false ↦ lines_from (line ++ c ∷ []) s
]

unfoldable pub lines : Str → List Str
unfolding lines_from
lines s = lines_from [] s

-- The decimal digits of a number. The fuel is more than the number of digits.
decimal_from : ℕ → ℕ → Str
decimal_from zero n = []
decimal_from (suc fuel) n =
    let rest = decimal_from fuel (n / 10) in
    if ltb n 10 then (b'0' + n) ∷ [] else rest ++ (b'0' + n % 10) ∷ []

unfoldable pub decimal : ℕ → Str
unfolding decimal_from
decimal n = decimal_from (suc n) n
