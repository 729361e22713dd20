-- ===== src/Text/Bytes.antt =====
-- What `str` counts in bytes of UTF-8: `len`, `get(..n)` and the slice `[..n]`, which panics where
-- `get` has no result; and the trimming and stripping of the ends that only some modules use.
use mathlib.Core.Option
use postbud.Prelude.{
  ℕ, ◌+◌, ◌-◌, ◌/◌, ◌%◌, ◌++◌, ◌&&◌, List, [], ◌∷◌, Option, none, some, ltb, ◌==◌, if◌then◌else◌,
  is_empty,
}
use postbud.Text.{Str}

abbrev pub width : ℕ → ℕ
width c = if ltb c 0x80 then 1 else if ltb c 0x800 then 2 else if ltb c 0x10000 then 3 else 4

unfoldable pub byte_len : Str → ℕ
byte_len [] = 0
byte_len (c ∷ s) = width c + byte_len s

-- The text up to the byte `n`, and the rest behind it: none if `n` is behind the end or inside a
-- character.
unfoldable pub split_at : Str → ℕ → Option (Str × Str)
split_at [] n = if n == 0 then some ([], []) else none
split_at (c ∷ s) n =
    let rest = split_at s (n - width c) in
    if n == 0
    then some ([], c ∷ s)
    else if ltb n (width c)
    then none
    else elim rest [ none ↦ none | some (a, b) ↦ some (c ∷ a, b) ]

abbrev first_part : Str × Str → Str
first_part (a, b) = a

-- `get(..n)`
unfoldable pub get_to : Str → ℕ → Option Str
unfolding split_at
get_to s n = Option.map first_part (split_at s n)

-- `trim_end_matches` at a character.
unfoldable pub trim_end_char : ℕ → Str → Str
trim_end_char d [] = []
trim_end_char d (c ∷ s) =
    let rest = trim_end_char d s in if c == d && is_empty rest then [] else c ∷ rest

unfoldable pub strip_prefix : Str → Str → Option Str
strip_prefix [] s = some s
strip_prefix (p ∷ ps) [] = none
strip_prefix (p ∷ ps) (c ∷ s) = let rest = strip_prefix ps s in if p == c then rest else none

-- `as_bytes`: the UTF-8 of a text.
abbrev encode : ℕ → List ℕ
encode c =
    if ltb c 0x80
    then c ∷ []
    else if ltb c 0x800
    then (0xc0 + c / 64) ∷ (0x80 + c % 64) ∷ []
    else if ltb c 0x10000
    then (0xe0 + c / 4096) ∷ (0x80 + c / 64 % 64) ∷ (0x80 + c % 64) ∷ []
    else (0xf0 + c / 262144) ∷ (0x80 + c / 4096 % 64) ∷ (0x80 + c / 64 % 64) ∷ (0x80 + c % 64) ∷ []

unfoldable pub as_bytes : Str → List ℕ
as_bytes [] = []
as_bytes (c ∷ s) = encode c ++ as_bytes s
