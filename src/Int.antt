-- ===== src/Int.antt =====
-- Signed integers over the native numbers, for the counts and limits that the crates keep in an `i64`.
use postbud.Prelude.{
  ℕ, ◌+◌, ◌-◌, ◌*◌, ◌%◌, ◌^◌, ◌≤◌, ◌&&◌, List, [], ◌∷◌, Option, none, some, ltb, leb, ◌==◌,
  if◌then◌else◌, arith,
}

pub data ℤ : Type 0 where
  pos : ℕ → ℤ
  negsuc : ℕ → ℤ

-- `clamp`, where both ends are natural.
unfoldable pub clamp : ℤ → ℕ → ℕ → ℕ
clamp (pos n) lo hi = if ltb n lo then lo else if ltb hi n then hi else n
clamp (negsuc n) lo hi = lo

pub clamp-bounds : (i : ℤ) (lo hi : ℕ) → lo ≤ hi → (lo ≤ clamp i lo hi) × (clamp i lo hi ≤ hi)
unfolding clamp
clamp-bounds (pos n) lo hi h = (ground arith, ground arith)
clamp-bounds (negsuc n) lo hi h = (omega arith, omega (arith, h))

-- `parse::<i64>`: an optional sign, then one digit or more, within the range.
abbrev pub digits : ℕ → List ℕ → Option ℕ
digits n [] = some n
digits n (c ∷ s) = if leb b'0' c && leb c b'9' then digits (n * 10 + (c - b'0')) s else none

abbrev pub positive : Option ℕ → Option ℤ
positive none = none
positive (some n) = if ltb n (2 ^ 63) then some (pos n) else none

abbrev pub negative : Option ℕ → Option ℤ
negative none = none
negative (some n) = if leb n (2 ^ 63) then some (if n == 0 then pos 0 else negsuc (n - 1)) else none

abbrev pub some_digits : List ℕ → Option ℕ
some_digits [] = none
some_digits (c ∷ s) = digits 0 (c ∷ s)

unfoldable pub parse_i64 : List ℕ → Option ℤ
parse_i64 [] = none
parse_i64 (c ∷ s) =
    if c == b'-'
    then negative (some_digits s)
    else if c == b'+'
    then positive (some_digits s)
    else positive (some_digits (c ∷ s))

-- `as i32`: the low 32 bits, as a signed number.
abbrev pub wrap : ℕ → ℤ
wrap n = let low = n % 2 ^ 32 in if ltb low (2 ^ 31) then pos low else negsuc (2 ^ 32 - 1 - low)

unfoldable pub as_i32 : ℤ → ℤ
as_i32 (pos n) = wrap n
as_i32 (negsuc n) = wrap (2 ^ 32 - 1 - n % 2 ^ 32)
