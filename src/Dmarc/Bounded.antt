-- ===== src/Dmarc/Bounded.antt =====
-- What an attachment can expand to.
use postbud.Dmarc.{DmarcError, max_uncompressed}
use postbud.Dmarc.Unpack.{
  Member, Archives, read_capped, within, inflate_gzip, and_then, content_of, read_members, not_none,
  open_members, unzip, alone, extract,
}
use postbud.Prelude.{
  ℕ, suc, ◌≤◌, List, [], ◌∷◌, arith, ltb, is_empty, length, All, Bool-cases, inl, inr,
}
use postbud.Result.{Result, ok, err}
use postbud.Text.{Str, starts_with}

abbrev pub IsSmall : List ℕ → Type 0
IsSmall doc = length doc ≤ max_uncompressed

-- Small documents, as many as the number says and no more.
abbrev pub Fits : ℕ → Result (List (List ℕ)) DmarcError → Type 0
Fits n (err e) = Unit
Fits n (ok docs) = (length docs ≤ n) × All IsSmall docs

abbrev Small : Result (List ℕ) DmarcError → Type 0
Small (err e) = Unit
Small (ok doc) = IsSmall doc

within-Small : (r : Result (List ℕ) DmarcError) → Small (within r)
within-Small (err e) = tt
within-Small (ok doc) = elim (Bool-cases (ltb max_uncompressed (length doc))) [
  | inl e ↦ rw e tt
  | inr e ↦ rw e (ground arith)
]

content_of-Small : (m : Member) → Small (content_of m)
content_of-Small m = elim (Bool-cases (ltb max_uncompressed m.size)) [
  | inl e ↦ rw e tt
  | inr e ↦ rw e (within-Small (read_capped m.content))
]

and_then-Fits :
    (n : ℕ) (r : Result (List ℕ) DmarcError) (rest : Result (List (List ℕ)) DmarcError)
    → Small r
    → Fits n rest
    → Fits (suc n) (and_then r rest)
and_then-Fits n (err e) rest s f = tt
and_then-Fits n (ok doc) (err e) s f = tt
and_then-Fits n (ok doc) (ok docs) s f = (omega (arith, f.0), (s, f.1))

weaken : (n : ℕ) (r : Result (List (List ℕ)) DmarcError) → Fits n r → Fits (suc n) r
weaken n (err e) f = tt
weaken n (ok docs) f = (omega (arith, f.0), f.1)

read_members-Fits :
    (members : List (Result Member Str)) → Fits (length members) (read_members members)
unfolding read_members
read_members-Fits [] = (omega arith, tt)
read_members-Fits (err e ∷ rest) = tt
read_members-Fits (ok m ∷ rest) = elim (Bool-cases m.is_file) [
  | inl e ↦ rw e (
      and_then-Fits (length rest) (content_of m) (read_members rest) (content_of-Small m)
        (read_members-Fits rest))
  | inr e ↦ rw e (weaken (length rest) (read_members rest) (read_members-Fits rest))
]

not_none-Fits :
    (n : ℕ) (r : Result (List (List ℕ)) DmarcError) → n ≤ 16 → Fits n r → Fits 16 (not_none r)
not_none-Fits n (err e) l f = tt
not_none-Fits n (ok docs) l f = elim (Bool-cases (is_empty docs)) [
  | inl e ↦ rw e tt
  | inr e ↦ rw e (omega (arith, l, f.0), f.1)
]

open_members-Fits : (r : Result (List (Result Member Str)) Str) → Fits 16 (open_members r)
open_members-Fits (err e) = tt
open_members-Fits (ok members) = elim (Bool-cases (ltb 16 (length members))) [
  | inl e ↦ rw e tt
  | inr e ↦ rw e (
      not_none-Fits (length members) (read_members members) (ground arith)
        (read_members-Fits members))
]

alone-Fits : (r : Result (List ℕ) DmarcError) → Small r → Fits 16 (alone r)
alone-Fits (err e) s = tt
alone-Fits (ok doc) s = (omega arith, (s, tt))

-- Whatever the decompressors make of an attachment, and whatever its archive says of the sizes, at most
-- 16 documents come out of it, each of at most 32 MiB.
pub extract-Fits : (archives : Archives) (blob : List ℕ) → Fits 16 (extract archives blob)
unfolding extract inflate_gzip unzip
extract-Fits archives blob = elim (Bool-cases (starts_with (0x1f ∷ 0x8b ∷ []) blob)) [
  | inl g ↦ rw g (
      alone-Fits (within (read_capped (archives.gunzip blob)))
        (within-Small (read_capped (archives.gunzip blob))))
  | inr g ↦ elim (Bool-cases (starts_with (b'P' ∷ b'K' ∷ 3 ∷ 4 ∷ []) blob)) [
    | inl z ↦ rw (g, z) (open_members-Fits (archives.open_zip blob))
    | inr z ↦ elim (Bool-cases (ltb max_uncompressed (length blob))) [
      | inl l ↦ rw (g, z, l) tt
      | inr l ↦ rw (g, z, l) (omega arith, (ground arith, tt))
    ]
  ]
]
