-- ===== src/DnsCheck/Panics.antt =====
-- On which records the check panics: a slice that ends inside a character.
use postbud.DnsCheck.Tagged.{is_tagged, has_version-is_tagged}
use postbud.DnsCheck.{
  Expected, Observed, has_version, with_version, first_with_version, check_spf, check_dmarc,
  evaluate,
}
use postbud.Prelude.{
  ℕ, ◌+◌, ◌-◌, ◌≤◌, ◌<◌, ◌⊎◌, ◌≡◌, ◌↔◌, refl, sym, ap, ◌∙◌, Bool, true, false, List, [], ◌∷◌, ◌++◌,
  Option, none, some, arith, ltb, leb, ◌==◌, All, Any, length, inl, inr, Bool-cases,
}
use postbud.Text.Bytes.{width, byte_len, get_to, split_at}
use postbud.Text.{Str, codes, trim_start}

-- The byte `n` of a text is inside one of its characters.
abbrev pub IsInside : ℕ → Str → Type 0
IsInside n s =
    (front : Str) × (c : ℕ) × (rest : Str) × (s ≡ front ++ c ∷ rest)
    × (byte_len front < n)
    × (n < byte_len front + width c)

IsInside-of_split_at : (s : Str) (n : ℕ) → split_at s n ≡ none → n ≤ byte_len s → IsInside n s
unfolding split_at byte_len
IsInside-of_split_at [] n h l = absurd (ground arith)
IsInside-of_split_at (c ∷ s) n h l = elim (Bool-cases (n == 0)) [
  | inl z ↦ absurd (ground arith)
  | inr z ↦ elim (Bool-cases (ltb n (width c))) [
    | inl w ↦ ([], c, s, refl, ground arith, ground arith)
    | inr w ↦ further w (
        IsInside-of_split_at s (n - width c) (later (split_at s (n - width c)) refl z w)
          (ground arith))
  ]
]
  where
    later :
        (o : Option (Str × Str))
        → split_at s (n - width c) ≡ o
        → (n == 0) ≡ false
        → ltb n (width c) ≡ false
        → split_at s (n - width c) ≡ none
    later none e z w = e
    later (some (x, y)) e z w = absurd (ground arith)

    further : ltb n (width c) ≡ false → IsInside (n - width c) s → IsInside n (c ∷ s)
    further w (front, d, rest, e, a, b) =
        (c ∷ front, d, rest, ap (◌∷◌ c) e, ground arith, ground arith)

split_at-none :
    (front : Str) (c : ℕ) (rest : Str) (n : ℕ)
    → byte_len front < n
    → n < byte_len front + width c
    → split_at (front ++ c ∷ rest) n ≡ none
unfolding split_at byte_len
split_at-none [] c rest n a b = ground arith
split_at-none (d ∷ front) c rest n a b =
    let e : split_at (front ++ c ∷ rest) (n - width d) ≡ none =
      split_at-none front c rest (n - width d) (ground arith) (ground arith) in
    ground arith

byte_len-front :
    (front : Str) (c : ℕ) (rest : Str) → byte_len front + width c ≤ byte_len (front ++ c ∷ rest)
unfolding byte_len
byte_len-front [] c rest = omega arith
byte_len-front (d ∷ front) c rest = omega (arith, byte_len-front front c rest)

-- A record on which the slice up to the byte `n` panics, behind the whitespace in front.
abbrev pub Straddles : ℕ → Str → Type 0
Straddles n t = IsInside n (trim_start t)

Straddles-of_none : (n : ℕ) (tag t : Str) → has_version n tag t ≡ none → Straddles n t
unfolding has_version get_to
Straddles-of_none n tag t h = elim (Bool-cases (leb n (byte_len (trim_start t)))) [
  | inr l ↦ absurd (ground arith)
  | inl l ↦
      IsInside-of_split_at (trim_start t) n (go (split_at (trim_start t) n) refl l) (ground arith)
]
  where
    go :
        (o : Option (Str × Str))
        → split_at (trim_start t) n ≡ o
        → leb n (byte_len (trim_start t)) ≡ true
        → split_at (trim_start t) n ≡ none
    go none e l = e
    go (some (x, y)) e l = absurd (ground arith)

has_version-none : (n : ℕ) (tag t : Str) → Straddles n t → has_version n tag t ≡ none
unfolding has_version get_to
has_version-none n tag t (front, c, rest, e, a, b) =
    let s : split_at (trim_start t) n ≡ none =
      ap (λ z. split_at z n) e ∙ split_at-none front c rest n a b in
    let l : leb n (byte_len (trim_start t)) ≡ true =
      ground (arith, ap byte_len e, byte_len-front front c rest) in
    rw (l, s) refl

-- All the records are tested for the tag of SPF.
Any-of_with_version :
    (n : ℕ) (tag : Str) (ts : List Str) → with_version n tag ts ≡ none → Any (Straddles n) ts
unfolding with_version
Any-of_with_version n tag [] h = absurd (ground arith)
Any-of_with_version n tag (t ∷ ts) h =
    go (has_version n tag t) refl (with_version n tag ts) refl (Any-of_with_version n tag ts)
  where
    go :
        (o : Option Bool)
        → has_version n tag t ≡ o
        → (r : Option (List Str)) → with_version n tag ts ≡ r
        → (with_version n tag ts ≡ none → Any (Straddles n) ts)
        → Any (Straddles n) (t ∷ ts)
    go none e r f ih = inl (Straddles-of_none n tag t e)
    go (some b) e none f ih = inr (ih f)
    go (some b) e (some xs) f ih = absurd (ground arith)

with_version-none :
    (n : ℕ) (tag : Str) (ts : List Str) → Any (Straddles n) ts → with_version n tag ts ≡ none
unfolding with_version
with_version-none n tag [] h = absurd h
with_version-none n tag (t ∷ ts) (inl e) = rw (has_version-none n tag t e) refl
with_version-none n tag (t ∷ ts) (inr h) = rw (with_version-none n tag ts h) (ground arith)

-- The first record that either panics or has the tag is one that panics.
abbrev pub PanicsFirst : ℕ → Str → List Str → Type 0
PanicsFirst n tag [] = ⊥
PanicsFirst n tag (t ∷ ts) = Straddles n t ⊎ ((is_tagged tag t ≡ false) × PanicsFirst n tag ts)

module _ (tag : Str) (plain : All (λ p. ltb p 128 ≡ true) tag) where
  PanicsFirst-of_first_with_version :
      (ts : List Str)
      → first_with_version (length tag) tag ts ≡ none
      → PanicsFirst (length tag) tag ts
  unfolding first_with_version
  PanicsFirst-of_first_with_version [] h = absurd (ground arith)
  PanicsFirst-of_first_with_version (t ∷ ts) h =
      go (has_version (length tag) tag t) refl (PanicsFirst-of_first_with_version ts)
    where
      go :
          (o : Option Bool)
          → has_version (length tag) tag t ≡ o
          → (first_with_version (length tag) tag ts ≡ none → PanicsFirst (length tag) tag ts)
          → PanicsFirst (length tag) tag (t ∷ ts)
      go none e ih = inl (Straddles-of_none (length tag) tag t e)
      go (some true) e ih = absurd (ground arith)
      go (some false) e ih = inr (sym (has_version-is_tagged tag plain t e), ih (ground arith))

  first_with_version-none :
      (ts : List Str)
      → PanicsFirst (length tag) tag ts
      → first_with_version (length tag) tag ts ≡ none
  unfolding first_with_version
  first_with_version-none [] h = absurd h
  first_with_version-none (t ∷ ts) (inl e) = rw (has_version-none (length tag) tag t e) refl
  first_with_version-none (t ∷ ts) (inr (f, h)) =
      go (has_version (length tag) tag t) refl (first_with_version-none ts h)
    where
      go :
          (o : Option Bool)
          → has_version (length tag) tag t ≡ o
          → first_with_version (length tag) tag ts ≡ none
          → first_with_version (length tag) tag (t ∷ ts) ≡ none
      go none e ih = rw (e, first_with_version) refl
      go (some true) e ih =
          absurd (let c : true ≡ false = has_version-is_tagged tag plain t e ∙ f in cc)
      go (some false) e ih = rw (e, first_with_version, ih) refl

-- The check of a domain panics exactly if some record at the apex has its sixth byte inside a
-- character, or if among the DMARC records one that has its eighth byte inside a character comes
-- before the first one with the version tag. Bytes are counted behind the whitespace in front.
pub evaluate_panics_iff :
    (expected : Expected) (observed : Observed)
    → evaluate expected observed ≡ none ↔ (
        Any (Straddles 6) observed.domain_txt ⊎ PanicsFirst 8 (codes "v=DMARC1") observed.dmarc_txt)
unfolding evaluate check_spf check_dmarc
evaluate_panics_iff expected observed = (there, back)
  where
    tags : All (λ p. ltb p 128 ≡ true) (codes "v=DMARC1")
    tags = (refl, (refl, (refl, (refl, (refl, (refl, (refl, (refl, tt))))))))

    go :
        (xs : Option (List Str))
        → with_version 6 (codes "v=spf1") observed.domain_txt ≡ xs
        → (o : Option (Option Str)) → first_with_version 8 (codes "v=DMARC1") observed.dmarc_txt ≡ o
        → evaluate expected observed ≡ none
        → Any (Straddles 6) observed.domain_txt
          ⊎ PanicsFirst 8 (codes "v=DMARC1") observed.dmarc_txt
    go none e o f h = inl (Any-of_with_version 6 (codes "v=spf1") observed.domain_txt e)
    go (some xs) e none f h =
        inr (PanicsFirst-of_first_with_version (codes "v=DMARC1") tags observed.dmarc_txt f)
    go (some xs) e (some o) f h = absurd (ground arith)

    there :
        evaluate expected observed ≡ none
        → Any (Straddles 6) observed.domain_txt
          ⊎ PanicsFirst 8 (codes "v=DMARC1") observed.dmarc_txt
    there h =
        go (with_version 6 (codes "v=spf1") observed.domain_txt) refl
          (first_with_version 8 (codes "v=DMARC1") observed.dmarc_txt) refl h

    back :
        Any (Straddles 6) observed.domain_txt ⊎ PanicsFirst 8 (codes "v=DMARC1") observed.dmarc_txt
        → evaluate expected observed ≡ none
    back (inl a) = rw (with_version-none 6 (codes "v=spf1") observed.domain_txt a) refl
    back (inr p) =
        let d : first_with_version 8 (codes "v=DMARC1") observed.dmarc_txt ≡ none =
          first_with_version-none (codes "v=DMARC1") tags observed.dmarc_txt p in
        rw d (ground arith)
