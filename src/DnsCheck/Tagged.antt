-- ===== src/DnsCheck/Tagged.antt =====
-- The records with a version tag: what the test by bytes finds is what begins with the tag.
use mathlib.Core.Option
use postbud.DnsCheck.{has_version, with_version, first_with_version}
use postbud.Prelude.{
  ℕ, suc, ◌-◌, ◌≡◌, refl, Bool, true, false, ◌&&◌, List, [], ◌∷◌, Option, none, some, arith, ltb,
  leb, ◌==◌, if◌then◌else◌, All, select, find?, length, Bool-cases, inl, inr,
}
use postbud.Text.Bytes.{width, byte_len, get_to, split_at}
use postbud.Text.{Str, lower, to_ascii_lowercase, eq_ignore_ascii_case, starts_with, trim_start}

-- The length test and the slice behind it.
abbrev pub prefix_test : Str → Str → Option Bool
prefix_test tag s =
    if leb (length tag) (byte_len s)
    then Option.map (λ p. eq_ignore_ascii_case p tag) (get_to s (length tag))
    else some false

lower_wide : (c p : ℕ) → ltb p 128 ≡ true → ltb c 128 ≡ false → (lower c == lower p) ≡ false
unfolding lower
lower_wide c p h w = ground arith

pub prefix_test-cons_ascii :
    (p : ℕ) (ps : Str) (c : ℕ) (s : Str)
    → ltb c 128 ≡ true
    → prefix_test (p ∷ ps) (c ∷ s) ≡ Option.map (λ b. (lower c == lower p) && b) (prefix_test ps s)
unfolding byte_len get_to split_at eq_ignore_ascii_case
prefix_test-cons_ascii p ps c s h = go (split_at s (length ps)) refl
  where
    shift : suc (length ps) - width c ≡ length ps
    shift = ground arith

    one : width c ≡ 1
    one = ground arith

    go :
        (o : Option (Str × Str))
        → split_at s (length ps) ≡ o
        → prefix_test (p ∷ ps) (c ∷ s)
          ≡ Option.map (λ b. (lower c == lower p) && b) (prefix_test ps s)
    go none e = rw (shift, one, e) (ground arith)
    go (some (x, y)) e = rw (shift, one, e) (ground arith)

wide_false :
    (p : ℕ) (ps : Str) (c : ℕ) (s : Str) {b : Bool}
    → ltb p 128 ≡ true
    → ltb c 128 ≡ false
    → prefix_test (p ∷ ps) (c ∷ s) ≡ some b
    → b ≡ false
unfolding byte_len get_to split_at eq_ignore_ascii_case
wide_false p ps c s {b} a w h = go (split_at s (suc (length ps) - width c)) refl
  where
    go : (o : Option (Str × Str)) → split_at s (suc (length ps) - width c) ≡ o → b ≡ false
    go none e = ground (arith, lower_wide c p a w)
    go (some (x, y)) e = ground (arith, lower_wide c p a w)

==_comm : (a b : ℕ) → (a == b) ≡ (b == a)
==_comm a b = ground arith

prefix_test-starts_with :
    (tag s : Str) {b : Bool}
    → All (λ p. ltb p 128 ≡ true) tag
    → prefix_test tag s ≡ some b
    → b ≡ starts_with (to_ascii_lowercase tag) (to_ascii_lowercase s)
unfolding byte_len get_to split_at eq_ignore_ascii_case starts_with
prefix_test-starts_with [] [] a h = ground arith
prefix_test-starts_with [] (c ∷ s) a h = ground arith
prefix_test-starts_with (p ∷ ps) [] a h = ground arith
prefix_test-starts_with (p ∷ ps) (c ∷ s) {b} a h = elim (Bool-cases (ltb c 128)) [
  | inl e ↦ go (prefix_test ps s) refl (λ b' k. prefix_test-starts_with ps s {b = b'} a.1 k) e
  | inr e ↦ ground (
    arith,
    wide_false p ps c s {b = b} a.0 e h,
    lower_wide c p a.0 e,
    ==_comm (lower p) (lower c),
  )
]
  where
    go :
        (o : Option Bool)
        → prefix_test ps s ≡ o
        → ((b' : Bool)
            → prefix_test ps s ≡ some b'
            → b' ≡ starts_with (to_ascii_lowercase ps) (to_ascii_lowercase s))
        → ltb c 128 ≡ true
        → b ≡ starts_with (to_ascii_lowercase (p ∷ ps)) (to_ascii_lowercase (c ∷ s))
    go none k ih e = absurd (ground (arith, prefix_test-cons_ascii p ps c s e))
    go (some b') k ih e = ground (arith, prefix_test-cons_ascii p ps c s e, ih b' k)

-- The text begins with the tag, whatever the case and the whitespace in front.
abbrev pub is_tagged : Str → Str → Bool
is_tagged tag t = starts_with (to_ascii_lowercase tag) (to_ascii_lowercase (trim_start t))

module _ (tag : Str) (plain : All (λ p. ltb p 128 ≡ true) tag) where
  pub has_version-is_tagged :
      (t : Str) {b : Bool} → has_version (length tag) tag t ≡ some b → b ≡ is_tagged tag t
  unfolding has_version
  has_version-is_tagged t h = prefix_test-starts_with tag (trim_start t) plain h

  pub with_version-select :
      (ts : List Str) {xs : List Str}
      → with_version (length tag) tag ts ≡ some xs
      → xs ≡ select (is_tagged tag) ts
  unfolding with_version
  with_version-select [] h = cc
  with_version-select (t ∷ ts) {xs} h =
      go (has_version (length tag) tag t) refl (with_version (length tag) tag ts) refl
        (λ ys k. with_version-select ts k)
    where
      go :
          (o : Option Bool)
          → has_version (length tag) tag t ≡ o
          → (r : Option (List Str)) → with_version (length tag) tag ts ≡ r
          → ((ys : List Str)
              → with_version (length tag) tag ts ≡ some ys
              → ys ≡ select (is_tagged tag) ts)
          → xs ≡ select (is_tagged tag) (t ∷ ts)
      go none e r k ih = absurd (ground arith)
      go (some b) e none k ih = absurd (ground arith)
      go (some b) e (some ys) k ih = rw (← has_version-is_tagged t e, ← ih ys k) (ground arith)

  pub first_with_version-find? :
      (ts : List Str) {o : Option Str}
      → first_with_version (length tag) tag ts ≡ some o
      → o ≡ find? (is_tagged tag) ts
  unfolding first_with_version
  first_with_version-find? [] h = cc
  first_with_version-find? (t ∷ ts) {o} h =
      go (has_version (length tag) tag t) refl (λ k. first_with_version-find? ts k)
    where
      go :
          (v : Option Bool)
          → has_version (length tag) tag t ≡ v
          → (first_with_version (length tag) tag ts ≡ some o → o ≡ find? (is_tagged tag) ts)
          → o ≡ find? (is_tagged tag) (t ∷ ts)
      go none e ih = absurd (ground arith)
      go (some true) e ih = rw (← has_version-is_tagged t e) (ground arith)
      go (some false) e ih = rw (← has_version-is_tagged t e) (ih (ground arith))
