-- ===== src/DnsCheck/Total.antt =====
-- That the check finishes on records in ASCII.
use postbud.DnsCheck.Tagged.{prefix_test, prefix_test-cons_ascii}
use postbud.DnsCheck.{
  Expected, Observed, DomainResult, has_version, with_version, first_with_version, check_spf,
  check_dmarc, evaluate,
}
use postbud.Prelude.{
  ◌⊎◌, ◌≡◌, refl, ◌∙◌, Bool, true, false, ◌&&◌, List, [], ◌∷◌, Option, none, some, arith, ltb, ◌==◌,
  All, length, inl, inr, Bool-cases, if◌then◌else◌,
}
use postbud.Text.Bytes.{byte_len, get_to, split_at}
use postbud.Text.{Str, codes, lower, eq_ignore_ascii_case, is_whitespace, trim_start}

abbrev pub IsAscii : Str → Type 0
IsAscii = All (λ c. ltb c 128 ≡ true)

trim_start-IsAscii : (s : Str) → IsAscii s → IsAscii (trim_start s)
unfolding trim_start
trim_start-IsAscii [] h = tt
trim_start-IsAscii (c ∷ s) h = by_char (Bool-cases (is_whitespace c)) (trim_start-IsAscii s h.1)
  where
    by_char :
        (is_whitespace c ≡ true) ⊎ (is_whitespace c ≡ false)
        → IsAscii (trim_start s)
        → IsAscii (trim_start (c ∷ s))
    by_char (inl e) ih = rw (e, trim_start) ih
    by_char (inr e) ih = rw (e, trim_start) h

prefix_test-some : (tag s : Str) → IsAscii s → (b : Bool) × (prefix_test tag s ≡ some b)
unfolding byte_len get_to split_at eq_ignore_ascii_case
prefix_test-some [] [] h = (true, refl)
prefix_test-some [] (c ∷ s) h = (true, ground arith)
prefix_test-some (p ∷ ps) [] h = (false, ground arith)
prefix_test-some (p ∷ ps) (c ∷ s) h =
    let (b, e) = prefix_test-some ps s h.1 in
    ((lower c == lower p) && b, prefix_test-cons_ascii p ps c s h.0 ∙ rw e refl)

module _ (tag : Str) where
  has_version-some : (t : Str) → IsAscii t → (b : Bool) × (has_version (length tag) tag t ≡ some b)
  unfolding has_version
  has_version-some t h = prefix_test-some tag (trim_start t) (trim_start-IsAscii t h)

  with_version-some :
      (ts : List Str)
      → All IsAscii ts
      → (xs : List Str) × (with_version (length tag) tag ts ≡ some xs)
  unfolding with_version
  with_version-some [] h = ([], refl)
  with_version-some (t ∷ ts) h =
      let (b, e) = has_version-some t h.0 in
      let (xs, f) = with_version-some ts h.1 in ((if b then t ∷ xs else xs), rw (e, f) refl)

  first_with_version-some :
      (ts : List Str)
      → All IsAscii ts
      → (o : Option Str) × (first_with_version (length tag) tag ts ≡ some o)
  unfolding first_with_version
  first_with_version-some [] h = (none, refl)
  first_with_version-some (t ∷ ts) h =
      let (b, e) = has_version-some t h.0 in
      let (o, f) = first_with_version-some ts h.1 in
      ((if b then some t else o), rw (e, f) (ground arith))

-- The check of a domain finishes if the records at its apex and the DMARC records are ASCII.
pub evaluate_total :
    (expected : Expected) (observed : Observed)
    → All IsAscii observed.domain_txt
    → All IsAscii observed.dmarc_txt
    → (r : DomainResult) × (evaluate expected observed ≡ some r)
unfolding evaluate check_spf check_dmarc
evaluate_total expected observed a b =
    let (xs, e) = with_version-some (codes "v=spf1") observed.domain_txt a in
    let (o, f) = first_with_version-some (codes "v=DMARC1") observed.dmarc_txt b in
    by_result xs e o f (evaluate expected observed) refl
  where
    by_result :
        (xs : List Str)
        → with_version 6 (codes "v=spf1") observed.domain_txt ≡ some xs
        → (o : Option Str) → first_with_version 8 (codes "v=DMARC1") observed.dmarc_txt ≡ some o
        → (r : Option DomainResult) → evaluate expected observed ≡ r
        → (r : DomainResult) × (evaluate expected observed ≡ some r)
    by_result xs e o f none g = absurd (ground arith)
    by_result xs e o f (some r) g = (r, g)
