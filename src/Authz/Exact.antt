-- ===== src/Authz/Exact.antt =====
-- The list of allowed domains is matched exactly.
use postbud.Address.Bounce.{IsDomainOf, domain-IsDomainOf, domain-append}
use postbud.Address.{domain}
use postbud.Authz.{may_send_as}
use postbud.Prelude.{
  suc, ◌+◌, ◌≤◌, ◌≡◌, refl, sym, ap, ◌∙◌, ◌↔◌, inl, inr, true, false, List, [], ◌∷◌, ◌++◌, Option,
  none, some, arith, any, Any, length, Bool-cases, is_empty,
}
use postbud.Text.Case.{eq_ignore_ascii_case_iff, to_ascii_lowercase_idem}
use postbud.Text.{
  Str, to_ascii_lowercase, trim, trim_start, trim_end, eq_ignore_ascii_case, contains_char,
}

-- Some entry of the list, trimmed and folded, is the domain.
abbrev pub Lists : List Str → Str → Type 0
Lists allowed d = Any (λ a. to_ascii_lowercase (trim a) ≡ d) allowed

module _ (d : Str) (folded : to_ascii_lowercase d ≡ d) where
  Lists-of_any :
      (allowed : List Str)
      → any (λ a. eq_ignore_ascii_case (trim a) d) allowed ≡ true
      → Lists allowed d
  Lists-of_any [] h = cc
  Lists-of_any (a ∷ rest) h = elim (Bool-cases (eq_ignore_ascii_case (trim a) d)) [
    | inl e ↦ inl ((eq_ignore_ascii_case_iff (trim a) d).0 e ∙ folded)
    | inr e ↦ inr (Lists-of_any rest (ground arith))
  ]

  any-of_Lists :
      (allowed : List Str)
      → Lists allowed d
      → any (λ a. eq_ignore_ascii_case (trim a) d) allowed ≡ true
  any-of_Lists [] h = absurd h
  any-of_Lists (a ∷ rest) (inl e) =
      rw ((eq_ignore_ascii_case_iff (trim a) d).1 (e ∙ sym folded)) refl
  any-of_Lists (a ∷ rest) (inr h) = ground (arith, any-of_Lists rest h)

IsDomainOf-folded : {a d : Str} → IsDomainOf a d → to_ascii_lowercase d ≡ d
IsDomainOf-folded i = ap to_ascii_lowercase i.folded ∙ to_ascii_lowercase_idem i.host ∙ sym i.folded

-- A tenant may send as an address exactly if the address has a domain and that domain is one of
-- its entries, up to the case and to the whitespace round the entry.
pub may_send_as_iff :
    (sender : Str) (allowed : List Str)
    → may_send_as sender allowed ≡ true ↔ ((d : Str) × (domain sender ≡ some d) × Lists allowed d)
unfolding may_send_as
may_send_as_iff sender allowed = (forth (domain sender) refl, back)
  where
    forth :
        (o : Option Str)
        → domain sender ≡ o
        → may_send_as sender allowed ≡ true
        → (d : Str) × (domain sender ≡ some d) × Lists allowed d
    forth none e h = absurd (ground arith)
    forth (some d) e h = (
      d,
      e,
      Lists-of_any d (IsDomainOf-folded (domain-IsDomainOf sender e)) allowed
          (rw (e, may_send_as) at h),
    )

    back :
        (d : Str) × (domain sender ≡ some d) × Lists allowed d → may_send_as sender allowed ≡ true
    back (d, e, l) =
        rw (e, may_send_as)
          (any-of_Lists d (IsDomainOf-folded (domain-IsDomainOf sender e)) allowed l)

length-trim_start : (s : Str) → length (trim_start s) ≤ length s
unfolding trim_start
length-trim_start [] = omega arith
length-trim_start (c ∷ s) = ground (arith, length-trim_start s)

length-trim_end : (s : Str) → length (trim_end s) ≤ length s
unfolding trim_end
length-trim_end [] = omega arith
length-trim_end (c ∷ s) = ground (arith, length-trim_end s)

length-trim : (s : Str) → length (trim s) ≤ length s
unfolding trim
length-trim s = omega (arith, length-trim_start s, length-trim_end (trim_start s))

length-to_ascii_lowercase : (s : Str) → length (to_ascii_lowercase s) ≡ length s
length-to_ascii_lowercase [] = refl
length-to_ascii_lowercase (c ∷ s) = ap suc (length-to_ascii_lowercase s)

length-append : (a b : Str) → length (a ++ b) ≡ length a + length b
length-append [] b = omega arith
length-append (c ∷ a) b = omega (arith, length-append a b)

-- No folding and no trimming makes a longer domain out of the entry `parent`.
longer-not-Lists : (parent d : Str) → suc (length parent) ≤ length d → ¬ Lists (parent ∷ []) d
longer-not-Lists parent d h (inl e) =
    absurd (omega (arith, ap length e, length-to_ascii_lowercase (trim parent), length-trim parent))
longer-not-Lists parent d h (inr e) = e

-- A tenant whose one entry is `parent` may not send as any address at a subdomain of it, whatever
-- the entry is and whatever stands in front of the dot, as long as the host holds no `@`.
pub may_send_as_subdomain :
    (local sub parent : Str)
    → contains_char b'@' (sub ++ b'.' ∷ parent) ≡ false
    → may_send_as (local ++ b'@' ∷ (sub ++ b'.' ∷ parent)) (parent ∷ []) ≡ false
may_send_as_subdomain local sub parent k = elim (Bool-cases (may_send_as from (parent ∷ []))) [
  | inr e ↦ e
  | inl e ↦
      let (d, f, l) = (may_send_as_iff from (parent ∷ [])).0 e in
      absurd (longer-not-Lists parent (to_ascii_lowercase host) longer (rw (← folded d f) at l))
]
  where
    host : Str
    host = sub ++ b'.' ∷ parent

    from : Str
    from = local ++ b'@' ∷ host

    ne : is_empty host ≡ false
    ne = elim sub as (λ s. is_empty (s ++ b'.' ∷ parent) ≡ false) [ [] ↦ refl | c ∷ s ↦ refl ]

    folded : (d : Str) → domain from ≡ some d → to_ascii_lowercase host ≡ d
    folded d f = ground (arith, domain-append local host k ne)

    longer : suc (length parent) ≤ length (to_ascii_lowercase host)
    longer = omega (arith, length-to_ascii_lowercase host, length-append sub (b'.' ∷ parent))
