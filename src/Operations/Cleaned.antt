-- ===== src/Operations/Cleaned.antt =====
-- What the checks of the requests let through to the tables.
use postbud.Domains.{SendingDomain}
use postbud.Operations.Domains.{
  DomainAdd, stated, is_policy, policy_of, spf_of, key_of, domain_of, with_records, no_selector,
  short_key, new_entry,
}
use postbud.Operations.{is_no_domain, not_a_domain, cleaned, clean_domains}
use postbud.Prelude.{
  ℕ, ◌≤◌, ◌≡◌, refl, ◌∙◌, true, false, ◌||◌, ◌⊎◌, List, [], ◌∷◌, Option, none, some, arith, ltb,
  is_empty, find?, All, Bool-cases, inl, inr,
}
use postbud.Result.{Result, ok, err}
use postbud.Submit.{ApiError}
use postbud.Text.Bytes.{byte_len, trim_end_char}
use postbud.Text.Case.{to_ascii_lowercase_idem, eq_of_str_eq}
use postbud.Text.{Str, codes, str_eq, to_ascii_lowercase, trim}

-- A domain as the tables hold it: in lower case, and of the form that the checks ask for.
pub record IsClean (domain : Str) : Type 0 where
  pub filled : is_empty domain ≡ false
  pub formed : is_no_domain domain ≡ false
  pub lowered : to_ascii_lowercase domain ≡ domain

All-cleaned :
    (raw : List Str) → All (λ d. (is_empty d ≡ false) × (to_ascii_lowercase d ≡ d)) (cleaned raw)
All-cleaned [] = tt
All-cleaned (d ∷ raw) = elim (Bool-cases (is_empty (to_ascii_lowercase (trim d)))) [
  | inl e ↦ rw e (All-cleaned raw)
  | inr e ↦ rw e ((e, to_ascii_lowercase_idem (trim d)), All-cleaned raw)
]

All-IsClean :
    (ds : List Str)
    → All (λ d. (is_empty d ≡ false) × (to_ascii_lowercase d ≡ d)) ds
    → find? is_no_domain ds ≡ none
    → All IsClean ds
All-IsClean [] h f = tt
All-IsClean (d ∷ ds) h f = (
  record { filled = h.0.0; formed = ground arith; lowered = h.0.1 },
  All-IsClean ds h.1 (ground arith),
)

-- What a request for the sending domains of a tenant may set: one domain or more, each in lower case
-- and of the form of a domain.
pub clean_domains-IsClean :
    (raw domains : List Str)
    → clean_domains raw ≡ ok domains
    → (is_empty domains ≡ false) × All IsClean domains
unfolding clean_domains
clean_domains-IsClean raw domains h = elim (Bool-cases (is_empty (cleaned raw))) [
  | inl e ↦ absurd (ground arith)
  | inr e ↦ go (find? is_no_domain (cleaned raw)) refl e
]
  where
    go :
        (o : Option Str)
        → find? is_no_domain (cleaned raw) ≡ o
        → is_empty (cleaned raw) ≡ false
        → (is_empty domains ≡ false) × All IsClean domains
    go (some d) f e = absurd (ground arith)
    go none f e =
        let same : cleaned raw ≡ domains = ground arith in
        (rw (← same) e, rw (← same) (All-IsClean (cleaned raw) (All-cleaned raw) f))

-- A sending domain as it is registered: its name clean, a selector, a key of 64 bytes or more, and a
-- policy of the ladder if there is one.
pub record IsAcceptable (d : SendingDomain) : Type 0 where
  pub named : IsClean d.domain
  pub selected : is_empty d.dkim_selector ≡ false
  pub keyed : 64 ≤ byte_len d.dkim_public_key
  pub policed :
      (p : Str)
      → d.dmarc_policy_expected ≡ some p
      → (p ≡ codes "none") ⊎ ((p ≡ codes "quarantine") ⊎ (p ≡ codes "reject"))

policy_of-policed :
    (stated policy : Option Str) (p : Str)
    → policy_of stated ≡ ok policy
    → policy ≡ some p
    → (p ≡ codes "none") ⊎ ((p ≡ codes "quarantine") ⊎ (p ≡ codes "reject"))
policy_of-policed none policy p h e = absurd (ground arith)
policy_of-policed (some q) policy p h e = elim (Bool-cases (is_policy (to_ascii_lowercase q))) [
  | inl i ↦ let same : to_ascii_lowercase q ≡ p = ground arith in ladder p (rw (← same) i)
  | inr i ↦ absurd (ground arith)
]
  where
    ladder :
        (q : Str)
        → is_policy q ≡ true
        → (q ≡ codes "none") ⊎ ((q ≡ codes "quarantine") ⊎ (q ≡ codes "reject"))
    ladder q i = elim (Bool-cases (str_eq q (codes "none"))) [
      | inl a ↦ inl (eq_of_str_eq q (codes "none") a)
      | inr a ↦ inr (elim (Bool-cases (str_eq q (codes "quarantine"))) [
        | inl b ↦ inl (eq_of_str_eq q (codes "quarantine") b)
        | inr b ↦ inr (eq_of_str_eq q (codes "reject") (ground arith))
      ])
    ]

pub new_entry-IsAcceptable :
    (now id : ℕ) (spf_default : Option Str) (actor : Str) (req : DomainAdd) (entry : SendingDomain)
    → new_entry now id spf_default actor req ≡ ok entry
    → IsAcceptable entry × (entry.created_by ≡ actor)
unfolding new_entry
new_entry-IsAcceptable now id spf_default actor req entry h =
    elim (Bool-cases (is_empty (domain_of req.domain) || is_no_domain (domain_of req.domain))) [
      | inl d ↦
          absurd (
            let e : err (not_a_domain (domain_of req.domain)) ≡ ok entry = rw d at h in
            ground arith)
      | inr d ↦ elim (Bool-cases (is_empty (trim req.dkim_selector))) [
        | inl s ↦ absurd (let e : err no_selector ≡ ok entry = rw (d, s) at h in ground arith)
        | inr s ↦ elim (Bool-cases (ltb (byte_len (key_of req.dkim_public_key)) 64)) [
          | inl k ↦ absurd (let e : err short_key ≡ ok entry = rw (d, s, k) at h in ground arith)
          | inr k ↦
              go (spf_of (stated req.spf_expected) spf_default)
                (policy_of (stated req.dmarc_policy_expected)) refl d s k (rw (d, s, k) at h)
        ]
      ]
    ]
  where
    go :
        (spf : Result Str ApiError) (policy : Result (Option Str) ApiError)
        → policy_of (stated req.dmarc_policy_expected) ≡ policy
        → (is_empty (domain_of req.domain) || is_no_domain (domain_of req.domain)) ≡ false
        → is_empty (trim req.dkim_selector) ≡ false
        → ltb (byte_len (key_of req.dkim_public_key)) 64 ≡ false
        → with_records now id actor req spf policy ≡ ok entry
        → IsAcceptable entry × (entry.created_by ≡ actor)
    go (err e) policy q d s k g = absurd (ground arith)
    go (ok spf) (err e) q d s k g = absurd (ground arith)
    go (ok spf) (ok policy) q d s k g =
        let domain : domain_of req.domain ≡ entry.domain = ground arith in
        let selector : trim req.dkim_selector ≡ entry.dkim_selector = ground arith in
        let key : key_of req.dkim_public_key ≡ entry.dkim_public_key = ground arith in
        let said : policy ≡ entry.dmarc_policy_expected = ground arith in
        (
          record {
            named = record {
              filled = rw (← domain) (ground arith);
              formed = rw (← domain) (ground arith);
              lowered =
                  rw (← domain) (to_ascii_lowercase_idem (trim_end_char b'.' (trim req.domain)));
            };
            selected = rw (← selector) s;
            keyed = rw (← key) (ground arith);
            policed =
                λ p e. policy_of-policed (stated req.dmarc_policy_expected) policy p q (said ∙ e);
          },
          ground arith,
        )
