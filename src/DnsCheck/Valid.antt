-- ===== src/DnsCheck/Valid.antt =====
-- What a valid result of the check says of the records, and the other way round.
use mathlib.Core.Option
use postbud.DnsCheck.Names.{normalize_host}
use postbud.DnsCheck.Tagged.{is_tagged, with_version-select, first_with_version-find?}
use postbud.DnsCheck.{
  Expected, Observed, DomainResult, is_valid, is_none_or_valid, normalize_spaces, judge_spf,
  with_version, first_with_version, check_spf, has_key, key_text, check_dkim, policy_rank,
  policy_ladder, position, dmarc_tag, compare_policy, judge_rank, judge_dmarc, check_dmarc,
  check_mx, evaluate, shown_as,
}
use postbud.Prelude.{
  ℕ, ◌≤◌, ◌≡◌, refl, sym, ap, ◌∙◌, ◌↔◌, Bool, true, ◌&&◌, List, [], ◌∷◌, Option, none, some, arith,
  ltb, any, All, select, find?, ◌>>=◌, ◌⊎◌, Bool-cases, inl, inr,
}
use postbud.Text.Case.{eq_of_str_eq}
use postbud.Text.{Str, codes, str_eq, eq_ignore_ascii_case, to_ascii_lowercase, trim}

-- One record alone is an SPF record, and it is the expected one up to case and spacing.
abbrev pub SpfPublished : List Str → Str → Type 0
SpfPublished txt spf =
    (t : Str) × (select (is_tagged (codes "v=spf1")) txt ≡ t ∷ [])
    × (eq_ignore_ascii_case (normalize_spaces t) (normalize_spaces spf) ≡ true)

-- The place of a policy from the weakest on, whatever its case and the whitespace around it.
abbrev pub Ranks : Str → ℕ → Type 0
Ranks p n =
    ((to_ascii_lowercase (trim p) ≡ codes "none") × (n ≡ 0))
    ⊎ (((to_ascii_lowercase (trim p) ≡ codes "quarantine") × (n ≡ 1))
        ⊎ ((to_ascii_lowercase (trim p) ≡ codes "reject") × (n ≡ 2)))

position-Ranks :
    (q : Str) (n : ℕ)
    → position q policy_ladder ≡ some n
    → ((q ≡ codes "none") × (n ≡ 0))
      ⊎ (((q ≡ codes "quarantine") × (n ≡ 1)) ⊎ ((q ≡ codes "reject") × (n ≡ 2)))
unfolding position
position-Ranks q n h = elim (Bool-cases (str_eq (codes "none") q)) [
  | inl a ↦ inl (sym (eq_of_str_eq (codes "none") q a), ground arith)
  | inr a ↦ elim (Bool-cases (str_eq (codes "quarantine") q)) [
    | inl b ↦ inr (inl (sym (eq_of_str_eq (codes "quarantine") q b), ground arith))
    | inr b ↦ elim (Bool-cases (str_eq (codes "reject") q)) [
      | inl c ↦ inr (inr (sym (eq_of_str_eq (codes "reject") q c), ground arith))
      | inr c ↦ absurd (ground arith)
    ]
  ]
]

position_of_Ranks :
    (q : Str) (n : ℕ)
    → ((q ≡ codes "none") × (n ≡ 0))
      ⊎ (((q ≡ codes "quarantine") × (n ≡ 1)) ⊎ ((q ≡ codes "reject") × (n ≡ 2)))
    → position q policy_ladder ≡ some n
unfolding position
position_of_Ranks q n (inl (e, k)) = rw (e, k) refl
position_of_Ranks q n (inr (inl (e, k))) = rw (e, k) refl
position_of_Ranks q n (inr (inr (e, k))) = rw (e, k) refl

policy_rank_iff : (p : Str) (n : ℕ) → policy_rank p ≡ some n ↔ Ranks p n
unfolding policy_rank
policy_rank_iff p n = (
  position-Ranks (to_ascii_lowercase (trim p)) n,
  position_of_Ranks (to_ascii_lowercase (trim p)) n,
)

bind_iff :
    (o : Option Str) (n : ℕ) → (o >>= policy_rank) ≡ some n ↔ ((p : Str) × (o ≡ some p) × Ranks p n)
bind_iff none n = (λ h. cc, λ (p, e, k). cc)
bind_iff (some s) n = (
  λ h. (s, refl, (policy_rank_iff s n).0 h),
  λ (p, e, k). let same : s ≡ p = ground arith in rw same ((policy_rank_iff p n).1 k),
)

-- The rank is as high as that of the expected policy, if one is expected.
abbrev pub Meets : Option Str → ℕ → Type 0
Meets none rank = Unit
Meets (some want) rank = (w : ℕ) × Ranks want w × (w ≤ rank)

-- The first DMARC record has a readable policy, and one that meets the expected one.
abbrev pub DmarcPublished : List Str → Option Str → Type 0
DmarcPublished txt want =
    (t : Str) × (rank : ℕ) × (find? (is_tagged (codes "v=DMARC1")) txt ≡ some t)
    × ((p : Str) × (dmarc_tag t (codes "p") ≡ some p) × Ranks p rank)
    × Meets want rank

abbrev pub MxPublished : List Str → Option Str → Type 0
MxPublished hosts none = Unit
MxPublished hosts (some host) =
    any (λ h. str_eq (normalize_host h) (normalize_host host)) hosts ≡ true

-- Every record that is expected is published.
pub record Authenticates (expected : Expected) (observed : Observed) : Type 0 where
  pub spf : SpfPublished observed.domain_txt expected.spf
  pub dkim : any (has_key (key_text expected.dkim_public_key)) observed.dkim_txt ≡ true
  pub dmarc : DmarcPublished observed.dmarc_txt expected.dmarc_policy
  pub mx : MxPublished observed.mx expected.mx

judge_spf_iff :
    (xs : List Str) (spf : Str)
    → is_valid (judge_spf xs spf) ≡ true ↔ (
        (t : Str) × (xs ≡ t ∷ [])
        × (eq_ignore_ascii_case (normalize_spaces t) (normalize_spaces spf) ≡ true))
unfolding judge_spf
judge_spf_iff [] spf = (λ h. cc, λ (t, e, k). cc)
judge_spf_iff (t ∷ []) spf = (λ h. (t, refl, ground arith), λ (u, e, k). ground arith)
judge_spf_iff (t ∷ u ∷ xs) spf = (λ h. cc, λ (v, e, k). cc)

is_valid-check_dkim :
    (txt : List Str) (key : Str) → is_valid (check_dkim txt key) ≡ any (has_key (key_text key)) txt
unfolding check_dkim
is_valid-check_dkim [] key = refl
is_valid-check_dkim (t ∷ ts) key = ground arith

mx_iff :
    (hosts : List Str) (want : Option Str)
    → is_none_or_valid (Option.map (check_mx hosts) want) ≡ true ↔ MxPublished hosts want
unfolding check_mx
mx_iff hosts none = (λ h. tt, λ h. refl)
mx_iff [] (some host) = (λ h. cc, λ h. cc)
mx_iff (h ∷ hs) (some host) = (λ k. ground arith, λ k. ground arith)

judge_rank_iff :
    (shown : Str) (found : Option Str) (o : Option ℕ) (want : Option Str)
    → is_valid (judge_rank shown found o want) ≡ true
      ↔ ((rank : ℕ) × (o ≡ some rank) × Meets want rank)
unfolding judge_rank compare_policy
judge_rank_iff shown found none want = (λ h. cc, λ (r, e, k). cc)
judge_rank_iff shown found (some rank) none = (λ h. (rank, refl, tt), λ h. refl)
judge_rank_iff shown found (some rank) (some want) = go (policy_rank want) refl
  where
    go :
        (p : Option ℕ)
        → policy_rank want ≡ p
        → is_valid (judge_rank shown found (some rank) (some want)) ≡ true
          ↔ ((r : ℕ) × (some rank ≡ some r) × Meets (some want) r)
    go none e = (
      λ h. absurd (ground arith),
      λ (r, f, (w, k, l)).
          absurd (let s : policy_rank want ≡ some w = (policy_rank_iff want w).1 k in ground arith),
    )
    go (some w) e = (
      λ h. (rank, refl, (w, (policy_rank_iff want w).0 e, ground arith)),
      λ (r, f, (v, k, l)).
          let s : policy_rank want ≡ some v = (policy_rank_iff want v).1 k in ground arith,
    )

judge_dmarc_iff :
    (o found_at want : Option Str)
    → is_valid (judge_dmarc o found_at want) ≡ true ↔ (
        (t : Str) × (rank : ℕ) × (o ≡ some t)
        × ((p : Str) × (dmarc_tag t (codes "p") ≡ some p) × Ranks p rank)
        × Meets want rank)
unfolding judge_dmarc
judge_dmarc_iff none found_at want = (λ h. cc, λ (t, r, e, k, m). cc)
judge_dmarc_iff (some t) found_at want =
    let i =
      judge_rank_iff (shown_as found_at t) (dmarc_tag t (codes "p"))
        (dmarc_tag t (codes "p") >>= policy_rank) want in
    (
      λ h. let (r, e, m) = i.0 h in (t, r, refl, (bind_iff (dmarc_tag t (codes "p")) r).0 e, m),
      λ (u, r, e, k, m). i.1 (
        r,
        ap (λ s. dmarc_tag s (codes "p") >>= policy_rank) (ground arith)
            ∙ (bind_iff (dmarc_tag u (codes "p")) r).1 k,
        m,
      ),
    )

-- The four verdicts together, on the records that the two searches found.
abbrev verdict : Expected → Observed → List Str → Option Str → Bool
verdict expected observed xs o =
    is_valid (judge_spf xs expected.spf)
    && is_valid (check_dkim observed.dkim_txt expected.dkim_public_key)
    && is_valid (judge_dmarc o observed.dmarc_found_at expected.dmarc_policy)
    && is_none_or_valid (Option.map (check_mx observed.mx) expected.mx)

all_four :
    (a b c d : Bool)
    → (a && b && c && d) ≡ true ↔ ((a ≡ true) × (b ≡ true) × (c ≡ true) × (d ≡ true))
all_four a b c d =
    (λ e. (ground arith, ground arith, ground arith, ground arith), λ e. ground arith)

verdict_iff :
    (expected : Expected) (observed : Observed) (xs : List Str) (o : Option Str)
    → xs ≡ select (is_tagged (codes "v=spf1")) observed.domain_txt
    → o ≡ find? (is_tagged (codes "v=DMARC1")) observed.dmarc_txt
    → verdict expected observed xs o ≡ true ↔ Authenticates expected observed
verdict_iff expected observed xs o e f = (forth, back)
  where
    spf :
        is_valid (judge_spf xs expected.spf) ≡ true ↔ SpfPublished observed.domain_txt expected.spf
    spf = rw (← e) (judge_spf_iff xs expected.spf)

    dkim :
        is_valid (check_dkim observed.dkim_txt expected.dkim_public_key)
        ≡ any (has_key (key_text expected.dkim_public_key)) observed.dkim_txt
    dkim = is_valid-check_dkim observed.dkim_txt expected.dkim_public_key

    dmarc :
        is_valid (judge_dmarc o observed.dmarc_found_at expected.dmarc_policy) ≡ true
        ↔ DmarcPublished observed.dmarc_txt expected.dmarc_policy
    dmarc = rw (← f) (judge_dmarc_iff o observed.dmarc_found_at expected.dmarc_policy)

    mx :
        is_none_or_valid (Option.map (check_mx observed.mx) expected.mx) ≡ true
        ↔ MxPublished observed.mx expected.mx
    mx = mx_iff observed.mx expected.mx

    forth : verdict expected observed xs o ≡ true → Authenticates expected observed
    forth h =
        let (a, b, c, d) =
          (all_four (is_valid (judge_spf xs expected.spf))
              (is_valid (check_dkim observed.dkim_txt expected.dkim_public_key))
              (is_valid (judge_dmarc o observed.dmarc_found_at expected.dmarc_policy))
              (is_none_or_valid (Option.map (check_mx observed.mx) expected.mx))).0
            h in
        record { spf = spf.0 a; dkim = sym dkim ∙ b; dmarc = dmarc.0 c; mx = mx.0 d }

    back : Authenticates expected observed → verdict expected observed xs o ≡ true
    back a =
        (all_four (is_valid (judge_spf xs expected.spf))
            (is_valid (check_dkim observed.dkim_txt expected.dkim_public_key))
            (is_valid (judge_dmarc o observed.dmarc_found_at expected.dmarc_policy))
            (is_none_or_valid (Option.map (check_mx observed.mx) expected.mx))).1
          (spf.1 a.spf, dkim ∙ a.dkim, dmarc.1 a.dmarc, mx.1 a.mx)

plain_spf : All (λ p. ltb p 128 ≡ true) (codes "v=spf1")
plain_spf = (refl, (refl, (refl, (refl, (refl, (refl, tt))))))

plain_dmarc : All (λ p. ltb p 128 ≡ true) (codes "v=DMARC1")
plain_dmarc = (refl, (refl, (refl, (refl, (refl, (refl, (refl, (refl, tt))))))))

-- A domain is found valid exactly if it authenticates: one SPF record alone and the expected one,
-- a DKIM record with the relay's key, a first DMARC record with a readable policy no weaker than
-- the expected one, and the expected mail exchanger, where one is expected.
pub evaluate_valid_iff :
    (expected : Expected) (observed : Observed) (r : DomainResult)
    → evaluate expected observed ≡ some r
    → (r.valid ≡ true ↔ Authenticates expected observed)
unfolding evaluate check_spf check_dmarc
evaluate_valid_iff expected observed r h =
    go (with_version 6 (codes "v=spf1") observed.domain_txt) refl
      (first_with_version 8 (codes "v=DMARC1") observed.dmarc_txt) refl
  where
    go :
        (s : Option (List Str))
        → with_version 6 (codes "v=spf1") observed.domain_txt ≡ s
        → (d : Option (Option Str)) → first_with_version 8 (codes "v=DMARC1") observed.dmarc_txt ≡ d
        → (r.valid ≡ true ↔ Authenticates expected observed)
    go none e d f = absurd (ground arith)
    go (some xs) e none f = absurd (ground arith)
    go (some xs) e (some o) f =
        let i =
          verdict_iff expected observed xs o
            (with_version-select (codes "v=spf1") plain_spf observed.domain_txt e)
            (first_with_version-find? (codes "v=DMARC1") plain_dmarc observed.dmarc_txt f) in
        let v : r.valid ≡ verdict expected observed xs o = ground arith in rw v i
