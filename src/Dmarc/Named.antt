-- ===== src/Dmarc/Named.antt =====
-- What every report that is read off an attachment has.
use postbud.Dmarc.Parse.{
  ReportMetadata, PolicyPublished, RawRecord, Feedback, trimmed, or_not_a_report, with_names, named,
  to_report, report_of, strip_marks, head_of, parse,
}
use postbud.Dmarc.{doctype, Report}
use postbud.Prelude.{
  ℕ, ◌≡◌, refl, subst, ◌∙◌, false, ◌||◌, List, [], ◌∷◌, Option, none, some, arith, is_empty,
  or_else, Bool-cases, inl, inr,
}
use postbud.Result.{Result, ok, err}
use postbud.Text.Case.{to_ascii_lowercase_idem}
use postbud.Text.{Str, codes, to_ascii_lowercase, trim, contains}

-- A report as it is stored: it has an id and a domain, neither blank, and the domain in lower case.
pub record IsNamed (r : Report) : Type 0 where
  pub has_id : is_empty r.report_id ≡ false
  pub has_domain : is_empty r.domain ≡ false
  pub lowered_domain : to_ascii_lowercase r.domain ≡ r.domain
  pub has_org : is_empty r.org_name ≡ false

trimmed-some : (value : Option Str) (s : Str) → trimmed value ≡ some s → is_empty s ≡ false
trimmed-some none s h = absurd (ground arith)
trimmed-some (some v) s h = elim (Bool-cases (is_empty (trim v))) [
  | inl e ↦ absurd (let f : none ≡ some s = rw e at h in ground arith)
  | inr e ↦ let same : some (trim v) ≡ some s = rw e at h in ground (arith, e, same)
]

org-filled : (value : Option Str) → is_empty (or_else (trimmed value) (codes "unknown")) ≡ false
org-filled value = go (trimmed value) refl
  where
    go : (o : Option Str) → trimmed value ≡ o → is_empty (or_else o (codes "unknown")) ≡ false
    go none e = refl
    go (some s) e = trimmed-some value s e

is_empty-lower : (s : Str) → is_empty (to_ascii_lowercase s) ≡ is_empty s
is_empty-lower [] = refl
is_empty-lower (c ∷ s) = refl

to_report-IsNamed :
    (meta : ReportMetadata) (policy : PolicyPublished) (records : List RawRecord) (r : Report)
    → to_report (some meta) (some policy) records ≡ ok r
    → IsNamed r
unfolding to_report
to_report-IsNamed meta policy records r h =
    go (trimmed meta.report_id) (trimmed policy.domain) refl refl h
  where
    go :
        (id domain : Option Str)
        → trimmed meta.report_id ≡ id
        → trimmed policy.domain ≡ domain
        → named meta policy records
            (or_not_a_report (codes "no report_id") id)
            (or_not_a_report (codes "no policy domain") domain)
          ≡ ok r
        → IsNamed r
    go none domain e f g = absurd (ground arith)
    go (some id) none e f g = absurd (ground arith)
    go (some id) (some domain) e f g =
        let same : with_names meta policy records id domain ≡ r = ground arith in
        subst IsNamed same (record {
          has_id = trimmed-some meta.report_id id e;
          has_domain = is_empty-lower domain ∙ trimmed-some policy.domain domain f;
          lowered_domain = to_ascii_lowercase_idem domain;
          has_org = org-filled meta.org_name;
        })

report_of-IsNamed : (read : Result Feedback Str) (r : Report) → report_of read ≡ ok r → IsNamed r
unfolding to_report
report_of-IsNamed (err e) r h = absurd (ground arith)
report_of-IsNamed (ok f) r h = go f.report_metadata f.policy_published h
  where
    go :
        (meta : Option ReportMetadata) (policy : Option PolicyPublished)
        → to_report meta policy f.records ≡ ok r
        → IsNamed r
    go none policy g = absurd (ground arith)
    go (some meta) none g = absurd (ground arith)
    go (some meta) (some policy) g = to_report-IsNamed meta policy f.records r g

-- Whatever an attachment holds, a report that is read off it has an id, an organization and a domain,
-- none of them empty, and the domain in lower case.
pub parse-IsNamed :
    (lossy : List ℕ → Str) (read_xml : Str → Result Feedback Str) (bytes : List ℕ) (r : Report)
    → parse lossy read_xml bytes ≡ ok r
    → IsNamed r
unfolding parse
parse-IsNamed lossy read_xml bytes r h =
    let text = trim (strip_marks (lossy bytes)) in
    elim (Bool-cases
      (contains (codes "<!doctype") (head_of text) || contains (codes "<!entity") (head_of text))) [
        | inl d ↦ absurd (let e : err doctype ≡ ok r = rw d at h in ground arith)
        | inr d ↦ report_of-IsNamed (read_xml text) r (rw d at h)
      ]
