-- ===== src/Domains/Cadence.antt =====
-- When a domain is due for a check.
use postbud.DnsCheck.{DomainResult}
use postbud.Domains.{
  SendingDomain, DomainRow, CheckRow, is_current, is_domain, entries, check_row, record_check,
  latest_check, hours, is_stale, is_due, due_for_check,
}
use postbud.Prelude.Rows.{any-sort_by, any-select}
use postbud.Prelude.{
  ℕ, ◌+◌, ◌≡◌, refl, ap, ◌∙◌, Bool, true, ◌&&◌, ◌||◌, List, [], ◌∷◌, ◌++◌, some, arith, ltb, leb,
  ◌==◌, if◌then◌else◌, any, select, sort_by, Bool-cases, inl, inr,
}
use postbud.Store.{minutes}

abbrev pub has_id : ℕ → SendingDomain → Bool
has_id id d = d.id == id

any-entries :
    (id : ℕ) (rows : List DomainRow) → any (has_id id) (entries rows) ≡ any (is_domain id) rows
any-entries id [] = refl
any-entries id (r ∷ rows) = ap (◌||◌ (is_domain id r)) (any-entries id rows)

pub latest-concat :
    (id : ℕ) (checks : List CheckRow) (c : CheckRow)
    → latest_check id (checks ++ c ∷ [])
      ≡ (if c.domain_id == id then some c else latest_check id checks)
unfolding latest_check
latest-concat id [] c = refl
latest-concat id (d ∷ checks) c = rw (latest-concat id checks c) (ground arith)

-- The interval that a verdict leaves to the next check.
abbrev pub interval : ℕ → ℕ → Bool → ℕ
interval retry_minutes revalidate_hours valid =
    if valid then hours revalidate_hours else minutes retry_minutes

pub due-any :
    (now : ℕ) (rows : List DomainRow) (checks : List CheckRow) (retry revalidate id : ℕ)
    → any (has_id id) (due_for_check now rows checks retry revalidate)
      ≡ any (λ r. is_domain id r && is_due now retry revalidate checks r) rows
unfolding due_for_check
due-any now rows checks retry revalidate id =
    any-entries id (
      sort_by (λ a b. leb a.entry.id b.entry.id) (select (is_due now retry revalidate checks) rows))
    ∙ any-sort_by (is_domain id) (λ a b. leb a.entry.id b.entry.id)
        (select (is_due now retry revalidate checks) rows)
    ∙ any-select (is_domain id) (is_due now retry revalidate checks) rows

pub stale_new :
    (now later retry revalidate id : ℕ) (result : DomainResult)
    → is_stale later retry revalidate (some (check_row now id result))
      ≡ ltb (now + interval retry revalidate result.valid) later
stale_new now later retry revalidate id result = elim (Bool-cases result.valid) [
  | inl e ↦ rw e (ground arith)
  | inr e ↦ rw e (ground arith)
]

due-recorded :
    (now later retry revalidate id : ℕ) (checks : List CheckRow) (result : DomainResult)
    (rows : List DomainRow)
    → any
        (λ r. is_domain id r && is_due later retry revalidate (record_check now checks id result) r)
        rows
      ≡ (any (λ r. is_domain id r && is_current r) rows
          && ltb (now + interval retry revalidate result.valid) later)
unfolding record_check
due-recorded now later retry revalidate id checks result [] = refl
due-recorded now later retry revalidate id checks result (r ∷ rows) =
    rw (latest-concat r.entry.id checks (check_row now id result))
      (elim (Bool-cases (is_domain id r)) [
        | inl e ↦
            let same : (id == r.entry.id) ≡ true = ground arith in
            rw (same, e)
              (ground (
                arith,
                due-recorded now later retry revalidate id checks result rows,
                stale_new now later retry revalidate id result,
              ))
        | inr e ↦ rw e (due-recorded now later retry revalidate id checks result rows)
      ])

-- After a check is recorded, a domain is due again exactly if it has not ended and the time has
-- passed that the verdict leaves: the hours of revalidation if it was valid, and the minutes of the
-- retry if it was not.
pub due_for_check-record_check :
    (now later retry revalidate id : ℕ) (checks : List CheckRow) (result : DomainResult)
    (rows : List DomainRow)
    → any
        (has_id id)
        (due_for_check later rows (record_check now checks id result) retry revalidate)
      ≡ (any (λ r. is_domain id r && is_current r) rows
          && ltb (now + interval retry revalidate result.valid) later)
due_for_check-record_check now later retry revalidate id checks result rows =
    due-any later rows (record_check now checks id result) retry revalidate id
    ∙ due-recorded now later retry revalidate id checks result rows
