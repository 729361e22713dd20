-- ===== src/Domains.antt =====
-- crates/postbud-db/src/domain.rs: the registry of sending domains and the history of their checks. Both
-- tables are in the order of insertion, which is the order of the ids; `none` stands for a constraint
-- that refuses a row.
pub mod Cadence
use mathlib.Core.Option
use postbud.DnsCheck.{Status, RecordResult, DomainResult}
use postbud.Prelude.{
  ℕ, ◌+◌, ◌*◌, Bool, true, false, not, ◌&&◌, ◌||◌, List, [], ◌∷◌, ◌++◌, Option, none, some, ltb,
  leb, ◌==◌, if◌then◌else◌, any, is_none, select, find?, update_where, sort_by, ◌>>=◌,
}
use postbud.Store.{Platform, minutes}
use postbud.Text.{Str, str_eq}

pub record SendingDomain : Type 0 where
  pub id : ℕ
  pub domain : Str
  pub spf_expected : Str
  pub dkim_selector : Str
  pub dkim_public_key : Str
  pub mx_expected : Option Str
  pub dmarc_policy_expected : Option Str
  pub created_at : ℕ
  pub created_by : Str

-- A row of `sending_domain`: what a caller sees of it, and its end.
pub record DomainRow : Type 0 where
  pub entry : SendingDomain
  pub ended_at : Option ℕ
  pub ended_by : Option Str

-- A row of `domain_check`.
pub record CheckRow : Type 0 where
  pub domain_id : ℕ
  pub checked_at : ℕ
  pub spf_status : Status
  pub spf_observed : Option Str
  pub dkim_status : Status
  pub dkim_observed : Option Str
  pub dmarc_status : Status
  pub dmarc_observed : Option Str
  pub mx_status : Option Status
  pub mx_observed : Option Str
  pub report_auth_status : Option Status
  pub report_auth_observed : Option Str
  pub bounce_status : Option Status
  pub bounce_observed : Option Str
  pub is_valid : Bool

abbrev pub is_current : DomainRow → Bool
is_current r = is_none r.ended_at

abbrev pub is_domain : ℕ → DomainRow → Bool
is_domain id r = r.entry.id == id

abbrev pub entry_of : DomainRow → SendingDomain
entry_of r = r.entry

abbrev pub entries : List DomainRow → List SendingDomain
entries [] = []
entries (r ∷ rs) = entry_of r ∷ entries rs

-- `collates` is the database's order on texts.
unfoldable pub list : Platform → (Str → Str → Bool) → List DomainRow → List SendingDomain
list env collates rows = entries (
    sort_by (λ a b. collates (env.sql_lower a.entry.domain) (env.sql_lower b.entry.domain))
      (select is_current rows))

unfoldable pub by_id : List DomainRow → ℕ → Option SendingDomain
by_id rows id = Option.map entry_of (find? (λ r. is_domain id r && is_current r) rows)

-- The unique index on the domains that have not ended.
abbrev pub clashes : Platform → Str → DomainRow → Bool
clashes env domain r = is_current r && str_eq (env.sql_lower r.entry.domain) (env.sql_lower domain)

unfoldable pub add :
    Platform → List DomainRow → SendingDomain → Option (List DomainRow × SendingDomain)
add env rows entry =
    if any (clashes env entry.domain) rows
    then none
    else some (rows ++ record { entry = entry; ended_at = none; ended_by = none } ∷ [], entry)

abbrev pub ended : ℕ → Str → DomainRow → DomainRow
ended now by r = record r { ended_at = some now; ended_by = some by }

unfoldable pub end : ℕ → List DomainRow → ℕ → Str → List DomainRow × Bool
end now rows id ended_by = (
  update_where (λ r. is_domain id r && is_current r) (ended now ended_by) rows,
  any (λ r. is_domain id r && is_current r) rows,
)

abbrev pub status_of : Option RecordResult → Option Status
status_of r = Option.map (λ x. x.status) r

abbrev pub observed_of : Option RecordResult → Option Str
observed_of r = r >>= λ x. x.observed

abbrev pub check_row : ℕ → ℕ → DomainResult → CheckRow
check_row now domain_id result = record {
  domain_id = domain_id;
  checked_at = now;
  spf_status = result.spf.status;
  spf_observed = result.spf.observed;
  dkim_status = result.dkim.status;
  dkim_observed = result.dkim.observed;
  dmarc_status = result.dmarc.status;
  dmarc_observed = result.dmarc.observed;
  mx_status = status_of result.mx;
  mx_observed = observed_of result.mx;
  report_auth_status = status_of result.report_auth;
  report_auth_observed = observed_of result.report_auth;
  bounce_status = status_of result.bounce;
  bounce_observed = observed_of result.bounce;
  is_valid = result.valid;
}

unfoldable pub record_check : ℕ → List CheckRow → ℕ → DomainResult → List CheckRow
record_check now checks domain_id result = checks ++ check_row now domain_id result ∷ []

-- The check of a domain that was inserted last.
unfoldable pub latest_check : ℕ → List CheckRow → Option CheckRow
latest_check id [] = none
latest_check id (c ∷ rest) = elim (latest_check id rest) [
  | some later ↦ some later
  | none ↦ if c.domain_id == id then some c else none
]

abbrev pub hours : ℕ → ℕ
hours n = minutes (n * 60)

-- `c.checked_at < now() - make_interval(...)`, with the interval of the verdict.
abbrev pub is_stale : ℕ → ℕ → ℕ → Option CheckRow → Bool
is_stale now retry_minutes revalidate_hours none = true
is_stale now retry_minutes revalidate_hours (some c) =
    (not c.is_valid && ltb (c.checked_at + minutes retry_minutes) now)
    || (c.is_valid && ltb (c.checked_at + hours revalidate_hours) now)

abbrev pub is_due : ℕ → ℕ → ℕ → List CheckRow → DomainRow → Bool
is_due now retry_minutes revalidate_hours checks r =
    is_current r && is_stale now retry_minutes revalidate_hours (latest_check r.entry.id checks)

unfoldable pub due_for_check : ℕ → List DomainRow → List CheckRow → ℕ → ℕ → List SendingDomain
due_for_check now rows checks retry_minutes revalidate_hours = entries (
    sort_by (λ a b. leb a.entry.id b.entry.id)
      (select (is_due now retry_minutes revalidate_hours checks) rows))
