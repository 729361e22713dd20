-- ===== src/Paging.antt =====
-- The lists of the admin surface: `page_size`, `paginate` and the three handlers of
-- crates/postbud-api/src/admin.rs with their queries in crates/postbud-db/src/admin.rs. A row of
-- `bounce_report` comes with its id, and `ilike` is a parameter of the database.
pub mod Order
pub mod Crawl
pub mod Pages
pub mod Complete
use mathlib.Core.Option
use postbud.Int.{ℤ, pos, clamp}
use postbud.Paging.Order.{StrictOrder, newer, by_id, by_time}
use postbud.Prelude.{
  ℕ, suc, ◌+◌, Bool, true, false, not, ◌&&◌, ◌||◌, List, [], ◌∷◌, ◌++◌, map, Option, none, some,
  ltb, ◌==◌, if◌then◌else◌, is_empty, is_none, is_some_and, select, find?, take, length, sort_by,
  or_else, ◌>>=◌,
}
use postbud.Store.{
  Db, Message, Status, queued, sent, failed, suppressed, RelayState, Suppression, Reason,
  BounceReport, BounceClass,
}
use postbud.Tenants.{TenantRow, is_tenant}
use postbud.Text.{Str, codes, str_eq}

pub record Page (T C : Type 0) : Type 0 where
  pub items : List T
  pub next : Option C
  pub limit : ℕ

unfoldable pub page_size : Option ℤ → ℕ
page_size requested = clamp (or_else requested (pos 10)) 1 100

abbrev pub last : {A : Type 0} → List A → Option A
last [] = none
last (x ∷ xs) = elim (last xs) [ none ↦ some x | some y ↦ some y ]

unfoldable pub paginate : {T C : Type 0} → List T → ℕ → (T → C) → Page T C
paginate items limit cursor =
    if ltb limit (length items)
    then record {
      items = take limit items;
      next = Option.map cursor (last (take limit items));
      limit = limit;
    }
    else record { items = items; next = none; limit = limit }

-- Strictly older than the cursor, the newest first, and as many as the limit says.
unfoldable pub keyset : {K A : Type 0} → StrictOrder K → (A → K) → Option K → ℕ → List A → List A
keyset order key before limit rows = take (clamp (pos limit) 1 201) (
    sort_by (newer order key)
      (select (λ r. is_none before || is_some_and (λ k. order.lt (key r) k) before) rows))

pub record MessageRow : Type 0 where
  pub id : ℕ
  pub tenant : Str
  pub mail_from : Str
  pub rcpt_to : Str
  pub subject : Str
  pub status : Status
  pub attempts : ℕ
  pub relay_queue_id : Option Str
  pub last_error : Option Str
  pub relay_state : Option RelayState
  pub relay_state_detail : Option Str
  pub relay_state_at : Option ℕ
  pub created_at : ℕ
  pub completed_at : Option ℕ

abbrev pub message_row : Message → TenantRow → MessageRow
message_row m t = record {
  id = m.id;
  tenant = t.name;
  mail_from = m.mail_from;
  rcpt_to = m.rcpt_to;
  subject = m.subject;
  status = m.status;
  attempts = m.attempts;
  relay_queue_id = m.relay_queue_id;
  last_error = m.last_error;
  relay_state = m.relay_state;
  relay_state_detail = m.relay_state_detail;
  relay_state_at = m.relay_state_at;
  created_at = m.created_at;
  completed_at = m.completed_at;
}

-- `message m join tenant t on t.id = m.tenant_id`
abbrev pub with_tenant : List TenantRow → Message → Option MessageRow
with_tenant tenants m = Option.map (message_row m) (find? (is_tenant m.tenant_id) tenants)

abbrev pub join_tenants : List TenantRow → List Message → List MessageRow
join_tenants tenants [] = []
join_tenants tenants (m ∷ ms) =
    let rest = join_tenants tenants ms in
    elim (with_tenant tenants m) [ none ↦ rest | some row ↦ row ∷ rest ]

abbrev pub status_text : Status → Str
status_text queued = codes "queued"
status_text sent = codes "sent"
status_text failed = codes "failed"
status_text suppressed = codes "suppressed"

pub record MessageFilter : Type 0 where
  pub tenant : Option Str
  pub status : Option Str
  pub rcpt : Option Str
  pub before : Option (ℕ × ℕ)
  pub limit : ℕ

-- A condition on an optional parameter.
abbrev pub unless_null : (Str → Bool) → Option Str → Bool
unless_null test parameter = is_none parameter || is_some_and test parameter

abbrev pub contains_pattern : Str → Str
contains_pattern s = codes "%" ++ (s ++ codes "%")

abbrev pub passes : (Str → Str → Bool) → MessageFilter → MessageRow → Bool
passes ilike filter m =
    unless_null (str_eq m.tenant) filter.tenant
    && (unless_null (str_eq (status_text m.status)) filter.status
        && unless_null (λ r. ilike m.rcpt_to (contains_pattern r)) filter.rcpt)

abbrev pub time_key : MessageRow → ℕ × ℕ
time_key m = (m.created_at, m.id)

unfoldable pub messages : (Str → Str → Bool) → List TenantRow → Db → MessageFilter → List MessageRow
messages ilike tenants db filter =
    keyset by_time time_key filter.before filter.limit
      (select (passes ilike filter) (join_tenants tenants db.messages))

pub record SuppressionRow : Type 0 where
  pub id : ℕ
  pub tenant : Option Str
  pub address : Str
  pub reason : Reason
  pub source : Str
  pub detail : Option Str
  pub created_at : ℕ
  pub removed_at : Option ℕ
  pub removed_by : Option Str

abbrev pub tenant_name : List TenantRow → Option ℕ → Option Str
tenant_name tenants id = id >>= λ i. Option.map (λ t. t.name) (find? (is_tenant i) tenants)

abbrev pub suppression_row : List TenantRow → Suppression → SuppressionRow
suppression_row tenants s = record {
  id = s.id;
  tenant = tenant_name tenants s.tenant_id;
  address = s.address;
  reason = s.reason;
  source = s.source;
  detail = s.detail;
  created_at = s.created_at;
  removed_at = s.removed_at;
  removed_by = s.removed_by;
}

abbrev pub suppression_passes : (Str → Str → Bool) → Option Str → Bool → SuppressionRow → Bool
suppression_passes ilike address include_removed s =
    unless_null (λ a. ilike s.address (contains_pattern a)) address
    && (include_removed || is_none s.removed_at)

abbrev pub suppression_id : SuppressionRow → ℕ
suppression_id s = s.id

unfoldable pub suppressions :
    (Str → Str → Bool)
    → List TenantRow
    → Db
    → Option Str
    → Bool
    → Option ℕ
    → ℕ
    → List SuppressionRow
suppressions ilike tenants db address include_removed before_id limit =
    keyset by_id suppression_id before_id limit (
      select (suppression_passes ilike address include_removed)
        (map (suppression_row tenants) db.suppressions))

pub record BounceRow : Type 0 where
  pub id : ℕ
  pub received_at : ℕ
  pub final_rcpt : Option Str
  pub status_code : Option Str
  pub classification : Option BounceClass
  pub diagnostic : Option Str
  pub relay_queue_id : Option Str
  pub message_id : Option ℕ

abbrev pub bounce_row : ℕ × BounceReport → BounceRow
bounce_row r = record {
  id = r.0;
  received_at = r.1.received_at;
  final_rcpt = r.1.final_rcpt;
  status_code = r.1.status_code;
  classification = r.1.classification;
  diagnostic = r.1.diagnostic;
  relay_queue_id = r.1.relay_queue_id;
  message_id = r.1.message_id;
}

abbrev pub bounce_id : BounceRow → ℕ
bounce_id b = b.id

unfoldable pub bounces : List (ℕ × BounceReport) → Option ℕ → ℕ → List BounceRow
bounces reports before_id limit = keyset by_id bounce_id before_id limit (map bounce_row reports)

unfoldable pub bounce_raw : List (ℕ × BounceReport) → ℕ → Option Str
bounce_raw reports id = Option.map (λ r. r.1.raw) (find? (λ r. r.0 == id) reports)
