-- ===== src/Paging/Pages.antt =====
-- The handlers of the three lists: the parameters of a request, the query, and the page.
use postbud.Int.{ℤ}
use postbud.Paging.{
  Page, page_size, paginate, MessageRow, MessageFilter, time_key, messages, SuppressionRow,
  suppression_id, suppressions, BounceRow, bounce_id, bounces,
}
use postbud.Prelude.{ℕ, suc, Bool, List, Option, none, some, if◌then◌else◌, is_empty, ◌>>=◌}
use postbud.Store.{Db, BounceReport}
use postbud.Tenants.{TenantRow}
use postbud.Text.{Str}

-- `filter(|t| !t.is_empty())`
abbrev pub non_empty : Option Str → Option Str
non_empty parameter = parameter >>= λ s. if is_empty s then none else some s

-- `zip`
abbrev pub zip : Option ℕ → Option ℕ → Option (ℕ × ℕ)
zip a b = a >>= λ x. b >>= λ y. some (x, y)

pub record MessagesQuery : Type 0 where
  pub tenant : Option Str
  pub status : Option Str
  pub rcpt : Option Str
  pub before : Option ℕ
  pub before_id : Option ℕ
  pub limit : Option ℤ

abbrev pub message_filter : MessagesQuery → MessageFilter
message_filter q = record {
  tenant = non_empty q.tenant;
  status = non_empty q.status;
  rcpt = non_empty q.rcpt;
  before = zip q.before q.before_id;
  limit = suc (page_size q.limit);
}

unfoldable pub messages_page :
    (Str → Str → Bool) → List TenantRow → Db → MessagesQuery → Page MessageRow (ℕ × ℕ)
messages_page ilike tenants db q =
    paginate (messages ilike tenants db (message_filter q)) (page_size q.limit) time_key

pub record SuppressionsQuery : Type 0 where
  pub address : Option Str
  pub include_removed : Bool
  pub before_id : Option ℕ
  pub limit : Option ℤ

unfoldable pub suppressions_page :
    (Str → Str → Bool) → List TenantRow → Db → SuppressionsQuery → Page SuppressionRow ℕ
suppressions_page ilike tenants db q =
    paginate
      (suppressions ilike tenants db (non_empty q.address) q.include_removed q.before_id
        (suc (page_size q.limit)))
      (page_size q.limit) suppression_id

unfoldable pub bounces_page : List (ℕ × BounceReport) → Option ℕ → Option ℤ → Page BounceRow ℕ
bounces_page reports before_id limit =
    paginate (bounces reports before_id (suc (page_size limit))) (page_size limit) bounce_id

-- The request for the page behind a cursor.
abbrev pub messages_after : MessagesQuery → Option (ℕ × ℕ) → MessagesQuery
messages_after q none = record q { before = none; before_id = none }
messages_after q (some (before, before_id)) = record q {
  before = some before;
  before_id = some before_id;
}

abbrev pub suppressions_after : SuppressionsQuery → Option ℕ → SuppressionsQuery
suppressions_after q before_id = record q { before_id = before_id }
