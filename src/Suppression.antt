-- ===== src/Suppression.antt =====
-- crates/postbud-db/src/suppression.rs: the suppression list.
pub mod Active
use postbud.Prelude.{
  ℕ, ◌+◌, Bool, true, false, ◌&&◌, ◌||◌, List, [], ◌∷◌, ◌++◌, Option, none, some, ◌==◌, ltb, leb,
  if◌then◌else◌, any, is_none, select, update_where, take, sort_by,
}
use postbud.Store.{Platform, Db, Suppression, Reason}
use postbud.Text.{Str, str_eq}

-- `is not distinct from` on tenants.
abbrev pub same_tenant : Option ℕ → Option ℕ → Bool
same_tenant none none = true
same_tenant (some a) (some b) = a == b
same_tenant _ _ = false

-- `tenant_id is null or tenant_id = $1`
abbrev pub applies_to : Option ℕ → ℕ → Bool
applies_to none tenant = true
applies_to (some t) tenant = t == tenant

abbrev pub is_active : Suppression → Bool
is_active s = is_none s.removed_at

abbrev pub same_address : Platform → Str → Str → Bool
same_address env a b = str_eq (env.sql_lower a) (env.sql_lower b)

abbrev pub suppresses : Platform → ℕ → Str → Suppression → Bool
suppresses env tenant address s =
    same_address env s.address address && is_active s && applies_to s.tenant_id tenant

unfoldable pub is_suppressed : Platform → Db → ℕ → Str → Bool
is_suppressed env db tenant address = any (suppresses env tenant address) db.suppressions

-- The unique index `suppression_active`.
abbrev pub conflicts : Platform → Option ℕ → Str → Suppression → Bool
conflicts env tenant address s =
    same_tenant s.tenant_id tenant && same_address env s.address address && is_active s

abbrev pub new_suppression : ℕ → ℕ → Option ℕ → Str → Reason → Str → Option Str → Suppression
new_suppression id now tenant address reason source detail = record {
  id = id;
  tenant_id = tenant;
  address = address;
  reason = reason;
  source = source;
  detail = detail;
  created_at = now;
  removed_at = none;
  removed_by = none;
}

-- The sequence advances whether or not the row is inserted.
unfoldable pub add : Platform → ℕ → Db → Option ℕ → Str → Reason → Str → Option Str → Db
add env now db tenant address reason source detail =
    let id = db.suppression_seq in
    if any (conflicts env tenant address) db.suppressions
    then record db { suppression_seq = id + 1 }
    else record db {
      suppressions =
          db.suppressions ++ new_suppression id now tenant address reason source detail ∷ [];
      suppression_seq = id + 1;
    }

abbrev pub lift : ℕ → Str → Suppression → Suppression
lift now removed_by s = record s { removed_at = some now; removed_by = some removed_by }

abbrev pub removable : ℕ → Suppression → Bool
removable id s = s.id == id && is_active s

unfoldable pub remove : ℕ → Db → ℕ → Str → Db × Bool
remove now db id removed_by = (
  record db { suppressions = update_where (removable id) (lift now removed_by) db.suppressions },
  any (removable id) db.suppressions,
)

abbrev pub matches_filter : Platform → Option Str → Suppression → Bool
matches_filter env none s = true
matches_filter env (some address) s = same_address env s.address address

-- The newest 500 that the tenant sees.
unfoldable pub list : Platform → Db → ℕ → Option Str → List Suppression
list env db tenant address_filter = take 500 (
    sort_by (λ a b. leb b.created_at a.created_at)
      (select
        (λ s. is_active s && applies_to s.tenant_id tenant && matches_filter env address_filter s)
        db.suppressions))
