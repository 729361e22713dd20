-- ===== src/Tenants.antt =====
-- crates/postbud-db/src/tenant.rs: tenants, their keys, and the domains they may send as, with
-- `hash` of crates/postbud-core/src/apikey.rs. Each function is one transaction; `none` stands for
-- one that a unique constraint rolls back, and a generated key is an argument.
pub mod Keys
pub mod History
use mathlib.Core.Option
use postbud.Prelude.{
  ℕ, Bool, true, false, not, ◌&&◌, ◌||◌, List, [], ◌∷◌, ◌++◌, map, Option, none, some, ◌==◌, leb,
  if◌then◌else◌, any, select, find?, update_where, sort_by,
}
use postbud.Store.{Platform}
use postbud.Text.Bytes.{as_bytes}
use postbud.Text.{Str, str_eq, trim}

-- What a caller sees of the row.
pub record Tenant : Type 0 where
  pub id : ℕ
  pub name : Str
  pub from_domains : List Str
  pub active : Bool

-- A row of `tenant`.
pub record TenantRow : Type 0 where
  pub id : ℕ
  pub name : Str
  pub api_key_hash : List ℕ
  pub from_domains : List Str
  pub active : Bool
  pub created_at : ℕ
  pub note : Option Str

-- A row of `tenant_domain_change`.
pub record DomainChange : Type 0 where
  pub tenant_id : ℕ
  pub changed_at : ℕ
  pub changed_by : Str
  pub domains_before : List Str
  pub domains_after : List Str

-- The two tables, in the order of insertion.
pub record Registry : Type 0 where
  pub tenants : List TenantRow
  pub changes : List DomainChange

unfoldable pub hash : Platform → Str → List ℕ
hash env key = env.sha256 (as_bytes (trim key))

abbrev pub to_tenant : TenantRow → Tenant
to_tenant r = record { id = r.id; name = r.name; from_domains = r.from_domains; active = r.active }

abbrev pub has_hash : List ℕ → TenantRow → Bool
has_hash h r = str_eq r.api_key_hash h

abbrev pub is_tenant : ℕ → TenantRow → Bool
is_tenant id r = r.id == id

abbrev pub answers : List ℕ → TenantRow → Bool
answers h r = has_hash h r && r.active

unfoldable pub by_api_key : Platform → Registry → Str → Option Tenant
by_api_key env reg presented_key =
    Option.map to_tenant (find? (answers (hash env presented_key)) reg.tenants)

-- The primary key and the two unique constraints.
abbrev pub clashes : ℕ → Str → List ℕ → TenantRow → Bool
clashes id name h r = r.id == id || str_eq r.name name || has_hash h r

unfoldable pub create :
    Platform
    → ℕ
    → ℕ
    → Str
    → Registry
    → Str
    → List Str
    → Option Str
    → Str
    → Option (Registry × (Tenant × Str))
create env now id key reg name from_domains note created_by =
    let row : TenantRow = record {
      id = id;
      name = name;
      api_key_hash = hash env key;
      from_domains = from_domains;
      active = true;
      created_at = now;
      note = note;
    } in
    let opening : DomainChange = record {
      tenant_id = id;
      changed_at = now;
      changed_by = created_by;
      domains_before = [];
      domains_after = from_domains;
    } in
    if any (clashes id name (hash env key)) reg.tenants
    then none
    else some (
      record { tenants = reg.tenants ++ row ∷ []; changes = reg.changes ++ opening ∷ [] },
      (to_tenant row, key),
    )

unfoldable pub list : Registry → List Tenant
list reg = map to_tenant (sort_by (λ a b. leb a.created_at b.created_at) reg.tenants)

abbrev pub with_hash : List ℕ → TenantRow → TenantRow
with_hash h r = record r { api_key_hash = h }

-- The update fails if another row has the new digest.
unfoldable pub rotate_key : Platform → Str → Registry → ℕ → Option (Registry × Option Str)
rotate_key env key reg id =
    if any (is_tenant id) reg.tenants
      && any (λ r. not (is_tenant id r) && has_hash (hash env key) r) reg.tenants
    then none
    else some (
      record reg { tenants = update_where (is_tenant id) (with_hash (hash env key)) reg.tenants },
      if any (is_tenant id) reg.tenants then some key else none,
    )

abbrev pub with_active : Bool → TenantRow → TenantRow
with_active active r = record r { active = active }

unfoldable pub set_active : Registry → ℕ → Bool → Registry × Bool
set_active reg id active = (
  record reg { tenants = update_where (is_tenant id) (with_active active) reg.tenants },
  any (is_tenant id) reg.tenants,
)

-- `==` on lists of texts.
unfoldable pub same_domains : List Str → List Str → Bool
same_domains [] [] = true
same_domains (a ∷ as') (b ∷ bs) = str_eq a b && same_domains as' bs
same_domains _ _ = false

abbrev pub with_domains : List Str → TenantRow → TenantRow
with_domains from_domains r = record r { from_domains = from_domains }

unfoldable pub set_domains : ℕ → Registry → ℕ → List Str → Str → Registry × Bool
set_domains now reg id from_domains changed_by = elim (find? (is_tenant id) reg.tenants) [
  | none ↦ (reg, false)
  | some row ↦ if same_domains row.from_domains from_domains then (reg, true) else (
    record {
      tenants = update_where (is_tenant id) (with_domains from_domains) reg.tenants;
      changes =
          reg.changes
          ++ (record {
            tenant_id = id;
            changed_at = now;
            changed_by = changed_by;
            domains_before = row.from_domains;
            domains_after = from_domains;
          }
              ∷ []);
    },
    true,
  )
]

-- The newest first.
unfoldable pub newest_first : List DomainChange → List DomainChange → List DomainChange
newest_first [] seen = seen
newest_first (c ∷ rest) seen = newest_first rest (c ∷ seen)

unfoldable pub domain_history : Registry → ℕ → List DomainChange
unfolding newest_first
domain_history reg id = newest_first (select (λ c. c.tenant_id == id) reg.changes) []
