-- ===== src/Operations/Requests.antt =====
-- crates/postbud-api/src/admin.rs: the handlers behind `AdminWrite`, on the tables that they change.
use postbud.Address.{normalize, message}
use postbud.Admins.{AdminUser}
use postbud.Domains.{DomainRow, SendingDomain}
use postbud.Domains
use postbud.Gate.Users.{UserRequest, perform}
use postbud.Gate.{Surface, Admin, authorize_write}
use postbud.Operations.Domains.{DomainAdd, new_entry, DnsRow, record_rows}
use postbud.Operations.{clean_domains}
use postbud.Prelude.{
  ℕ, Bool, true, false, List, ◌++◌, Option, none, some, if◌then◌else◌, is_empty, any,
}
use postbud.Result.{Result, ok, err, ◌>>=◌, map_err}
use postbud.Store.{Platform, Db, manual}
use postbud.Submit.{ApiError, not_found, bad_request, internal}
use postbud.Suppression
use postbud.Tenants.{Registry, Tenant, is_tenant}
use postbud.Tenants
use postbud.Text.{Str, codes, trim}

-- The tables behind the surface.
pub record Site : Type 0 where
  pub users : List AdminUser
  pub registry : Registry
  pub db : Db
  pub domains : List DomainRow

pub data Request : Type 0 where
  suppress_add : Str → Option ℕ → Option Str → Request
  suppress_remove : ℕ → Request
  tenant_create : Str → List Str → Option Str → Request
  tenant_rotate : ℕ → Request
  tenant_active : ℕ → Bool → Request
  tenant_domains : ℕ → List Str → Request
  domain_add : DomainAdd → Request
  domain_end : ℕ → Request
  on_users : UserRequest → Request

-- What is drawn for a request: the time, the number of a new row, a new key, and the default SPF
-- record of the installation.
pub record Draw : Type 0 where
  pub now : ℕ
  pub id : ℕ
  pub key : Str
  pub spf_default : Option Str

-- What a request answers: nothing, a new tenant with its key, a new key, or a domain with its records.
pub data Reply : Type 0 where
  done : Reply
  made : Tenant → Str → Reply
  new_key : Str → Reply
  shown : SendingDomain → List DnsRow → Reply

-- A change that answers whether its id was there.
abbrev pub or_not_found : Site → Bool → Result (Site × Reply) ApiError
or_not_found site true = ok (site, done)
or_not_found site false = err not_found

abbrev pub set_registry : Site → Registry × Bool → Result (Site × Reply) ApiError
set_registry site (reg, found) = or_not_found (record site { registry = reg }) found

abbrev pub set_created : Site → Option (Registry × (Tenant × Str)) → Result (Site × Reply) ApiError
set_created site none = err (internal (codes "creating tenant"))
set_created site (some (reg, (tenant, key))) = ok (record site { registry = reg }, made tenant key)

abbrev pub set_rotated : Site → Option (Registry × Option Str) → Result (Site × Reply) ApiError
set_rotated site none = err (internal (codes "rotating tenant key"))
set_rotated site (some (reg, none)) = err not_found
set_rotated site (some (reg, some key)) = ok (record site { registry = reg }, new_key key)

abbrev pub set_registered :
    Str → Site → Option (List DomainRow × SendingDomain) → Result (Site × Reply) ApiError
set_registered domain site none =
    err (bad_request (codes "'" ++ (domain ++ codes "' is already registered")))
set_registered domain site (some (rows, entry)) =
    ok (record site { domains = rows }, shown entry (record_rows entry none))

-- The foreign key of `suppression.tenant_id`.
abbrev pub has_tenant : Site → Option ℕ → Bool
has_tenant site none = true
has_tenant site (some id) = any (is_tenant id) site.registry.tenants

abbrev pub suppress :
    Platform → Draw → Site → Admin → Option ℕ → Option Str → Str → Result (Site × Reply) ApiError
suppress env draw site who tenant_id detail address =
    if has_tenant site tenant_id
    then ok (
      record site {
        db = Suppression.add env draw.now site.db tenant_id address manual who.actor detail;
      },
      done,
    )
    else err (internal (codes "adding suppression"))

unfoldable pub handle : Platform → Draw → Site → Admin → Request → Result (Site × Reply) ApiError
handle env draw site who (suppress_add address tenant_id detail) =
    map_err (λ e. bad_request (codes "address: " ++ message e)) (normalize address)
    >>= suppress env draw site who tenant_id detail
handle env draw site who (suppress_remove id) =
    let answer = Suppression.remove draw.now site.db id who.actor in
    or_not_found (record site { db = answer.0 }) answer.1
handle env draw site who (tenant_create name from_domains note) =
    if is_empty (trim name)
    then err (bad_request (codes "name is required"))
    else clean_domains from_domains >>= λ domains. set_created site (
        Tenants.create env draw.now draw.id draw.key site.registry (trim name) domains note
          who.actor)
handle env draw site who (tenant_rotate id) =
    set_rotated site (Tenants.rotate_key env draw.key site.registry id)
handle env draw site who (tenant_active id active) =
    set_registry site (Tenants.set_active site.registry id active)
handle env draw site who (tenant_domains id from_domains) =
    clean_domains from_domains >>= λ domains.
    set_registry site (Tenants.set_domains draw.now site.registry id domains who.actor)
handle env draw site who (domain_add req) =
    new_entry draw.now draw.id draw.spf_default who.actor req >>= λ entry.
    set_registered entry.domain site (Domains.add env site.domains entry)
handle env draw site who (domain_end id) =
    let answer = Domains.end draw.now site.domains id who.actor in
    or_not_found (record site { domains = answer.0 }) answer.1
handle env draw site who (on_users request) =
    perform env draw.now draw.id site.users who request >>= λ users.
    ok (record site { users = users }, done)

unfoldable pub operate :
    Platform → Surface → Draw → Site → Option Str → Request → Result (Site × Reply) ApiError
operate env surface draw site header request =
    authorize_write env site.users surface header >>= λ who. handle env draw site who request
