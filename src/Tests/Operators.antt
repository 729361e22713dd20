-- ===== src/Tests/Operators.antt =====
-- Runs of the admin surface.
use postbud.Admins.History.{
  UserOp, adds, ends, changes, change, change_all, Extends, change_all-Extends,
}
use postbud.Admins.LastAdmin.{IsManaged, AllFresh, change_all-IsManaged}
use postbud.Admins.{AdminUser, new_user, add, end, set_role, matches}
use postbud.Gate.Grants.{SomeAdmin, OnlyAdmin}
use postbud.Gate.Access.{MayWrite, is_ok, authorize_write-MayWrite}
use postbud.Gate.Bootstrap.{Arrival, AllNew, serve_all, serve_all-closes_bootstrap}
use postbud.Gate.Users.{user_add, user_end, serve}
use postbud.Gate.{
  Identity, Oidc, Surface, Admin, admin, presented, is_token, authorize_write, of_token,
}
use postbud.Operations.Attributed.{GrowsBy, site_after, handle-GrowsBy}
use postbud.Operations.Cleaned.{IsClean, clean_domains-IsClean}
use postbud.Operations.Registered.{Registers, handle-Registers}
use postbud.Operations.Domains.{DomainAdd, new_entry}
use postbud.Operations.Requests.{Site, Draw, Request, tenant_domains, domain_add, handle}
use postbud.Operations.{clean_domains}
use postbud.Domains.{SendingDomain}
use postbud.Prelude.{
  ◌≡◌, refl, true, false, List, [], ◌∷◌, Option, none, some, All, is_empty, arith, if◌then◌else◌,
  find?,
}
use postbud.Result.{ok, err}
use postbud.Submit.{unauthorized}
use postbud.Tests.{platform, no_rows}
use postbud.Tests.Accounts.{edited}
use postbud.Text.{Str, codes, str_eq}

-- One admin.
abbrev founded : List AdminUser
founded = new_user 1 10 (codes "ops@ex.no") (codes "admin") none (codes "admin-token") ∷ []

founded-IsManaged : IsManaged founded
founded-IsManaged = record { ids = λ id. ground arith; managed = omega arith }

-- A viewer, the end of the last admin, which is refused, and the promotion of the viewer.
abbrev ops : List UserOp
ops =
    adds 20 2 (codes "kari@ex.no") (codes "viewer") none (codes "ops@ex.no")
    ∷ ends 30 1 (codes "kari@ex.no")
    ∷ changes 40 3 2 (codes "admin") (codes "ops@ex.no")
    ∷ []

fresh_ids : AllFresh platform ops founded
unfolding change end add postbud.Text.lower
fresh_ids = (refl, (tt, (refl, tt)))

change_all-IsManaged_example : IsManaged (change_all platform ops founded)
change_all-IsManaged_example = change_all-IsManaged platform ops founded fresh_ids founded-IsManaged

change_all-Extends_example : Extends founded (change_all platform ops founded)
change_all-Extends_example = change_all-Extends platform ops founded

-- An issuer that knows two tokens, and an allowlist with one of the two.
abbrev identity : Identity
identity = record { sub = codes "s1"; email = some (codes "root@ex.no") }

abbrev oidc : Oidc
oidc = record {
  users = codes "Root@ex.no" ∷ [];
  verify = λ t. if str_eq t (codes "t1") then some identity else none;
}

abbrev surface : Surface
surface = record { admin_token = some (codes "secret"); admin_oidc = some oidc }

abbrev header : Option Str
header = some (codes "Bearer t1")

authorize_write-MayWrite_example :
    (is_ok (authorize_write platform founded surface header) ≡ true
      → MayWrite platform founded surface header (SomeAdmin platform founded))
    × (MayWrite platform founded surface header (OnlyAdmin platform founded)
        → is_ok (authorize_write platform founded surface header) ≡ true)
authorize_write-MayWrite_example = authorize_write-MayWrite platform founded surface header

-- The bootstrap, when the table is empty.
admitted : is_ok (authorize_write platform [] surface header) ≡ true
unfolding authorize_write postbud.Gate.resolve postbud.Gate.authenticate presented
    postbud.Text.Bytes.strip_prefix postbud.Tenants.hash postbud.Text.Bytes.as_bytes
    postbud.Text.trim postbud.Text.is_whitespace postbud.Gate.by_issuer postbud.Gate.operator
    postbud.Gate.role_of postbud.Admins.resolve postbud.Store.Unordered.fetch_any
    postbud.Gate.env_allowlisted postbud.Text.eq_ignore_ascii_case postbud.Text.lower
admitted = refl

abbrev requests : List Arrival
requests =
    record {
      now = 50;
      id = 2;
      header = some (codes "Bearer secret");
      request = user_add (codes "kari@ex.no") (codes "viewer") none;
    }
    ∷ record { now = 60; id = 3; header = some (codes "Bearer secret"); request = user_end 1 }
    ∷ []

new_ids : AllNew platform surface founded requests
unfolding serve authorize_write postbud.Gate.resolve postbud.Gate.authenticate presented
    postbud.Text.Bytes.strip_prefix postbud.Tenants.hash postbud.Text.Bytes.as_bytes
    postbud.Text.trim postbud.Text.is_whitespace postbud.Gate.Users.perform add postbud.Text.lower
new_ids = (refl, (refl, tt))

presents : presented header ≡ some (codes "t1")
unfolding presented postbud.Text.Bytes.strip_prefix postbud.Text.trim postbud.Text.is_whitespace
presents = refl

no_token : is_token platform surface (codes "t1") ≡ false
unfolding postbud.Tenants.hash postbud.Text.Bytes.as_bytes postbud.Text.trim
    postbud.Text.is_whitespace
no_token = refl

no_grant :
    find?
      (matches platform identity.sub identity.email)
      (serve_all platform surface founded requests)
    ≡ none
unfolding serve authorize_write postbud.Gate.resolve postbud.Gate.authenticate presented
    postbud.Text.Bytes.strip_prefix postbud.Tenants.hash postbud.Text.Bytes.as_bytes
    postbud.Text.trim postbud.Text.is_whitespace postbud.Gate.Users.perform end add
    postbud.Text.lower
no_grant = refl

serve_all-closes_bootstrap_example :
    authorize_write platform (serve_all platform surface founded requests) surface header
    ≡ err unauthorized
serve_all-closes_bootstrap_example =
    serve_all-closes_bootstrap platform surface founded requests header (codes "t1") oidc identity
      new_ids founded-IsManaged presents no_token refl refl no_grant

abbrev site : Site
site = record { users = founded; registry = edited; db = no_rows; domains = [] }

abbrev draw : Draw
draw = record {
  now = 70;
  id = 9;
  key = codes "pb_live_z";
  spf_default = some (codes "v=spf1 -all");
}

abbrev request : Request
request = tenant_domains 1 (codes " News.acme.no " ∷ [])

handle-GrowsBy_example :
    GrowsBy
      (codes "admin-token")
      edited.changes
      (site_after site (handle platform draw site of_token request)).registry.changes
handle-GrowsBy_example = handle-GrowsBy platform draw site of_token request

cleans : clean_domains (codes " ACME.no" ∷ codes " " ∷ []) ≡ ok (codes "acme.no" ∷ [])
unfolding clean_domains postbud.Text.trim postbud.Text.is_whitespace postbud.Text.lower
cleans = refl

clean_domains-IsClean_example :
    (is_empty (codes "acme.no" ∷ []) ≡ false) × All IsClean (codes "acme.no" ∷ [])
clean_domains-IsClean_example =
    clean_domains-IsClean (codes " ACME.no" ∷ codes " " ∷ []) (codes "acme.no" ∷ []) cleans

abbrev asked : DomainAdd
asked = record {
  domain = codes "Acme.no.";
  dmarc_policy_expected = some (codes "Reject");
  spf_expected = none;
  dkim_selector = codes "s1";
  dkim_public_key = codes "MIGfMA0GCSqGSIb3DQEBAQUAA4GNADCBiQKBgQC7o1 AbcdefghijklmnopqrstuvwxyzAB";
  mx_expected = none;
}

abbrev entry : SendingDomain
entry = record {
  id = 9;
  domain = codes "acme.no";
  spf_expected = codes "v=spf1 -all";
  dkim_selector = codes "s1";
  dkim_public_key = codes "MIGfMA0GCSqGSIb3DQEBAQUAA4GNADCBiQKBgQC7o1AbcdefghijklmnopqrstuvwxyzAB";
  mx_expected = none;
  dmarc_policy_expected = some (codes "reject");
  created_at = 70;
  created_by = codes "ops@ex.no";
}

enters : new_entry 70 9 (some (codes "v=spf1 -all")) (codes "ops@ex.no") asked ≡ ok entry
unfolding new_entry postbud.Text.Bytes.trim_end_char postbud.Text.trim postbud.Text.is_whitespace
    postbud.Text.lower postbud.Text.Bytes.byte_len
enters = refl

handle-Registers_example :
    Registers
      (codes "admin-token")
      []
      (site_after site (handle platform draw site of_token (domain_add asked))).domains
handle-Registers_example = handle-Registers platform draw site of_token (domain_add asked)
