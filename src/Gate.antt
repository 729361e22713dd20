-- ===== src/Gate.antt =====
-- crates/postbud-api/src/admin.rs: who may use the admin surface and who may change things on it, with
-- the allowlist and the identities of crates/postbud-api/src/oidc.rs. What an issuer's tokens prove is
-- a parameter, the function `verify`. A header that is not visible ASCII is one that is missing.
pub mod Users
pub mod Access
pub mod Grants
pub mod Bootstrap
use mathlib.Core.Option
use postbud.Admins.{AdminUser}
use postbud.Admins
use postbud.Prelude.{
  Bool, true, false, not, ◌&&◌, ◌||◌, List, Option, none, some, if◌then◌else◌, any, is_none,
  is_some_and, or_else, ◌>>=◌,
}
use postbud.Result.{Result, ok, err}
use postbud.Store.{Platform}
use postbud.Submit.{ApiError, unauthorized, forbidden, admin_disabled}
use postbud.Tenants.{hash}
use postbud.Text.Bytes.{strip_prefix}
use postbud.Text.{Str, codes, str_eq, eq_ignore_ascii_case, trim}

pub data Role : Type 0 where
  admin viewer : Role

-- An authenticated operator.
pub record Admin : Type 0 where
  pub actor : Str
  pub role : Role

pub record Identity : Type 0 where
  pub sub : Str
  pub email : Option Str

-- The configured issuer: the allowlist, and what a token proves.
pub record Oidc : Type 0 where
  pub users : List Str
  pub verify : Str → Option Identity

-- The part of `AppState` that decides.
pub record Surface : Type 0 where
  pub admin_token : Option Str
  pub admin_oidc : Option Oidc

abbrev pub actor_of : Identity → Str
actor_of identity = or_else identity.email identity.sub

abbrev pub names : Identity → Str → Bool
names identity u =
    str_eq u identity.sub || is_some_and (λ e. eq_ignore_ascii_case e u) identity.email

unfoldable pub env_allowlisted : Oidc → Identity → Bool
env_allowlisted oidc identity = any (names identity) oidc.users

-- The credential in the header.
unfoldable pub presented : Option Str → Option Str
presented header = Option.map trim (header >>= strip_prefix (codes "Bearer "))

abbrev pub is_token : Platform → Surface → Str → Bool
is_token env surface credential =
    is_some_and (λ configured. str_eq (hash env credential) (hash env configured))
      surface.admin_token

-- The role of the table, or of the allowlist while the table has no active row.
unfoldable pub role_of : Option Str → Bool → Bool → Option Role
role_of (some name) any_active listed =
    if str_eq name (codes "admin")
    then some admin
    else if str_eq name (codes "viewer")
    then some viewer
    else none
role_of none any_active listed = if not any_active && listed then some admin else none

unfoldable pub operator : Platform → List AdminUser → Oidc → Identity → Option Admin
operator env users oidc identity =
    let answer = Admins.resolve env users identity.sub identity.email in
    Option.map (λ role. record { actor = actor_of identity; role = role })
      (role_of answer.0 answer.1 (env_allowlisted oidc identity))

-- The operator that a token stands for.
unfoldable pub by_issuer : Platform → List AdminUser → Surface → Str → Option Admin
by_issuer env users surface credential =
    surface.admin_oidc >>= λ oidc. oidc.verify credential >>= operator env users oidc

abbrev pub of_token : Admin
of_token = record { actor = codes "admin-token"; role = admin }

abbrev pub or_unauthorized : Option Admin → Result Admin ApiError
or_unauthorized none = err unauthorized
or_unauthorized (some who) = ok who

unfoldable pub authenticate :
    Platform → List AdminUser → Surface → Option Str → Result Admin ApiError
authenticate env users surface none = err unauthorized
authenticate env users surface (some credential) =
    if is_token env surface credential
    then ok of_token
    else or_unauthorized (by_issuer env users surface credential)

unfoldable pub resolve : Platform → List AdminUser → Surface → Option Str → Result Admin ApiError
resolve env users surface header =
    if is_none surface.admin_token && is_none surface.admin_oidc
    then err admin_disabled
    else authenticate env users surface (presented header)

abbrev pub only_admin : Result Admin ApiError → Result Admin ApiError
only_admin (err e) = err e
only_admin (ok who) = elim who.role [ admin ↦ ok who | viewer ↦ err forbidden ]

-- `AdminWrite`
unfoldable pub authorize_write :
    Platform → List AdminUser → Surface → Option Str → Result Admin ApiError
authorize_write env users surface header = only_admin (resolve env users surface header)
