-- ===== src/Ingress.antt =====
-- The other endpoints: crates/postbud-api/src/auth.rs, suppressions.rs, bounces.rs and relayqueue.rs.
-- A tenant comes with its key, and the relay with the shared token.
pub mod Own
pub mod Reported
use mathlib.Core.Option
use postbud.Address.{normalize, message}
use postbud.Bounce.{Ingested}
use postbud.Bounce
use postbud.Gate.{presented}
use postbud.Prelude.{
  ℕ, Bool, true, false, List, [], map, ◌++◌, Option, none, some, if◌then◌else◌, is_empty, is_none,
  or_else,
}
use postbud.QueueReport.{SerdeJson}
use postbud.QueueReport
use postbud.RelayQueue.{Reconciled, reconcile}
use postbud.Result.{Result, ok, err, ◌>>=◌, map_err}
use postbud.Store.{Platform, Db, Suppression, Reason, manual}
use postbud.Submit.{ApiError, unauthorized, not_found, bad_request, internal}
use postbud.Suppression
use postbud.Tenants.{Tenant, Registry, by_api_key, hash}
use postbud.Text.{Str, codes, str_eq, trim}

abbrev pub or_unauthorized : {A : Type 0} → Option A → Result A ApiError
or_unauthorized none = err unauthorized
or_unauthorized (some a) = ok a

-- The tenant whose key the header carries.
unfoldable pub tenant_of : Platform → Registry → Option Str → Result Tenant ApiError
tenant_of env reg header =
    or_unauthorized (presented header) >>= λ key. or_unauthorized (by_api_key env reg key)

-- What a tenant sees of a suppression.
pub record Entry : Type 0 where
  pub id : ℕ
  pub address : Str
  pub reason : Reason
  pub source : Str
  pub detail : Option Str
  pub global : Bool
  pub created_at : ℕ

abbrev pub to_entry : Suppression → Entry
to_entry s = record {
  id = s.id;
  address = s.address;
  reason = s.reason;
  source = s.source;
  detail = s.detail;
  global = is_none s.tenant_id;
  created_at = s.created_at;
}

unfoldable pub list_suppressions : Platform → Db → Tenant → Option Str → List Entry
list_suppressions env db tenant address = map to_entry (Suppression.list env db tenant.id address)

unfoldable pub add_suppression : Platform → ℕ → Db → Tenant → Str → Option Str → Result Db ApiError
add_suppression env now db tenant address detail =
    map_err (λ e. bad_request (codes "address: " ++ message e)) (normalize address) >>= λ a.
    ok (Suppression.add env now db (some tenant.id) a manual tenant.name detail)

abbrev pub if_removed : Db × Bool → Result Db ApiError
if_removed (db, true) = ok db
if_removed (db, false) = err not_found

unfoldable pub remove_suppression : ℕ → Db → Tenant → ℕ → Result Db ApiError
remove_suppression now db tenant id = if_removed (Suppression.remove now db id tenant.name)

-- The comparison of digests; a header that is missing counts as an empty credential.
unfoldable pub is_relay : Platform → Option Str → Option Str → Result Bool ApiError
is_relay env none header =
    err (internal (codes "BOUNCE_INGEST_TOKEN is not configured; refusing to ingest"))
is_relay env (some expected) header =
    if str_eq (hash env (or_else (presented header) [])) (hash env expected)
    then ok true
    else err unauthorized

unfoldable pub ingest_bounce :
    Platform → ℕ → Option Str → Option Str → Db → Str → Result (Db × Ingested) ApiError
ingest_bounce env now bounce_token header db body = is_relay env bounce_token header >>= λ known.
    if is_empty (trim body)
    then err (bad_request (codes "empty bounce body"))
    else ok (Bounce.ingest env now db body)

abbrev pub grace_secs : ℕ
grace_secs = 15

unfoldable pub ingest_queue :
    SerdeJson
    → Platform
    → ℕ
    → Option Str
    → Option Str
    → Db
    → Str
    → Result (Db × Reconciled) ApiError
ingest_queue json env now bounce_token header db body =
    is_relay env bounce_token header >>= λ known.
    ok (reconcile now db (QueueReport.parse json body) grace_secs)
