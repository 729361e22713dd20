-- ===== src/Ingress/Own.antt =====
-- What a tenant's own entry does to the other tenants.
use postbud.Address.{AddressError, normalize, message}
use postbud.Ingress.{add_suppression}
use postbud.Prelude.{ℕ, ◌≡◌, ◌≢◌, sym, ap, ◌∙◌, false, Option, some, arith, ◌++◌}
use postbud.Result.{Result, ok, err, map_err, ◌>>=◌}
use postbud.Store.{Platform, Db, manual}
use postbud.Submit.{bad_request}
use postbud.Suppression.Active.{is_suppressed-add}
use postbud.Suppression.{is_suppressed, same_address, applies_to}
use postbud.Suppression
use postbud.Tenants.{Tenant}
use postbud.Text.{Str, codes}

-- An entry that a tenant adds by itself never stops the mail of another tenant, whatever the address.
pub add_suppression_own :
    (env : Platform) (now : ℕ) (db db' : Db) (tenant : Tenant) (address : Str) (detail : Option Str)
    (other : ℕ) (rcpt : Str)
    → add_suppression env now db tenant address detail ≡ ok db'
    → other ≢ tenant.id
    → is_suppressed env db' other rcpt ≡ is_suppressed env db other rcpt
unfolding add_suppression
add_suppression_own env now db db' tenant address detail other rcpt h n = go (normalize address) h
  where
    go :
        (r : Result Str AddressError)
        → (map_err (λ e. bad_request (codes "address: " ++ message e)) r >>= λ a.
            ok (Suppression.add env now db (some tenant.id) a manual tenant.name detail))
          ≡ ok db'
        → is_suppressed env db' other rcpt ≡ is_suppressed env db other rcpt
    go (err e) g = absurd (ground arith)
    go (ok a) g =
        let same : Suppression.add env now db (some tenant.id) a manual tenant.name detail ≡ db' =
          ground arith in
        let apart : applies_to (some tenant.id) other ≡ false = ground (arith, n) in
        ap (λ d. is_suppressed env d other rcpt) (sym same)
        ∙ is_suppressed-add env now db (some tenant.id) a manual tenant.name detail other rcpt
        ∙ rw apart (ground arith)
