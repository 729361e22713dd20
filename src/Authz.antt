-- ===== src/Authz.antt =====
-- crates/postbud-core/src/authz.rs: which tenant may send as which sender.
pub mod Exact
use postbud.Address.{domain}
use postbud.Prelude.{Bool, false, List, Option, none, some, any}
use postbud.Text.{Str, trim, eq_ignore_ascii_case}

unfoldable pub may_send_as : Str → List Str → Bool
may_send_as sender allowed_domains = elim (domain sender) [
  | none ↦ false
  | some d ↦ any (λ allowed. eq_ignore_ascii_case (trim allowed) d) allowed_domains
]
