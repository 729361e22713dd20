-- ===== src/Tests/Accounts.antt =====
-- Runs of the tenants' registry.
use postbud.Prelude.{◌≡◌, refl, true, false, List, [], ◌∷◌, none, some}
use postbud.Tenants.History.{
  IsRecorded, TenantOp, creates, rotates, switches, grants, change, change_all,
  change_all-IsRecorded,
}
use postbud.Tenants.Keys.{rotate_key-by_api_key}
use postbud.Tenants.{
  Tenant, Registry, hash, by_api_key, create, rotate_key, set_active, set_domains, same_domains,
}
use postbud.Tests.{platform}
use postbud.Text.Bytes.{as_bytes}
use postbud.Text.{codes, trim, is_whitespace}

abbrev pub no_tenants : Registry
no_tenants = record { tenants = []; changes = [] }

-- Two tenants, of which the first has its key rotated and its domains changed.
abbrev pub edits : List TenantOp
edits =
    creates 10 1 (codes "pb_live_a") (codes "acme") (codes "acme.no" ∷ []) none (codes "cli")
    ∷ creates 20 2 (codes "pb_live_b") (codes "other") (codes "other.no" ∷ []) none (codes "cli")
    ∷ rotates (codes "pb_live_c") 1
    ∷ grants 30 1 (codes "acme.no" ∷ codes "acme.se" ∷ []) (codes "ops")
    ∷ switches 2 true
    ∷ []

abbrev pub edited : Registry
edited = change_all platform edits no_tenants

change_all-IsRecorded_example : IsRecorded edited
change_all-IsRecorded_example = change_all-IsRecorded platform edits no_tenants tt

abbrev acme : Tenant
acme = record {
  id = 1;
  name = codes "acme";
  from_domains = codes "acme.no" ∷ codes "acme.se" ∷ [];
  active = true;
}

abbrev rotated : Registry
rotated = change_all platform (rotates (codes "pb_live_d") 1 ∷ []) edited

rotates_once :
    rotate_key platform (codes "pb_live_d") edited 1 ≡ some (rotated, some (codes "pb_live_d"))
unfolding change rotate_key set_active set_domains create hash as_bytes trim is_whitespace
    same_domains
rotates_once = refl

new_key : by_api_key platform rotated (codes "pb_live_d") ≡ some acme
unfolding change rotate_key set_active set_domains create hash as_bytes trim is_whitespace
    same_domains by_api_key
new_key = refl

rotate_key-by_api_key_example :
    hash platform (codes "pb_live_d") ≡ hash platform (codes "pb_live_d")
rotate_key-by_api_key_example =
    rotate_key-by_api_key platform (codes "pb_live_d") edited 1 (codes "pb_live_d") acme
      rotates_once new_key refl

abbrev second : Tenant
second = record {
  id = 2;
  name = codes "other";
  from_domains = codes "other.no" ∷ [];
  active = true;
}

other_key : by_api_key platform (set_active rotated 1 false).0 (codes "pb_live_b") ≡ some second
unfolding change rotate_key set_active set_domains create hash as_bytes trim is_whitespace
    same_domains by_api_key
other_key = refl
