-- ===== src/Operations/Domains.antt =====
-- crates/postbud-api/src/admin.rs: what `domain_add` accepts, and the records that are to be published
-- for a domain.
use postbud.Domains.{SendingDomain, CheckRow}
use postbud.Operations.{is_no_domain, not_a_domain}
use postbud.Prelude.{
  ℕ, Bool, true, false, not, ◌&&◌, ◌||◌, List, [], ◌∷◌, ◌++◌, Option, none, some, ltb, ◌==◌,
  if◌then◌else◌, is_empty, select, ◌>>=◌,
}
use postbud.Result.{Result, ok, err}
use postbud.Submit.{ApiError, bad_request}
use postbud.Text.Bytes.{byte_len, trim_end_char}
use postbud.Text.{Str, codes, str_eq, is_whitespace, to_ascii_lowercase, trim}

pub record DomainAdd : Type 0 where
  pub domain : Str
  pub dmarc_policy_expected : Option Str
  pub spf_expected : Option Str
  pub dkim_selector : Str
  pub dkim_public_key : Str
  pub mx_expected : Option Str

-- A value that is given and not blank.
abbrev pub stated : Option Str → Option Str
stated value = value >>= λ v. if is_empty (trim v) then none else some (trim v)

abbrev pub is_policy : Str → Bool
is_policy p =
    str_eq p (codes "none") || (str_eq p (codes "quarantine") || str_eq p (codes "reject"))

abbrev pub policy_of : Option Str → Result (Option Str) ApiError
policy_of none = ok none
policy_of (some p) =
    if is_policy (to_ascii_lowercase p)
    then ok (some (to_ascii_lowercase p))
    else err (
        bad_request (
          codes "dmarc_policy_expected must be none, quarantine or reject (got '"
          ++ (to_ascii_lowercase p ++ codes "')")))

abbrev pub spf_of : Option Str → Option Str → Result Str ApiError
spf_of (some s) spf_default = ok s
spf_of none (some default) = ok default
spf_of none none =
    err (bad_request (codes "spf_expected is required (DNS_SPF_DEFAULT is not configured)"))

abbrev pub key_of : Str → Str
key_of = select (λ c. not (is_whitespace c) && not (c == b'"'))

abbrev pub domain_of : Str → Str
domain_of raw = to_ascii_lowercase (trim_end_char b'.' (trim raw))

abbrev pub no_selector : ApiError
no_selector = bad_request (codes "dkim_selector is required")

abbrev pub short_key : ApiError
short_key = bad_request (codes "dkim_public_key looks too short to be a key — paste the p= value")

-- The entry with the records that are expected for the domain.
abbrev pub with_records :
    ℕ
    → ℕ
    → Str
    → DomainAdd
    → Result Str ApiError
    → Result (Option Str) ApiError
    → Result SendingDomain ApiError
with_records now id actor req (err e) policy = err e
with_records now id actor req (ok spf) (err e) = err e
with_records now id actor req (ok spf) (ok policy) = ok (record {
  id = id;
  domain = domain_of req.domain;
  spf_expected = spf;
  dkim_selector = trim req.dkim_selector;
  dkim_public_key = key_of req.dkim_public_key;
  mx_expected = stated req.mx_expected;
  dmarc_policy_expected = policy;
  created_at = now;
  created_by = actor;
})

-- The entry that the request asks for, with its number, time and actor.
unfoldable pub new_entry : ℕ → ℕ → Option Str → Str → DomainAdd → Result SendingDomain ApiError
new_entry now id spf_default actor req =
    if is_empty (domain_of req.domain) || is_no_domain (domain_of req.domain)
    then err (not_a_domain (domain_of req.domain))
    else if is_empty (trim req.dkim_selector)
    then err no_selector
    else if ltb (byte_len (key_of req.dkim_public_key)) 64
    then err short_key
    else with_records now id actor req (spf_of (stated req.spf_expected) spf_default)
        (policy_of (stated req.dmarc_policy_expected))

-- A record as the page shows it.
pub record DnsRow : Type 0 where
  pub kind : Str
  pub type_of : Str
  pub name : Str
  pub value : Str
  pub prescribed : Bool
  pub note : Option Str

abbrev pub prescription : Str → Str → Str → Str → DnsRow
prescription kind type_of name value = record {
  kind = kind;
  type_of = type_of;
  name = name;
  value = value;
  prescribed = true;
  note = none;
}

abbrev pub dmarc_row : SendingDomain → Option Str → DnsRow
dmarc_row d (some seen) = record {
  kind = codes "dmarc";
  type_of = codes "TXT";
  name = codes "_dmarc." ++ d.domain;
  value = seen;
  prescribed = false;
  note = some (codes "published policy, as last seen -- postbud does not require a particular one");
}
dmarc_row d none = record {
  kind = codes "dmarc";
  type_of = codes "TXT";
  name = codes "_dmarc." ++ d.domain;
  value = codes "v=DMARC1; p=none";
  prescribed = false;
  note = some (
      codes
        "a suggested starting policy -- nothing is published yet, or inherited from the parent domain");
}

abbrev pub mx_rows : SendingDomain → List DnsRow
mx_rows d = elim d.mx_expected [
  | none ↦ []
  | some mx ↦ prescription (codes "mx") (codes "MX") d.domain (codes "10 " ++ mx) ∷ []
]

unfoldable pub record_rows : SendingDomain → Option CheckRow → List DnsRow
record_rows d check =
    prescription (codes "spf") (codes "TXT") d.domain d.spf_expected
    ∷ prescription (codes "dkim") (codes "TXT")
        (d.dkim_selector ++ (codes "._domainkey." ++ d.domain))
        (codes "v=DKIM1; h=sha256; k=rsa; p=" ++ d.dkim_public_key)
    ∷ dmarc_row d (check >>= λ c. c.dmarc_observed)
    ∷ mx_rows d
