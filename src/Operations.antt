-- ===== src/Operations.antt =====
-- crates/postbud-api/src/admin.rs: the requests that change tenants, suppressions and sending domains.
-- A request gets the time, the number and the key that the database and the generator draw.
pub mod Domains
pub mod Requests
pub mod Cleaned
pub mod Attributed
pub mod Registered
use postbud.Prelude.{
  Bool, not, ◌&&◌, ◌||◌, List, [], ◌∷◌, ◌++◌, map, Option, none, some, ◌==◌, if◌then◌else◌,
  is_empty, any, select, find?,
}
use postbud.Result.{Result, ok, err}
use postbud.Submit.{ApiError, bad_request}
use postbud.Text.{Str, codes, to_ascii_lowercase, trim, contains_char}

-- `!domain.contains('.') || domain.contains(['@', ' ', '/'])`
abbrev pub is_no_domain : Str → Bool
is_no_domain domain =
    not (contains_char b'.' domain)
    || (contains_char b'@' domain || (contains_char b' ' domain || contains_char b'/' domain))

abbrev pub not_a_domain : Str → ApiError
not_a_domain domain = bad_request (codes "'" ++ (domain ++ codes "' does not look like a domain"))

abbrev pub cleaned : List Str → List Str
cleaned raw = select (λ d. not (is_empty d)) (map (λ d. to_ascii_lowercase (trim d)) raw)

abbrev pub refuse_first : Option Str → List Str → Result (List Str) ApiError
refuse_first none domains = ok domains
refuse_first (some domain) domains = err (not_a_domain domain)

unfoldable pub clean_domains : List Str → Result (List Str) ApiError
clean_domains raw =
    if is_empty (cleaned raw)
    then err (bad_request (codes "at least one sending domain is required"))
    else refuse_first (find? is_no_domain (cleaned raw)) (cleaned raw)
