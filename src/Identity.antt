-- ===== src/Identity.antt =====
-- The relay's own identity: crates/postbud-core/src/rdns.rs, the history of its checks in
-- crates/postbud-db/src/relay.rs, and `run_relay_check` of crates/postbud-relay/src/dnscheck.rs. The
-- resolver and the first line that the relay sends are parameters.
pub mod Confirmed
use mathlib.Core.Option
use postbud.DnsCheck.{
  Status, valid, missing, mismatch, RecordResult, is_valid, is_none_or_valid, absent,
}
use postbud.Domains.{status_of, observed_of, hours}
use postbud.Observing.{ResolveError, empty_if_absent, or_default}
use postbud.Prelude.{
  ℕ, ◌+◌, Bool, true, false, not, ◌&&◌, ◌||◌, List, [], ◌∷◌, ◌++◌, map, Option, none, some, ltb,
  if◌then◌else◌, is_empty, any, ◌>>=◌,
}
use postbud.Result.{Result, ok, err}
use postbud.Store.{minutes}
use postbud.Text.Bytes.{trim_end_char}
use postbud.Text.{
  Str, codes, str_eq, to_ascii_lowercase, eq_ignore_ascii_case, trim, split_whitespace, join,
}

pub record Observed : Type 0 where
  pub forward_ips : List Str
  pub ptr_names : List Str
  pub banner_host : Option Str

pub record RelayResult : Type 0 where
  pub forward : RecordResult
  pub ptr : RecordResult
  pub helo : Option RecordResult
  pub valid : Bool

unfoldable pub same_host : Str → Str → Bool
same_host a b = eq_ignore_ascii_case (trim_end_char b'.' a) (trim_end_char b'.' b)

abbrev pub no_ptr : Str
no_ptr = codes "no PTR — the address's owner must set it"

unfoldable pub judge_forward : List Str → RecordResult
judge_forward [] = absent
judge_forward (ip ∷ ips) = record { status = valid; observed = some (join (codes ", ") (ip ∷ ips)) }

abbrev pub is_host : Str → Str → Bool
is_host expected name = same_host name expected

unfoldable pub judge_ptr : Str → List Str → RecordResult
judge_ptr expected [] = record { status = missing; observed = some no_ptr }
judge_ptr expected (n ∷ ns) =
    if any (is_host expected) (n ∷ ns)
    then record { status = valid; observed = some (join (codes ", ") (n ∷ ns)) }
    else record { status = mismatch; observed = some (join (codes ", ") (n ∷ ns)) }

unfoldable pub judge_helo : Str → Str → RecordResult
judge_helo expected banner =
    if same_host banner expected
    then record { status = valid; observed = some banner }
    else record { status = mismatch; observed = some banner }

unfoldable pub evaluate : Str → Observed → RelayResult
evaluate expected_host observed =
    let forward = judge_forward observed.forward_ips in
    let ptr = judge_ptr expected_host observed.ptr_names in
    let helo = Option.map (judge_helo expected_host) observed.banner_host in
    record {
      forward = forward;
      ptr = ptr;
      helo = helo;
      valid = is_valid forward && (is_valid ptr && is_none_or_valid helo);
    }

-- The second field of the greeting; `none` is a line that could not be read.
abbrev pub named_by : List Str → Option Str
named_by (code ∷ name ∷ rest) =
    let host = to_ascii_lowercase (trim_end_char b'.' name) in
    if str_eq code (codes "220") && not (is_empty host) then some host else none
named_by _ = none

unfoldable pub smtp_banner_host : Option Str → Option Str
smtp_banner_host greeting = greeting >>= λ line. named_by (split_whitespace line)

pub record Resolver : Type 0 where
  pub lookup_ip : Str → Result (List Str) ResolveError
  pub reverse_lookup : Str → Result (List Str) ResolveError

-- A name that is new goes behind the others.
abbrev pub add_name : List Str → Str → List Str
add_name names name =
    let host = to_ascii_lowercase (trim_end_char b'.' name) in
    if any (str_eq host) names then names else names ++ host ∷ []

abbrev pub add_names : List Str → List Str → List Str
add_names names [] = names
add_names names (name ∷ rest) = add_names (add_name names name) rest

unfoldable pub reverse_all : Resolver → List Str → List Str → Result (List Str) ResolveError
reverse_all resolver names [] = ok names
reverse_all resolver names (ip ∷ ips) = elim (empty_if_absent (resolver.reverse_lookup ip)) [
  | err e ↦ err e
  | ok none ↦ reverse_all resolver names ips
  | ok (some found) ↦ reverse_all resolver (add_names names found) ips
]

unfoldable pub observe_relay : Resolver → Option Str → Str → Result Observed ResolveError
observe_relay resolver greeting host =
    elim (or_default (λ ips. ips) (empty_if_absent (resolver.lookup_ip host))) [
      | err e ↦ err e
      | ok ips ↦ elim (reverse_all resolver [] ips) [
        | err e ↦ err e
        | ok names ↦ ok (record {
          forward_ips = ips;
          ptr_names = names;
          banner_host = smtp_banner_host greeting;
        })
      ]
    ]

-- A row of `relay_check`.
pub record RelayCheckRow : Type 0 where
  pub checked_at : ℕ
  pub expected_host : Str
  pub forward_status : Status
  pub forward_observed : Option Str
  pub ptr_status : Status
  pub ptr_observed : Option Str
  pub helo_status : Option Status
  pub helo_observed : Option Str
  pub is_valid : Bool

abbrev pub check_row : ℕ → Str → RelayResult → RelayCheckRow
check_row now expected_host result = record {
  checked_at = now;
  expected_host = expected_host;
  forward_status = result.forward.status;
  forward_observed = result.forward.observed;
  ptr_status = result.ptr.status;
  ptr_observed = result.ptr.observed;
  helo_status = status_of result.helo;
  helo_observed = observed_of result.helo;
  is_valid = result.valid;
}

unfoldable pub record_check : ℕ → List RelayCheckRow → Str → RelayResult → List RelayCheckRow
record_check now checks expected_host result = checks ++ check_row now expected_host result ∷ []

-- The row that was inserted last.
unfoldable pub latest : List RelayCheckRow → Option RelayCheckRow
latest [] = none
latest (c ∷ rest) = elim (latest rest) [ some later ↦ some later | none ↦ some c ]

-- An age of more than the interval.
abbrev pub is_old : ℕ → ℕ → ℕ → Option RelayCheckRow → Bool
is_old now recheck_minutes revalidate_hours none = true
is_old now recheck_minutes revalidate_hours (some c) =
    if c.is_valid
    then ltb (c.checked_at + hours revalidate_hours) now
    else ltb (c.checked_at + minutes recheck_minutes) now

unfoldable pub due : ℕ → List RelayCheckRow → ℕ → ℕ → Bool
due now checks recheck_minutes revalidate_hours =
    is_old now recheck_minutes revalidate_hours (latest checks)

-- `RELAY_PUBLIC_HOST`, as it is compared.
abbrev pub clean_host : Str → Str
clean_host host = to_ascii_lowercase (trim_end_char b'.' (trim host))

abbrev pub recorded :
    ℕ → List RelayCheckRow → Str → Result Observed ResolveError → List RelayCheckRow
recorded now checks host (err e) = checks
recorded now checks host (ok observed) = record_check now checks host (evaluate host observed)

unfoldable pub run_relay_check :
    Resolver → Option Str → ℕ → Option Str → List RelayCheckRow → List RelayCheckRow
run_relay_check resolver greeting now none checks = checks
run_relay_check resolver greeting now (some public_host) checks =
    if is_empty (clean_host public_host) || not (due now checks 15 24)
    then checks
    else recorded now checks (clean_host public_host)
        (observe_relay resolver greeting (clean_host public_host))
