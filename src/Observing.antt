-- ===== src/Observing.antt =====
-- crates/postbud-relay/src/dnscheck.rs: what the resolver is asked about a domain, and the round of the
-- checks that are due. The resolver, the decoding of its bytes and the probe of the bounce mailbox are
-- parameters. `none` stands for a panic.
pub mod Rounds
pub mod Answered
pub mod Visited
use mathlib.Core.Option
use postbud.DnsCheck.Names.{report_auth_names, dmarc_names}
use postbud.DnsCheck.{Observed, Expected, DomainResult, is_dmarc, evaluate, check_bounce_mailbox}
use postbud.Domains.{SendingDomain, DomainRow, CheckRow, due_for_check, record_check}
use postbud.Prelude.{
  ℕ, suc, Bool, true, false, List, [], ◌∷◌, ◌++◌, map, Option, none, some, if◌then◌else◌, any,
  find?, or_else, ◌>>=◌,
}
use postbud.Result.{Result, ok, err}
use postbud.Text.Bytes.{strip_prefix}
use postbud.Text.{Str, codes}

-- What `ResolveErrorKind` is told apart by.
pub data ResolveError : Type 0 where
  no_records_found : ResolveError
  trouble : Str → ResolveError

-- A text record comes as the chunks of its bytes.
pub record Resolver : Type 0 where
  pub txt_lookup : Str → Result (List (List (List ℕ))) ResolveError
  pub mx_lookup : Str → Result (List Str) ResolveError
  pub lossy : List ℕ → Str

unfoldable pub empty_if_absent :
    {T : Type 0} → Result T ResolveError → Result (Option T) ResolveError
empty_if_absent (ok v) = ok (some v)
empty_if_absent (err no_records_found) = ok none
empty_if_absent (err (trouble e)) = err (trouble e)

abbrev pub or_default :
    {T U : Type 0}
    → (List T → List U)
    → Result (Option (List T)) ResolveError
    → Result (List U) ResolveError
or_default f (err e) = err e
or_default f (ok none) = ok []
or_default f (ok (some l)) = ok (f l)

abbrev pub record_text : (List ℕ → Str) → List (List ℕ) → Str
record_text lossy [] = []
record_text lossy (chunk ∷ rest) = lossy chunk ++ record_text lossy rest

unfoldable pub txt : Resolver → Str → Result (List Str) ResolveError
txt resolver name =
    or_default (map (record_text resolver.lossy)) (empty_if_absent (resolver.txt_lookup name))

unfoldable pub mx : Resolver → Str → Result (List Str) ResolveError
mx resolver name = or_default (λ l. l) (empty_if_absent (resolver.mx_lookup name))

-- The first name whose records hold a policy.
unfoldable pub find_dmarc : Resolver → List Str → Result (List Str × Option Str) ResolveError
find_dmarc resolver [] = ok ([], none)
find_dmarc resolver (name ∷ names) = elim (txt resolver name) [
  | err e ↦ err e
  | ok records ↦ elim (any is_dmarc records) [
    | true ↦ ok (records, some name)
    | false ↦ find_dmarc resolver names
  ]
]

unfoldable pub fetch_all : Resolver → List Str → Result (List (Str × List Str)) ResolveError
fetch_all resolver [] = ok []
fetch_all resolver (name ∷ names) = elim (txt resolver name) [
  | err e ↦ err e
  | ok records ↦ elim (fetch_all resolver names) [
    | err e ↦ err e
    | ok rest ↦ ok ((name, records) ∷ rest)
  ]
]

-- The names to ask for the consent to a report destination.
abbrev pub consent_names : List Str × Option Str → Option (List Str)
consent_names (records, none) = some []
consent_names (records, some found_at) = elim (find? is_dmarc records) [
  | none ↦ some []
  | some record_text ↦
      report_auth_names (or_else (strip_prefix (codes "_dmarc.") found_at) found_at) record_text
]

-- The answers before the consent.
pub record Answers : Type 0 where
  pub domain_txt : List Str
  pub dkim_txt : List Str
  pub dmarc : List Str × Option Str
  pub mx : List Str

abbrev pub dkim_name : Str → Str → Str
dkim_name dkim_selector domain = dkim_selector ++ (codes "._domainkey." ++ domain)

unfoldable pub ask : Resolver → Str → Str → Result Answers ResolveError
ask resolver domain dkim_selector = elim (txt resolver domain) [
  | err e ↦ err e
  | ok domain_txt ↦ elim (txt resolver (dkim_name dkim_selector domain)) [
    | err e ↦ err e
    | ok dkim_txt ↦ elim (find_dmarc resolver (dmarc_names domain)) [
      | err e ↦ err e
      | ok dmarc ↦ elim (mx resolver domain) [
        | err e ↦ err e
        | ok mx ↦
            ok (record { domain_txt = domain_txt; dkim_txt = dkim_txt; dmarc = dmarc; mx = mx })
      ]
    ]
  ]
]

abbrev pub observed :
    Answers → Result (List (Str × List Str)) ResolveError → Result Observed ResolveError
observed a (err e) = err e
observed a (ok report_auth) = ok (record {
  domain_txt = a.domain_txt;
  dkim_txt = a.dkim_txt;
  dmarc_txt = a.dmarc.0;
  dmarc_found_at = a.dmarc.1;
  mx = a.mx;
  report_auth = report_auth;
})

unfoldable pub observe : Resolver → Str → Str → Option (Result Observed ResolveError)
observe resolver domain dkim_selector = elim (ask resolver domain dkim_selector) [
  | err e ↦ some (err e)
  | ok a ↦ Option.map (λ names. observed a (fetch_all resolver names)) (consent_names a.dmarc)
]

abbrev pub expected_of : SendingDomain → Expected
expected_of d = record {
  spf = d.spf_expected;
  dkim_public_key = d.dkim_public_key;
  mx = d.mx_expected;
  dmarc_policy = d.dmarc_policy_expected;
}

-- Everything outside of the program that a round uses: the resolver, the bounce mailbox of the
-- configuration, what the relay answers about one for a domain, and the time of an insertion.
pub record World : Type 0 where
  pub resolver : Resolver
  pub bounce_mailbox : Option Str
  pub probe : Str → Str → Option (ℕ × ℕ)
  pub clock : SendingDomain → ℕ

-- The verdict on the bounce mailbox, where the domain receives bounces and there is a mailbox.
abbrev pub bounce_verdict : World → SendingDomain → DomainResult → DomainResult
bounce_verdict world d result = elim world.bounce_mailbox [
  | none ↦ result
  | some mailbox ↦ elim d.mx_expected [
    | none ↦ result
    | some mx ↦ record result {
      bounce = world.probe d.domain mailbox >>= λ codes. check_bounce_mailbox codes.0 codes.1;
    }
  ]
]

-- The check of one domain: a panic, no verdict, or the result to record.
unfoldable pub check_domain : World → SendingDomain → Option (Option DomainResult)
check_domain world d = elim (observe world.resolver d.domain d.dkim_selector) [
  | none ↦ none
  | some (err e) ↦ some none
  | some (ok seen) ↦
      Option.map (λ result. some (bounce_verdict world d result)) (evaluate (expected_of d) seen)
]

-- The table, the number of domains checked, and whether the round came to its end.
pub record Round : Type 0 where
  pub checks : List CheckRow
  pub checked : ℕ
  pub finished : Bool

unfoldable pub check_each : World → List CheckRow → ℕ → List SendingDomain → Round
check_each world checks checked [] = record { checks = checks; checked = checked; finished = true }
check_each world checks checked (d ∷ due) = elim (check_domain world d) [
  | none ↦ record { checks = checks; checked = checked; finished = false }
  | some none ↦ check_each world checks checked due
  | some (some result) ↦
      check_each world (record_check (world.clock d) checks d.id result) (suc checked) due
]

unfoldable pub run_due_checks : World → ℕ → List DomainRow → List CheckRow → Round
run_due_checks world now rows checks =
    check_each world checks 0 (due_for_check now rows checks 15 24)
