-- ===== src/DnsCheck.antt =====
-- crates/postbud-core/src/dnscheck.rs: whether what DNS answered makes a domain authenticate.
-- `none` stands for the panic of a slice that ends inside a character.
pub mod Names
pub mod Tagged
pub mod Valid
pub mod Total
pub mod Panics
use mathlib.Core.Option
use postbud.DnsCheck.Names.{normalize_host}
use postbud.Prelude.{
  ℕ, suc, ◌+◌, Bool, true, false, not, ◌&&◌, ◌||◌, List, [], ◌∷◌, ◌++◌, map, Option, none, some,
  ltb, leb, ◌==◌, if◌then◌else◌, is_empty, any, select, find_map, length, ◌>>=◌, or_else,
}
use postbud.Text.Bytes.{byte_len, get_to, strip_prefix}
use postbud.Text.{
  Str, codes, str_eq, is_whitespace, to_ascii_lowercase, eq_ignore_ascii_case, trim_start, trim,
  split, split_once, split_whitespace, join, decimal,
}

pub record Observed : Type 0 where
  pub domain_txt : List Str
  pub dkim_txt : List Str
  pub dmarc_txt : List Str
  pub dmarc_found_at : Option Str
  pub mx : List Str
  pub report_auth : List (Str × List Str)

pub record Expected : Type 0 where
  pub spf : Str
  pub dkim_public_key : Str
  pub mx : Option Str
  pub dmarc_policy : Option Str

pub data Status : Type 0 where
  valid missing mismatch : Status

pub record RecordResult : Type 0 where
  pub status : Status
  pub observed : Option Str

pub record DomainResult : Type 0 where
  pub spf : RecordResult
  pub dkim : RecordResult
  pub dmarc : RecordResult
  pub mx : Option RecordResult
  pub bounce : Option RecordResult
  pub report_auth : Option RecordResult
  pub valid : Bool

abbrev pub is_valid : RecordResult → Bool
is_valid r = elim r.status [ valid ↦ true | _ ↦ false ]

abbrev pub absent : RecordResult
absent = record { status = missing; observed = none }

unfoldable pub normalize_spaces : Str → Str
normalize_spaces s = join (codes " ") (split_whitespace s)

-- `let t = t.trim_start(); t.len() >= n && t[..n].eq_ignore_ascii_case(tag)`
unfoldable pub has_version : ℕ → Str → Str → Option Bool
has_version n tag t =
    let t' = trim_start t in
    if leb n (byte_len t')
    then Option.map (λ p. eq_ignore_ascii_case p tag) (get_to t' n)
    else some false

-- `filter`, every test of which is run.
unfoldable pub with_version : ℕ → Str → List Str → Option (List Str)
with_version n tag [] = some []
with_version n tag (t ∷ ts) = has_version n tag t >>= λ b.
    with_version n tag ts >>= λ rest. some (if b then t ∷ rest else rest)

unfoldable pub too_many : ℕ → Str
too_many n =
    decimal n
    ++ codes " SPF records — RFC 7208 PermError; receivers treat the domain as having none"

unfoldable pub judge_spf : List Str → Str → RecordResult
judge_spf [] expected = absent
judge_spf (t ∷ []) expected =
    let seen = normalize_spaces t in
    if eq_ignore_ascii_case seen (normalize_spaces expected)
    then record { status = valid; observed = some seen }
    else record { status = mismatch; observed = some seen }
judge_spf (t ∷ u ∷ ts) expected = record {
  status = mismatch;
  observed = some (too_many (length (t ∷ u ∷ ts)));
}

unfoldable pub check_spf : List Str → Str → Option RecordResult
check_spf observed expected =
    with_version 6 (codes "v=spf1") observed >>= λ spf. some (judge_spf spf expected)

-- The characters of a key that are not cosmetic.
abbrev pub key_text : Str → Str
key_text = select (λ c. not (is_whitespace c) && not (c == b'"'))

unfoldable pub dkim_key_of : Str → Option Str
dkim_key_of record_text =
    find_map (λ tag. Option.map key_text (strip_prefix (codes "p=") (trim tag)))
      (split b';' record_text)

abbrev pub has_key : Str → Str → Bool
has_key expected t = elim (dkim_key_of t) [ none ↦ false | some key ↦ str_eq key expected ]

unfoldable pub check_dkim : List Str → Str → RecordResult
check_dkim [] expected_key = absent
check_dkim (t ∷ ts) expected_key =
    if any (has_key (key_text expected_key)) (t ∷ ts)
    then record { status = valid; observed = some (codes "published key matches the signing key") }
    else record {
      status = mismatch;
      observed = some (codes "a DKIM record exists but its key is NOT the relay's signing key");
    }

abbrev pub policy_ladder : List Str
policy_ladder = codes "none" ∷ codes "quarantine" ∷ codes "reject" ∷ []

-- `position`
unfoldable pub position : Str → List Str → Option ℕ
position p [] = none
position p (q ∷ rest) =
    let later = Option.map suc (position p rest) in if str_eq q p then some 0 else later

unfoldable pub policy_rank : Str → Option ℕ
policy_rank p = position (to_ascii_lowercase (trim p)) policy_ladder

abbrev pub tag_value : Str → Str × Str → Option Str
tag_value name (key, value) =
    if eq_ignore_ascii_case (trim key) name then some (trim value) else none

unfoldable pub dmarc_tag : Str → Str → Option Str
dmarc_tag record_text name =
    find_map (λ part. split_once b'=' part >>= tag_value name) (split b';' record_text)

-- `find`, whose tests stop at the first record that passes.
unfoldable pub first_with_version : ℕ → Str → List Str → Option (Option Str)
first_with_version n tag [] = some none
first_with_version n tag (t ∷ ts) = has_version n tag t >>= λ b.
    let rest = first_with_version n tag ts in if b then some (some t) else rest

abbrev pub shown_as : Option Str → Str → Str
shown_as none text = normalize_spaces text
shown_as (some name) text = normalize_spaces text ++ (codes " (at " ++ (name ++ codes ")"))

abbrev pub differs : Str → Str → RecordResult
differs shown why = record { status = mismatch; observed = some (shown ++ (codes " — " ++ why)) }

-- The complaint about a record without a readable policy.
abbrev pub unreadable : Option Str → Str
unreadable (some p) =
    codes "'p="
    ++ (p
        ++ (codes "' is not one of "
            ++ (join (codes ", ") policy_ladder
                ++ codes "; receivers that cannot read the policy fall back to no enforcement")))
unreadable none = codes "no p= tag, so the record enforces nothing"

-- The comparison of the two ranks.
unfoldable pub compare_policy : Str → Str → ℕ → Str → ℕ → RecordResult
compare_policy shown found rank want want_rank =
    if ltb rank want_rank
    then differs shown (
        codes "expected p="
        ++ (want
            ++ (codes ", published p="
                ++ (found ++ codes " — the domain is enforcing LESS than it is meant to"))))
    else record {
      status = valid;
      observed = some (
          if ltb want_rank rank
          then shown ++ (codes " — stricter than the expected p=" ++ want)
          else shown);
    }

-- From the rank of the published policy on.
unfoldable pub judge_rank : Str → Option Str → Option ℕ → Option Str → RecordResult
judge_rank shown found none expected = differs shown (unreadable found)
judge_rank shown found (some rank) none = record { status = valid; observed = some shown }
judge_rank shown found (some rank) (some want) = elim (policy_rank want) [
  | none ↦ differs shown (codes "expected policy '" ++ (want ++ codes "' is not a DMARC policy"))
  | some want_rank ↦ compare_policy shown (or_else found []) rank want want_rank
]

unfoldable pub judge_dmarc : Option Str → Option Str → Option Str → RecordResult
judge_dmarc none found_at expected = absent
judge_dmarc (some text) found_at expected =
    let found = dmarc_tag text (codes "p") in
    judge_rank (shown_as found_at text) found (found >>= policy_rank) expected

unfoldable pub check_dmarc : List Str → Option Str → Option Str → Option RecordResult
check_dmarc observed found_at expected =
    first_with_version 8 (codes "v=DMARC1") observed >>= λ text.
    some (judge_dmarc text found_at expected)

unfoldable pub check_mx : List Str → Str → RecordResult
check_mx [] expected = absent
check_mx (h ∷ hs) expected =
    if any (λ x. str_eq (normalize_host x) (normalize_host expected)) (h ∷ hs)
    then record { status = valid; observed = some (join (codes ", ") (h ∷ hs)) }
    else record { status = mismatch; observed = some (join (codes ", ") (h ∷ hs)) }

-- `get(..8).is_some_and(..)`, which does not panic.
abbrev pub is_dmarc : Str → Bool
is_dmarc t = elim (get_to (trim_start t) 8) [
  | none ↦ false
  | some p ↦ eq_ignore_ascii_case p (codes "v=DMARC1")
]

abbrev pub is_unauthorized : Str × List Str → Bool
is_unauthorized (name, txt) = not (any is_dmarc txt)

abbrev pub name_of : Str × List Str → Str
name_of (name, txt) = name

abbrev pub report_result : List Str → List Str → RecordResult
report_result names [] = record { status = valid; observed = some (join (codes ", ") names) }
report_result names (m ∷ ms) = record {
  status = missing;
  observed =
      some
        (codes "reports will NOT be sent: " ++ (join (codes ", ") (m ∷ ms) ++ codes " is missing"));
}

unfoldable pub check_report_auth : List (Str × List Str) → Option RecordResult
check_report_auth [] = none
check_report_auth (o ∷ os) =
    some (report_result (map name_of (o ∷ os)) (map name_of (select is_unauthorized (o ∷ os))))

-- `is_none_or`
abbrev pub is_none_or_valid : Option RecordResult → Bool
is_none_or_valid none = true
is_none_or_valid (some r) = is_valid r

unfoldable pub evaluate : Expected → Observed → Option DomainResult
unfolding check_spf check_dmarc
evaluate expected observed = check_spf observed.domain_txt expected.spf >>= λ spf.
    check_dmarc observed.dmarc_txt observed.dmarc_found_at expected.dmarc_policy >>= λ dmarc.
    let dkim = check_dkim observed.dkim_txt expected.dkim_public_key in
    let mx = Option.map (check_mx observed.mx) expected.mx in
    some (record {
      spf = spf;
      dkim = dkim;
      dmarc = dmarc;
      mx = mx;
      bounce = none;
      report_auth = check_report_auth observed.report_auth;
      valid = is_valid spf && is_valid dkim && is_valid dmarc && is_none_or_valid mx;
    })

-- Whether a reply to a recipient command accepts it or refuses it for good.
abbrev pub accepted : ℕ → Option Bool
accepted code =
    if leb 200 code && leb code 299
    then some true
    else if leb 500 code && leb code 599
    then some false
    else none

unfoldable pub mailbox_result : ℕ → ℕ → Bool → Bool → RecordResult
mailbox_result bounce_reply control_reply false control = record {
  status = missing;
  observed = some (
      codes "the relay refused the bounce mailbox ("
      ++ (decimal bounce_reply
          ++ codes
              ");                  delivery status notifications for this domain are discarded"));
}
mailbox_result bounce_reply control_reply true true = record {
  status = mismatch;
  observed = some (
      codes "the relay accepted an address that cannot exist ("
      ++ (decimal control_reply
          ++ codes
              "),                  so it is forwarding for this domain rather than delivering it;                  whether the bounce mailbox is listed cannot be told from here"));
}
mailbox_result bounce_reply control_reply true false = record {
  status = valid;
  observed = some (codes "the relay accepts the bounce mailbox and rejects what does not exist");
}

unfoldable pub check_bounce_mailbox : ℕ → ℕ → Option RecordResult
unfolding mailbox_result
check_bounce_mailbox bounce_reply control_reply = accepted bounce_reply >>= λ bounce.
    accepted control_reply >>= λ control.
    some (mailbox_result bounce_reply control_reply bounce control)
