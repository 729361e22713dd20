-- ===== src/Dmarc/Parse.antt =====
-- crates/postbud-core/src/dmarc.rs: `parse`, from the shapes on the wire (its module `raw`).
use mathlib.Core.Option
use postbud.Dmarc.{
  DmarcError, doctype, xml, not_a_report, clipped, DkimAuth, SpfAuth, Reason, Source, Report,
}
use postbud.Int.{ℤ, pos, parse_i64, as_i32}
use postbud.Prelude.{
  ℕ, ◌||◌, List, [], ◌∷◌, map, Option, none, some, ◌==◌, if◌then◌else◌, is_empty, or_else, ◌>>=◌,
}
use postbud.Result.{Result, ok, err}
use postbud.Text.Bytes.{get_to}
use postbud.Text.{Str, codes, to_ascii_lowercase, trim, contains}

pub record DateRange : Type 0 where
  pub begin : Option Str
  pub end : Option Str

pub record ReportMetadata : Type 0 where
  pub org_name : Option Str
  pub email : Option Str
  pub report_id : Option Str
  pub date_range : Option DateRange

pub record PolicyPublished : Type 0 where
  pub domain : Option Str
  pub adkim : Option Str
  pub aspf : Option Str
  pub p : Option Str
  pub sp : Option Str
  pub pct : Option Str

pub record RawReason : Type 0 where
  pub type_of : Option Str
  pub comment : Option Str

pub record PolicyEvaluated : Type 0 where
  pub disposition : Option Str
  pub dkim : Option Str
  pub spf : Option Str
  pub reason : List RawReason

pub record Row : Type 0 where
  pub source_ip : Option Str
  pub count : Option Str
  pub policy_evaluated : Option PolicyEvaluated

pub record RawDkim : Type 0 where
  pub domain : Option Str
  pub result : Option Str
  pub selector : Option Str

pub record RawSpf : Type 0 where
  pub domain : Option Str
  pub result : Option Str

pub record RawAuth : Type 0 where
  pub dkim : List RawDkim
  pub spf : List RawSpf

-- `header_from` stands for the identifiers, whose one field it is.
pub record RawRecord : Type 0 where
  pub row : Option Row
  pub header_from : Option Str
  pub auth_results : Option RawAuth

pub record Feedback : Type 0 where
  pub report_metadata : Option ReportMetadata
  pub policy_published : Option PolicyPublished
  pub records : List RawRecord

abbrev pub trimmed_opt : Str → Option Str
trimmed_opt value = if is_empty (trim value) then none else some (trim value)

abbrev pub trimmed : Option Str → Option Str
trimmed value = value >>= trimmed_opt

abbrev pub lowered : Option Str → Str
lowered value = or_else (Option.map to_ascii_lowercase (trimmed value)) (codes "unknown")

abbrev pub number : Option Str → Option ℤ
number value = trimmed value >>= parse_i64

abbrev pub no_dates : DateRange
no_dates = record { begin = none; end = none }

abbrev pub not_evaluated : PolicyEvaluated
not_evaluated = record { disposition = none; dkim = none; spf = none; reason = [] }

abbrev pub no_row : Row
no_row = record { source_ip = none; count = none; policy_evaluated = none }

abbrev pub no_auth : RawAuth
no_auth = record { dkim = []; spf = [] }

abbrev pub to_dkim : RawDkim → DkimAuth
to_dkim d = record {
  domain = to_ascii_lowercase (or_else (trimmed d.domain) []);
  result = lowered d.result;
  selector = trimmed d.selector;
}

abbrev pub to_spf : RawSpf → SpfAuth
to_spf s = record {
  domain = to_ascii_lowercase (or_else (trimmed s.domain) []);
  result = lowered s.result;
}

abbrev pub to_reason : RawReason → Reason
to_reason r = record { type_of = lowered r.type_of; comment = trimmed r.comment }

unfoldable pub source : RawRecord → Source
source rec =
    let row = or_else rec.row no_row in
    let evaluated = or_else row.policy_evaluated not_evaluated in
    let auth = or_else rec.auth_results no_auth in
    record {
      source_ip = or_else (trimmed row.source_ip) [];
      count = or_else (number row.count) (pos 0);
      disposition = lowered evaluated.disposition;
      dkim_aligned = lowered evaluated.dkim;
      spf_aligned = lowered evaluated.spf;
      header_from = or_else (Option.map to_ascii_lowercase (trimmed rec.header_from)) [];
      dkim = map to_dkim auth.dkim;
      spf = map to_spf auth.spf;
      reasons = map to_reason evaluated.reason;
    }

abbrev pub with_names : ReportMetadata → PolicyPublished → List RawRecord → Str → Str → Report
with_names meta policy records report_id domain =
    let range = or_else meta.date_range no_dates in
    record {
      org_name = or_else (trimmed meta.org_name) (codes "unknown");
      email = trimmed meta.email;
      report_id = report_id;
      begin = or_else (number range.begin) (pos 0);
      end = or_else (number range.end) (pos 0);
      domain = to_ascii_lowercase domain;
      p = trimmed policy.p;
      sp = trimmed policy.sp;
      pct = Option.map as_i32 (number policy.pct);
      adkim = trimmed policy.adkim;
      aspf = trimmed policy.aspf;
      records = map source records;
    }

abbrev pub or_not_a_report : Str → Option Str → Result Str DmarcError
or_not_a_report what none = err (not_a_report what)
or_not_a_report what (some value) = ok value

abbrev pub named :
    ReportMetadata
    → PolicyPublished
    → List RawRecord
    → Result Str DmarcError
    → Result Str DmarcError
    → Result Report DmarcError
named meta policy records (err e) domain = err e
named meta policy records (ok id) (err e) = err e
named meta policy records (ok id) (ok domain) = ok (with_names meta policy records id domain)

unfoldable pub to_report :
    Option ReportMetadata → Option PolicyPublished → List RawRecord → Result Report DmarcError
to_report none policy records = err (not_a_report (codes "no report_metadata"))
to_report (some meta) none records = err (not_a_report (codes "no policy_published"))
to_report (some meta) (some policy) records =
    named meta policy records (or_not_a_report (codes "no report_id") (trimmed meta.report_id))
      (or_not_a_report (codes "no policy domain") (trimmed policy.domain))

abbrev pub strip_marks : Str → Str
strip_marks [] = []
strip_marks (c ∷ s) = let rest = strip_marks s in if c == 0xfeff then rest else c ∷ s

abbrev pub head_of : Str → Str
head_of text = to_ascii_lowercase (or_else (get_to text 4096) text)

abbrev pub report_of : Result Feedback Str → Result Report DmarcError
report_of (err e) = err (xml (clipped e))
report_of (ok f) = to_report f.report_metadata f.policy_published f.records

-- `from_utf8_lossy` and the reader of XML are arguments.
unfoldable pub parse :
    (List ℕ → Str) → (Str → Result Feedback Str) → List ℕ → Result Report DmarcError
parse lossy read_xml bytes =
    let text = trim (strip_marks (lossy bytes)) in
    if contains (codes "<!doctype") (head_of text) || contains (codes "<!entity") (head_of text)
    then err doctype
    else report_of (read_xml text)
