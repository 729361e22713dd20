-- ===== src/Tests/Checks.antt =====
-- Runs of the check of a domain's records and of a submission.
use postbud.Address.{normalize, domain}
use postbud.Authz.{may_send_as}
use postbud.DnsCheck.Panics.{Straddles, PanicsFirst, evaluate_panics_iff}
use postbud.DnsCheck.Total.{IsAscii, evaluate_total}
use postbud.DnsCheck.Valid.{Authenticates, evaluate_valid_iff}
use postbud.DnsCheck.{
  Expected, Observed, DomainResult, valid, has_version, with_version, first_with_version, judge_spf,
  check_dkim, judge_dmarc, check_report_auth, normalize_spaces, dkim_key_of, judge_rank, dmarc_tag,
  policy_rank, position, compare_policy, evaluate,
}
use postbud.Prelude.{
  ◌≡◌, refl, ◌↔◌, ◌⊎◌, Any, true, [], ◌∷◌, none, some, inl, inr, false, any, not, ltb, arith,
}
use postbud.Queue.{NewMessage, accept}
use postbud.Result.{ok}
use postbud.Store.{queued}
use postbud.Submit.Checked.{IsChecked, submit_iff}
use postbud.Submit.{SubmitRequest, SubmitResponse, Decoder, to_message, submit, to_response}
use postbud.Tests.{platform, no_rows, submitted}
use postbud.Suppression.{is_suppressed}
use postbud.Text.Bytes.{byte_len, get_to, strip_prefix}
use postbud.Tenants.{Tenant}
use postbud.Text.{
  Str, codes, trim_start, trim, is_whitespace, lower, rsplit_once, eq_ignore_ascii_case, join,
  split, split_whitespace, split_once,
}

abbrev wanted : Expected
wanted = record {
  spf = codes "v=spf1 -all";
  dkim_public_key = codes "AB";
  mx = none;
  dmarc_policy = some (codes "none");
}

abbrev published : Observed
published = record {
  domain_txt = codes "V=SPF1  -all" ∷ [];
  dkim_txt = codes "k=r; p=AB" ∷ [];
  dmarc_txt = codes "v=DMARC1; p=reject" ∷ [];
  dmarc_found_at = none;
  mx = [];
  report_auth = [];
}

-- The sixth byte of the record is the second of its last character.
abbrev accented : Observed
accented = record published { domain_txt = codes "v=spf1 -all" ∷ codes "note é" ∷ [] }

plain-IsAscii : (s : Str) → any (λ c. not (ltb c 128)) s ≡ false → IsAscii s
plain-IsAscii [] h = tt
plain-IsAscii (c ∷ s) h = (ground arith, plain-IsAscii s (ground arith))

abbrev verdict : DomainResult
verdict = record {
  spf = record { status = valid; observed = some (codes "V=SPF1 -all") };
  dkim = record { status = valid; observed = some (codes "published key matches the signing key") };
  dmarc = record {
    status = valid;
    observed = some (codes "v=DMARC1; p=reject — stricter than the expected p=none");
  };
  mx = none;
  bounce = none;
  report_auth = none;
  valid = true;
}

evaluates : evaluate wanted published ≡ some verdict
unfolding evaluate with_version has_version byte_len trim_start is_whitespace get_to
    first_with_version eq_ignore_ascii_case lower judge_spf check_dkim judge_dmarc check_report_auth
    normalize_spaces dkim_key_of judge_rank join split dmarc_tag split_whitespace strip_prefix
    split_once trim policy_rank position compare_policy
evaluates = refl

evaluate_total_example : (r : DomainResult) × (evaluate wanted published ≡ some r)
evaluate_total_example =
    evaluate_total wanted published (plain-IsAscii (codes "V=SPF1  -all") refl, tt)
      (plain-IsAscii (codes "v=DMARC1; p=reject") refl, tt)

evaluate_valid_iff_example : verdict.valid ≡ true ↔ Authenticates wanted published
evaluate_valid_iff_example = evaluate_valid_iff wanted published verdict evaluates

evaluate_panics_iff_example :
    evaluate wanted accented ≡ none
    ↔ (Any (Straddles 6) accented.domain_txt ⊎ PanicsFirst 8 (codes "v=DMARC1") accented.dmarc_txt)
evaluate_panics_iff_example = evaluate_panics_iff wanted accented

-- The second record at the apex makes the check panic.
accented_panics : evaluate wanted accented ≡ none
unfolding byte_len trim_start is_whitespace
accented_panics =
    (evaluate_panics_iff wanted accented).1
      (inl (inr (inl (codes "note ", 0xe9, [], refl, omega arith, omega arith))))

abbrev plain_decoder : Decoder
plain_decoder s = ok s

abbrev acme : Tenant
acme = record { id = 1; name = codes "acme"; from_domains = codes "acme.no" ∷ []; active = true }

abbrev request : SubmitRequest
request = record {
  idempotency_key = some (codes "k1");
  from = codes "post@acme.no";
  from_name = none;
  to = codes "kari@ex.no";
  reply_to = none;
  subject = codes "Hi";
  text = some (codes "Hello");
  html = none;
  attachments = [];
}

abbrev answer : SubmitResponse
answer = record { id = 7; status = queued; deduplicated = false }

submit_iff_example :
    submit platform plain_decoder 100 7 (codes "uuid") no_rows acme request ≡ ok (submitted, answer)
    ↔ ((msg : NewMessage) × IsChecked plain_decoder (codes "uuid") acme request msg
        × ((accept platform 100 7 no_rows msg).0 ≡ submitted)
        × (to_response (accept platform 100 7 no_rows msg).1 ≡ answer))
submit_iff_example =
    submit_iff platform plain_decoder 100 7 (codes "uuid") no_rows acme request submitted answer

submits :
    submit platform plain_decoder 100 7 (codes "uuid") no_rows acme request ≡ ok (submitted, answer)
unfolding submit to_message normalize trim is_whitespace rsplit_once may_send_as domain lower
    eq_ignore_ascii_case accept is_suppressed
submits = refl
