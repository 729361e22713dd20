-- ===== src/Tests/Mailbox.antt =====
-- Runs of the aggregate reports, and of the endpoints of tenants and of the relay.
use postbud.Dmarc.Bounded.{Fits, extract-Fits}
use postbud.Dmarc.Named.{IsNamed, parse-IsNamed}
use postbud.Dmarc.Once.{Delivery, store_all, store-store_all}
use postbud.Dmarc.Parse.{Feedback, parse}
use postbud.Dmarc.Stored.{Archive, store}
use postbud.Dmarc.Unpack.{Stream, Archives, extract}
use postbud.Dmarc.{Report}
use postbud.Ingress.Own.{add_suppression_own}
use postbud.Ingress.Reported.{ingest_queue-as_ndjson}
use postbud.Ingress.{is_relay, grace_secs, add_suppression, ingest_queue}
use postbud.Int.{ℤ, pos}
use postbud.Prelude.{◌≡◌, ◌≢◌, refl, arith, Option, true, false, [], ◌∷◌, none, some, Memᴰ}
use postbud.QueueReport.{as_ndjson}
use postbud.RelayQueue.{reconcile}
use postbud.Showq
use postbud.Store.{Db, manual}
use postbud.Suppression.{is_suppressed}
use postbud.Suppression
use postbud.Tenants.{Tenant}
use postbud.Tests.Codec.{json}
use postbud.Tests.Relays.{framed}
use postbud.Showq.Framing.{frame}
use postbud.Tests.{platform, no_rows, submitted}
use postbud.Result.{ok}
use postbud.Text.{Str, codes}

abbrev stream : Stream
stream = record { bytes = codes "<feedback/>"; failure = none }

-- An archive with a folder, a file, and a file that states a size beyond the limit.
abbrev archives : Archives
archives = record {
  gunzip = λ blob. stream;
  open_zip = λ blob. ok (
      ok (record { is_file = false; size = 0; content = stream })
      ∷ ok (record { is_file = true; size = 11; content = stream })
      ∷ ok (record { is_file = true; size = 33554433; content = stream })
      ∷ []);
}

extract-Fits_example : Fits 16 (extract archives (b'P' ∷ b'K' ∷ 3 ∷ 4 ∷ []))
extract-Fits_example = extract-Fits archives (b'P' ∷ b'K' ∷ 3 ∷ 4 ∷ [])

abbrev feedback : Feedback
feedback = record {
  report_metadata = some (record {
    org_name = some (codes " ");
    email = none;
    report_id = some (codes " 17 ");
    date_range = none;
  });
  policy_published = some (record {
    domain = some (codes "Acme.no");
    adkim = none;
    aspf = none;
    p = some (codes "reject");
    sp = none;
    pct = some (codes " 100 ");
  });
  records = [];
}

abbrev report : Report
report = record {
  org_name = codes "unknown";
  email = none;
  report_id = codes "17";
  begin = pos 0;
  end = pos 0;
  domain = codes "acme.no";
  p = some (codes "reject");
  sp = none;
  pct = some (pos 100);
  adkim = none;
  aspf = none;
  records = [];
}

reads : parse (λ b. b) (λ text. ok feedback) (codes "<feedback/>") ≡ ok report
unfolding parse postbud.Text.contains postbud.Text.Bytes.get_to postbud.Text.trim
    postbud.Text.is_whitespace postbud.Text.lower postbud.Dmarc.Parse.to_report
    postbud.Int.parse_i64 postbud.Int.as_i32
reads = refl

parse-IsNamed_example : IsNamed report
parse-IsNamed_example =
    parse-IsNamed (λ b. b) (λ text. ok feedback) (codes "<feedback/>") report reads

abbrev nothing_held : Archive
nothing_held = record { reports = []; sources = [] }

abbrev delivery : Delivery
delivery = record { id = 1; report = report; raw = codes "<feedback/>" }

store-store_all_example :
    store 2 (store_all nothing_held (delivery ∷ [])) report (codes "<feedback />")
    ≡ (store_all nothing_held (delivery ∷ []), false)
store-store_all_example =
    store-store_all nothing_held (delivery ∷ []) delivery 2 (codes "<feedback />") (Memᴰ.head refl)

abbrev token : Option Str
token = some (codes "relay")

is_known : is_relay platform token (some (codes "Bearer relay")) ≡ ok true
unfolding is_relay postbud.Tenants.hash postbud.Text.Bytes.as_bytes postbud.Text.trim
    postbud.Gate.presented postbud.Text.Bytes.strip_prefix postbud.Text.is_whitespace
is_known = refl

ingest_queue-as_ndjson_example :
    ingest_queue json platform 300 token
      (some (codes "Bearer relay"))
      submitted
      (as_ndjson json (Showq.parse (λ b. b) (frame framed)))
    ≡ ok (reconcile 300 submitted (Showq.parse (λ b. b) (frame framed)) grace_secs)
ingest_queue-as_ndjson_example =
    ingest_queue-as_ndjson (λ b. b) json platform 300 token (some (codes "Bearer relay")) submitted
      (frame framed) is_known

abbrev acme : Tenant
acme = record { id = 1; name = codes "acme"; from_domains = []; active = true }

abbrev with_entry : Db
with_entry =
    Suppression.add platform 50 no_rows (some 1) (codes "kari@ex.no") manual (codes "acme") none

two_apart : 2 ≢ acme.id
two_apart h = absurd (omega (arith, h))

adds_entry : add_suppression platform 50 no_rows acme (codes " kari@EX.no ") none ≡ ok with_entry
unfolding add_suppression postbud.Address.normalize postbud.Text.trim postbud.Text.is_whitespace
    postbud.Text.rsplit_once postbud.Text.lower
adds_entry = refl

add_suppression_own_example :
    is_suppressed platform with_entry 2 (codes "kari@ex.no")
    ≡ is_suppressed platform no_rows 2 (codes "kari@ex.no")
add_suppression_own_example =
    add_suppression_own platform 50 no_rows with_entry acme (codes " kari@EX.no ") none 2
      (codes "kari@ex.no") adds_entry two_apart
