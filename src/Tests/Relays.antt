-- ===== src/Tests/Relays.antt =====
-- Runs of the lists of the admin surface, of the checks of the domains and of the relay, and of the
-- queue report.
use postbud.DnsCheck.{DomainResult, RecordResult, Status, valid, missing}
use postbud.Domains.Cadence.{has_id, interval}
use postbud.Domains.{SendingDomain, DomainRow, is_domain, is_current, due_for_check}
use postbud.Identity.Confirmed.{IsConfirmed, evaluate_iff}
use postbud.Identity.{Observed, evaluate}
use postbud.Int.{pos, negsuc}
use postbud.Observing.Rounds.{due_for_check-run_due_checks}
use postbud.Observing.Visited.{Completes, run_due_checks-Completes}
use postbud.Observing.{World, Resolver, no_records_found, check_domain, run_due_checks}
use postbud.Paging.Complete.{messages_page-bounds, filtered, crawl-messages_page}
use postbud.Paging.Crawl.{crawl}
use postbud.Paging.Order.{Distinct, newer, by_time}
use postbud.Paging.Pages.{MessagesQuery, messages_page, messages_after}
use postbud.Paging.{page_size, time_key}
use postbud.Prelude.{
  ℕ, ◌+◌, ◌≤◌, ◌<◌, ◌≡◌, ◌↔◌, refl, Bool, true, false, ◌&&◌, List, [], ◌∷◌, ◌++◌, map, Option, none,
  some, All, Memᴰ, any, arith, ltb, length, sort_by,
}
use postbud.Result.{err}
use postbud.Showq.Framing.{Fields, frame, entries_of, parse-frame}
use postbud.Showq
use postbud.Silence.Signals.{bounce_signal_iff}
use postbud.Silence.{is_silent, bounce_signal}
use postbud.Tests.Accounts.{edited}
use postbud.Tests.{submitted}
use postbud.Text.{Str, codes}

-- Two records of the queue, of which the second names no queue.
abbrev pub framed : List Fields
framed =
    ((codes "queue_id", codes "4F2")
      ∷ (codes "queue_name", codes "deferred")
      ∷ (codes "reason", codes " timed out ")
      ∷ [])
    ∷ ((codes "queue_id", codes "4F3") ∷ [])
    ∷ []

parse-frame_example : Showq.parse (λ b. b) (frame framed) ≡ entries_of (λ b. b) framed
parse-frame_example =
    parse-frame (λ b. b) framed
      (
        ((refl, refl, refl), ((refl, refl, refl), ((refl, refl, refl), tt))),
        (((refl, refl, refl), tt), tt),
      )

-- A page of a negative size.
abbrev query : MessagesQuery
query = record {
  tenant = some (codes "acme");
  status = none;
  rcpt = some [];
  before = none;
  before_id = none;
  limit = some (negsuc 4);
}

abbrev ilike : Str → Str → Bool
ilike text pattern = true

messages_page-bounds_example :
    ((messages_page ilike edited.tenants submitted query).limit ≡ page_size query.limit)
    × ((1 ≤ page_size query.limit)
        × ((page_size query.limit ≤ 100)
            × (length (messages_page ilike edited.tenants submitted query).items
                ≤ page_size query.limit)))
messages_page-bounds_example = messages_page-bounds ilike edited.tenants submitted query

one_message : Distinct by_time time_key (filtered ilike edited.tenants submitted query)
unfolding postbud.Queue.accept postbud.Tenants.History.change postbud.Tenants.set_active
    postbud.Tenants.set_domains postbud.Tenants.rotate_key postbud.Tenants.create
    postbud.Tenants.hash postbud.Text.Bytes.as_bytes postbud.Text.trim postbud.Text.is_whitespace
    postbud.Tenants.same_domains
one_message = (tt, tt)

one_row : length (filtered ilike edited.tenants submitted query) ≡ 1
unfolding postbud.Queue.accept postbud.Tenants.History.change postbud.Tenants.set_active
    postbud.Tenants.set_domains postbud.Tenants.rotate_key postbud.Tenants.create
    postbud.Tenants.hash postbud.Text.Bytes.as_bytes postbud.Text.trim postbud.Text.is_whitespace
    postbud.Tenants.same_domains
one_row = refl

short_list : length (filtered ilike edited.tenants submitted query) < 2
short_list = omega (arith, one_row)

crawl-messages_page_example :
    crawl (λ c. messages_page ilike edited.tenants submitted (messages_after query c)) 2 none
    ≡ sort_by (newer by_time time_key) (filtered ilike edited.tenants submitted query)
crawl-messages_page_example =
    crawl-messages_page ilike edited.tenants submitted query one_message 2 short_list

-- One domain, for which the resolver finds nothing.
abbrev acme_no : SendingDomain
acme_no = record {
  id = 1;
  domain = codes "acme.no";
  spf_expected = codes "v=spf1 -all";
  dkim_selector = codes "s1";
  dkim_public_key = codes "MIG";
  mx_expected = none;
  dmarc_policy_expected = none;
  created_at = 5;
  created_by = codes "ops@ex.no";
}

abbrev rows : List DomainRow
rows = record { entry = acme_no; ended_at = none; ended_by = none } ∷ []

abbrev resolver : Resolver
resolver = record {
  txt_lookup = λ name. err no_records_found;
  mx_lookup = λ name. err no_records_found;
  lossy = λ b. b;
}

abbrev world : World
world = record {
  resolver = resolver;
  bounce_mailbox = some (codes "bounces");
  probe = λ domain mailbox. none;
  clock = λ d. 100;
}

abbrev nothing : RecordResult
nothing = record { status = missing; observed = none }

abbrev unpublished : DomainResult
unpublished = record {
  spf = nothing;
  dkim = nothing;
  dmarc = nothing;
  mx = none;
  bounce = none;
  report_auth = none;
  valid = false;
}

finishes : (run_due_checks world 90 rows []).finished ≡ true
unfolding run_due_checks postbud.Observing.check_each due_for_check sort_by
    postbud.Domains.latest_check check_domain postbud.Observing.observe postbud.Observing.ask
    postbud.Observing.txt postbud.Observing.empty_if_absent postbud.Observing.find_dmarc
    postbud.DnsCheck.Names.dmarc_names postbud.DnsCheck.Names.organizational_domain
    postbud.Text.join postbud.Text.split postbud.Text.Bytes.trim_end_char postbud.Text.lower
    postbud.DnsCheck.Names.normalize_host postbud.DnsCheck.Names.report_auth_names
    postbud.DnsCheck.Names.rua_domains postbud.DnsCheck.Names.see_tag
    postbud.DnsCheck.Names.see_tags postbud.DnsCheck.Names.see_uri postbud.DnsCheck.Names.see_uris
    postbud.DnsCheck.check_bounce_mailbox postbud.DnsCheck.check_dkim postbud.DnsCheck.check_dmarc
    postbud.DnsCheck.check_mx postbud.DnsCheck.check_report_auth postbud.DnsCheck.check_spf
    postbud.DnsCheck.compare_policy postbud.DnsCheck.dkim_key_of postbud.DnsCheck.dmarc_tag
    postbud.DnsCheck.evaluate postbud.DnsCheck.first_with_version postbud.DnsCheck.has_version
    postbud.DnsCheck.judge_dmarc postbud.DnsCheck.judge_rank postbud.DnsCheck.judge_spf
    postbud.DnsCheck.mailbox_result postbud.DnsCheck.normalize_spaces postbud.DnsCheck.policy_rank
    postbud.DnsCheck.position postbud.DnsCheck.too_many postbud.DnsCheck.with_version
    postbud.Domains.record_check postbud.Observing.fetch_all postbud.Observing.mx
    postbud.Prelude.insert_by postbud.Text.Bytes.byte_len postbud.Text.Bytes.get_to
    postbud.Text.Bytes.split_at postbud.Text.Bytes.strip_prefix postbud.Text.decimal
    postbud.Text.eq_ignore_ascii_case postbud.Text.first_piece postbud.Text.is_whitespace
    postbud.Text.rsplit_once postbud.Text.split_once postbud.Text.split_whitespace postbud.Text.trim
    postbud.Text.trim_end postbud.Text.trim_start
finishes = refl

is_checked : check_domain world acme_no ≡ some (some unpublished)
unfolding check_domain postbud.Observing.observe postbud.Observing.ask postbud.Observing.txt
    postbud.Observing.empty_if_absent postbud.Observing.find_dmarc
    postbud.DnsCheck.Names.dmarc_names postbud.DnsCheck.Names.organizational_domain
    postbud.Text.join postbud.Text.split postbud.Text.Bytes.trim_end_char postbud.Text.lower
    postbud.Observing.mx postbud.Observing.fetch_all postbud.DnsCheck.evaluate
    postbud.DnsCheck.with_version postbud.DnsCheck.first_with_version
    postbud.DnsCheck.Names.normalize_host postbud.DnsCheck.Names.report_auth_names
    postbud.DnsCheck.Names.rua_domains postbud.DnsCheck.Names.see_tag
    postbud.DnsCheck.Names.see_tags postbud.DnsCheck.Names.see_uri postbud.DnsCheck.Names.see_uris
    postbud.DnsCheck.check_bounce_mailbox postbud.DnsCheck.check_dkim postbud.DnsCheck.check_dmarc
    postbud.DnsCheck.check_mx postbud.DnsCheck.check_report_auth postbud.DnsCheck.check_spf
    postbud.DnsCheck.compare_policy postbud.DnsCheck.dkim_key_of postbud.DnsCheck.dmarc_tag
    postbud.DnsCheck.has_version postbud.DnsCheck.judge_dmarc postbud.DnsCheck.judge_rank
    postbud.DnsCheck.judge_spf postbud.DnsCheck.mailbox_result postbud.DnsCheck.normalize_spaces
    postbud.DnsCheck.policy_rank postbud.DnsCheck.position postbud.DnsCheck.too_many
    postbud.Text.Bytes.byte_len postbud.Text.Bytes.get_to postbud.Text.Bytes.split_at
    postbud.Text.Bytes.strip_prefix postbud.Text.decimal postbud.Text.eq_ignore_ascii_case
    postbud.Text.first_piece postbud.Text.is_whitespace postbud.Text.rsplit_once
    postbud.Text.split_once postbud.Text.split_whitespace postbud.Text.trim postbud.Text.trim_end
    postbud.Text.trim_start
is_checked = refl

is_due_first : due_for_check 90 rows [] 15 24 ≡ acme_no ∷ []
unfolding due_for_check sort_by postbud.Domains.latest_check
is_due_first = refl

mem_due : Memᴰ acme_no (due_for_check 90 rows [] 15 24)
mem_due = rw is_due_first (Memᴰ.head refl)

run_due_checks-Completes_example :
    Completes world [] 0 (due_for_check 90 rows [] 15 24) (run_due_checks world 90 rows [])
run_due_checks-Completes_example = run_due_checks-Completes world 90 rows [] finishes

due_for_check-run_due_checks_example :
    any (has_id 1) (due_for_check 1000000000 rows (run_due_checks world 90 rows []).checks 15 24)
    ≡ (any (λ r. is_domain 1 r && is_current r) rows && ltb (100 + interval 15 24 false) 1000000000)
due_for_check-run_due_checks_example =
    due_for_check-run_due_checks world 90 1000000000 rows [] acme_no unpublished finishes
      (omega arith) mem_due is_checked

abbrev seen : Observed
seen = record {
  forward_ips = codes "198.51.100.7" ∷ [];
  ptr_names = codes "mail.ex.no" ∷ [];
  banner_host = some (codes "localhost.localdomain");
}

evaluate_iff_example :
    (evaluate (codes "mail.ex.no") seen).valid ≡ true ↔ IsConfirmed (codes "mail.ex.no") seen
evaluate_iff_example = evaluate_iff (codes "mail.ex.no") seen

abbrev IsNone : Type 0
IsNone = let n : ℕ = 0 in n ≡ 0

bounce_signal_iff_example :
    is_silent (bounce_signal (pos 800) (pos 0)) ≡ true ↔ (IsNone × (500 ≤ 800))
bounce_signal_iff_example = bounce_signal_iff 800 0
