-- ===== src/Tests/Queues.antt =====
-- Runs of the service on the message and the notification.
use postbud.Bounce.Rows.{takes_address}
use postbud.Bounce.Stored.{StoredAs, ingest_stores}
use postbud.Bounce.{ingest, ingest_report}
use postbud.Dsn.{
  parse, unfold_folded, step, header, should_suppress, recipient_is_the_problem, strip_type_prefix,
}
use postbud.Classification.{from_status}
use postbud.Dsn.Suppress.{Justified}
use postbud.Prelude.{
  ◌≡◌, refl, ◌++◌, true, false, List, [], ◌∷◌, subst, sym, none, some, arith, map, All, find?,
  length, count_where, Memᴰ, inl,
}
use postbud.Queue.Keeps.{accept-IsSound}
use postbud.Queue.Sound.{IsSound}
use postbud.Queue.{
  accept, insert_message, has_key, new_row, claim, has_id, is_in, purge_bodies, Claimed,
}
use postbud.RelayQueue.Shows.{shown, expected, reconcile_shows}
use postbud.RelayQueue.{reconcile, Queued}
use postbud.Store.{Db, Message, BounceReport, suppressed}
use postbud.Suppression.{is_suppressed, same_address, add}
use postbud.System.Always.{Reach-IsSound}
use postbud.System.Bounced.{accept_after_bounce}
use postbud.System.Exclusive.{ids_of, claim_exclusive}
use postbud.System.Lease.{apply_all}
use postbud.System.Resubmit.{accept_resubmitted}
use postbud.System.{Op, claims, ingests, purges, apply, Reach, here, next}
use postbud.Tests.{platform, no_rows, welcome, notification, missing_mailbox_report, submitted}
use postbud.Tests.Texts.{parses}
use postbud.Text.{codes, lines, split_once, first_piece, trim, is_whitespace, lower}
use postbud.Worker.Deliver.{Settles, Leaves, deliver_one-Settles}
use postbud.Worker.{Outcome, transient, deliver_one}

no_rows-IsSound : IsSound no_rows.messages
no_rows-IsSound = record { rows = tt; ids = λ id. omega arith; keys = λ t key. omega arith }

abbrev after_claim : Db
after_claim = apply platform (claims 200 [] (codes "w1") 10) submitted

claimed_once : Reach platform submitted after_claim
claimed_once = next (claims 200 [] (codes "w1") 10) here tt refl

accept_resubmitted_example :
    ((accept platform 300 9 after_claim welcome).0 ≡ after_claim)
    × ((accept platform 300 9 after_claim welcome).1.id
        ≡ (accept platform 100 7 no_rows welcome).1.id)
    × ((accept platform 300 9 after_claim welcome).1.deduplicated ≡ true)
accept_resubmitted_example =
    accept_resubmitted platform 100 300 7 9 no_rows after_claim welcome welcome claimed_once refl
      refl

abbrev in_between : List Op
in_between = ingests 250 notification ∷ purges 260 30 ∷ []

claim_exclusive_example :
    let (db', claimed) = claim 200 [] submitted (codes "w1") 10 in
    All
      (λ c. is_in (ids_of claimed) c.id ≡ false)
      (claim 300 [] (apply_all platform in_between db') (codes "w2") 10).1
claim_exclusive_example =
    claim_exclusive platform 200 300 [] [] submitted (codes "w1") (codes "w2") 10 10 in_between
      (omega arith) (tt, (tt, tt))

Reach-IsSound_example : IsSound after_claim.messages
Reach-IsSound_example =
    Reach-IsSound platform claimed_once
      (accept-IsSound platform 100 7 no_rows welcome refl no_rows-IsSound)

report-Justified : Justified missing_mailbox_report
unfolding first_piece trim is_whitespace
report-Justified = (codes "5.1.1", refl, refl, inl (codes "5", codes "1.1", refl, refl, inl refl))

same_mailbox : same_address platform (codes "Kari@ex.no") (codes "kari@ex.no") ≡ true
unfolding lower
same_mailbox = refl

no_such_key :
    find?
      (has_key welcome.tenant_id welcome.idempotency_key)
      (apply_all platform in_between (ingest platform 240 no_rows notification).0).messages
    ≡ none
unfolding ingest apply purge_bodies parse unfold_folded lines step header split_once trim
    is_whitespace lower ingest_report should_suppress from_status first_piece
    recipient_is_the_problem add strip_type_prefix
no_such_key = refl

accept_after_bounce_example :
    let after = apply_all platform in_between (ingest platform 240 no_rows notification).0 in
    ((accept platform 300 7 after welcome).1.status ≡ suppressed)
    × ((accept platform 300 7 after welcome).0.notified ≡ after.notified)
accept_after_bounce_example =
    accept_after_bounce platform 240 300 7 no_rows notification missing_mailbox_report
      (codes "Kari@ex.no") in_between welcome
      (subst (Memᴰ missing_mailbox_report) (sym parses) (Memᴰ.head refl)) report-Justified refl
      same_mailbox (tt, (tt, tt)) no_such_key

abbrev claimed_welcome : Claimed
claimed_welcome = record {
  id = 7;
  attempts = 0;
  mail_from = welcome.mail_from;
  from_name = none;
  rcpt_to = welcome.rcpt_to;
  reply_to = none;
  subject = welcome.subject;
  body_text = welcome.body_text;
  body_html = none;
  attachments = [];
}

abbrev greylisted : Outcome
greylisted = transient (some 450) (codes "greylisted")

abbrev first_row : Message
first_row = new_row 7 100 welcome false

first_found : find? (has_id 7) submitted.messages ≡ some first_row
unfolding accept insert_message is_suppressed
first_found = refl

deliver_one-Settles_example :
    (db' : Db) × (m' : Message) × (deliver_one platform 400 400 submitted claimed_welcome greylisted
      ≡ some db')
    × Settles 400 400 claimed_welcome first_row m' greylisted
    × Leaves submitted db' claimed_welcome m'
deliver_one-Settles_example =
    deliver_one-Settles platform (λ s k. refl) 400 400 submitted claimed_welcome greylisted
      first_row first_found

ingest_stores_example :
    let (db', out) = ingest platform 240 submitted notification in
    (db'.messages ≡ submitted.messages)
    × (rows : List BounceReport) × (db'.bounces ≡ submitted.bounces ++ rows)
    × StoredAs platform 240 notification submitted.messages (parse notification) rows out.unmatched
    × (out.reports ≡ length (parse notification))
    × (out.suppressed ≡ count_where takes_address (parse notification))
ingest_stores_example = ingest_stores platform 240 notification submitted

abbrev snapshot : List Queued
snapshot = record { queue_id = codes "4F2"; queue_name = codes "deferred"; reason = none } ∷ []

reconcile_shows_example :
    map shown (reconcile 500 submitted snapshot 60).0.messages
    ≡ map (expected 500 60 snapshot submitted.bounces) submitted.messages
reconcile_shows_example = reconcile_shows 500 submitted snapshot 60

submitted-IsSound : IsSound submitted.messages
submitted-IsSound = accept-IsSound platform 100 7 no_rows welcome refl no_rows-IsSound
