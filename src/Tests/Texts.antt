-- ===== src/Tests/Texts.antt =====
-- Runs on addresses, entries and notifications.
use postbud.Address.Bounce.{IsMailbox, bounce_sender-domain}
use postbud.Address.Normal.{Verdict, normalize-Verdict}
use postbud.Address.{normalize, domain, bounce_sender}
use postbud.Authz.Exact.{Lists, may_send_as_iff}
use postbud.Authz.{may_send_as}
use postbud.Classification.{from_status}
use postbud.Dsn.Fields.{IsCoherent, queue_id_line}
use postbud.Dsn.QueueIds.{parse-relay_queue_id}
use postbud.Dsn.Reports.{parse-IsCoherent}
use postbud.Dsn.Suppress.{Justified, parse-should_suppress}
use postbud.Dsn.{parse, unfold_folded, should_suppress, step, header, strip_type_prefix}
use postbud.Prelude.{◌≡◌, refl, ◌↔◌, true, [], ◌∷◌, ◌++◌, some, any, All, is_some}
use postbud.Result.{ok}
use postbud.Tests.{notification, missing_mailbox_report}
use postbud.Text.{
  Str, codes, trim, rsplit_once, lines, split_once, is_whitespace, lower, first_piece,
}

pub parses : parse notification ≡ missing_mailbox_report ∷ []
unfolding parse unfold_folded lines step header split_once trim is_whitespace lower
    strip_type_prefix from_status first_piece
parses = refl

normalizes : normalize (codes " Kari@EX.no ") ≡ ok (codes "Kari@ex.no")
unfolding normalize trim rsplit_once is_whitespace lower
normalizes = refl

IsMailbox-bounces : IsMailbox (codes "bounces")
unfolding trim is_whitespace
IsMailbox-bounces = record { ne_nil = refl; plain = refl }

parse-should_suppress_example :
    All (λ r. should_suppress r ≡ true ↔ Justified r) (parse notification)
parse-should_suppress_example = parse-should_suppress notification

parse-IsCoherent_example : All IsCoherent (parse notification)
parse-IsCoherent_example = parse-IsCoherent notification

parse-relay_queue_id_example :
    All
      (λ r. is_some r.relay_queue_id ≡ any queue_id_line (unfold_folded notification))
      (parse notification)
parse-relay_queue_id_example = parse-relay_queue_id notification

normalize-Verdict_example : Verdict (trim (codes " Kari@EX.no ")) (normalize (codes " Kari@EX.no "))
normalize-Verdict_example = normalize-Verdict (codes " Kari@EX.no ")

sender_of_kari : bounce_sender (codes "Kari@ex.no") (codes "bounces") ≡ some (codes "bounces@ex.no")
unfolding bounce_sender domain trim rsplit_once is_whitespace lower
sender_of_kari = refl

bounce_sender-domain_example :
    (d : Str) × (domain (codes "Kari@ex.no") ≡ some d)
    × (codes "bounces@ex.no" ≡ trim (codes "bounces") ++ b'@' ∷ d)
    × (domain (codes "bounces@ex.no") ≡ some d)
bounce_sender-domain_example =
    bounce_sender-domain (codes "Kari@ex.no") (codes "bounces") sender_of_kari

may_send_as_iff_example :
    may_send_as (codes "post@acme.no") (codes " ACME.no" ∷ []) ≡ true
    ↔ ((d : Str) × (domain (codes "post@acme.no") ≡ some d) × Lists (codes " ACME.no" ∷ []) d)
may_send_as_iff_example = may_send_as_iff (codes "post@acme.no") (codes " ACME.no" ∷ [])
