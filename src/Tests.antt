-- ===== src/Tests.antt =====
-- The data of the runs below: a platform whose `lower` is the ASCII one and whose digest is the
-- content itself, one message, and one notification of a missing mailbox.
mod Queues
mod Lists
mod Texts
mod Checks
mod Accounts
mod Codec
mod Operators
mod Relays
mod Mailbox
use postbud.Dsn.{Report}
use postbud.Prelude.{List, [], ◌∷◌, none, some}
use postbud.Queue.{NewMessage, Attachment, accept}
use postbud.Classification.{permanent}
use postbud.Store.{Platform, Db}
use postbud.Text.{Str, codes, to_ascii_lowercase}

abbrev platform : Platform
platform = record {
  sql_lower = to_ascii_lowercase;
  sha256 = λ b. b;
  from_std = λ s. some s;
  pick = λ ids. 0;
}

abbrev no_rows : Db
no_rows = record {
  messages = [];
  attachments = [];
  attempts = [];
  suppressions = [];
  suppression_seq = 1;
  bounces = [];
  notified = 0;
}

abbrev welcome : NewMessage
welcome = record {
  tenant_id = 1;
  idempotency_key = codes "k1";
  mail_from = codes "post@acme.no";
  from_name = none;
  rcpt_to = codes "kari@ex.no";
  reply_to = none;
  subject = codes "Hi";
  body_text = some (codes "Hello");
  body_html = none;
  attachments = [];
}

abbrev notification : Str
notification =
    codes "X-Postfix-Queue-ID: 4F2\n\nFinal-Recipient: rfc822; Kari@ex.no\nStatus: 5.1.1\n"

abbrev missing_mailbox_report : Report
missing_mailbox_report = record {
  final_recipient = some (codes "Kari@ex.no");
  status = some (codes "5.1.1");
  diagnostic = none;
  relay_queue_id = some (codes "4F2");
  classification = permanent;
}

-- The database after the first submission.
abbrev submitted : Db
submitted = (accept platform 100 7 no_rows welcome).0
