-- ===== src/Queue.antt =====
-- crates/postbud-db/src/message.rs: the queue. Each function is one transaction; `now` is the
-- database's clock, and `none` stands for a transaction that a constraint rolls back.
pub mod Sound
pub mod Keeps
use mathlib.Core.Option
use postbud.Prelude.{
  ℕ, suc, ◌+◌, ◌<◌, Bool, true, false, not, ◌&&◌, ◌||◌, List, [], ◌∷◌, ◌++◌, map, Option, none,
  some, ◌==◌, ltb, leb, if◌then◌else◌, any, is_none, is_some, select, find?, update_where,
  delete_where, count_where, take, sort_by,
}
use postbud.Store.{
  Platform, Db, Message, Status, queued, sent, failed, suppressed, StoredAttachment, Attempt,
  RelayState, AttemptOutcome, accepted, transient, permanent, seconds, minutes, days,
}
use postbud.Suppression.{is_suppressed}
use postbud.Text.{Str, str_eq}

pub record Attachment : Type 0 where
  pub filename : Str
  pub content_type : Str
  pub content : List ℕ

pub record NewMessage : Type 0 where
  pub tenant_id : ℕ
  pub idempotency_key : Str
  pub mail_from : Str
  pub from_name : Option Str
  pub rcpt_to : Str
  pub reply_to : Option Str
  pub subject : Str
  pub body_text : Option Str
  pub body_html : Option Str
  pub attachments : List Attachment

pub record Accepted : Type 0 where
  pub id : ℕ
  pub status : Status
  pub deduplicated : Bool

abbrev pub is_queued : Status → Bool
is_queued queued = true
is_queued _ = false

-- The key of the unique constraint.
abbrev pub has_key : ℕ → Str → Message → Bool
has_key tenant key m = m.tenant_id == tenant && str_eq m.idempotency_key key

-- The inserted row: what the statement binds, and the columns' defaults.
abbrev pub new_row : ℕ → ℕ → NewMessage → Bool → Message
new_row id now msg suppressed_now = record {
  id = id;
  tenant_id = msg.tenant_id;
  idempotency_key = msg.idempotency_key;
  mail_from = msg.mail_from;
  from_name = msg.from_name;
  rcpt_to = msg.rcpt_to;
  reply_to = msg.reply_to;
  subject = msg.subject;
  body_text = msg.body_text;
  body_html = msg.body_html;
  status = if suppressed_now then suppressed else queued;
  attempts = 0;
  next_attempt_at = now;
  claimed_at = none;
  claimed_by = none;
  relay_queue_id = none;
  last_error = none;
  relay_state = none;
  relay_state_detail = none;
  relay_state_at = none;
  created_at = now;
  completed_at = if suppressed_now then some now else none;
  body_purged_at = none;
}

-- The loop over `msg.attachments.iter().enumerate()`.
unfoldable pub store_attachments :
    Platform → ℕ → ℕ → List Attachment → List StoredAttachment → List StoredAttachment
store_attachments env id position [] rows = rows
store_attachments env id position (a ∷ rest) rows = store_attachments env id (position + 1) rest (
    rows
    ++ (record {
      message_id = id;
      filename = a.filename;
      content_type = a.content_type;
      content = a.content;
      sha256 = env.sha256 a.content;
      position = position;
    }
        ∷ []))

-- The insertion, when no row has the key. `id` is the uuid that the database draws.
unfoldable pub insert_message : Platform → ℕ → ℕ → Db → NewMessage → Db × Accepted
insert_message env now id db msg =
    let suppressed_now = is_suppressed env db msg.tenant_id msg.rcpt_to in
    let row = new_row id now msg suppressed_now in
    (
      record db {
        messages = db.messages ++ row ∷ [];
        attachments = store_attachments env id 0 msg.attachments db.attachments;
        notified = if suppressed_now then db.notified else db.notified + 1;
      },
      record { id = id; status = row.status; deduplicated = false },
    )

unfoldable pub accept : Platform → ℕ → ℕ → Db → NewMessage → Db × Accepted
unfolding insert_message
accept env now id db msg = elim (find? (has_key msg.tenant_id msg.idempotency_key) db.messages) [
  | none ↦ insert_message env now id db msg
  | some m ↦ (db, record { id = m.id; status = m.status; deduplicated = true })
]

pub record Claimed : Type 0 where
  pub id : ℕ
  pub attempts : ℕ
  pub mail_from : Str
  pub from_name : Option Str
  pub rcpt_to : Str
  pub reply_to : Option Str
  pub subject : Str
  pub body_text : Option Str
  pub body_html : Option Str
  pub attachments : List Attachment

abbrev pub claim_timeout_minutes : ℕ
claim_timeout_minutes = 10

-- `claimed_at is null or claimed_at < now() - 10 minutes`
abbrev pub is_free : ℕ → Option ℕ → Bool
is_free now none = true
is_free now (some at) = ltb (at + minutes claim_timeout_minutes) now

abbrev pub is_due : ℕ → Message → Bool
is_due now m = is_queued m.status && leb m.next_attempt_at now && is_free now m.claimed_at

abbrev pub has_id : ℕ → Message → Bool
has_id id m = m.id == id

abbrev pub is_in : List ℕ → ℕ → Bool
is_in ids id = any (λ i. i == id) ids

abbrev pub id_of : Message → ℕ
id_of m = m.id

-- The ids of the inner query: due, not locked by another transaction, the earliest first.
unfoldable pub chosen : ℕ → List ℕ → ℕ → List Message → List ℕ
chosen now locked batch messages = map id_of (
    take batch (
      sort_by (λ a b. leb a.next_attempt_at b.next_attempt_at)
        (select (λ m. is_due now m && not (is_in locked m.id)) messages)))

abbrev pub mark_claimed : ℕ → Str → Message → Message
mark_claimed now worker m = record m { claimed_at = some now; claimed_by = some worker }

abbrev pub to_attachment : StoredAttachment → Attachment
to_attachment a = record {
  filename = a.filename;
  content_type = a.content_type;
  content = a.content;
}

-- `entry(id).or_default().push(a)` on the map from a message to its attachments.
unfoldable pub push_attachment :
    ℕ → Attachment → List (ℕ × List Attachment) → List (ℕ × List Attachment)
push_attachment id a [] = (id, a ∷ []) ∷ []
push_attachment id a ((k, xs) ∷ rest) =
    if k == id then (k, xs ++ a ∷ []) ∷ rest else (k, xs) ∷ push_attachment id a rest

group_attachments : List (ℕ × List Attachment) → List StoredAttachment → List (ℕ × List Attachment)
unfolding push_attachment
group_attachments by_message [] = by_message
group_attachments by_message (row ∷ rest) =
    group_attachments (push_attachment row.message_id (to_attachment row) by_message) rest

-- `order by message_id, position`
abbrev attachment_before : StoredAttachment → StoredAttachment → Bool
attachment_before a b =
    ltb a.message_id b.message_id || a.message_id == b.message_id && leb a.position b.position

unfoldable pub attachments_for : List StoredAttachment → List ℕ → List (ℕ × List Attachment)
unfolding group_attachments
attachments_for rows [] = []
attachments_for rows (i ∷ ids) =
    group_attachments []
      (sort_by attachment_before (select (λ a. is_in (i ∷ ids) a.message_id) rows))

-- `attachments.remove(&id).unwrap_or_default()`; the ids of a batch are distinct, so that a
-- removed entry is not asked for again.
unfoldable pub attachments_of : ℕ → List (ℕ × List Attachment) → List Attachment
attachments_of id [] = []
attachments_of id ((k, xs) ∷ rest) = if k == id then xs else attachments_of id rest

abbrev pub to_claimed : List (ℕ × List Attachment) → Message → Claimed
to_claimed by_message m = record {
  id = m.id;
  attempts = m.attempts;
  mail_from = m.mail_from;
  from_name = m.from_name;
  rcpt_to = m.rcpt_to;
  reply_to = m.reply_to;
  subject = m.subject;
  body_text = m.body_text;
  body_html = m.body_html;
  attachments = attachments_of m.id by_message;
}

-- `locked` holds the ids of the rows that other transactions have locked at that moment.
unfoldable pub claim : ℕ → List ℕ → Db → Str → ℕ → Db × List Claimed
unfolding chosen
claim now locked db worker batch =
    let ids = chosen now locked batch db.messages in
    let messages = update_where (λ m. is_in ids m.id) (mark_claimed now worker) db.messages in
    let rows = select (λ m. is_in ids m.id) messages in
    (
      record db { messages = messages },
      map (to_claimed (attachments_for db.attachments (map id_of rows))) rows,
    )

-- The foreign key of `delivery_attempt` wants the message.
unfoldable pub log_attempt :
    ℕ → Db → ℕ → ℕ → AttemptOutcome → Option ℕ → Option Str → Option Str → Option Db
log_attempt now db id attempt outcome smtp_code relay_queue_id detail =
    if any (has_id id) db.messages
    then some (record db {
      attempts =
          db.attempts
          ++ (record {
            message_id = id;
            attempt = attempt;
            at = now;
            outcome = outcome;
            smtp_code = smtp_code;
            relay_queue_id = relay_queue_id;
            detail = detail;
          }
              ∷ []);
    })
    else none

abbrev pub mark_sent : ℕ → ℕ → Option Str → Message → Message
mark_sent now attempt relay_queue_id m = record m {
  status = sent;
  attempts = attempt;
  relay_queue_id = relay_queue_id;
  claimed_at = none;
  claimed_by = none;
  completed_at = some now;
  last_error = none;
}

unfoldable pub record_accepted : ℕ → Db → ℕ → ℕ → Option Str → Option Db
unfolding log_attempt
record_accepted now db id attempt relay_queue_id =
    log_attempt now
      (record db {
        messages = update_where (has_id id) (mark_sent now attempt relay_queue_id) db.messages;
      })
      id attempt accepted (some 250) relay_queue_id none

abbrev pub reschedule : ℕ → ℕ → Str → Message → Message
reschedule attempt next detail m = record m {
  attempts = attempt;
  next_attempt_at = next;
  last_error = some detail;
  claimed_at = none;
  claimed_by = none;
}

-- `app_now` is the worker's clock, `retry_in` a delay in seconds.
abbrev pub retry_at : Platform → ℕ → ℕ → ℕ
retry_at env app_now retry_in = elim (env.from_std retry_in) [
  | none ↦ app_now + minutes 5
  | some delay ↦ app_now + seconds delay
]

unfoldable pub record_transient : Platform → ℕ → ℕ → Db → ℕ → ℕ → Option ℕ → Str → ℕ → Option Db
unfolding log_attempt
record_transient env app_now now db id attempt smtp_code detail retry_in =
    log_attempt now
      (record db {
        messages =
            update_where (has_id id) (reschedule attempt (retry_at env app_now retry_in) detail)
              db.messages;
      })
      id attempt transient smtp_code none (some detail)

abbrev pub mark_failed : ℕ → ℕ → Str → Message → Message
mark_failed now attempt detail m = record m {
  status = failed;
  attempts = attempt;
  last_error = some detail;
  claimed_at = none;
  claimed_by = none;
  completed_at = some now;
}

unfoldable pub record_failed : ℕ → Db → ℕ → ℕ → Option ℕ → Str → Option Db
unfolding log_attempt
record_failed now db id attempt smtp_code detail =
    log_attempt now
      (record db {
        messages = update_where (has_id id) (mark_failed now attempt detail) db.messages;
      })
      id attempt permanent smtp_code none (some detail)

-- What the caller of `status` sees of the row.
pub record MessageStatus : Type 0 where
  pub id : ℕ
  pub status : Status
  pub attempts : ℕ
  pub rcpt_to : Str
  pub subject : Str
  pub relay_queue_id : Option Str
  pub last_error : Option Str
  pub relay_state : Option RelayState
  pub relay_state_detail : Option Str
  pub created_at : ℕ
  pub completed_at : Option ℕ

abbrev pub to_status : Message → MessageStatus
to_status m = record {
  id = m.id;
  status = m.status;
  attempts = m.attempts;
  rcpt_to = m.rcpt_to;
  subject = m.subject;
  relay_queue_id = m.relay_queue_id;
  last_error = m.last_error;
  relay_state = m.relay_state;
  relay_state_detail = m.relay_state_detail;
  created_at = m.created_at;
  completed_at = m.completed_at;
}

unfoldable pub status : Db → ℕ → ℕ → Option MessageStatus
status db tenant_id id =
    Option.map to_status (find? (λ m. m.id == id && m.tenant_id == tenant_id) db.messages)

-- `completed_at is not null and completed_at < now() - days and body_purged_at is null`
abbrev pub is_older : ℕ → ℕ → Option ℕ → Bool
is_older now age none = false
is_older now age (some at) = ltb (at + age) now

abbrev pub is_purgeable : ℕ → ℕ → Message → Bool
is_purgeable now age m = is_older now age m.completed_at && is_none m.body_purged_at

abbrev pub blank : ℕ → Message → Message
blank now m = record m { body_text = none; body_html = none; body_purged_at = some now }

unfoldable pub purge_bodies : ℕ → Db → ℕ → Db × ℕ
purge_bodies now db age_days =
    let due = is_purgeable now (days age_days) in
    let ids = map id_of (select due db.messages) in
    (
      record db {
        attachments = delete_where (λ a. is_in ids a.message_id) db.attachments;
        messages = update_where due (blank now) db.messages;
      },
      count_where due db.messages,
    )
