-- ===== src/Store.antt =====
-- The tables of crates/postbud-db/migrations as lists of rows in the order of insertion, and
-- what the queries use of the platform. Times are microseconds, a uuid is a number.
pub mod Unordered
use postbud.Prelude.{ℕ, ◌*◌, List, Option}
use postbud.Text.{Str}

abbrev pub seconds : ℕ → ℕ
seconds n = n * 1000000

abbrev pub minutes : ℕ → ℕ
minutes n = seconds (n * 60)

abbrev pub days : ℕ → ℕ
days n = seconds (n * 86400)

-- What is not the program's own: `lower` of PostgreSQL, the digest of the `sha2` crate,
-- `chrono::Duration::from_std`, which refuses a duration that it cannot hold (in seconds), and which
-- of the rows that a query without an order finds PostgreSQL returns first, told by their ids.
pub record Platform : Type 0 where
  pub sql_lower : Str → Str
  pub sha256 : List ℕ → List ℕ
  pub from_std : ℕ → Option ℕ
  pub pick : List ℕ → ℕ

pub data Status : Type 0 where
  queued sent failed suppressed : Status

pub data RelayState : Type 0 where
  active deferred delivered : RelayState

-- A row of `message`.
pub record Message : Type 0 where
  pub id : ℕ
  pub tenant_id : ℕ
  pub idempotency_key : Str
  pub mail_from : Str
  pub from_name : Option Str
  pub rcpt_to : Str
  pub reply_to : Option Str
  pub subject : Str
  pub body_text : Option Str
  pub body_html : Option Str
  pub status : Status
  pub attempts : ℕ
  pub next_attempt_at : ℕ
  pub claimed_at : Option ℕ
  pub claimed_by : Option Str
  pub relay_queue_id : Option Str
  pub last_error : Option Str
  pub relay_state : Option RelayState
  pub relay_state_detail : Option Str
  pub relay_state_at : Option ℕ
  pub created_at : ℕ
  pub completed_at : Option ℕ
  pub body_purged_at : Option ℕ

-- A row of `message_attachment`.
pub record StoredAttachment : Type 0 where
  pub message_id : ℕ
  pub filename : Str
  pub content_type : Str
  pub content : List ℕ
  pub sha256 : List ℕ
  pub position : ℕ

pub data AttemptOutcome : Type 0 where
  accepted transient permanent : AttemptOutcome

-- A row of `delivery_attempt`.
pub record Attempt : Type 0 where
  pub message_id : ℕ
  pub attempt : ℕ
  pub at : ℕ
  pub outcome : AttemptOutcome
  pub smtp_code : Option ℕ
  pub relay_queue_id : Option Str
  pub detail : Option Str

pub data Reason : Type 0 where
  hard_bounce complaint manual invalid : Reason

-- A row of `suppression`. A missing tenant means every tenant.
pub record Suppression : Type 0 where
  pub id : ℕ
  pub tenant_id : Option ℕ
  pub address : Str
  pub reason : Reason
  pub source : Str
  pub detail : Option Str
  pub created_at : ℕ
  pub removed_at : Option ℕ
  pub removed_by : Option Str

pub data BounceClass : Type 0 where
  permanent transient unknown : BounceClass

-- A row of `bounce_report`.
pub record BounceReport : Type 0 where
  pub received_at : ℕ
  pub raw : Str
  pub relay_queue_id : Option Str
  pub message_id : Option ℕ
  pub final_rcpt : Option Str
  pub status_code : Option Str
  pub diagnostic : Option Str
  pub classification : Option BounceClass

-- `suppression_seq` is the next value of the sequence behind `suppression.id`, and
-- `notified` the number of wake-ups sent on the queue's channel.
pub record Db : Type 0 where
  pub messages : List Message
  pub attachments : List StoredAttachment
  pub attempts : List Attempt
  pub suppressions : List Suppression
  pub suppression_seq : ℕ
  pub bounces : List BounceReport
  pub notified : ℕ
