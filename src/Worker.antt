-- ===== src/Worker.antt =====
-- crates/postbud-relay/src/worker.rs: `deliver_one`, which turns what the relay said of one
-- handoff (`Outcome` of lib.rs) into one transaction of the queue.
pub mod Deliver
use postbud.Prelude.{ℕ, ◌+◌, List, [], ◌++◌, Option, none, some}
use postbud.Queue.{Claimed, record_accepted, record_transient, record_failed}
use postbud.Retry.{backoff}
use postbud.Store.{Platform, Db}
use postbud.Text.{Str, codes, decimal}

pub data Outcome : Type 0 where
  accepted : Option Str → Outcome
  transient : Option ℕ → Str → Outcome
  permanent : Option ℕ → Str → Outcome

abbrev pub giving_up : ℕ → Str → Str
giving_up attempt detail =
    codes "giving up after " ++ (decimal attempt ++ (codes " attempts: " ++ detail))

-- `app_now` is the worker's clock and `now` the database's. The outcome is the answer of
-- `relay.send(msg)`.
unfoldable pub deliver_one : Platform → ℕ → ℕ → Db → Claimed → Outcome → Option Db
deliver_one env app_now now db msg (accepted queue_id) =
    record_accepted now db msg.id (msg.attempts + 1) queue_id
deliver_one env app_now now db msg (permanent code detail) =
    record_failed now db msg.id (msg.attempts + 1) code detail
deliver_one env app_now now db msg (transient code detail) =
    let attempt = msg.attempts + 1 in
    elim (backoff attempt) [
      | some delay ↦ record_transient env app_now now db msg.id attempt code detail delay
      | none ↦ record_failed now db msg.id attempt code (giving_up attempt detail)
    ]
