-- ===== src/RelayQueue.antt =====
-- The relay's queue: crates/postbud-core/src/relayqueue.rs (`Queued`) and
-- crates/postbud-db/src/relayqueue.rs (`reconcile`). The statements of one call are one
-- transaction and read one time.
pub mod Rows
pub mod Shows
use postbud.Prelude.{
  ℕ, ◌+◌, Bool, true, false, not, ◌&&◌, ◌||◌, List, [], ◌∷◌, map, Option, none, some, ◌==◌,
  if◌then◌else◌, any, is_some, update_where, count_where,
}
use postbud.Queue.{is_older}
use postbud.Store.{
  Db, Message, Status, sent, RelayState, active, deferred, delivered, BounceReport, seconds,
}
use postbud.Text.{Str, codes, str_eq}

pub record Queued : Type 0 where
  pub queue_id : Str
  pub queue_name : Str
  pub reason : Option Str

pub record Reconciled : Type 0 where
  pub queued : ℕ
  pub delivered : ℕ
  pub unmatched : ℕ

unfoldable pub state_of : Str → RelayState
state_of name =
    if str_eq name (codes "active")
      || str_eq name (codes "incoming")
      || str_eq name (codes "maildrop")
    then active
    else deferred

abbrev pub same_state : Option RelayState → RelayState → Bool
same_state (some active) active = true
same_state (some deferred) deferred = true
same_state (some delivered) delivered = true
same_state _ _ = false

abbrev pub same_text : Option Str → Option Str → Bool
same_text none none = true
same_text (some a) (some b) = str_eq a b
same_text _ _ = false

-- `relay_queue_id = $1`
abbrev pub is_text : Str → Option Str → Bool
is_text q none = false
is_text q (some a) = str_eq a q

abbrev pub with_queue_id : Str → Message → Bool
with_queue_id q m = is_text q m.relay_queue_id

-- The condition and the assignment of the first statement.
abbrev pub changes : Queued → Message → Bool
changes e m =
    with_queue_id e.queue_id m
    && (not (same_state m.relay_state (state_of e.queue_name))
        || not (same_text m.relay_state_detail e.reason))

abbrev pub observe : ℕ → Queued → Message → Message
observe now e m = record m {
  relay_state = some (state_of e.queue_name);
  relay_state_detail = e.reason;
  relay_state_at = some now;
}

-- The body of the loop.
unfoldable pub see_entry : ℕ → List Message → Reconciled → Queued → List Message × Reconciled
see_entry now messages out e =
    let updated = any (changes e) messages in
    let known = any (with_queue_id e.queue_id) messages in
    (
      update_where (changes e) (observe now e) messages,
      record out {
        queued = out.queued + 1;
        unmatched = if not updated && not known then out.unmatched + 1 else out.unmatched;
      },
    )

unfoldable pub see_entries : ℕ → List Message → Reconciled → List Queued → List Message × Reconciled
see_entries now messages out [] = (messages, out)
see_entries now messages out (e ∷ rest) =
    let (messages', out') = see_entry now messages out e in see_entries now messages' out' rest

abbrev pub is_sent : Status → Bool
is_sent sent = true
is_sent _ = false

-- `m.relay_queue_id = any($1)`, and whether a bounce has the message's queue id.
abbrev pub in_snapshot : List Queued → Message → Bool
in_snapshot entries m = any (λ e. with_queue_id e.queue_id m) entries

abbrev pub same_queue_id : Option Str → Option Str → Bool
same_queue_id none q = false
same_queue_id (some b) q = is_text b q

abbrev pub has_bounced : List BounceReport → Message → Bool
has_bounced bounces m = any (λ b. same_queue_id b.relay_queue_id m.relay_queue_id) bounces

-- The condition of the second statement.
abbrev pub has_left : ℕ → ℕ → List Queued → List BounceReport → Message → Bool
has_left now grace_secs entries bounces m =
    is_some m.relay_queue_id
    && is_sent m.status
    && not (same_state m.relay_state delivered)
    && is_older now (seconds grace_secs) m.completed_at
    && not (in_snapshot entries m)
    && not (has_bounced bounces m)

abbrev pub conclude : ℕ → Message → Message
conclude now m = record m {
  relay_state = some delivered;
  relay_state_detail = none;
  relay_state_at = some now;
}

unfoldable pub reconcile : ℕ → Db → List Queued → ℕ → Db × Reconciled
unfolding see_entries see_entry
reconcile now db entries grace_secs =
    let (messages, out) =
      see_entries now db.messages (record { queued = 0; delivered = 0; unmatched = 0 }) entries in
    let left = has_left now grace_secs entries db.bounces in
    (
      record db { messages = update_where left (conclude now) messages },
      record out { delivered = count_where left messages },
    )
