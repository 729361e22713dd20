-- ===== src/System/Changes.antt =====
-- What an operation does to the table of messages: it changes rows one by one, keeping the
-- columns that identify them, or it inserts one row whose key no row has.
use postbud.Bounce.Stored.{ingest_stores}
use postbud.Prelude.Rows.{update_where-map, map-id}
use postbud.Prelude.{
  ℕ, ◌+◌, ◌≡◌, refl, ◌∙◌, Bool, true, false, List, [], ◌∷◌, ◌++◌, map, Option, none, some, arith,
  if◌then◌else◌, any, find?, update_where, Bool-cases, inl, inr,
}
use postbud.Queue.{
  NewMessage, Claimed, has_id, has_key, new_row, accept, claim, purge_bodies, log_attempt,
  mark_claimed, mark_sent, mark_failed, reschedule, record_accepted, record_transient,
  record_failed, retry_at, is_purgeable, blank,
}
use postbud.RelayQueue.Rows.{row_after, reconcile-map, observed}
use postbud.RelayQueue.{reconcile, Queued, changes, observe, has_left, conclude}
use postbud.Retry.{backoff}
use postbud.Store.{Platform, Db, Message, BounceReport, AttemptOutcome, days}
use postbud.Suppression.{is_suppressed, add, remove}
use postbud.System.{
  Op, accepts, claims, delivers, ingests, reconciles, purges, suppresses, lifts, or_unchanged,
  apply,
}
use postbud.Text.{Str}
use postbud.Worker.{Outcome, accepted, transient, permanent, deliver_one, giving_up}

-- The identifying columns are those of the row before.
pub record SameKeys (m m' : Message) : Type 0 where
  pub id : m'.id ≡ m.id
  pub tenant_id : m'.tenant_id ≡ m.tenant_id
  pub idempotency_key : m'.idempotency_key ≡ m.idempotency_key

pub data Changes (ms ms' : List Message) : Type 0 where
  rows :
      (f : Message → Message) → ((m : Message) → SameKeys m (f m)) → ms' ≡ map f ms → Changes ms ms'
  inserts :
      (now id : ℕ) (msg : NewMessage) (s : Bool)
      → find? (has_key msg.tenant_id msg.idempotency_key) ms ≡ none
      → ms' ≡ ms ++ new_row id now msg s ∷ []
      → Changes ms ms'

Changes-same : {ms ms' : List Message} → ms' ≡ ms → Changes ms ms'
Changes-same {ms} e =
    rows (λ m. m) (λ m. record { id = refl; tenant_id = refl; idempotency_key = refl })
      (e ∙ map-id ms)

SameKeys-if : (b : Bool) {m m' : Message} → SameKeys m m' → SameKeys m (if b then m' else m)
SameKeys-if true k = k
SameKeys-if false k = record { id = refl; tenant_id = refl; idempotency_key = refl }

Changes-update_where :
    (p : Message → Bool) (f : Message → Message) (ms : List Message)
    → ((m : Message) → SameKeys m (f m))
    → Changes ms (update_where p f ms)
Changes-update_where p f ms k =
    rows (λ m. if p m then f m else m) (λ m. SameKeys-if (p m) (k m)) (update_where-map p f ms)

kept :
    (m m' : Message)
    → m'.id ≡ m.id
    → m'.tenant_id ≡ m.tenant_id
    → m'.idempotency_key ≡ m.idempotency_key
    → SameKeys m m'
kept m m' a b c = record { id = a; tenant_id = b; idempotency_key = c }

accept-Changes :
    (env : Platform) (now id : ℕ) (db : Db) (msg : NewMessage)
    → Changes db.messages (accept env now id db msg).0.messages
unfolding accept
accept-Changes env now id db msg =
    go (find? (has_key msg.tenant_id msg.idempotency_key) db.messages) refl
  where
    go :
        (o : Option Message)
        → find? (has_key msg.tenant_id msg.idempotency_key) db.messages ≡ o
        → Changes db.messages (accept env now id db msg).0.messages
    go none e =
        inserts now id msg (is_suppressed env db msg.tenant_id msg.rcpt_to) e (rw (e, accept) refl)
    go (some m) e = Changes-same (rw (e, accept) refl)

claim-Changes :
    (now : ℕ) (locked : List ℕ) (db : Db) (worker : Str) (batch : ℕ)
    → Changes db.messages (claim now locked db worker batch).0.messages
unfolding claim
claim-Changes now locked db worker batch =
    Changes-update_where _ (mark_claimed now worker) db.messages (λ m. kept m _ refl refl refl)

-- An update of the message with an id, behind the attempt that is logged of it, or nothing.
log_attempt-Changes :
    (now : ℕ) (db : Db) (id attempt : ℕ) (f : Message → Message) (o : AttemptOutcome)
    (code : Option ℕ) (qid detail : Option Str)
    → ((m : Message) → SameKeys m (f m))
    → Changes db.messages
        (or_unchanged db (
          log_attempt now
            (record db { messages = update_where (has_id id) f db.messages })
            id
            attempt
            o
            code
            qid
            detail)).messages
unfolding log_attempt
log_attempt-Changes now db id attempt f o code qid detail k =
    elim (Bool-cases (any (has_id id) (update_where (has_id id) f db.messages))) [
      | inl e ↦ rw e (Changes-update_where (has_id id) f db.messages k)
      | inr e ↦ rw e (Changes-same refl)
    ]

deliver_one-Changes :
    (env : Platform) (app_now now : ℕ) (db : Db) (msg : Claimed) (o : Outcome)
    → Changes db.messages (or_unchanged db (deliver_one env app_now now db msg o)).messages
unfolding deliver_one record_accepted record_transient record_failed
deliver_one-Changes env app_now now db msg (accepted qid) =
    log_attempt-Changes now db msg.id _ (mark_sent now (msg.attempts + 1) qid) _ _ _ _
      (λ m. kept m _ refl refl refl)
deliver_one-Changes env app_now now db msg (permanent code detail) =
    log_attempt-Changes now db msg.id _ (mark_failed now (msg.attempts + 1) detail) _ _ _ _
      (λ m. kept m _ refl refl refl)
deliver_one-Changes env app_now now db msg (transient code detail) =
    go (backoff (msg.attempts + 1)) refl
  where
    go :
        (b : Option ℕ)
        → backoff (msg.attempts + 1) ≡ b
        → Changes db.messages
            (or_unchanged db (deliver_one env app_now now db msg (transient code detail))).messages
    go none e =
        rw (e, deliver_one)
          (log_attempt-Changes now db msg.id _
            (mark_failed now (msg.attempts + 1) (giving_up (msg.attempts + 1) detail)) _ _ _ _
            (λ m. kept m _ refl refl refl))
    go (some d) e =
        rw (e, deliver_one)
          (log_attempt-Changes now db msg.id _
            (reschedule (msg.attempts + 1) (retry_at env app_now d) detail) _ _ _ _
            (λ m. kept m _ refl refl refl))

SameKeys-trans : {a b c : Message} → SameKeys a b → SameKeys b c → SameKeys a c
SameKeys-trans k l = record {
  id = l.id ∙ k.id;
  tenant_id = l.tenant_id ∙ k.tenant_id;
  idempotency_key = l.idempotency_key ∙ k.idempotency_key;
}

observed-SameKeys :
    (now : ℕ) (entries : List Queued) (m : Message) → SameKeys m (observed now entries m)
observed-SameKeys now [] m = kept m m refl refl refl
observed-SameKeys now (e ∷ rest) m =
    SameKeys-trans (SameKeys-if (changes e m) (kept m (observe now e m) refl refl refl))
      (observed-SameKeys now rest (if changes e m then observe now e m else m))

pub row_after-SameKeys :
    (now grace : ℕ) (entries : List Queued) (bounces : List BounceReport) (m : Message)
    → SameKeys m (row_after now grace entries bounces m)
row_after-SameKeys now grace entries bounces m =
    let seen = observed now entries m in
    SameKeys-trans (observed-SameKeys now entries m) (
      SameKeys-if (has_left now grace entries bounces seen)
        (kept seen (conclude now seen) refl refl refl))

reconcile-Changes :
    (now : ℕ) (db : Db) (entries : List Queued) (grace : ℕ)
    → Changes db.messages (reconcile now db entries grace).0.messages
reconcile-Changes now db entries grace =
    rows (row_after now grace entries db.bounces) (row_after-SameKeys now grace entries db.bounces)
      (reconcile-map now db entries grace)

-- Every operation changes the table so.
pub apply-Changes :
    (env : Platform) (op : Op) (db : Db) → Changes db.messages (apply env op db).messages
unfolding apply
apply-Changes env (accepts now id msg) db = accept-Changes env now id db msg
apply-Changes env (claims now locked worker batch) db = claim-Changes now locked db worker batch
apply-Changes env (delivers app_now now msg o) db = deliver_one-Changes env app_now now db msg o
apply-Changes env (ingests now raw) db = Changes-same (ingest_stores env now raw db).0
apply-Changes env (reconciles now entries grace) db = reconcile-Changes now db entries grace
apply-Changes env (purges now age) db =
    unfold purge_bodies in
    Changes-update_where (is_purgeable now (days age)) (blank now) db.messages
      (λ m. kept m (blank now m) refl refl refl)
apply-Changes env (suppresses now tenant address reason source detail) db =
    Changes-same (unfold add in ground arith)
apply-Changes env (lifts now id by) db = Changes-same (unfold remove in refl)
