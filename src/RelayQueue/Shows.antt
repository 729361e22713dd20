-- ===== src/RelayQueue/Shows.antt =====
-- What one snapshot makes of each message: a message that the relay still holds shows what the
-- relay says of it, and one is taken for delivered only on the evidence that is asked for.
use postbud.RelayQueue.Rows.{observed, row_after, reconcile-map}
use postbud.Prelude.{
  ℕ, ◌≡◌, refl, ap, ◌∙◌, Bool, true, false, not, ◌&&◌, List, [], ◌∷◌, map, Option, none, some,
  arith, if◌then◌else◌, any, is_some, is_none,
}
use postbud.Queue.{is_older}
use postbud.RelayQueue.{
  Queued, state_of, same_state, with_queue_id, changes, observe, is_sent, in_snapshot, has_bounced,
  has_left, conclude, reconcile, same_text, is_text,
}
use postbud.Store.{Db, Message, RelayState, active, deferred, delivered, BounceReport, seconds}
use postbud.Text.Case.{eq_of_str_eq}
use postbud.Text.{Str}

-- What the relay says last of a queue id.
abbrev pub last_entry : Option Str → List Queued → Option Queued
last_entry q [] = none
last_entry q (e ∷ rest) = elim (last_entry q rest) [
  | some l ↦ some l
  | none ↦ if is_text e.queue_id q then some e else none
]

-- The state that a message shows, and the words with it.
abbrev pub shown : Message → Option RelayState × Option Str
shown m = (m.relay_state, m.relay_state_detail)

abbrev said : Message → Option Queued → Option RelayState × Option Str
said m none = shown m
said m (some e) = (some (state_of e.queue_name), e.reason)

abbrev step_row : ℕ → Queued → Message → Message
step_row now e m = if changes e m then observe now e m else m

eq_of_same_state : (o : Option RelayState) (s : RelayState) → same_state o s ≡ true → o ≡ some s
eq_of_same_state none s h = cc
eq_of_same_state (some active) active h = refl
eq_of_same_state (some active) deferred h = cc
eq_of_same_state (some active) delivered h = cc
eq_of_same_state (some deferred) active h = cc
eq_of_same_state (some deferred) deferred h = refl
eq_of_same_state (some deferred) delivered h = cc
eq_of_same_state (some delivered) active h = cc
eq_of_same_state (some delivered) deferred h = cc
eq_of_same_state (some delivered) delivered h = refl

eq_of_same_text : (a b : Option Str) → same_text a b ≡ true → a ≡ b
eq_of_same_text none none h = refl
eq_of_same_text none (some b) h = cc
eq_of_same_text (some a) none h = cc
eq_of_same_text (some a) (some b) h = ap some (eq_of_str_eq a b h)

-- After the statement for an entry with its queue id, a row shows what the entry says.
shown-step_row :
    (now : ℕ) (e : Queued) (m : Message)
    → shown (step_row now e m)
      ≡ (if with_queue_id e.queue_id m then (some (state_of e.queue_name), e.reason) else shown m)
shown-step_row now e m = ground (
  arith,
  eq_of_same_state m.relay_state (state_of e.queue_name),
  eq_of_same_text m.relay_state_detail e.reason,
)

said_by_test :
    (m : Message) (e : Queued) (b : Bool)
    → (if b then (some (state_of e.queue_name), e.reason) else shown m)
      ≡ said m (if b then some e else none)
said_by_test m e true = refl
said_by_test m e false = refl

-- The columns that tell whether a message has left are not touched.
record KeepsEvidence (m m' : Message) : Type 0 where
  queue_id : m'.relay_queue_id ≡ m.relay_queue_id
  status : m'.status ≡ m.status
  completed : m'.completed_at ≡ m.completed_at

step_row-KeepsEvidence : (now : ℕ) (e : Queued) (m : Message) → KeepsEvidence m (step_row now e m)
step_row-KeepsEvidence now e m = ground arith

observed-KeepsEvidence :
    (now : ℕ) (entries : List Queued) (m : Message) → KeepsEvidence m (observed now entries m)
observed-KeepsEvidence now [] m = record { queue_id = refl; status = refl; completed = refl }
observed-KeepsEvidence now (e ∷ rest) m =
    let one = step_row-KeepsEvidence now e m in
    let more = observed-KeepsEvidence now rest (step_row now e m) in
    record {
      queue_id = more.queue_id ∙ one.queue_id;
      status = more.status ∙ one.status;
      completed = more.completed ∙ one.completed;
    }

shown-observed :
    (now : ℕ) (entries : List Queued) (m : Message)
    → shown (observed now entries m) ≡ said m (last_entry m.relay_queue_id entries)
shown-observed now [] m = refl
shown-observed now (e ∷ rest) m =
    shown-observed now rest (step_row now e m)
    ∙ ap (λ q. said (step_row now e m) (last_entry q rest))
        (step_row-KeepsEvidence now e m).queue_id
    ∙ go (last_entry m.relay_queue_id rest) refl
  where
    go :
        (o : Option Queued)
        → last_entry m.relay_queue_id rest ≡ o
        → said (step_row now e m) (last_entry m.relay_queue_id rest)
          ≡ said m (last_entry m.relay_queue_id (e ∷ rest))
    go (some l) k = rw (k, last_entry) refl
    go none k =
        rw (k, last_entry) (shown-step_row now e m ∙ said_by_test m e (with_queue_id e.queue_id m))

last_entry-none :
    (entries : List Queued) (m : Message)
    → is_none (last_entry m.relay_queue_id entries) ≡ not (in_snapshot entries m)
last_entry-none [] m = refl
last_entry-none (e ∷ rest) m = ground (arith, last_entry-none rest m)

-- A message has left the relay: it was handed over with a queue id, more than the grace period
-- ago, and no bounce carries that id.
abbrev pub left_cleanly : ℕ → ℕ → List BounceReport → Message → Bool
left_cleanly now grace_secs bounces m =
    is_some m.relay_queue_id
    && is_sent m.status
    && not (same_state m.relay_state delivered)
    && is_older now (seconds grace_secs) m.completed_at
    && not (has_bounced bounces m)

-- What a message shows after the snapshot.
abbrev pub expected :
    ℕ → ℕ → List Queued → List BounceReport → Message → Option RelayState × Option Str
expected now grace_secs entries bounces m = elim (last_entry m.relay_queue_id entries) [
  | some e ↦ (some (state_of e.queue_name), e.reason)
  | none ↦ if left_cleanly now grace_secs bounces m then (some delivered, none) else shown m
]

shown-conclude :
    (now : ℕ) (m : Message) (b : Bool)
    → shown (if b then conclude now m else m) ≡ (if b then (some delivered, none) else shown m)
shown-conclude now m true = refl
shown-conclude now m false = refl

has_left-congr :
    (now grace_secs : ℕ) (entries : List Queued) (bounces : List BounceReport) (m m' : Message)
    → KeepsEvidence m m'
    → m'.relay_state ≡ m.relay_state
    → has_left now grace_secs entries bounces m' ≡ has_left now grace_secs entries bounces m
has_left-congr now grace_secs entries bounces m m' k e =
    rw (k.queue_id, k.status, k.completed, e) refl

has_left-held :
    (now grace_secs : ℕ) (entries : List Queued) (bounces : List BounceReport) (m m' : Message)
    → m'.relay_queue_id ≡ m.relay_queue_id
    → in_snapshot entries m ≡ true
    → has_left now grace_secs entries bounces m' ≡ false
has_left-held now grace_secs entries bounces m m' k h =
    let held : in_snapshot entries m' ≡ true =
      ap (λ q. any (λ e. is_text e.queue_id q) entries) k ∙ h in
    ground arith

has_left-absent :
    (now grace_secs : ℕ) (entries : List Queued) (bounces : List BounceReport) (m : Message)
    → in_snapshot entries m ≡ false
    → has_left now grace_secs entries bounces m ≡ left_cleanly now grace_secs bounces m
has_left-absent now grace_secs entries bounces m h = rw h (ground arith)

shown-row_after :
    (now grace_secs : ℕ) (entries : List Queued) (bounces : List BounceReport) (m : Message)
    → shown (row_after now grace_secs entries bounces m) ≡ expected now grace_secs entries bounces m
shown-row_after now grace_secs entries bounces m =
    shown-conclude now seen (has_left now grace_secs entries bounces seen)
    ∙ go (last_entry m.relay_queue_id entries) refl
  where
    seen : Message
    seen = observed now entries m

    kept : KeepsEvidence m seen
    kept = observed-KeepsEvidence now entries m

    go :
        (o : Option Queued)
        → last_entry m.relay_queue_id entries ≡ o
        → (if has_left now grace_secs entries bounces seen
            then (some delivered, none)
            else shown seen)
          ≡ expected now grace_secs entries bounces m
    go (some e) k =
        let held : in_snapshot entries m ≡ true = ground (arith, last_entry-none entries m) in
        rw (has_left-held now grace_secs entries bounces m seen kept.queue_id held)
          (shown-observed now entries m ∙ rw (k, expected) refl)
    go none k =
        let absent : in_snapshot entries m ≡ false = ground (arith, last_entry-none entries m) in
        let same : shown seen ≡ shown m = shown-observed now entries m ∙ rw k refl in
        rw
          (
            has_left-congr now grace_secs entries bounces m seen kept (ap (λ p. p.0) same),
            has_left-absent now grace_secs entries bounces m absent,
            same,
          )
          (rw (k, expected) refl)

-- After a snapshot every message of the table shows what the relay says last of its queue id; one
-- that the relay does not hold shows `delivered` if it left cleanly, and is as it was otherwise.
pub reconcile_shows :
    (now : ℕ) (db : Db) (entries : List Queued) (grace_secs : ℕ)
    → map shown (reconcile now db entries grace_secs).0.messages
      ≡ map (expected now grace_secs entries db.bounces) db.messages
reconcile_shows now db entries grace_secs =
    ap (map shown) (reconcile-map now db entries grace_secs) ∙ rows db.messages
  where
    rows :
        (ms : List Message)
        → map shown (map (row_after now grace_secs entries db.bounces) ms)
          ≡ map (expected now grace_secs entries db.bounces) ms
    rows [] = refl
    rows (m ∷ ms) = rw (shown-row_after now grace_secs entries db.bounces m, rows ms) refl
