-- ===== src/Queue/Keeps.antt =====
-- Every operation of the queue keeps its table sound.
use postbud.Prelude.Rows.{count_where-concat, count_where-none, find?-none, All-concat}
use postbud.Prelude.{
  ℕ, ◌+◌, ◌≤◌, ◌≡◌, refl, ◌∙◌, Bool, true, false, ◌&&◌, List, [], ◌∷◌, ◌++◌, Option, none, some,
  arith, ◌==◌, if◌then◌else◌, any, is_none, Bool-cases, eq_of_==, inl, inr, find?, count_where,
}
use postbud.Queue.Sound.{IsSoundRow, IsSound, update_where-IsSound, is_due-of_chosen}
use postbud.Queue.{
  retry_at, NewMessage, has_key, has_id, new_row, accept, is_due, is_in, chosen, mark_claimed,
  claim, log_attempt, mark_sent, record_accepted, reschedule, record_transient, mark_failed,
  record_failed, blank, is_purgeable, is_older, purge_bodies,
}
use postbud.Store.{Platform, Db, Message, AttemptOutcome, days}
use postbud.Suppression.{is_suppressed}
use postbud.Text.Case.{eq_of_str_eq}
use postbud.Text.{Str, str_eq}

-- Each update of a row keeps it sound.

mark_claimed-IsSoundRow :
    (now : ℕ) (worker : Str) (m : Message)
    → is_due now m ≡ true
    → IsSoundRow m
    → IsSoundRow (mark_claimed now worker m)
mark_claimed-IsSoundRow now worker m d s = record {
  completed = s.completed;
  claimant = refl;
  claimed_open = λ e. ground arith;
  purged = s.purged;
}

mark_sent-IsSoundRow :
    (now attempt : ℕ) (qid : Option Str) (m : Message)
    → IsSoundRow m
    → IsSoundRow (mark_sent now attempt qid m)
mark_sent-IsSoundRow now attempt qid m s = record {
  completed = refl;
  claimant = refl;
  claimed_open = λ e. cc;
  purged = λ e. (refl, (s.purged e).1, (s.purged e).2);
}

mark_failed-IsSoundRow :
    (now attempt : ℕ) (detail : Str) (m : Message)
    → IsSoundRow m
    → IsSoundRow (mark_failed now attempt detail m)
mark_failed-IsSoundRow now attempt detail m s = record {
  completed = refl;
  claimant = refl;
  claimed_open = λ e. cc;
  purged = λ e. (refl, (s.purged e).1, (s.purged e).2);
}

reschedule-IsSoundRow :
    (attempt next : ℕ) (detail : Str) (m : Message)
    → IsSoundRow m
    → IsSoundRow (reschedule attempt next detail m)
reschedule-IsSoundRow attempt next detail m s = record {
  completed = s.completed;
  claimant = refl;
  claimed_open = λ e. cc;
  purged = s.purged;
}

blank-IsSoundRow :
    (now age : ℕ) (m : Message)
    → is_purgeable now age m ≡ true
    → IsSoundRow m
    → IsSoundRow (blank now m)
blank-IsSoundRow now age m p s = record {
  completed = s.completed;
  claimant = s.claimant;
  claimed_open = s.claimed_open;
  purged = λ e. (s.completed ∙ older m.completed_at (ground arith), refl, refl);
}
  where
    older : (o : Option ℕ) → is_older now age o ≡ true → is_none o ≡ false
    older none e = cc
    older (some at) e = refl

new_row-IsSoundRow : (id now : ℕ) (msg : NewMessage) (s : Bool) → IsSoundRow (new_row id now msg s)
new_row-IsSoundRow id now msg true = record {
  completed = refl;
  claimant = refl;
  claimed_open = λ e. cc;
  purged = λ e. cc;
}
new_row-IsSoundRow id now msg false = record {
  completed = refl;
  claimant = refl;
  claimed_open = λ e. cc;
  purged = λ e. cc;
}

-- Claiming keeps the table sound.
pub claim-IsSound :
    (now : ℕ) (locked : List ℕ) (db : Db) (worker : Str) (batch : ℕ)
    → IsSound db.messages
    → IsSound (claim now locked db worker batch).0.messages
unfolding claim
claim-IsSound now locked db worker batch s =
    update_where-IsSound (λ m. is_in (chosen now locked batch db.messages) m.id)
      (mark_claimed now worker) (λ m. (refl, refl, refl)) db.messages
      (λ m mem e.
        mark_claimed-IsSoundRow now worker m
          (is_due-of_chosen now locked batch db.messages s.ids m mem e))
      s

pub log_attempt-messages :
    (now : ℕ) (db : Db) (id attempt : ℕ) (o : AttemptOutcome) (code : Option ℕ)
    (qid detail : Option Str) {db' : Db}
    → log_attempt now db id attempt o code qid detail ≡ some db'
    → db'.messages ≡ db.messages
unfolding log_attempt
log_attempt-messages now db id attempt o code qid detail h = ground arith

-- Recording an acceptance by the relay keeps the table sound.
pub record_accepted-IsSound :
    (now : ℕ) (db : Db) (id attempt : ℕ) (qid : Option Str) {db' : Db}
    → record_accepted now db id attempt qid ≡ some db'
    → IsSound db.messages
    → IsSound db'.messages
unfolding record_accepted
record_accepted-IsSound now db id attempt qid h s =
    rw (log_attempt-messages now _ id attempt AttemptOutcome.accepted (some 250) qid none h) (
      update_where-IsSound (has_id id) (mark_sent now attempt qid) (λ m. (refl, refl, refl))
        db.messages (λ m mem e. mark_sent-IsSoundRow now attempt qid m) s)

-- Rescheduling keeps the table sound.
pub record_transient-IsSound :
    (env : Platform) (app_now now : ℕ) (db : Db) (id attempt : ℕ) (code : Option ℕ) (detail : Str)
    (retry_in : ℕ) {db' : Db}
    → record_transient env app_now now db id attempt code detail retry_in ≡ some db'
    → IsSound db.messages
    → IsSound db'.messages
unfolding record_transient
record_transient-IsSound env app_now now db id attempt code detail retry_in h s =
    let next = retry_at env app_now retry_in in
    rw (log_attempt-messages now _ id attempt AttemptOutcome.transient code none (some detail) h) (
      update_where-IsSound (has_id id) (reschedule attempt next detail) (λ m. (refl, refl, refl))
        db.messages (λ m mem e. reschedule-IsSoundRow attempt next detail m) s)

-- Recording a failure keeps the table sound.
pub record_failed-IsSound :
    (now : ℕ) (db : Db) (id attempt : ℕ) (code : Option ℕ) (detail : Str) {db' : Db}
    → record_failed now db id attempt code detail ≡ some db'
    → IsSound db.messages
    → IsSound db'.messages
unfolding record_failed
record_failed-IsSound now db id attempt code detail h s =
    rw (log_attempt-messages now _ id attempt AttemptOutcome.permanent code none (some detail) h) (
      update_where-IsSound (has_id id) (mark_failed now attempt detail) (λ m. (refl, refl, refl))
        db.messages (λ m mem e. mark_failed-IsSoundRow now attempt detail m) s)

-- Purging keeps the table sound.
pub purge_bodies-IsSound :
    (now : ℕ) (db : Db) (age : ℕ)
    → IsSound db.messages
    → IsSound (purge_bodies now db age).0.messages
unfolding purge_bodies
purge_bodies-IsSound now db age s =
    update_where-IsSound (is_purgeable now (days age)) (blank now) (λ m. (refl, refl, refl))
      db.messages (λ m mem e. blank-IsSoundRow now (days age) m e) s

-- Where no row has a key, the search for it fails everywhere.
has_key_congr :
    (t : ℕ) (k : Str) (msg : NewMessage) (m : Message)
    → (msg.tenant_id == t) && str_eq msg.idempotency_key k ≡ true
    → has_key t k m ≡ has_key msg.tenant_id msg.idempotency_key m
has_key_congr t k msg m e =
    rw
      (
        ← eq_of_== msg.tenant_id t (ground arith),
        ← eq_of_str_eq msg.idempotency_key k (ground arith),
      )
      refl

any-has_key :
    (t : ℕ) (k : Str) (msg : NewMessage) (ms : List Message)
    → (msg.tenant_id == t) && str_eq msg.idempotency_key k ≡ true
    → any (has_key t k) ms ≡ any (has_key msg.tenant_id msg.idempotency_key) ms
any-has_key t k msg [] e = refl
any-has_key t k msg (m ∷ ms) e = rw (has_key_congr t k msg m e, any-has_key t k msg ms e) refl

-- A new row whose key no row has keeps the table sound, if no row has its id.
concat-IsSound :
    (id now : ℕ) (msg : NewMessage) (s : Bool) (ms : List Message)
    → find? (has_key msg.tenant_id msg.idempotency_key) ms ≡ none
    → any (has_id id) ms ≡ false
    → IsSound ms
    → IsSound (ms ++ new_row id now msg s ∷ [])
concat-IsSound id now msg s ms k f sound = record {
  rows = All-concat IsSoundRow ms row sound.rows (new_row-IsSoundRow id now msg s);
  ids = λ i. rw (count_where-concat (has_id i) ms row) (ids i);
  keys = λ t key. rw (count_where-concat (has_key t key) ms row) (keys t key);
}
  where
    row : Message
    row = new_row id now msg s

    ids : (i : ℕ) → count_where (has_id i) ms + (if has_id i row then 1 else 0) ≤ 1
    ids i = elim (Bool-cases (id == i)) [
      | inr e ↦ rw e (omega (arith, sound.ids i))
      | inl e ↦ rw e (omega (arith, count_where-none (has_id i) ms (rw (eq_of_== id i e) at f)))
    ]

    keys :
        (t : ℕ) (key : Str)
        → count_where (has_key t key) ms + (if has_key t key row then 1 else 0) ≤ 1
    keys t key = elim (Bool-cases (has_key t key row)) [
      | inr e ↦ rw e (omega (arith, sound.keys t key))
      | inl e ↦ rw e (
          omega (
            arith,
            count_where-none (has_key t key) ms (any-has_key t key msg ms e ∙ find?-none _ ms k),
          ))
    ]

-- Accepting keeps the table sound, if the database draws an id that no row has.
pub accept-IsSound :
    (env : Platform) (now id : ℕ) (db : Db) (msg : NewMessage)
    → any (has_id id) db.messages ≡ false
    → IsSound db.messages
    → IsSound (accept env now id db msg).0.messages
unfolding accept
accept-IsSound env now id db msg f s =
    go (find? (has_key msg.tenant_id msg.idempotency_key) db.messages) refl
  where
    go :
        (o : Option Message)
        → find? (has_key msg.tenant_id msg.idempotency_key) db.messages ≡ o
        → IsSound (accept env now id db msg).0.messages
    go none e =
        rw (e, accept)
          (concat-IsSound id now msg (is_suppressed env db msg.tenant_id msg.rcpt_to) db.messages e
            f s)
    go (some m) e = rw (e, accept) s
