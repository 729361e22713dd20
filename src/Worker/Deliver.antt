-- ===== src/Worker/Deliver.antt =====
-- What one delivery leaves behind: on every outcome the message is settled or rescheduled, its
-- claim is gone, and one attempt is logged.
use native.Mathlib.Numerals.{add-one}
use postbud.Prelude.Rows.{
  any-update_where, find?-update_where, find?-update_where_other, any-of_find?, find?-true,
}
use postbud.Prelude.{
  ℕ, zero, suc, ◌+◌, ◌≤◌, ◌<◌, ◌≡◌, refl, ap, ◌∙◌, true, false, [], ◌∷◌, ◌++◌, Option, none, some,
  arith, ◌==◌, any, find?, update_where, inl, inr, ◌⊎◌,
}
use postbud.Queue.{
  Claimed, has_id, log_attempt, record_accepted, record_transient, record_failed, mark_sent,
  mark_failed, reschedule, retry_at,
}
use postbud.Retry.{backoff}
use postbud.Store.{Platform, Db, Message, Attempt, AttemptOutcome, seconds, sent, failed}
use postbud.Text.{Str}
use postbud.Worker.{Outcome, accepted, transient, permanent, giving_up, deliver_one}

-- The delays that a delivery can meet: five minutes at least and a day at most.
abbrev pub InRange : ℕ → Type 0
InRange delay = (300 ≤ delay) × (delay ≤ 86400)

-- After the attempts 1 to 8 there is a next one, after the ninth there is none.
backoff_cases :
    (n : ℕ)
    → ((d : ℕ) × (backoff (suc n) ≡ some d) × (suc n < 9) × InRange d)
      ⊎ ((backoff (suc n) ≡ none) × (9 ≤ suc n))
unfolding backoff
backoff_cases zero = inl (300, refl, omega arith, omega arith)
backoff_cases (suc zero) = inl (900, refl, omega arith, omega arith)
backoff_cases (suc (suc zero)) = inl (3600, refl, omega arith, omega arith)
backoff_cases (suc (suc (suc zero))) = inl (10800, refl, omega arith, omega arith)
backoff_cases (suc (suc (suc (suc zero)))) = inl (21600, refl, omega arith, omega arith)
backoff_cases (suc (suc (suc (suc (suc zero))))) = inl (43200, refl, omega arith, omega arith)
backoff_cases (suc (suc (suc (suc (suc (suc zero)))))) = inl (86400, refl, omega arith, omega arith)
backoff_cases (suc (suc (suc (suc (suc (suc (suc zero))))))) =
    inl (86400, refl, omega arith, omega arith)
backoff_cases (suc (suc (suc (suc (suc (suc (suc (suc n)))))))) = inr (refl, omega arith)

pub retry_cases :
    (n : ℕ)
    → ((d : ℕ) × (backoff (n + 1) ≡ some d) × (n + 1 < 9) × InRange d)
      ⊎ ((backoff (n + 1) ≡ none) × (9 ≤ n + 1))
retry_cases n = rw add-one (backoff_cases n)

-- What a delivery makes of the row of its message, by what the relay said.
pub data Settles (app_now now : ℕ) (msg : Claimed) (m m' : Message) : Outcome → Type 0 where
  relayed :
      (qid : Option Str)
      → m' ≡ record m {
        status = sent;
        attempts = msg.attempts + 1;
        relay_queue_id = qid;
        claimed_at = none;
        claimed_by = none;
        completed_at = some now;
        last_error = none;
      }
      → Settles app_now now msg m m' (accepted qid)
  refused :
      (code : Option ℕ) (detail : Str)
      → m' ≡ record m {
        status = failed;
        attempts = msg.attempts + 1;
        last_error = some detail;
        claimed_at = none;
        claimed_by = none;
        completed_at = some now;
      }
      → Settles app_now now msg m m' (permanent code detail)
  postponed :
      (code : Option ℕ) (detail : Str) (delay : ℕ)
      → msg.attempts + 1 < 9
      → InRange delay
      → m' ≡ record m {
        attempts = msg.attempts + 1;
        next_attempt_at = app_now + seconds delay;
        last_error = some detail;
        claimed_at = none;
        claimed_by = none;
      }
      → Settles app_now now msg m m' (transient code detail)
  given_up :
      (code : Option ℕ) (detail : Str)
      → 9 ≤ msg.attempts + 1
      → m' ≡ record m {
        status = failed;
        attempts = msg.attempts + 1;
        last_error = some (giving_up (msg.attempts + 1) detail);
        claimed_at = none;
        claimed_by = none;
        completed_at = some now;
      }
      → Settles app_now now msg m m' (transient code detail)

-- The tables behind a delivery of the message `m`: its row is `m'`, the rows of other messages
-- are as they were, and one attempt is logged behind the others.
pub record Leaves (db db' : Db) (msg : Claimed) (m' : Message) : Type 0 where
  pub row : find? (has_id msg.id) db'.messages ≡ some m'
  pub others :
      (i : ℕ) → (i == msg.id) ≡ false → find? (has_id i) db'.messages ≡ find? (has_id i) db.messages
  pub entry : Attempt
  pub logged : db'.attempts ≡ db.attempts ++ entry ∷ []
  pub entry_message : entry.message_id ≡ msg.id
  pub entry_number : entry.attempt ≡ msg.attempts + 1

module _ (now : ℕ) (db : Db) (msg : Claimed) (m : Message) where
  -- An update of the message's row that keeps its id, and the attempt logged behind it.
  log_attempt-Leaves :
      (f : Message → Message) (o : AttemptOutcome) (code : Option ℕ) (qid detail : Option Str)
      → ((x : Message) → (f x).id ≡ x.id)
      → find? (has_id msg.id) db.messages ≡ some m
      → (db' : Db) × (log_attempt now
            (record db { messages = update_where (has_id msg.id) f db.messages })
            msg.id
            (msg.attempts + 1)
            o
            code
            qid
            detail
          ≡ some db')
        × Leaves db db' msg (f m)
  unfolding log_attempt
  log_attempt-Leaves f o code qid detail keep h = (
    record db {
      messages = update_where (has_id msg.id) f db.messages;
      attempts = db.attempts ++ logged_entry ∷ [];
    },
    rw there refl,
    record {
      row =
          rw
            (find?-update_where (has_id msg.id) (has_id msg.id) f (λ x. rw (keep x) refl)
              db.messages m h)
            (rw (find?-true (has_id msg.id) db.messages m h) refl);
      others = λ i ne.
          find?-update_where_other (has_id i) (has_id msg.id) f (λ x e. ground arith)
            (λ x e. rw (keep x) (ground arith)) db.messages;
      entry = logged_entry;
      logged = refl;
      entry_message = refl;
      entry_number = refl;
    },
  )
    where
      logged_entry : Attempt
      logged_entry = record {
        message_id = msg.id;
        attempt = msg.attempts + 1;
        at = now;
        outcome = o;
        smtp_code = code;
        relay_queue_id = qid;
        detail = detail;
      }

      there : any (has_id msg.id) (update_where (has_id msg.id) f db.messages) ≡ true
      there =
          any-update_where (has_id msg.id) (has_id msg.id) f (λ x. rw (keep x) refl) db.messages
          ∙ any-of_find? (has_id msg.id) db.messages m h

-- Every delivery of a message that the table holds is recorded, whatever the relay said, and its
-- row is settled or postponed accordingly: an accepted one is sent, a refused one failed, and one
-- that the relay put off is postponed up to its eighth attempt and failed from the ninth on.
pub deliver_one-Settles :
    (env : Platform)
    → ((s : ℕ) → s ≤ 86400 → env.from_std s ≡ some s)
    → (app_now now : ℕ) (db : Db) (msg : Claimed) (o : Outcome) (m : Message)
    → find? (has_id msg.id) db.messages ≡ some m
    → (db' : Db) × (m' : Message) × (deliver_one env app_now now db msg o ≡ some db')
      × Settles app_now now msg m m' o
      × Leaves db db' msg m'
unfolding deliver_one record_accepted record_transient record_failed
deliver_one-Settles env keeps app_now now db msg (accepted qid) m h =
    let (db', e, l) =
      log_attempt-Leaves now db msg m (mark_sent now (msg.attempts + 1) qid) AttemptOutcome.accepted
        (some 250) qid none (λ x. refl) h in
    (db', _, e, relayed qid refl, l)
deliver_one-Settles env keeps app_now now db msg (permanent code detail) m h =
    let (db', e, l) =
      log_attempt-Leaves now db msg m (mark_failed now (msg.attempts + 1) detail)
        AttemptOutcome.permanent code none (some detail) (λ x. refl) h in
    (db', _, e, refused code detail refl, l)
deliver_one-Settles env keeps app_now now db msg (transient code detail) m h =
    elim (retry_cases msg.attempts) [
      | inl (delay, b, small, range) ↦
          let next = retry_at env app_now delay in
          let at : next ≡ app_now + seconds delay = rw (keeps delay range.1, retry_at) refl in
          let (db', e, l) =
            log_attempt-Leaves now db msg m (reschedule (msg.attempts + 1) next detail)
              AttemptOutcome.transient code none (some detail) (λ x. refl) h in
          (
            db',
            _,
            rw (b, deliver_one) e,
            postponed code detail delay small range
                (ap (λ t. reschedule (msg.attempts + 1) t detail m) at),
            l,
          )
      | inr (b, large) ↦
          let said = giving_up (msg.attempts + 1) detail in
          let (db', e, l) =
            log_attempt-Leaves now db msg m (mark_failed now (msg.attempts + 1) said)
              AttemptOutcome.permanent code none (some said) (λ x. refl) h in
          (db', _, rw (b, deliver_one) e, given_up code detail large refl, l)
    ]
