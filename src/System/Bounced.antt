-- ===== src/System/Bounced.antt =====
-- From a hard bounce to the next submission: the address stays out of circulation for every
-- tenant until somebody lifts it.
use postbud.Bounce.Ingest.{takes_out, is_suppressed-ingest}
use postbud.Bounce.{ingest}
use postbud.Dsn.Suppress.{Justified, parse-should_suppress}
use postbud.Dsn.{Report, should_suppress, parse}
use postbud.Prelude.Rows.{any_of_mem}
use postbud.Prelude.{
  ℕ, ◌+◌, ◌≡◌, refl, sym, ap, ◌∙◌, ◌↔◌, true, List, [], ◌∷◌, subst, Memᴰ, Option, none, some, arith,
  any, All, find?, update_where,
}
use postbud.Queue.{
  NewMessage, Claimed, has_key, insert_message, accept, claim, purge_bodies, log_attempt,
  record_accepted, record_transient, record_failed, has_id, mark_sent, mark_failed, reschedule,
  retry_at,
}
use postbud.RelayQueue.{reconcile}
use postbud.Retry.{backoff}
use postbud.Store.{Platform, Db, Message, suppressed, AttemptOutcome}
use postbud.Suppression.Active.{is_suppressed-add}
use postbud.Suppression.{suppresses as hits, is_suppressed, same_address}
use postbud.System.{
  Op, accepts, claims, delivers, ingests, reconciles, purges, suppresses, lifts, or_unchanged,
  apply,
}
use postbud.System.Lease.{apply_all}
use postbud.Text.{Str}
use postbud.Worker.{Outcome, accepted, transient, permanent, deliver_one, giving_up}

accept-suppressions :
    (env : Platform) (now id : ℕ) (db : Db) (msg : NewMessage)
    → (accept env now id db msg).0.suppressions ≡ db.suppressions
unfolding accept insert_message
accept-suppressions env now id db msg =
    go (find? (has_key msg.tenant_id msg.idempotency_key) db.messages) refl
  where
    go :
        (o : Option Message)
        → find? (has_key msg.tenant_id msg.idempotency_key) db.messages ≡ o
        → (accept env now id db msg).0.suppressions ≡ db.suppressions
    go none e = rw (e, accept) refl
    go (some m) e = rw (e, accept) refl

log_attempt-suppressions :
    (now : ℕ) (db : Db) (ms : List Message) (id attempt : ℕ) (o : AttemptOutcome) (code : Option ℕ)
    (qid detail : Option Str)
    → (or_unchanged db
        (log_attempt now (record db { messages = ms }) id attempt o code qid detail)).suppressions
      ≡ db.suppressions
unfolding log_attempt
log_attempt-suppressions now db ms id attempt o code qid detail = ground arith

deliver_one-suppressions :
    (env : Platform) (app_now now : ℕ) (db : Db) (msg : Claimed) (o : Outcome)
    → (or_unchanged db (deliver_one env app_now now db msg o)).suppressions ≡ db.suppressions
unfolding deliver_one record_accepted record_transient record_failed
deliver_one-suppressions env app_now now db msg (accepted qid) =
    log_attempt-suppressions now db
      (update_where (has_id msg.id) (mark_sent now (msg.attempts + 1) qid) db.messages) msg.id
      (msg.attempts + 1) AttemptOutcome.accepted (some 250) qid none
deliver_one-suppressions env app_now now db msg (permanent code detail) =
    log_attempt-suppressions now db
      (update_where (has_id msg.id) (mark_failed now (msg.attempts + 1) detail) db.messages) msg.id
      (msg.attempts + 1) AttemptOutcome.permanent code none (some detail)
deliver_one-suppressions env app_now now db msg (transient code detail) =
    go (backoff (msg.attempts + 1)) refl
  where
    go :
        (b : Option ℕ)
        → backoff (msg.attempts + 1) ≡ b
        → (or_unchanged db
            (deliver_one env app_now now db msg (transient code detail))).suppressions
          ≡ db.suppressions
    go none e =
        rw (e, deliver_one)
          (log_attempt-suppressions now db
            (update_where (has_id msg.id)
              (mark_failed now (msg.attempts + 1) (giving_up (msg.attempts + 1) detail))
              db.messages)
            msg.id (msg.attempts + 1) AttemptOutcome.permanent code none
            (some (giving_up (msg.attempts + 1) detail)))
    go (some d) e =
        rw (e, deliver_one)
          (log_attempt-suppressions now db
            (update_where (has_id msg.id)
              (reschedule (msg.attempts + 1) (retry_at env app_now d) detail) db.messages)
            msg.id (msg.attempts + 1) AttemptOutcome.transient code none (some detail))

-- Anything but lifting a suppression.
abbrev pub LiftsNothing : Op → Type 0
LiftsNothing (lifts now id by) = ⊥
LiftsNothing _ = Unit

module _ (env : Platform) (t : ℕ) (to : Str) where
  same_suppressions :
      (db db' : Db)
      → db'.suppressions ≡ db.suppressions
      → is_suppressed env db t to ≡ true
      → is_suppressed env db' t to ≡ true
  unfolding is_suppressed
  same_suppressions db db' e h = ap (any (hits env t to)) e ∙ h

  still_suppressed :
      (op : Op) (db : Db)
      → LiftsNothing op
      → is_suppressed env db t to ≡ true
      → is_suppressed env (apply env op db) t to ≡ true
  unfolding apply
  still_suppressed (accepts now id msg) db w h =
      same_suppressions db (accept env now id db msg).0 (accept-suppressions env now id db msg) h
  still_suppressed (claims now locked worker batch) db w h =
      same_suppressions db (claim now locked db worker batch).0 (unfold claim in refl) h
  still_suppressed (delivers app_now now msg o) db w h =
      same_suppressions db (or_unchanged db (deliver_one env app_now now db msg o))
        (deliver_one-suppressions env app_now now db msg o) h
  still_suppressed (ingests now raw) db w h = is_suppressed-ingest env now raw db t to ∙ rw h refl
  still_suppressed (reconciles now entries grace) db w h =
      same_suppressions db (reconcile now db entries grace).0 (unfold reconcile in refl) h
  still_suppressed (purges now age) db w h =
      same_suppressions db (purge_bodies now db age).0 (unfold purge_bodies in refl) h
  still_suppressed (suppresses now tenant address reason source detail) db w h =
      is_suppressed-add env now db tenant address reason source detail t to ∙ rw h refl
  still_suppressed (lifts now id by) db w h = absurd w

  stays_suppressed :
      (ops : List Op) (db : Db)
      → All LiftsNothing ops
      → is_suppressed env db t to ≡ true
      → is_suppressed env (apply_all env ops db) t to ≡ true
  stays_suppressed [] db w h = h
  stays_suppressed (op ∷ ops) db w h =
      stays_suppressed ops (apply env op db) w.1 (still_suppressed op db w.0 h)

All-at : (P : Report → Type 0) {r : Report} (rs : List Report) → Memᴰ r rs → All P rs → P r
All-at P [] m h = elim m [ ]
All-at P (x ∷ rs) (Memᴰ.head e) h = subst P (sym e) h.0
All-at P (x ∷ rs) (Memᴰ.tail m) h = All-at P rs m h.1

accept_of_is_suppressed :
    (env : Platform) (now id : ℕ) (db : Db) (msg : NewMessage)
    → find? (has_key msg.tenant_id msg.idempotency_key) db.messages ≡ none
    → is_suppressed env db msg.tenant_id msg.rcpt_to ≡ true
    → ((accept env now id db msg).1.status ≡ suppressed)
      × ((accept env now id db msg).0.notified ≡ db.notified)
unfolding accept insert_message
accept_of_is_suppressed env now id db msg e h =
    (rw (e, accept) (rw h refl), rw (e, accept) (rw h refl))

-- After a notification with a report that justifies it, and any operations but the lifting of a
-- suppression, a new message of any tenant to the reported address is recorded as suppressed and
-- wakes no worker.
pub accept_after_bounce :
    (env : Platform) (now now' id : ℕ) (db : Db) (raw : Str) (r : Report) (address : Str)
    (between : List Op) (msg : NewMessage)
    → Memᴰ r (parse raw)
    → Justified r
    → r.final_recipient ≡ some address
    → same_address env address msg.rcpt_to ≡ true
    → All LiftsNothing between
    → find?
        (has_key msg.tenant_id msg.idempotency_key)
        (apply_all env between (ingest env now db raw).0).messages
      ≡ none
    → let after = apply_all env between (ingest env now db raw).0 in
      ((accept env now' id after msg).1.status ≡ suppressed)
      × ((accept env now' id after msg).0.notified ≡ after.notified)
accept_after_bounce env now now' id db raw r address between msg m j a s w n =
    accept_of_is_suppressed env now' id (apply_all env between (ingest env now db raw).0) msg n
      (stays_suppressed env msg.tenant_id msg.rcpt_to between (ingest env now db raw).0 w taken)
  where
    out : takes_out env now raw msg.rcpt_to r ≡ true
    out =
        rw
          ((All-at (λ x. should_suppress x ≡ true ↔ Justified x) (parse raw) m
              (parse-should_suppress raw)).1
            j)
          (rw a s)

    taken : is_suppressed env (ingest env now db raw).0 msg.tenant_id msg.rcpt_to ≡ true
    taken =
        is_suppressed-ingest env now raw db msg.tenant_id msg.rcpt_to
        ∙ ground (arith, any_of_mem (takes_out env now raw msg.rcpt_to) (parse raw) m out)
