-- ===== src/System/Resubmit.antt =====
-- Resubmitting under an idempotency key: whatever happened in between, nothing new is queued and
-- the caller gets the id of the first submission back.
use postbud.Prelude.Rows.{find?-map, find?-append, find?-concat}
use postbud.Prelude.{ℕ, ◌≡◌, refl, ◌∙◌, true, List, Option, none, some, arith, find?, ==_refl}
use postbud.Queue.{NewMessage, has_key, insert_message, accept}
use postbud.Store.{Platform, Db, Message}
use postbud.System.Changes.{Changes, rows, inserts, apply-Changes}
use postbud.System.{Reach, here, next}
use postbud.Text.Case.{str_eq_refl}
use postbud.Text.{Str}

-- The table has a row with that key, and the search finds the one with that id.
abbrev pub Holds : ℕ → Str → ℕ → List Message → Type 0
Holds t key id ms = (m : Message) × (find? (has_key t key) ms ≡ some m) × (m.id ≡ id)

module _ (t : ℕ) (key : Str) (id : ℕ) where
  Changes-Holds : {ms ms' : List Message} → Changes ms ms' → Holds t key id ms → Holds t key id ms'
  Changes-Holds {ms} (rows f k e) (m, h, i) = (
    f m,
    rw e (
        find?-map (has_key t key) f (λ x. rw ((k x).tenant_id, (k x).idempotency_key) refl) ms m h),
    (k m).id ∙ i,
  )
  Changes-Holds {ms} (inserts now new msg s n e) (m, h, i) =
      (m, rw e (find?-append (has_key t key) ms _ m h), i)

  Reach-Holds :
      (env : Platform) {start db : Db}
      → Reach env start db
      → Holds t key id start.messages
      → Holds t key id db.messages
  Reach-Holds env here h = h
  Reach-Holds env (next {db} op r d e) h =
      rw e (Changes-Holds (apply-Changes env op db) (Reach-Holds env r h))

accept-Holds :
    (env : Platform) (now id : ℕ) (db : Db) (msg : NewMessage)
    → let (db', a) = accept env now id db msg in
      Holds msg.tenant_id msg.idempotency_key a.id db'.messages
unfolding accept insert_message
accept-Holds env now id db msg =
    go (find? (has_key msg.tenant_id msg.idempotency_key) db.messages) refl
  where
    go :
        (o : Option Message)
        → find? (has_key msg.tenant_id msg.idempotency_key) db.messages ≡ o
        → let (db', a) = accept env now id db msg in
          Holds msg.tenant_id msg.idempotency_key a.id db'.messages
    go none e =
        rw (e, accept)
          (
            _,
            find?-concat (has_key msg.tenant_id msg.idempotency_key) db.messages _ e
                (ground (arith, ==_refl msg.tenant_id, str_eq_refl msg.idempotency_key)),
            refl,
          )
    go (some m) e = rw (e, accept) (m, e, refl)

accept-of_Holds :
    (env : Platform) (now id : ℕ) (db : Db) (msg : NewMessage) {first : ℕ}
    → Holds msg.tenant_id msg.idempotency_key first db.messages
    → ((accept env now id db msg).0 ≡ db)
      × ((accept env now id db msg).1.id ≡ first)
      × ((accept env now id db msg).1.deduplicated ≡ true)
unfolding accept
accept-of_Holds env now id db msg (m, h, i) =
    (rw (h, accept) refl, rw (h, accept) i, rw (h, accept) refl)

-- A second submission under the key of the first, after any operations of the service, changes
-- nothing, is reported as deduplicated, and returns the id of the first.
pub accept_resubmitted :
    (env : Platform) (now now' id id' : ℕ) (start db : Db) (msg again : NewMessage)
    → Reach env (accept env now id start msg).0 db
    → again.tenant_id ≡ msg.tenant_id
    → again.idempotency_key ≡ msg.idempotency_key
    → ((accept env now' id' db again).0 ≡ db)
      × ((accept env now' id' db again).1.id ≡ (accept env now id start msg).1.id)
      × ((accept env now' id' db again).1.deduplicated ≡ true)
accept_resubmitted env now now' id id' start db msg again r t k =
    accept-of_Holds env now' id' db again (
      rw (t, k)
        (Reach-Holds msg.tenant_id msg.idempotency_key _ env r (accept-Holds env now id start msg)))
