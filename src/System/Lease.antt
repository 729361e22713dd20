-- ===== src/System/Lease.antt =====
-- The lease of a claim: while it lasts no other worker is handed a claimed message, whatever the
-- other processes do, unless the worker that has it records an outcome.
use postbud.Prelude.Rows.{All-map, All-concat}
use postbud.Prelude.{
  ℕ, ◌+◌, ◌≤◌, ◌≡◌, refl, sym, Bool, true, false, not, ◌&&◌, List, [], ◌∷◌, Option, none, some,
  arith, if◌then◌else◌, any, All, find?, update_where, Bool-cases, inl, inr, subst, ◌==◌, eq_of_==,
  ==_refl,
}
use postbud.Queue.{
  NewMessage, Claimed, has_id, has_key, is_in, is_due, is_free, chosen, new_row, accept, claim,
  purge_bodies, log_attempt, mark_claimed, mark_sent, mark_failed, reschedule, record_accepted,
  record_transient, record_failed, retry_at, is_purgeable, blank, claim_timeout_minutes,
}
use postbud.RelayQueue.Rows.{row_after, reconcile-map, observed}
use postbud.RelayQueue.{Queued, changes, observe, has_left, conclude}
use postbud.Bounce.Stored.{ingest_stores}
use postbud.Retry.{backoff}
use postbud.Suppression.Active.{add-messages}
use postbud.Suppression.{is_suppressed, remove}
use postbud.Worker.{Outcome, accepted, transient, permanent, deliver_one, giving_up}
use postbud.Store.{Platform, Db, Message, BounceReport, AttemptOutcome, days, minutes}
use postbud.System.{
  Op, accepts, claims, delivers, ingests, reconciles, purges, suppresses, lifts, or_unchanged,
  apply,
}
use postbud.Text.{Str}

-- The claim was made at `from` or later.
abbrev pub ClaimedSince : ℕ → Option ℕ → Type 0
ClaimedSince from none = ⊥
ClaimedSince from (some at) = from ≤ at

-- Each row with one of the ids is claimed since then.
abbrev pub IsLeased : ℕ → List ℕ → Message → Type 0
IsLeased from ids m = is_in ids m.id ≡ true → ClaimedSince from m.claimed_at

-- What the others may do meanwhile: anything but claim at an earlier time, record an outcome of
-- one of the messages, or draw one of their ids for a new message.
abbrev pub Meanwhile : ℕ → List ℕ → Op → Type 0
Meanwhile from ids (accepts now id msg) = is_in ids id ≡ false
Meanwhile from ids (claims now locked worker batch) = from ≤ now
Meanwhile from ids (delivers app_now now msg o) = is_in ids msg.id ≡ false
Meanwhile from ids _ = Unit

abbrev pub apply_all : Platform → List Op → Db → Db
apply_all env [] db = db
apply_all env (op ∷ ops) db = apply_all env ops (apply env op db)

module _ (from : ℕ) (ids : List ℕ) where
  -- No row with one of the ids is due before the lease is over.
  pub not_due :
      (now id : ℕ) (locked : List ℕ) (ms : List Message)
      → now ≤ from + minutes claim_timeout_minutes
      → All (IsLeased from ids) ms
      → any (λ m. has_id id m && (is_due now m && not (is_in locked m.id))) ms ≡ true
      → is_in ids id ≡ false
  not_due now id locked [] k l h = cc
  not_due now id locked (m ∷ ms) k l h =
      elim (Bool-cases (has_id id m && (is_due now m && not (is_in locked m.id)))) [
        | inr f ↦ not_due now id locked ms k l.1 (rw f at h)
        | inl t ↦ elim (Bool-cases (is_in ids id)) [
          | inr out ↦ out
          | inl held ↦
              let e : m.id ≡ id = eq_of_== m.id id (ground arith) in
              absurd (
                still_claimed m.claimed_at (l.0 (subst (λ i. is_in ids i ≡ true) (sym e) held))
                  (ground arith))
        ]
      ]
    where
      still_claimed : (o : Option ℕ) → ClaimedSince from o → is_free now o ≡ true → ⊥
      still_claimed none c f = c
      still_claimed (some at) c f = ground arith

  update_where-IsLeased :
      (p : Message → Bool) (f : Message → Message) (ms : List Message)
      → ((m : Message) → p m ≡ true → IsLeased from ids m → IsLeased from ids (f m))
      → All (IsLeased from ids) ms
      → All (IsLeased from ids) (update_where p f ms)
  update_where-IsLeased p f [] k l = tt
  update_where-IsLeased p f (m ∷ ms) k l = (
    elim (Bool-cases (p m)) [ inl e ↦ rw e (k m e l.0) | inr e ↦ rw e l.0 ],
    update_where-IsLeased p f ms k l.1,
  )

  -- A row of another message is not spoken of.
  other : (m : Message) (id : ℕ) → is_in ids id ≡ false → (m.id == id) ≡ true → IsLeased from ids m
  other m id o e h = absurd (clash (subst (λ i. is_in ids i ≡ true) (eq_of_== m.id id e) h))
    where
      clash : is_in ids id ≡ true → ⊥
      clash t = cc

  log_attempt-IsLeased :
      (now : ℕ) (db : Db) (id attempt : ℕ) (f : Message → Message) (o : AttemptOutcome)
      (code : Option ℕ) (qid detail : Option Str)
      → is_in ids id ≡ false
      → ((m : Message) → (f m).id ≡ m.id)
      → All (IsLeased from ids) db.messages
      → All
          (IsLeased from ids)
          (or_unchanged db (
            log_attempt now
              (record db { messages = update_where (has_id id) f db.messages })
              id
              attempt
              o
              code
              qid
              detail)).messages
  unfolding log_attempt
  log_attempt-IsLeased now db id attempt f o code qid detail out k l =
      elim (Bool-cases (any (has_id id) (update_where (has_id id) f db.messages))) [
        | inl e ↦ rw e (
            update_where-IsLeased (has_id id) f db.messages
              (λ m h i. other (f m) id out (rw (k m) h)) l)
        | inr e ↦ rw e l
      ]

  deliver_one-IsLeased :
      (env : Platform) (app_now now : ℕ) (db : Db) (msg : Claimed) (o : Outcome)
      → is_in ids msg.id ≡ false
      → All (IsLeased from ids) db.messages
      → All (IsLeased from ids) (or_unchanged db (deliver_one env app_now now db msg o)).messages
  unfolding deliver_one record_accepted record_transient record_failed
  deliver_one-IsLeased env app_now now db msg (accepted qid) out l =
      log_attempt-IsLeased now db msg.id _ (mark_sent now (msg.attempts + 1) qid) _ _ _ _ out
        (λ m. refl) l
  deliver_one-IsLeased env app_now now db msg (permanent code detail) out l =
      log_attempt-IsLeased now db msg.id _ (mark_failed now (msg.attempts + 1) detail) _ _ _ _ out
        (λ m. refl) l
  deliver_one-IsLeased env app_now now db msg (transient code detail) out l =
      go (backoff (msg.attempts + 1)) refl
    where
      go :
          (b : Option ℕ)
          → backoff (msg.attempts + 1) ≡ b
          → All
              (IsLeased from ids)
              (or_unchanged db
                (deliver_one env app_now now db msg (transient code detail))).messages
      go none e =
          rw (e, deliver_one)
            (log_attempt-IsLeased now db msg.id _
              (mark_failed now (msg.attempts + 1) (giving_up (msg.attempts + 1) detail)) _ _ _ _ out
              (λ m. refl) l)
      go (some d) e =
          rw (e, deliver_one)
            (log_attempt-IsLeased now db msg.id _
              (reschedule (msg.attempts + 1) (retry_at env app_now d) detail) _ _ _ _ out
              (λ m. refl) l)

  accept-IsLeased :
      (env : Platform) (now id : ℕ) (db : Db) (msg : NewMessage)
      → is_in ids id ≡ false
      → All (IsLeased from ids) db.messages
      → All (IsLeased from ids) (accept env now id db msg).0.messages
  unfolding accept
  accept-IsLeased env now id db msg out l =
      go (find? (has_key msg.tenant_id msg.idempotency_key) db.messages) refl
    where
      go :
          (o : Option Message)
          → find? (has_key msg.tenant_id msg.idempotency_key) db.messages ≡ o
          → All (IsLeased from ids) (accept env now id db msg).0.messages
      go none e =
          rw (e, accept)
            (All-concat (IsLeased from ids) db.messages _ l (
              other (new_row id now msg (is_suppressed env db msg.tenant_id msg.rcpt_to)) id out
                (==_refl id)))
      go (some m) e = rw (e, accept) l

  observed-IsLeased :
      (now : ℕ) (entries : List Queued) (m : Message)
      → IsLeased from ids m
      → IsLeased from ids (observed now entries m)
  observed-IsLeased now [] m l = l
  observed-IsLeased now (e ∷ rest) m l =
      observed-IsLeased now rest (if changes e m then observe now e m else m)
        (by_test (changes e m))
    where
      by_test : (b : Bool) → IsLeased from ids (if b then observe now e m else m)
      by_test true = l
      by_test false = l

  row_after-IsLeased :
      (now grace : ℕ) (entries : List Queued) (bounces : List BounceReport) (m : Message)
      → IsLeased from ids m
      → IsLeased from ids (row_after now grace entries bounces m)
  row_after-IsLeased now grace entries bounces m l =
      by_test (has_left now grace entries bounces (observed now entries m))
    where
      by_test :
          (b : Bool)
          → IsLeased from ids
              (if b then conclude now (observed now entries m) else observed now entries m)
      by_test true = observed-IsLeased now entries m l
      by_test false = observed-IsLeased now entries m l

  apply-IsLeased :
      (env : Platform) (op : Op) (db : Db)
      → Meanwhile from ids op
      → All (IsLeased from ids) db.messages
      → All (IsLeased from ids) (apply env op db).messages
  unfolding apply
  apply-IsLeased env (accepts now id msg) db w l = accept-IsLeased env now id db msg w l
  apply-IsLeased env (claims now locked worker batch) db w l =
      unfold claim in
      update_where-IsLeased (λ m. is_in (chosen now locked batch db.messages) m.id)
        (mark_claimed now worker) db.messages (λ m e k i. w) l
  apply-IsLeased env (delivers app_now now msg o) db w l =
      deliver_one-IsLeased env app_now now db msg o w l
  apply-IsLeased env (ingests now raw) db w l = rw ((ingest_stores env now raw db).0) l
  apply-IsLeased env (reconciles now entries grace) db w l =
      rw (reconcile-map now db entries grace) (
        All-map (IsLeased from ids) (row_after now grace entries db.bounces)
          (row_after-IsLeased now grace entries db.bounces) db.messages l)
  apply-IsLeased env (purges now age) db w l =
      unfold purge_bodies in
      update_where-IsLeased (is_purgeable now (days age)) (blank now) db.messages (λ m e k. k) l
  apply-IsLeased env (suppresses now tenant address reason source detail) db w l =
      subst (All (IsLeased from ids))
        (sym (add-messages env now db tenant address reason source detail)) l
  apply-IsLeased env (lifts now id by) db w l = unfold remove in l

  pub apply_all-IsLeased :
      (env : Platform) (ops : List Op) (db : Db)
      → All (Meanwhile from ids) ops
      → All (IsLeased from ids) db.messages
      → All (IsLeased from ids) (apply_all env ops db).messages
  apply_all-IsLeased env [] db w l = l
  apply_all-IsLeased env (op ∷ ops) db w l =
      apply_all-IsLeased env ops (apply env op db) w.1 (apply-IsLeased env op db w.0 l)
