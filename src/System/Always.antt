-- ===== src/System/Always.antt =====
-- What holds of every database that the service can reach.
use postbud.Bounce.Stored.{ingest_stores}
use postbud.Prelude.Rows.{All-map, count_where-map}
use postbud.Prelude.{
  ℕ, ◌+◌, ◌≡◌, refl, sym, Bool, true, false, List, [], ◌∷◌, Option, none, some, if◌then◌else◌,
  subst,
}
use postbud.Queue.Keeps.{
  accept-IsSound, claim-IsSound, record_accepted-IsSound, record_transient-IsSound,
  record_failed-IsSound, purge_bodies-IsSound,
}
use postbud.Queue.Sound.{IsSound, IsSoundRow}
use postbud.Queue.{Claimed, has_id, has_key}
use postbud.RelayQueue.Rows.{observed, row_after, reconcile-map}
use postbud.RelayQueue.{Queued, changes, observe, conclude, has_left, reconcile}
use postbud.Retry.{backoff}
use postbud.Store.{Platform, Db, Message, BounceReport}
use postbud.Suppression.Active.{add-messages}
use postbud.Suppression.{remove}
use postbud.System.{
  Op, accepts, claims, delivers, ingests, reconciles, purges, suppresses, lifts, or_unchanged,
  apply, Reach, here, next, Draws,
}
use postbud.System.Changes.{row_after-SameKeys}
use postbud.Worker.{Outcome, accepted, transient, permanent, deliver_one, giving_up}

or_unchanged-IsSound :
    (db : Db) (o : Option Db)
    → ((db' : Db) → o ≡ some db' → IsSound db'.messages)
    → IsSound db.messages
    → IsSound (or_unchanged db o).messages
or_unchanged-IsSound db none h s = s
or_unchanged-IsSound db (some db') h s = h db' refl

deliver_one-IsSound :
    (env : Platform) (app_now now : ℕ) (db : Db) (msg : Claimed) (o : Outcome) (db' : Db)
    → IsSound db.messages
    → deliver_one env app_now now db msg o ≡ some db'
    → IsSound db'.messages
unfolding deliver_one
deliver_one-IsSound env app_now now db msg (accepted qid) db' s h =
    record_accepted-IsSound now db msg.id (msg.attempts + 1) qid h s
deliver_one-IsSound env app_now now db msg (permanent code detail) db' s h =
    record_failed-IsSound now db msg.id (msg.attempts + 1) code detail h s
deliver_one-IsSound env app_now now db msg (transient code detail) db' s h =
    go (backoff (msg.attempts + 1)) refl
  where
    go : (b : Option ℕ) → backoff (msg.attempts + 1) ≡ b → IsSound db'.messages
    go none e =
        record_failed-IsSound now db msg.id (msg.attempts + 1) code
          (giving_up (msg.attempts + 1) detail) (rw (e, deliver_one) at h) s
    go (some d) e =
        record_transient-IsSound env app_now now db msg.id (msg.attempts + 1) code detail d
          (rw (e, deliver_one) at h) s

-- A snapshot of the relay's queue touches none of the columns that soundness is about.
observed-IsSoundRow :
    (now : ℕ) (entries : List Queued) (m : Message)
    → IsSoundRow m
    → IsSoundRow (observed now entries m)
observed-IsSoundRow now [] m s = s
observed-IsSoundRow now (e ∷ rest) m s =
    observed-IsSoundRow now rest (if changes e m then observe now e m else m)
      (by_test (changes e m))
  where
    by_test : (b : Bool) → IsSoundRow (if b then observe now e m else m)
    by_test true = record {
      completed = s.completed;
      claimant = s.claimant;
      claimed_open = s.claimed_open;
      purged = s.purged;
    }
    by_test false = s

row_after-IsSoundRow :
    (now grace : ℕ) (entries : List Queued) (bounces : List BounceReport) (m : Message)
    → IsSoundRow m
    → IsSoundRow (row_after now grace entries bounces m)
row_after-IsSoundRow now grace entries bounces m s =
    by_test (has_left now grace entries bounces seen)
  where
    seen : Message
    seen = observed now entries m

    sound : IsSoundRow seen
    sound = observed-IsSoundRow now entries m s

    by_test : (b : Bool) → IsSoundRow (if b then conclude now seen else seen)
    by_test true = record {
      completed = sound.completed;
      claimant = sound.claimant;
      claimed_open = sound.claimed_open;
      purged = sound.purged;
    }
    by_test false = sound

reconcile-IsSound :
    (now : ℕ) (db : Db) (entries : List Queued) (grace : ℕ)
    → IsSound db.messages
    → IsSound (reconcile now db entries grace).0.messages
reconcile-IsSound now db entries grace s =
    let f = row_after now grace entries db.bounces in
    rw (reconcile-map now db entries grace) (record {
      rows =
          All-map IsSoundRow f (row_after-IsSoundRow now grace entries db.bounces) db.messages
            s.rows;
      ids = λ id.
          rw
            (count_where-map (has_id id) f
              (λ m. rw (row_after-SameKeys now grace entries db.bounces m).id refl) db.messages)
            (s.ids id);
      keys = λ t key.
          rw
            (count_where-map (has_key t key) f
              (λ m.
                let k = row_after-SameKeys now grace entries db.bounces m in
                rw (k.tenant_id, k.idempotency_key) refl)
              db.messages)
            (s.keys t key);
    })

apply-IsSound :
    (env : Platform) (op : Op) (db : Db)
    → Draws op db
    → IsSound db.messages
    → IsSound (apply env op db).messages
unfolding apply
apply-IsSound env (accepts now id msg) db d s = accept-IsSound env now id db msg d s
apply-IsSound env (claims now locked worker batch) db d s =
    claim-IsSound now locked db worker batch s
apply-IsSound env (delivers app_now now msg o) db d s =
    or_unchanged-IsSound db (deliver_one env app_now now db msg o)
      (λ db' e. deliver_one-IsSound env app_now now db msg o db' s e) s
apply-IsSound env (ingests now raw) db d s = rw ((ingest_stores env now raw db).0) s
apply-IsSound env (reconciles now entries grace) db d s = reconcile-IsSound now db entries grace s
apply-IsSound env (purges now age) db d s = purge_bodies-IsSound now db age s
apply-IsSound env (suppresses now tenant address reason source detail) db d s =
    subst IsSound (sym (add-messages env now db tenant address reason source detail)) s
apply-IsSound env (lifts now id by) db d s = unfold remove in s

-- In every database that the service reaches from a sound one the messages are sound: each is
-- open exactly while it has no completion time, only an open one is claimed, a purged one is
-- finished and blank, and no two have one id or one tenant's key.
pub Reach-IsSound :
    (env : Platform) {start db : Db}
    → Reach env start db
    → IsSound start.messages
    → IsSound db.messages
Reach-IsSound env here s = s
Reach-IsSound env (next {db} op r d e) s = rw e (apply-IsSound env op db d (Reach-IsSound env r s))
