-- ===== src/System.antt =====
-- The whole service as a sequence of operations on one database: the API accepts, workers claim
-- and deliver, the relay's notifications and queue reports come in, bodies are purged, and
-- suppressions are added and lifted. Each is one transaction, so that any interleaving of the
-- processes is a list of these.
pub mod Changes
pub mod Always
pub mod Resubmit
pub mod Lease
pub mod Exclusive
pub mod Bounced
use postbud.Bounce.{ingest}
use postbud.Prelude.{ℕ, ◌≡◌, Bool, false, List, Option, none, some, any}
use postbud.Queue.{NewMessage, Claimed, has_id, accept, claim, purge_bodies}
use postbud.RelayQueue.{Queued, reconcile}
use postbud.Store.{Platform, Db, Reason}
use postbud.Suppression
use postbud.Text.{Str}
use postbud.Worker.{Outcome, deliver_one}

pub data Op : Type 0 where
  accepts : ℕ → ℕ → NewMessage → Op
  claims : ℕ → List ℕ → Str → ℕ → Op
  delivers : ℕ → ℕ → Claimed → Outcome → Op
  ingests : ℕ → Str → Op
  reconciles : ℕ → List Queued → ℕ → Op
  purges : ℕ → ℕ → Op
  suppresses : ℕ → Option ℕ → Str → Reason → Str → Option Str → Op
  lifts : ℕ → ℕ → Str → Op

-- A transaction that fails leaves the database as it was.
abbrev pub or_unchanged : Db → Option Db → Db
or_unchanged db none = db
or_unchanged db (some db') = db'

unfoldable pub apply : Platform → Op → Db → Db
apply env (accepts now id msg) db = (accept env now id db msg).0
apply env (claims now locked worker batch) db = (claim now locked db worker batch).0
apply env (delivers app_now now msg o) db = or_unchanged db (deliver_one env app_now now db msg o)
apply env (ingests now raw) db = (ingest env now db raw).0
apply env (reconciles now entries grace) db = (reconcile now db entries grace).0
apply env (purges now age) db = (purge_bodies now db age).0
apply env (suppresses now tenant address reason source detail) db =
    Suppression.add env now db tenant address reason source detail
apply env (lifts now id by) db = (Suppression.remove now db id by).0

-- The uuid that the database draws for a message is one that no row has.
abbrev pub Draws : Op → Db → Type 0
Draws (accepts now id msg) db = any (has_id id) db.messages ≡ false
Draws _ db = Unit

-- The databases that some sequence of operations leads to.
pub data Reach (env : Platform) (start : Db) : Db → Type 0 where
  here : Reach env start start
  next :
      {db db' : Db} (op : Op)
      → Reach env start db
      → Draws op db
      → db' ≡ apply env op db
      → Reach env start db'
