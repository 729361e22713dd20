-- ===== src/Ingress/Reported.antt =====
-- The queue of the relay on its whole way: read off the socket, reported, and reconciled.
use postbud.Ingress.{is_relay, grace_secs, ingest_queue}
use postbud.Prelude.{ℕ, ◌≡◌, refl, true, List, Option}
use postbud.QueueReport.RoundTrip.{parse-reported}
use postbud.QueueReport.{SerdeJson, as_ndjson}
use postbud.RelayQueue.{reconcile}
use postbud.Result.{ok}
use postbud.Showq
use postbud.Store.{Platform, Db}
use postbud.Text.{Str}

-- What the relay's socket shows is what the database is reconciled with: if the token is right, the
-- report of the entries that were read off the socket changes the messages as these entries do.
pub ingest_queue-as_ndjson :
    (lossy : List ℕ → Str) (json : SerdeJson) (env : Platform) (now : ℕ) (token header : Option Str)
    (db : Db) (bytes : List ℕ)
    → is_relay env token header ≡ ok true
    → ingest_queue json env now token header db (as_ndjson json (Showq.parse lossy bytes))
      ≡ ok (reconcile now db (Showq.parse lossy bytes) grace_secs)
unfolding ingest_queue
ingest_queue-as_ndjson lossy json env now token header db bytes t =
    rw (t, parse-reported lossy json bytes) refl
