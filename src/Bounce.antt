-- ===== src/Bounce.antt =====
-- crates/postbud-db/src/bounce.rs: ingesting one notification. The statements of one call read
-- one time here.
pub mod Ingest
pub mod Rows
pub mod Stored
use postbud.Classification.{Classification}
use postbud.Dsn.{Report, should_suppress, parse}
use postbud.Prelude.{
  ℕ, ◌+◌, Bool, true, false, ◌&&◌, List, [], ◌∷◌, ◌++◌, Option, none, some, if◌then◌else◌,
}
use postbud.Queue.{id_of}
use postbud.Store.{
  Platform, Db, Message, BounceReport, BounceClass, permanent, transient, unknown, hard_bounce,
}
use postbud.Store.Unordered.{fetch_any}
use postbud.Suppression.{add}
use postbud.Text.{Str, codes, str_eq}

pub record Ingested : Type 0 where
  pub reports : ℕ
  pub suppressed : ℕ
  pub unmatched : ℕ

abbrev pub has_queue_id : Str → Message → Bool
has_queue_id qid m = elim m.relay_queue_id [ none ↦ false | some q ↦ str_eq q qid ]

-- A message that the relay gave that queue id: any, if there are several.
unfoldable pub message_of : Platform → List Message → Option Str → Option ℕ
message_of env messages none = none
message_of env messages (some qid) = elim (fetch_any env id_of (has_queue_id qid) messages) [
  | none ↦ none
  | some m ↦ some (id_of m)
]

abbrev pub bounce_class : Classification → BounceClass
bounce_class Classification.permanent = permanent
bounce_class Classification.transient = transient
bounce_class _ = unknown

abbrev pub unparsed : ℕ → Str → BounceReport
unparsed now raw = record {
  received_at = now;
  raw = raw;
  relay_queue_id = none;
  message_id = none;
  final_rcpt = none;
  status_code = none;
  diagnostic = none;
  classification = none;
}

abbrev pub stored : ℕ → Str → Report → Option ℕ → BounceReport
stored now raw r message_id = record {
  received_at = now;
  raw = raw;
  relay_queue_id = r.relay_queue_id;
  message_id = message_id;
  final_rcpt = r.final_recipient;
  status_code = r.status;
  diagnostic = r.diagnostic;
  classification = some (bounce_class r.classification);
}

-- The address to suppress, if the report suppresses one.
abbrev pub to_suppress : Report → Option Str
to_suppress r = if should_suppress r then r.final_recipient else none

suppress : Platform → ℕ → Db → Ingested → Report → Option Str → Db × Ingested
suppress env now db out r none = (db, out)
suppress env now db out r (some address) = (
  add env now db none address hard_bounce (codes "dsn") r.diagnostic,
  record out { suppressed = out.suppressed + 1 },
)

abbrev pub count_unmatched : Option ℕ → ℕ → ℕ
count_unmatched none n = n + 1
count_unmatched (some id) n = n

-- The body of the loop.
unfoldable pub ingest_report : Platform → ℕ → Str → Db → Ingested → Report → Db × Ingested
unfolding suppress
ingest_report env now raw db out r =
    let message_id = message_of env db.messages r.relay_queue_id in
    suppress env now (record db { bounces = db.bounces ++ stored now raw r message_id ∷ [] })
      (record out {
        reports = out.reports + 1;
        unmatched = count_unmatched message_id out.unmatched;
      })
      r (to_suppress r)

unfoldable pub ingest_reports : Platform → ℕ → Str → Db → Ingested → List Report → Db × Ingested
ingest_reports env now raw db out [] = (db, out)
ingest_reports env now raw db out (r ∷ rest) =
    let (db', out') = ingest_report env now raw db out r in ingest_reports env now raw db' out' rest

abbrev pub nothing : Ingested
nothing = record { reports = 0; suppressed = 0; unmatched = 0 }

store_reports : Platform → ℕ → Str → Db → List Report → Db × Ingested
unfolding ingest_reports
store_reports env now raw db [] =
    (record db { bounces = db.bounces ++ unparsed now raw ∷ [] }, nothing)
store_reports env now raw db (r ∷ rest) = ingest_reports env now raw db nothing (r ∷ rest)

unfoldable pub ingest : Platform → ℕ → Db → Str → Db × Ingested
unfolding store_reports
ingest env now db raw = store_reports env now raw db (parse raw)
