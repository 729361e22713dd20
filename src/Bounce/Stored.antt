-- ===== src/Bounce/Stored.antt =====
-- That ingesting loses nothing: the raw notification is stored with every report of it, and the
-- numbers that it returns count the reports.
use postbud.Bounce.{
  Ingested, unparsed, to_suppress, suppress, message_of, ingest_report, ingest_reports, nothing,
  store_reports, ingest, count_unmatched,
}
use postbud.Bounce.Rows.{Stores, row_of, Each-row_of, is_unjoined, takes_address, to_suppress_lem}
use postbud.Dsn.{Report, parse}
use postbud.Prelude.{
  ℕ, ◌+◌, ◌≡◌, refl, sym, ap, ◌∙◌, List, [], ◌∷◌, ◌++◌, map, Option, none, some, arith,
  if◌then◌else◌, length, count_where, Each, is_none, append_assoc, append-nil,
}
use postbud.Store.{Platform, Db, Message, BounceReport, hard_bounce}
use postbud.Suppression.{add}
use postbud.Text.{Str, codes}

module _ (env : Platform) (now : ℕ) (raw : Str) where
  -- What the loop adds, from the variables that it starts with.
  record Adds (db : Db) (out : Ingested) (rs : List Report) (after : Db × Ingested) : Type 0 where
    same_messages : after.0.messages ≡ db.messages
    rows : after.0.bounces ≡ db.bounces ++ map (row_of env now raw db.messages) rs
    reports : after.1.reports ≡ out.reports + length rs
    suppressed : after.1.suppressed ≡ out.suppressed + count_where takes_address rs
    unmatched :
        after.1.unmatched
        ≡ out.unmatched + count_where is_unjoined (map (row_of env now raw db.messages) rs)

  add-messages :
      (db : Db) (r : Report) (a : Str)
      → (add env now db none a hard_bounce (codes "dsn") r.diagnostic).messages ≡ db.messages
  unfolding add
  add-messages db r a = ground arith

  add-bounces :
      (db : Db) (r : Report) (a : Str)
      → (add env now db none a hard_bounce (codes "dsn") r.diagnostic).bounces ≡ db.bounces
  unfolding add
  add-bounces db r a = ground arith

  ingest_report-Adds :
      (db : Db) (out : Ingested) (r : Report)
      → Adds db out (r ∷ []) (ingest_report env now raw db out r)
  unfolding ingest_report suppress
  ingest_report-Adds db out r = go (to_suppress r) refl
    where
      seen :
          (o : Option ℕ)
          → count_unmatched o out.unmatched ≡ out.unmatched + ((if is_none o then 1 else 0) + 0)
      seen none = omega arith
      seen (some i) = omega arith

      go :
          (o : Option Str)
          → to_suppress r ≡ o
          → Adds db out (r ∷ []) (ingest_report env now raw db out r)
      go none e =
          rw (e, ingest_report)
            (record {
              same_messages = refl;
              rows = refl;
              reports = refl;
              suppressed = rw (← to_suppress_lem r, e) (omega arith);
              unmatched = seen (message_of env db.messages r.relay_queue_id);
            })
      go (some a) e =
          let with_row = record db {
            bounces = db.bounces ++ row_of env now raw db.messages r ∷ [];
          } in
          rw (e, ingest_report)
            (record {
              same_messages = add-messages with_row r a;
              rows = add-bounces with_row r a;
              reports = refl;
              suppressed = rw (← to_suppress_lem r, e) (omega arith);
              unmatched = seen (message_of env db.messages r.relay_queue_id);
            })

  ingest_reports-Adds :
      (db : Db) (out : Ingested) (rs : List Report)
      → Adds db out rs (ingest_reports env now raw db out rs)
  unfolding ingest_reports
  ingest_reports-Adds db out [] = record {
    same_messages = refl;
    rows = sym (append-nil db.bounces);
    reports = omega arith;
    suppressed = omega arith;
    unmatched = omega arith;
  }
  ingest_reports-Adds db out (r ∷ rs) =
      let (db', out') = ingest_report env now raw db out r in
      let one = ingest_report-Adds db out r in
      let more = ingest_reports-Adds db' out' rs in
      let same : db'.messages ≡ db.messages = one.same_messages in
      record {
        same_messages = more.same_messages ∙ same;
        rows =
            more.rows
            ∙ ap (λ ms. db'.bounces ++ map (row_of env now raw ms) rs) same
            ∙ ap (λ bs. bs ++ map (row_of env now raw db.messages) rs) one.rows
            ∙ append_assoc db.bounces (row_of env now raw db.messages r ∷ [])
                (map (row_of env now raw db.messages) rs);
        reports = omega (arith, more.reports, one.reports);
        suppressed = omega (arith, more.suppressed, one.suppressed);
        unmatched =
            more.unmatched
            ∙ ap (λ ms. out'.unmatched + count_where is_unjoined (map (row_of env now raw ms) rs))
                same
            ∙ omega (arith, one.unmatched);
      }

  -- What a notification with these reports leaves in the table and in the number of the unmatched: one
  -- row for each report, or one with the text alone if there is no report.
  abbrev pub StoredAs : List Message → List Report → List BounceReport → ℕ → Type 0
  StoredAs messages [] rows unmatched =
      (row : BounceReport) × (rows ≡ row ∷ [])
      × (row.raw ≡ raw)
      × (row.classification ≡ none)
      × (row.message_id ≡ none)
      × (unmatched ≡ 0)
  StoredAs messages (r ∷ rs) rows unmatched =
      Each (Stores now raw messages) (r ∷ rs) rows × (unmatched ≡ count_where is_unjoined rows)

  -- Ingesting leaves the messages alone and stores the whole notification whether or not it could be
  -- read. If there are reports in it, there is one new row for each, in their order: it has the text,
  -- the queue id, the recipient, the status and the diagnostic of the report and its class (permanent
  -- and transient as they are), and it is joined to a message that went to the relay under that queue
  -- id, unless there is none. If there is no report, there is one new row with the text and no class.
  -- The numbers returned count the reports, those that suppress and have an address, and the new rows
  -- of reports that are joined to no message.
  pub ingest_stores :
      (db : Db)
      → let (db', out) = ingest env now db raw in
        (db'.messages ≡ db.messages)
        × (rows : List BounceReport) × (db'.bounces ≡ db.bounces ++ rows)
        × StoredAs db.messages (parse raw) rows out.unmatched
        × (out.reports ≡ length (parse raw))
        × (out.suppressed ≡ count_where takes_address (parse raw))
  unfolding ingest store_reports
  ingest_stores db = go (parse raw)
    where
      go :
          (rs : List Report)
          → let (db', out) = store_reports env now raw db rs in
            (db'.messages ≡ db.messages)
            × (rows : List BounceReport) × (db'.bounces ≡ db.bounces ++ rows)
            × StoredAs db.messages rs rows out.unmatched
            × (out.reports ≡ length rs)
            × (out.suppressed ≡ count_where takes_address rs)
      go [] = (
        refl,
        unparsed now raw ∷ [],
        refl,
        (unparsed now raw, refl, refl, refl, refl, refl),
        refl,
        refl,
      )
      go (r ∷ rs) =
          let a = ingest_reports-Adds db nothing (r ∷ rs) in
          (
            a.same_messages,
            map (row_of env now raw db.messages) (r ∷ rs),
            a.rows,
            (Each-row_of env now raw db.messages (r ∷ rs), omega (arith, a.unmatched)),
            omega (arith, a.reports),
            omega (arith, a.suppressed),
          )
