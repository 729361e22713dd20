-- ===== src/Bounce/Ingest.antt =====
-- What ingesting a notification does to the suppression list, and that it loses nothing.
use postbud.Bounce.{
  Ingested, stored, to_suppress, suppress, message_of, ingest_report, ingest_reports, nothing,
  store_reports, ingest,
}
use postbud.Dsn.{Report, parse}
use postbud.Prelude.{
  ℕ, ◌≡◌, refl, ap, ◌∙◌, Bool, true, false, ◌&&◌, ◌||◌, List, [], ◌∷◌, ◌++◌, Option, none, some,
  arith, any, is_some_and,
}
use postbud.Store.{Platform, Db, hard_bounce}
use postbud.Suppression.Active.{is_suppressed-add, IsUnique, add-IsUnique}
use postbud.Suppression.{is_suppressed, same_address}
use postbud.Text.{Str, codes}

module _ (env : Platform) (now : ℕ) (raw : Str) where
  -- The report takes that address out of circulation.
  abbrev pub takes_out : Str → Report → Bool
  takes_out to r = is_some_and (λ a. same_address env a to) (to_suppress r)

  suppress-is_suppressed :
      (db : Db) (out : Ingested) (r : Report) (o : Option Str) (t : ℕ) (to : Str)
      → is_suppressed env (suppress env now db out r o).0 t to
        ≡ (is_suppressed env db t to || is_some_and (λ a. same_address env a to) o)
  unfolding suppress
  suppress-is_suppressed db out r none t to = ground arith
  suppress-is_suppressed db out r (some a) t to =
      is_suppressed-add env now db none a hard_bounce (codes "dsn") r.diagnostic t to
      ∙ ap (◌||◌ (is_suppressed env db t to)) (and_true (same_address env a to))
    where
      and_true : (b : Bool) → (b && true) ≡ b
      and_true true = refl
      and_true false = refl

  ingest_report-is_suppressed :
      (db : Db) (out : Ingested) (r : Report) (t : ℕ) (to : Str)
      → is_suppressed env (ingest_report env now raw db out r).0 t to
        ≡ (is_suppressed env db t to || takes_out to r)
  unfolding ingest_report is_suppressed
  ingest_report-is_suppressed db out r t to =
      suppress-is_suppressed
        (record db {
          bounces =
              db.bounces ++ stored now raw r (message_of env db.messages r.relay_queue_id) ∷ [];
        })
        _ r (to_suppress r) t to

  ingest_reports-is_suppressed :
      (db : Db) (out : Ingested) (rs : List Report) (t : ℕ) (to : Str)
      → is_suppressed env (ingest_reports env now raw db out rs).0 t to
        ≡ (is_suppressed env db t to || any (takes_out to) rs)
  unfolding ingest_reports
  ingest_reports-is_suppressed db out [] t to = ground arith
  ingest_reports-is_suppressed db out (r ∷ rs) t to =
      let (db', out') = ingest_report env now raw db out r in
      ground (
        arith,
        ingest_reports-is_suppressed db' out' rs t to,
        ingest_report-is_suppressed db out r t to,
      )

  store_reports-is_suppressed :
      (db : Db) (rs : List Report) (t : ℕ) (to : Str)
      → is_suppressed env (store_reports env now raw db rs).0 t to
        ≡ (is_suppressed env db t to || any (takes_out to) rs)
  unfolding store_reports is_suppressed
  store_reports-is_suppressed db [] t to = ground arith
  store_reports-is_suppressed db (r ∷ rs) t to =
      ingest_reports-is_suppressed db nothing (r ∷ rs) t to

  -- After a notification, a tenant's address is suppressed exactly if it was before, or if some
  -- report of the notification suppresses it: the suppression is for every tenant, and nothing
  -- else is added or lifted.
  pub is_suppressed-ingest :
      (db : Db) (t : ℕ) (to : Str)
      → is_suppressed env (ingest env now db raw).0 t to
        ≡ (is_suppressed env db t to || any (takes_out to) (parse raw))
  unfolding ingest
  is_suppressed-ingest db t to = store_reports-is_suppressed db (parse raw) t to

  suppress-IsUnique :
      (db : Db) (out : Ingested) (r : Report) (o : Option Str)
      → IsUnique env db
      → IsUnique env (suppress env now db out r o).0
  unfolding suppress
  suppress-IsUnique db out r none u = u
  suppress-IsUnique db out r (some a) u =
      add-IsUnique env now db none a hard_bounce (codes "dsn") r.diagnostic u

  ingest_report-IsUnique :
      (db : Db) (out : Ingested) (r : Report)
      → IsUnique env db
      → IsUnique env (ingest_report env now raw db out r).0
  unfolding ingest_report
  ingest_report-IsUnique db out r u = suppress-IsUnique _ _ r (to_suppress r) u

  ingest_reports-IsUnique :
      (db : Db) (out : Ingested) (rs : List Report)
      → IsUnique env db
      → IsUnique env (ingest_reports env now raw db out rs).0
  unfolding ingest_reports
  ingest_reports-IsUnique db out [] u = u
  ingest_reports-IsUnique db out (r ∷ rs) u =
      let (db', out') = ingest_report env now raw db out r in
      ingest_reports-IsUnique db' out' rs (ingest_report-IsUnique db out r u)

  -- Ingesting keeps one active row at most for each tenant and address.
  pub ingest-IsUnique : (db : Db) → IsUnique env db → IsUnique env (ingest env now db raw).0
  unfolding ingest store_reports
  ingest-IsUnique db u = go (parse raw)
    where
      go : (rs : List Report) → IsUnique env (store_reports env now raw db rs).0
      go [] = u
      go (r ∷ rs) = ingest_reports-IsUnique db nothing (r ∷ rs) u
