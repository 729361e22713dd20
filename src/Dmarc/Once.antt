-- ===== src/Dmarc/Once.antt =====
-- A report that is delivered more than once is stored once.
use postbud.Dmarc.Stored.{ReportRow, Archive, same_identity, is_held, source_rows, store}
use postbud.Dmarc.{Report}
use postbud.Prelude.{
  ℕ, ◌≡◌, refl, ap, ◌∙◌, Bool, true, false, ◌||◌, List, [], ◌∷◌, ◌++◌, arith, any, Memᴰ, Bool-cases,
  inl, inr,
}
use postbud.Text.Case.{str_eq_refl}
use postbud.Text.{Str}

-- A report with its text, and the number that the database draws for it.
pub record Delivery : Type 0 where
  pub id : ℕ
  pub report : Report
  pub raw : Str

abbrev pub store_one : Archive → Delivery → Archive
store_one held d = (store d.id held d.report d.raw).0

abbrev pub store_all : Archive → List Delivery → Archive
store_all held [] = held
store_all held (d ∷ ds) = store_all (store_one held d) ds

any-concat :
    (p : ReportRow → Bool) (rows : List ReportRow) (row : ReportRow)
    → any p (rows ++ row ∷ []) ≡ (any p rows || p row)
any-concat p [] row = ground arith
any-concat p (x ∷ rows) row = ground (arith, any-concat p rows row)

same_identity_refl : (r : Report) → same_identity r r ≡ true
same_identity_refl r = rw (str_eq_refl r.org_name, str_eq_refl r.report_id) refl

abbrev with_report : Archive → Delivery → Archive
with_report held d = record {
  reports = held.reports ++ record { id = d.id; report = d.report; raw = d.raw } ∷ [];
  sources = held.sources ++ source_rows d.id d.report.records;
}

store-known :
    (held : Archive) (d : Delivery)
    → any (is_held d.report) held.reports ≡ true
    → store d.id held d.report d.raw ≡ (held, false)
unfolding store
store-known held d e = rw e refl

store-new :
    (held : Archive) (d : Delivery)
    → any (is_held d.report) held.reports ≡ false
    → store d.id held d.report d.raw ≡ (with_report held d, true)
unfolding store
store-new held d e = rw e refl

store-holds :
    (held : Archive) (d : Delivery) → any (is_held d.report) (store_one held d).reports ≡ true
store-holds held d = elim (Bool-cases (any (is_held d.report) held.reports)) [
  | inl e ↦ ap (λ p. any (is_held d.report) p.0.reports) (store-known held d e) ∙ e
  | inr e ↦
      ap (λ p. any (is_held d.report) p.0.reports) (store-new held d e)
      ∙ any-concat (is_held d.report) held.reports
          (record { id = d.id; report = d.report; raw = d.raw })
      ∙ rw (e, same_identity_refl d.report) refl
]

store-keeps :
    (held : Archive) (d : Delivery) (r : Report)
    → any (is_held r) held.reports ≡ true
    → any (is_held r) (store_one held d).reports ≡ true
store-keeps held d r h = elim (Bool-cases (any (is_held d.report) held.reports)) [
  | inl e ↦ ap (λ p. any (is_held r) p.0.reports) (store-known held d e) ∙ h
  | inr e ↦
      ap (λ p. any (is_held r) p.0.reports) (store-new held d e)
      ∙ any-concat (is_held r) held.reports (record { id = d.id; report = d.report; raw = d.raw })
      ∙ rw h refl
]

store_all-keeps :
    (held : Archive) (ds : List Delivery) (r : Report)
    → any (is_held r) held.reports ≡ true
    → any (is_held r) (store_all held ds).reports ≡ true
store_all-keeps held [] r h = h
store_all-keeps held (d ∷ ds) r h = store_all-keeps (store_one held d) ds r (store-keeps held d r h)

store_all-holds :
    (held : Archive) (ds : List Delivery) (d : Delivery)
    → Memᴰ d ds
    → any (is_held d.report) (store_all held ds).reports ≡ true
store_all-holds held [] d m = elim m [ ]
store_all-holds held (x ∷ ds) d (Memᴰ.head e) =
    rw e (store_all-keeps (store_one held x) ds x.report (store-holds held x))
store_all-holds held (x ∷ ds) d (Memᴰ.tail m) = store_all-holds (store_one held x) ds d m

-- Once a report has been delivered, among whatever others, another delivery of it, under any number
-- and with any text, stores nothing and says so.
pub store-store_all :
    (held : Archive) (ds : List Delivery) (d : Delivery) (id : ℕ) (raw : Str)
    → Memᴰ d ds
    → store id (store_all held ds) d.report raw ≡ (store_all held ds, false)
unfolding store
store-store_all held ds d id raw m = rw (store_all-holds held ds d m) refl
