-- ===== src/Dmarc/Stored.antt =====
-- crates/postbud-db/src/dmarc.rs: `store`, one transaction. The number of the row is an argument, and
-- `stamp` of a time is left to the database.
use postbud.Dmarc.{Report, Source}
use postbud.Prelude.{ℕ, Bool, true, false, ◌&&◌, List, [], ◌∷◌, ◌++◌, if◌then◌else◌, any}
use postbud.Text.{Str, str_eq}

-- A row of `dmarc_report`, whose columns are the fields of the report.
pub record ReportRow : Type 0 where
  pub id : ℕ
  pub report : Report
  pub raw : Str

-- A row of `dmarc_record`.
pub record SourceRow : Type 0 where
  pub report : ℕ
  pub entry : Source

pub record Archive : Type 0 where
  pub reports : List ReportRow
  pub sources : List SourceRow

-- The unique index `dmarc_report_identity`.
abbrev pub same_identity : Report → Report → Bool
same_identity a b = str_eq a.org_name b.org_name && str_eq a.report_id b.report_id

abbrev pub is_held : Report → ReportRow → Bool
is_held report row = same_identity row.report report

abbrev pub source_rows : ℕ → List Source → List SourceRow
source_rows id [] = []
source_rows id (s ∷ rest) = record { report = id; entry = s } ∷ source_rows id rest

unfoldable pub store : ℕ → Archive → Report → Str → Archive × Bool
store id held report raw = if any (is_held report) held.reports then (held, false) else (
  record {
    reports = held.reports ++ record { id = id; report = report; raw = raw } ∷ [];
    sources = held.sources ++ source_rows id report.records;
  },
  true,
)
