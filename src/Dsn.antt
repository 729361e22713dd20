-- ===== src/Dsn.antt =====
-- crates/postbud-core/src/dsn.rs: reading a delivery status notification, and whether a report
-- in it suppresses the address.
pub mod Fields
pub mod Reports
pub mod QueueIds
pub mod Suppress
use postbud.Classification.{Classification, permanent, unknown, from_status}
use postbud.Prelude.{
  ℕ, Bool, true, false, not, ◌&&◌, ◌||◌, List, [], ◌∷◌, ◌++◌, map, Option, none, some, ◌==◌,
  if◌then◌else◌, is_empty, any, is_some_and, or_some,
}
use postbud.Text.{
  Str, codes, str_eq, trim, split_once, to_ascii_lowercase, split_whitespace, join, contains, lines,
}

pub record Report : Type 0 where
  pub relay_queue_id : Option Str
  pub final_recipient : Option Str
  pub status : Option Str
  pub diagnostic : Option Str
  pub classification : Classification

-- The details behind the class that blame the recipient's address.
abbrev pub recipient_details : List Str
recipient_details =
    codes "1.1" ∷ codes "1.2" ∷ codes "1.3" ∷ codes "1.6" ∷ codes "1.10" ∷ codes "2.1" ∷ []

unfoldable pub recipient_is_the_problem : Str → Bool
recipient_is_the_problem status = elim (split_once b'.' (trim status)) [
  | none ↦ false
  | some (class, subject_and_detail) ↦ any (str_eq subject_and_detail) recipient_details
]

abbrev pub missing_mailbox : List Str
missing_mailbox =
    codes "no such user"
    ∷ codes "user unknown"
    ∷ codes "recipient not found"
    ∷ codes "mailbox not found"
    ∷ codes "no mailbox here"
    ∷ []

-- The diagnostic in lower case, its words one space apart.
abbrev pub flat : Str → Str
flat diagnostic = join (codes " ") (split_whitespace (to_ascii_lowercase diagnostic))

unfoldable pub names_a_missing_mailbox : Str → Bool
names_a_missing_mailbox diagnostic =
    any (λ phrase. contains phrase (flat diagnostic)) missing_mailbox

abbrev pub is_permanent : Classification → Bool
is_permanent permanent = true
is_permanent _ = false

unfoldable pub should_suppress : Report → Bool
should_suppress r =
    if not (is_permanent r.classification)
    then false
    else is_some_and recipient_is_the_problem r.status
      || is_some_and names_a_missing_mailbox r.diagnostic

unfoldable pub strip_type_prefix : Str → Str
strip_type_prefix value = elim (split_once b';' value) [
  | none ↦ trim value
  | some (kind, rest) ↦ trim rest
]

-- A line that starts with a space or a tab.
abbrev pub is_continuation : Str → Bool
is_continuation [] = false
is_continuation (c ∷ s) = c == b' ' || c == b'\t'

-- Joined on to the last line read.
extend_last : List Str → Str → List Str
extend_last [] more = []
extend_last (l ∷ []) more = (l ++ b' ' ∷ trim more) ∷ []
extend_last (l ∷ k ∷ ls) more = l ∷ extend_last (k ∷ ls) more

unfold_line : List Str → Str → List Str
unfolding extend_last
unfold_line out line =
    if is_continuation line && not (is_empty out) then extend_last out line else out ++ line ∷ []

unfold_lines : List Str → List Str → List Str
unfolding unfold_line
unfold_lines out [] = out
unfold_lines out (line ∷ rest) = unfold_lines (unfold_line out line) rest

-- `unfold`: the continuation lines joined.
unfoldable pub unfold_folded : Str → List Str
unfolding unfold_lines
unfold_folded raw = unfold_lines [] (lines raw)

-- The variables of `parse`.
pub record Parser : Type 0 where
  pub reports : List Report
  pub queue_id : Option Str
  pub current : Option Report

abbrev pub push_current : Option Report → List Report → List Report
push_current none reports = reports
push_current (some r) reports = reports ++ r ∷ []

abbrev pub new_report : Option Str → Str → Report
new_report queue_id value = record {
  relay_queue_id = queue_id;
  final_recipient = some (strip_type_prefix value);
  status = none;
  diagnostic = none;
  classification = unknown;
}

abbrev pub with_status : Str → Report → Report
with_status value r = record r { classification = from_status value; status = some value }

abbrev pub with_diagnostic : Str → Report → Report
with_diagnostic value r = record r { diagnostic = some (strip_type_prefix value) }

abbrev pub map_current : (Report → Report) → Option Report → Option Report
map_current f none = none
map_current f (some r) = some (f r)

-- The match on the field's name, for a value that is not empty.
unfoldable pub field : Str → Str → Parser → Parser
field name value p =
    if str_eq name (codes "x-postfix-queue-id")
    then record p { queue_id = some value }
    else if str_eq name (codes "final-recipient")
    then record p {
      reports = push_current p.current p.reports;
      current = some (new_report p.queue_id value);
    }
    else if str_eq name (codes "status")
    then record p { current = map_current (with_status value) p.current }
    else if str_eq name (codes "diagnostic-code")
    then record p { current = map_current (with_diagnostic value) p.current }
    else p

-- The name and the value of a line that has both.
unfoldable pub header : Str → Option (Str × Str)
header line = elim (split_once b':' line) [
  | none ↦ none
  | some (name, value) ↦
      if is_empty (trim value) then none else some (to_ascii_lowercase (trim name), trim value)
]

unfoldable pub on_header : Option (Str × Str) → Parser → Parser
unfolding field
on_header none p = p
on_header (some (name, value)) p = field name value p

unfoldable pub step : Parser → Str → Parser
unfolding on_header
step p line = on_header (header line) p

unfoldable pub run : Parser → List Str → Parser
run p [] = p
run p (line ∷ rest) = run (step p line) rest

abbrev pub backfill_report : Str → Report → Report
backfill_report id r = record r { relay_queue_id = or_some r.relay_queue_id id }

unfoldable pub backfill : Option Str → List Report → List Report
backfill none reports = reports
backfill (some id) reports = map (backfill_report id) reports

-- What stands behind the loop.
unfoldable pub finish : Parser → List Report
unfolding backfill
finish p = backfill p.queue_id (push_current p.current p.reports)

abbrev pub initial : Parser
initial = record { reports = []; queue_id = none; current = none }

unfoldable pub parse : Str → List Report
unfolding run finish
parse raw = finish (run initial (unfold_folded raw))
