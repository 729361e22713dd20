-- ===== src/QueueReport.antt =====
-- The queue report on its way: crates/postbud-relay/src/queuereport.rs writes the entries of the
-- socket as lines of JSON (`as_ndjson`), and crates/postbud-core/src/relayqueue.rs reads them back
-- (`parse`) where crates/postbud-api/src/relayqueue.rs takes them in.
pub mod RoundTrip
use mathlib.Core.Option
use postbud.Prelude.{
  ℕ, ◌≡◌, Bool, true, false, not, List, [], ◌∷◌, ◌++◌, map, Option, none, some, if◌then◌else◌,
  is_empty, select, find_map,
}
use postbud.RelayQueue.{Queued}
use postbud.Showq.{not_empty}
use postbud.Text.{Str, contains_char, lines, trim}

-- The object of one line, as `RawEntry` and `RawRecipient` name its fields.
pub record RawRecipient : Type 0 where
  pub delay_reason : Option Str

pub record RawEntry : Type 0 where
  pub queue_id : Str
  pub queue_name : Str
  pub recipients : List RawRecipient

-- What the crates use of `serde_json`: the reader, and the text of an object. The text is one line
-- between braces, since control characters are escaped, and is read back.
pub record SerdeJson : Type 0 where
  pub from_str : Str → Option RawEntry
  pub inner : RawEntry → Str
  pub from_str-to_string : (e : RawEntry) → from_str (b'{' ∷ (inner e ++ b'}' ∷ [])) ≡ some e
  pub one_line : (e : RawEntry) → contains_char b'\n' (inner e) ≡ false

abbrev pub to_string : SerdeJson → RawEntry → Str
to_string json e = b'{' ∷ (json.inner e ++ b'}' ∷ [])

abbrev pub recipient_of : Option Str → RawRecipient
recipient_of reason = record { delay_reason = reason }

abbrev pub to_raw : Queued → RawEntry
to_raw e = record {
  queue_id = e.queue_id;
  queue_name = e.queue_name;
  recipients = recipient_of e.reason ∷ [];
}

unfoldable pub as_ndjson : SerdeJson → List Queued → Str
as_ndjson json [] = []
as_ndjson json (e ∷ rest) = to_string json (to_raw e) ++ b'\n' ∷ as_ndjson json rest

abbrev pub reason_of : RawRecipient → Option Str
reason_of r = r.delay_reason

abbrev pub from_raw : RawEntry → Queued
from_raw e = record {
  queue_id = e.queue_id;
  queue_name = e.queue_name;
  reason = not_empty (Option.map trim (find_map reason_of e.recipients));
}

-- `filter_map`
unfoldable pub read_lines : SerdeJson → List Str → List RawEntry
read_lines json [] = []
read_lines json (line ∷ rest) =
    let more = read_lines json rest in elim (json.from_str line) [ none ↦ more | some e ↦ e ∷ more ]

abbrev pub is_blank : Str → Bool
is_blank line = is_empty (trim line)

unfoldable pub parse : SerdeJson → Str → List Queued
unfolding read_lines
parse json raw = map from_raw (read_lines json (select (λ l. not (is_blank l)) (lines raw)))
