-- ===== src/Dmarc.antt =====
-- crates/postbud-core/src/dmarc.rs: an aggregate report, from the attachment to the record that is
-- stored. The decompressors and the reader of XML are parameters.
pub mod Unpack
pub mod Parse
pub mod Named
pub mod Stored
pub mod Bounded
pub mod Once
use postbud.Int.{ℤ}
use postbud.Prelude.{
  ℕ, Bool, List, [], ◌∷◌, Option, none, some, ◌<◌, ◌*◌, ltb, leb, ◌&&◌, ◌||◌, if◌then◌else◌, map,
  take, length, ◌++◌,
}
use postbud.Text.{Str, codes, split_whitespace, join}

pub data DmarcError : Type 0 where
  too_large too_many_members doctype empty : DmarcError
  archive xml not_a_report : Str → DmarcError

pub record DkimAuth : Type 0 where
  pub domain : Str
  pub result : Str
  pub selector : Option Str

pub record SpfAuth : Type 0 where
  pub domain : Str
  pub result : Str

pub record Reason : Type 0 where
  pub type_of : Str
  pub comment : Option Str

-- `Record`, with its `AuthResults` as the two lists.
pub record Source : Type 0 where
  pub source_ip : Str
  pub count : ℤ
  pub disposition : Str
  pub dkim_aligned : Str
  pub spf_aligned : Str
  pub header_from : Str
  pub dkim : List DkimAuth
  pub spf : List SpfAuth
  pub reasons : List Reason

pub record Report : Type 0 where
  pub org_name : Str
  pub email : Option Str
  pub report_id : Str
  pub begin : ℤ
  pub end : ℤ
  pub domain : Str
  pub p : Option Str
  pub sp : Option Str
  pub pct : Option ℤ
  pub adkim : Option Str
  pub aspf : Option Str
  pub records : List Source

abbrev pub max_uncompressed : ℕ
max_uncompressed = 33554432

abbrev pub max_archive_members : ℕ
max_archive_members = 16

-- `char::is_control`
abbrev pub is_control : ℕ → Bool
is_control c = ltb c 32 || (leb 127 c && leb c 159)

abbrev pub flat : ℕ → ℕ
flat c = if is_control c then b' ' else c

-- One line of at most 160 characters, and the mark of a cut.
unfoldable pub clipped : Str → Str
clipped message =
    let line = join (codes " ") (split_whitespace (map flat message)) in
    if ltb 160 (length line) then take 160 line ++ codes "..." else line
