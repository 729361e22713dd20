-- ===== src/Classification.antt =====
-- crates/postbud-core/src/lib.rs: what a reply code or an enhanced status means.
use postbud.Prelude.{ℕ, ◌/◌, ◌==◌, if◌then◌else◌}
use postbud.Text.{Str, codes, str_eq, trim, first_piece}

pub data Classification : Type 0 where
  accepted transient permanent unknown : Classification

-- `code` is a u16.
unfoldable pub from_smtp_code : ℕ → Classification
from_smtp_code code =
    if code / 100 == 2
    then accepted
    else if code / 100 == 4
    then transient
    else if code / 100 == 5
    then permanent
    else unknown

-- The match on the first piece.
unfoldable pub of_class : Str → Classification
of_class class =
    if str_eq class (codes "2")
    then accepted
    else if str_eq class (codes "4")
    then transient
    else if str_eq class (codes "5")
    then permanent
    else unknown

unfoldable pub from_status : Str → Classification
unfolding of_class
from_status status = of_class (first_piece b'.' (trim status))
