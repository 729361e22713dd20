-- ===== src/Dsn/Fields.antt =====
-- What one line of a notification does to the variables of `parse`.
use postbud.Dsn.{Report, Parser, push_current, map_current, header}
use postbud.Classification.{unknown, from_status}
use postbud.Prelude.{◌≡◌, Bool, true, false, List, [], ◌∷◌, ◌++◌, Option, none, some, All, is_some}
use postbud.Text.{Str, codes, str_eq}

-- A line that carries the field of that name, with a value.
abbrev pub is_named : Str → Option (Str × Str) → Bool
is_named name none = false
is_named name (some (n, v)) = str_eq n name

abbrev pub has_field : Str → Str → Bool
has_field name line = is_named name (header line)

abbrev pub queue_id_line : Str → Bool
queue_id_line = has_field (codes "x-postfix-queue-id")

abbrev pub recipient_line : Str → Bool
recipient_line = has_field (codes "final-recipient")

-- The status and the classification of a report say the same, and the report has a recipient.
pub record IsCoherent (r : Report) : Type 0 where
  pub recipient : is_some r.final_recipient ≡ true
  pub classified : r.classification ≡ (elim r.status [ none ↦ unknown | some s ↦ from_status s ])

module _ {ℓ} (P : Report → Type ℓ) where
  abbrev pub Holds : Option Report → Type ℓ
  Holds none = Unit
  Holds (some r) = P r

  pub All-concat : (rs : List Report) (r : Report) → All P rs → P r → All P (rs ++ r ∷ [])
  All-concat [] r h p = (p, tt)
  All-concat (x ∷ rs) r h p = (h.0, All-concat rs r h.1 p)

  -- What holds of the reports read so far, whatever keeps it in the one that is open.
  pub All-push_current :
      (o : Option Report) (rs : List Report) → Holds o → All P rs → All P (push_current o rs)
  All-push_current none rs h a = a
  All-push_current (some r) rs h a = All-concat rs r a h

  abbrev pub AllReports : Parser → Type ℓ
  AllReports p = All P p.reports × Holds p.current

pub Holds-map_current {ℓ} :
    (P : Report → Type ℓ) (f : Report → Report)
    → ((r : Report) → P r → P (f r))
    → (o : Option Report) → Holds P o
    → Holds P (map_current f o)
Holds-map_current P f keep none h = tt
Holds-map_current P f keep (some r) h = keep r h
