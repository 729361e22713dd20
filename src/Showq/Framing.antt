-- ===== src/Showq/Framing.antt =====
-- What the parser reads off a stream of framed records.
use postbud.Prelude.{
  ℕ, ◌≡◌, refl, sym, ap, ◌∙◌, true, false, List, [], ◌∷◌, ◌++◌, append_assoc, append-nil, Option,
  none, some, arith, if◌then◌else◌, is_empty, All,
}
use postbud.RelayQueue.{Queued}
use postbud.Showq.{Partial, blank, to_queued, finish, push, see_field, read_fields, parse}
use postbud.Text.Case.{eq_of_str_eq}
use postbud.Text.{Str, codes, str_eq, split, contains_char, trim}

-- A record as its names and values, as bytes.
abbrev pub Fields : Type 0
Fields = List (List ℕ × List ℕ)

-- The framing: each name and each value is followed by NUL, and so is each record.
abbrev pub frame_fields : Fields → List ℕ → List ℕ
frame_fields [] rest = 0 ∷ rest
frame_fields ((name, value) ∷ fields) rest = name ++ 0 ∷ (value ++ 0 ∷ frame_fields fields rest)

abbrev pub frame : List Fields → List ℕ
frame [] = []
frame (r ∷ rs) = frame_fields r (frame rs)

abbrev pub IsField : List ℕ × List ℕ → Type 0
IsField (name, value) =
    (is_empty name ≡ false) × (contains_char 0 name ≡ false) × (contains_char 0 value ≡ false)

module _ (lossy : List ℕ → Str) where
  -- The values of a name, the first and the last.
  abbrev pub first_value : Str → Fields → Option Str
  first_value n [] = none
  first_value n ((name, value) ∷ fields) =
      let later = first_value n fields in
      if str_eq (lossy name) n then some (trim (lossy value)) else later

  abbrev pub last_value : Str → Fields → Option Str
  last_value n [] = none
  last_value n ((name, value) ∷ fields) =
      let later = last_value n fields in
      elim later [
        | some v ↦ some v
        | none ↦ if str_eq (lossy name) n then some (trim (lossy value)) else none
      ]

  -- A record is an entry of the queue if it names its id and its queue; it shows the first reason.
  abbrev pub entry_of : Fields → Option Queued
  entry_of fields =
      to_queued (last_value (codes "queue_id") fields) (last_value (codes "queue_name") fields)
        (first_value (codes "reason") fields)

  abbrev pub entries_of : List Fields → List Queued
  entries_of [] = []
  entries_of (r ∷ rs) = push [] (entry_of r) ++ entries_of rs

  -- What is known of a record when `p` is read and `fields` are to come.
  abbrev or_later : Option Str → Option Str → Option Str
  or_later seen none = seen
  or_later seen (some v) = some v

  abbrev or_earlier : Option Str → Option Str → Option Str
  or_earlier none later = later
  or_earlier (some v) later = some v

  abbrev read_on : Partial → Fields → Partial
  read_on p fields = record {
    queue_id = or_later p.queue_id (last_value (codes "queue_id") fields);
    queue_name = or_later p.queue_name (last_value (codes "queue_name") fields);
    reason = or_earlier p.reason (first_value (codes "reason") fields);
  }

  split-append :
      (a rest : List ℕ) → contains_char 0 a ≡ false → split 0 (a ++ 0 ∷ rest) ≡ a ∷ split 0 rest
  unfolding split
  split-append [] rest h = refl
  split-append (c ∷ a) rest h = ground (arith, split-append a rest)

  apart_id : (n : Str) → str_eq n (codes "queue_id") ≡ true → str_eq n (codes "queue_name") ≡ false
  apart_id n h = rw (eq_of_str_eq n (codes "queue_id") h) refl

  apart_id_reason :
      (n : Str) → str_eq n (codes "queue_id") ≡ true → str_eq n (codes "reason") ≡ false
  apart_id_reason n h = rw (eq_of_str_eq n (codes "queue_id") h) refl

  apart_name : (n : Str) → str_eq n (codes "queue_name") ≡ true → str_eq n (codes "reason") ≡ false
  apart_name n h = rw (eq_of_str_eq n (codes "queue_name") h) refl

  -- One step of the parser, in terms of what is known of the record.
  read_on-see_field :
      (p : Partial) (name value : List ℕ) (fields : Fields)
      → read_on (see_field p (lossy name) (trim (lossy value))) fields
        ≡ read_on p ((name, value) ∷ fields)
  unfolding see_field
  read_on-see_field p name value fields =
      ground (arith, apart_id (lossy name), apart_id_reason (lossy name), apart_name (lossy name))

  -- A framed record is read to its end, whatever follows.
  read_fields-frame_fields :
      (p : Partial) (out : List Queued) (fields : Fields) (rest : List ℕ)
      → All IsField fields
      → read_fields lossy p out (split 0 (frame_fields fields rest))
        ≡ read_fields lossy blank (push out (finish (read_on p fields))) (split 0 rest)
  unfolding read_fields split
  read_fields-frame_fields p out [] rest h =
      ap (λ q. read_fields lossy blank (push out (finish q)) (split 0 rest)) (read_on_nil p)
    where
      read_on_nil : (p : Partial) → p ≡ read_on p []
      read_on_nil p = ground arith
  read_fields-frame_fields p out (([], value) ∷ fields) rest h = absurd (ground (arith, h.0.0))
  read_fields-frame_fields p out ((c ∷ name, value) ∷ fields) rest h =
      ap (read_fields lossy p out) (
        split-append (c ∷ name) (value ++ 0 ∷ frame_fields fields rest) h.0.1
        ∙ ap (◌∷◌ (c ∷ name)) (split-append value (frame_fields fields rest) h.0.2))
      ∙ read_fields-frame_fields (see_field p (lossy (c ∷ name)) (trim (lossy value))) out fields
          rest h.1
      ∙ ap (λ q. read_fields lossy blank (push out (finish q)) (split 0 rest))
          (read_on-see_field p (c ∷ name) value fields)

  push-append :
      (out more : List Queued) (o : Option Queued) → push out o ++ more ≡ out ++ (push [] o ++ more)
  push-append out more none = refl
  push-append out more (some e) = append_assoc out (e ∷ []) more

  read_fields-frame :
      (out : List Queued) (records : List Fields)
      → All (All IsField) records
      → read_fields lossy blank out (split 0 (frame records)) ≡ out ++ entries_of records
  unfolding read_fields split finish
  read_fields-frame out [] h = sym (append-nil out)
  read_fields-frame out (r ∷ rs) h =
      read_fields-frame_fields blank out r (frame rs) h.0
      ∙ ap (λ o. read_fields lossy blank (push out o) (split 0 (frame rs))) (known r)
      ∙ read_fields-frame (push out (entry_of r)) rs h.1
      ∙ push-append out (entries_of rs) (entry_of r)
    where
      known : (r : Fields) → finish (read_on blank r) ≡ entry_of r
      known r = ground arith

  -- The parser reads a framed answer back, whatever fields its records have and in whatever order:
  -- it finds the entries in their order, each with the last id, the last queue and the first reason
  -- that its record gives, and skips the records that name no id or no queue.
  pub parse-frame :
      (records : List Fields)
      → All (All IsField) records
      → parse lossy (frame records) ≡ entries_of records
  unfolding parse
  parse-frame records h = read_fields-frame [] records h
