-- ===== src/QueueReport/RoundTrip.antt =====
-- What the socket says reaches the service unchanged.
use postbud.Prelude.{
  ℕ, ◌≡◌, refl, ap, ◌∙◌, false, not, List, [], ◌∷◌, ◌++◌, append_assoc, map, Option, none, some,
  arith, is_empty, select, ◌&&◌, All, is_none, Bool-cases, inl, inr,
}
use postbud.QueueReport.{
  SerdeJson, to_string, to_raw, from_raw, as_ndjson, read_lines, is_blank, parse,
}
use postbud.RelayQueue.{Queued}
use postbud.Showq
use postbud.Showq.{Partial, blank, not_empty, to_queued, finish, push, see_field, read_fields}
use postbud.Text.Lines.{lines-append}
use postbud.Text.Trim.{trim_idem}
use postbud.Prelude.Rows.{All-concat}
use postbud.Text.{
  Str, codes, str_eq, split, contains_char, lines, trim, trim_start, trim_end, is_whitespace,
}

-- A reason that the reader leaves as it is: trimmed, and not empty.
abbrev pub IsTidyReason : Option Str → Type 0
IsTidyReason none = Unit
IsTidyReason (some r) = (trim r ≡ r) × (is_empty r ≡ false)

abbrev pub IsTidy : Queued → Type 0
IsTidy e = IsTidyReason e.reason

from_raw-to_raw : (e : Queued) → IsTidy e → from_raw (to_raw e) ≡ e
from_raw-to_raw e h = go e.reason refl h
  where
    go : (r : Option Str) → e.reason ≡ r → IsTidyReason r → from_raw (to_raw e) ≡ e
    go none q t = ground (arith, q)
    go (some r) q t = ground (arith, q, t.0, t.1)

is_blank-to_string : (json : SerdeJson) (e : Queued) → is_blank (to_string json (to_raw e)) ≡ false
unfolding trim trim_start trim_end is_whitespace
is_blank-to_string json e = refl

contains_char-append :
    (d : ℕ) (a b : Str)
    → contains_char d a ≡ false
    → contains_char d b ≡ false
    → contains_char d (a ++ b) ≡ false
contains_char-append d [] b h k = k
contains_char-append d (c ∷ a) b h k = ground (arith, contains_char-append d a b)

lines-as_ndjson :
    (json : SerdeJson) (e : Queued) (rest : List Queued)
    → lines (as_ndjson json (e ∷ rest)) ≡ to_string json (to_raw e) ∷ lines (as_ndjson json rest)
unfolding as_ndjson
lines-as_ndjson json e rest =
    ap lines (append_assoc (b'{' ∷ json.inner (to_raw e)) (b'}' ∷ []) (b'\n' ∷ as_ndjson json rest))
    ∙ lines-append (b'{' ∷ json.inner (to_raw e)) b'}' (as_ndjson json rest)
        (contains_char-append b'\n' (b'{' ∷ json.inner (to_raw e)) (b'}' ∷ [])
          (json.one_line (to_raw e)) refl)
        refl

-- The service reads the reported lines back to the entries that were written, if their reasons are
-- trimmed and not empty.
pub parse-as_ndjson :
    (json : SerdeJson) (entries : List Queued)
    → All IsTidy entries
    → parse json (as_ndjson json entries) ≡ entries
unfolding parse read_lines
parse-as_ndjson json [] h = unfold as_ndjson lines in refl
parse-as_ndjson json (e ∷ rest) h =
    ap (λ ls. map from_raw (read_lines json (select (λ l. not (is_blank l)) ls)))
      (lines-as_ndjson json e rest)
    ∙ rw (is_blank-to_string json e, json.from_str-to_string (to_raw e), read_lines)
        (ap (λ x. x ∷ parse json (as_ndjson json rest)) (from_raw-to_raw e h.0)
          ∙ ap (◌∷◌ e) (parse-as_ndjson json rest h.1))

abbrev IsTrimmed : Option Str → Type 0
IsTrimmed none = Unit
IsTrimmed (some r) = trim r ≡ r

IsTidyReason-not_empty : (o : Option Str) → IsTrimmed o → IsTidyReason (not_empty o)
IsTidyReason-not_empty none h = tt
IsTidyReason-not_empty (some []) h = tt
IsTidyReason-not_empty (some (c ∷ r)) h = (h, refl)

see_field-IsTrimmed :
    (p : Partial) (name value : Str)
    → IsTrimmed p.reason
    → IsTrimmed (see_field p name (trim value)).reason
unfolding see_field
see_field-IsTrimmed p name value h = elim (Bool-cases (str_eq name (codes "queue_id"))) [
  | inl a ↦ rw a h
  | inr a ↦ elim (Bool-cases (str_eq name (codes "queue_name"))) [
    | inl b ↦ rw (a, b) h
    | inr b ↦ elim (Bool-cases (str_eq name (codes "reason") && is_none p.reason)) [
      | inl c ↦ rw (a, b, c) (trim_idem value)
      | inr c ↦ rw (a, b, c) h
    ]
  ]
]

to_queued-IsTidy :
    (id name reason : Option Str) (out : List Queued)
    → IsTrimmed reason
    → All IsTidy out
    → All IsTidy (push out (to_queued id name reason))
to_queued-IsTidy none name reason out h k = k
to_queued-IsTidy (some id) none reason out h k = k
to_queued-IsTidy (some id) (some name) reason out h k =
    All-concat IsTidy out (record { queue_id = id; queue_name = name; reason = not_empty reason }) k
      (IsTidyReason-not_empty reason h)

module _ (lossy : List ℕ → Str) where
  read_fields-IsTidy :
      (p : Partial) (out : List Queued) (fields : List (List ℕ))
      → IsTrimmed p.reason
      → All IsTidy out
      → All IsTidy (read_fields lossy p out fields)
  unfolding read_fields finish
  read_fields-IsTidy p out [] h k = k
  read_fields-IsTidy p out ([] ∷ rest) h k =
      read_fields-IsTidy blank (push out (finish p)) rest tt
        (to_queued-IsTidy p.queue_id p.queue_name p.reason out h k)
  read_fields-IsTidy p out ((c ∷ name) ∷ []) h k = k
  read_fields-IsTidy p out ((c ∷ name) ∷ value ∷ rest) h k =
      read_fields-IsTidy (see_field p (lossy (c ∷ name)) (trim (lossy value))) out rest
        (see_field-IsTrimmed p (lossy (c ∷ name)) (lossy value) h) k

  -- Whatever the relay's socket answers, the entries that the reporter finds in it are those that
  -- the service reads from its report.
  pub parse-reported :
      (json : SerdeJson) (bytes : List ℕ)
      → parse json (as_ndjson json (Showq.parse lossy bytes)) ≡ Showq.parse lossy bytes
  parse-reported json bytes =
      parse-as_ndjson json (Showq.parse lossy bytes)
        (unfold Showq.parse in read_fields-IsTidy blank [] (split 0 bytes) tt tt)
