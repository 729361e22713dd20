-- ===== src/Dsn/Reports.antt =====
-- The reports that `parse` returns: one for each recipient line, each with a recipient and with
-- the classification of its status, and each with a queue id if the notification names one.
use postbud.Dsn.Fields.{
  is_named, recipient_line, IsCoherent, All-push_current, AllReports, Holds-map_current,
}
use postbud.Dsn.{
  Report, Parser, push_current, map_current, with_status, with_diagnostic, field, header, on_header,
  step, run, initial, parse, unfold_folded, backfill,
}
use postbud.Prelude.{
  ℕ, suc, ◌+◌, ◌≡◌, refl, ap, true, false, List, [], ◌∷◌, Option, none, some, arith, if◌then◌else◌,
  length, count_where, All, is_some,
}
use postbud.Text.Case.{eq_of_str_eq}
use postbud.Text.{Str, codes, str_eq}

-- Coherence

field-IsCoherent :
    (name value : Str) (p : Parser)
    → AllReports IsCoherent p
    → AllReports IsCoherent (field name value p)
unfolding field
field-IsCoherent name value p h = ground (
  arith,
  All-push_current IsCoherent p.current p.reports h.1 h.0,
  Holds-map_current IsCoherent (with_status value)
      (λ r c. record { recipient = c.recipient; classified = refl }) p.current h.1,
  Holds-map_current IsCoherent (with_diagnostic value)
      (λ r c. record { recipient = c.recipient; classified = c.classified }) p.current h.1,
)

on_header-IsCoherent :
    (o : Option (Str × Str)) (p : Parser)
    → AllReports IsCoherent p
    → AllReports IsCoherent (on_header o p)
unfolding on_header
on_header-IsCoherent none p h = h
on_header-IsCoherent (some (name, value)) p h = field-IsCoherent name value p h

run-IsCoherent :
    (p : Parser) (ls : List Str) → AllReports IsCoherent p → AllReports IsCoherent (run p ls)
unfolding run step
run-IsCoherent p [] h = h
run-IsCoherent p (l ∷ ls) h = run-IsCoherent (step p l) ls (on_header-IsCoherent (header l) p h)

All-backfill :
    (o : Option Str) (rs : List Report) → All IsCoherent rs → All IsCoherent (backfill o rs)
unfolding backfill
All-backfill none rs h = h
All-backfill (some id) [] h = tt
All-backfill (some id) (r ∷ rs) h = (
  record { recipient = h.0.recipient; classified = h.0.classified },
  All-backfill (some id) rs h.1,
)

-- Every report of every notification has a recipient, and its classification is that of its
-- status, or unknown where it has no status.
pub parse-IsCoherent : (raw : Str) → All IsCoherent (parse raw)
unfolding parse
parse-IsCoherent raw =
    let p = run initial (unfold_folded raw) in
    let h = run-IsCoherent initial (unfold_folded raw) (tt, tt) in
    All-backfill p.queue_id _ (All-push_current IsCoherent p.current p.reports h.1 h.0)

-- The number of reports

abbrev opened : Parser → ℕ
opened p = length p.reports + (if is_some p.current then 1 else 0)

names_differ :
    (name : Str)
    → str_eq name (codes "x-postfix-queue-id") ≡ true
    → str_eq name (codes "final-recipient") ≡ false
names_differ name h = rw (eq_of_str_eq name _ h) refl

length-push_current :
    (o : Option Report) (rs : List Report)
    → length (push_current o rs) ≡ length rs + (if is_some o then 1 else 0)
length-push_current none rs = omega arith
length-push_current (some r) [] = refl
length-push_current (some r) (x ∷ rs) = omega (arith, length-push_current (some r) rs)

is_some-map_current :
    (f : Report → Report) (o : Option Report) → is_some (map_current f o) ≡ is_some o
is_some-map_current f none = refl
is_some-map_current f (some r) = refl

opened-field :
    (name value : Str) (p : Parser)
    → opened (field name value p)
      ≡ opened p + (if str_eq name (codes "final-recipient") then 1 else 0)
unfolding field
opened-field name value p = ground (
  arith,
  names_differ name,
  length-push_current p.current p.reports,
  is_some-map_current (with_status value) p.current,
  is_some-map_current (with_diagnostic value) p.current,
)

opened-on_header :
    (o : Option (Str × Str)) (p : Parser)
    → opened (on_header o p) ≡ opened p + (if is_named (codes "final-recipient") o then 1 else 0)
unfolding on_header
opened-on_header none p = omega arith
opened-on_header (some (name, value)) p = opened-field name value p

opened-run :
    (p : Parser) (ls : List Str) → opened (run p ls) ≡ opened p + count_where recipient_line ls
unfolding run step
opened-run p [] = omega arith
opened-run p (l ∷ ls) = omega (arith, opened-run (step p l) ls, opened-on_header (header l) p)

length-backfill : (o : Option Str) (rs : List Report) → length (backfill o rs) ≡ length rs
unfolding backfill
length-backfill none rs = refl
length-backfill (some id) [] = refl
length-backfill (some id) (r ∷ rs) = ap suc (length-backfill (some id) rs)

-- There is one report for each line that names a final recipient, continuation lines joined.
pub length-parse : (raw : Str) → length (parse raw) ≡ count_where recipient_line (unfold_folded raw)
unfolding parse
length-parse raw =
    let p = run initial (unfold_folded raw) in
    omega (
      arith,
      length-backfill p.queue_id (push_current p.current p.reports),
      length-push_current p.current p.reports,
      opened-run initial (unfold_folded raw),
    )
