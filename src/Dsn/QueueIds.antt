-- ===== src/Dsn/QueueIds.antt =====
-- The queue ids of the reports: the join key is never lost, and never invented.
use postbud.Dsn.Fields.{
  is_named, queue_id_line, Holds, All-push_current, AllReports, Holds-map_current,
}
use postbud.Dsn.{
  Report, Parser, with_status, with_diagnostic, field, header, on_header, step, run, initial, parse,
  unfold_folded, backfill,
}
use postbud.Prelude.{
  ◌≡◌, refl, subst, Bool, true, false, ◌||◌, List, [], ◌∷◌, Option, none, some, arith, any, All,
  is_some, Bool-cases, inl, inr,
}
use postbud.Text.{Str, codes, str_eq}

-- A report has an id only if one has been read.
abbrev NotInvented : Bool → Report → Type 0
NotInvented seen r = is_some r.relay_queue_id ≡ true → seen ≡ true

is_some-field :
    (name value : Str) (p : Parser)
    → is_some (field name value p).queue_id
      ≡ (str_eq name (codes "x-postfix-queue-id") || is_some p.queue_id)
unfolding field
is_some-field name value p = ground arith

NotInvented-later :
    (seen more : Bool) (rs : List Report)
    → All (NotInvented seen) rs
    → All (NotInvented (more || seen)) rs
NotInvented-later seen more [] h = tt
NotInvented-later seen more (r ∷ rs) h =
    (λ e. later more (h.0 e), NotInvented-later seen more rs h.1)
  where
    later : (m : Bool) → seen ≡ true → (m || seen) ≡ true
    later true e = refl
    later false e = e

Holds-later :
    (seen more : Bool) (o : Option Report)
    → Holds (NotInvented seen) o
    → Holds (NotInvented (more || seen)) o
Holds-later seen more none h = tt
Holds-later seen true (some r) h = λ e. refl
Holds-later seen false (some r) h = h

abbrev Seen : Parser → Type 0
Seen p = AllReports (NotInvented (is_some p.queue_id)) p

field-Seen : (name value : Str) (p : Parser) → Seen p → Seen (field name value p)
unfolding field
field-Seen name value p h =
    let seen = is_some p.queue_id in
    elim (Bool-cases (str_eq name (codes "x-postfix-queue-id"))) [
      | inl e ↦
          rw e (NotInvented-later seen true p.reports h.0, Holds-later seen true p.current h.1)
      | inr e ↦ rw e (elim (Bool-cases (str_eq name (codes "final-recipient"))) [
        | inl f ↦ rw f (All-push_current (NotInvented seen) p.current p.reports h.1 h.0, λ i. i)
        | inr f ↦ rw f (elim (Bool-cases (str_eq name (codes "status"))) [
          | inl g ↦ rw g (
            h.0,
            Holds-map_current (NotInvented seen) (with_status value) (λ r n. n) p.current h.1,
          )
          | inr g ↦ rw g (elim (Bool-cases (str_eq name (codes "diagnostic-code"))) [
            | inl k ↦ rw k (
              h.0,
              Holds-map_current (NotInvented seen) (with_diagnostic value) (λ r n. n) p.current h.1,
            )
            | inr k ↦ rw k h
          ])
        ])
      ])
    ]

on_header-Seen : (o : Option (Str × Str)) (p : Parser) → Seen p → Seen (on_header o p)
unfolding on_header
on_header-Seen none p h = h
on_header-Seen (some (name, value)) p h = field-Seen name value p h

is_some-on_header :
    (o : Option (Str × Str)) (p : Parser)
    → is_some (on_header o p).queue_id
      ≡ (is_named (codes "x-postfix-queue-id") o || is_some p.queue_id)
unfolding on_header
is_some-on_header none p = refl
is_some-on_header (some (name, value)) p = is_some-field name value p

run-Seen : (p : Parser) (ls : List Str) → Seen p → Seen (run p ls)
unfolding run step
run-Seen p [] h = h
run-Seen p (l ∷ ls) h = run-Seen (step p l) ls (on_header-Seen (header l) p h)

is_some-run :
    (p : Parser) (ls : List Str)
    → is_some (run p ls).queue_id ≡ (any queue_id_line ls || is_some p.queue_id)
unfolding run step
is_some-run p [] = refl
is_some-run p (l ∷ ls) = ground (arith, is_some-run (step p l) ls, is_some-on_header (header l) p)

-- Filled in behind the loop, a report has an id exactly if the notification has one.
All-backfill :
    (o : Option Str) (rs : List Report)
    → All (NotInvented (is_some o)) rs
    → All (λ r. is_some r.relay_queue_id ≡ is_some o) (backfill o rs)
unfolding backfill
All-backfill none [] h = tt
All-backfill (some id) [] h = tt
All-backfill none (r ∷ rs) h = (ground arith, All-backfill none rs h.1)
All-backfill (some id) (r ∷ rs) h = (ground arith, All-backfill (some id) rs h.1)

-- Every report has a queue id if some line of the notification carries one, before or after the
-- recipients, and no report has one if no line does.
pub parse-relay_queue_id :
    (raw : Str)
    → All (λ r. is_some r.relay_queue_id ≡ any queue_id_line (unfold_folded raw)) (parse raw)
unfolding parse
parse-relay_queue_id raw =
    let p = run initial (unfold_folded raw) in
    let h = run-Seen initial (unfold_folded raw) (tt, tt) in
    let seen = All-push_current (NotInvented (is_some p.queue_id)) p.current p.reports h.1 h.0 in
    let e : is_some p.queue_id ≡ any queue_id_line (unfold_folded raw) =
      ground (arith, is_some-run initial (unfold_folded raw)) in
    subst (λ x. All (λ r. is_some r.relay_queue_id ≡ x) (parse raw)) e
      (All-backfill p.queue_id _ seen)
