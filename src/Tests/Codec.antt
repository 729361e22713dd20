-- ===== src/Tests/Codec.antt =====
-- A stand-in for `serde_json` that satisfies what is asked of it: the pieces of an object are shifted
-- out of the way of the characters that separate them.
use postbud.Prelude.{
  ℕ, ◌+◌, ◌-◌, ◌≡◌, refl, ap, ◌∙◌, true, false, ◌||◌, List, [], ◌∷◌, ◌++◌, append_assoc, map,
  Option, none, some, arith, ◌==◌, if◌then◌else◌,
}
use postbud.QueueReport.{RawRecipient, RawEntry, SerdeJson, recipient_of}
use postbud.Text.{Str, contains_char, split}

abbrev up : Str → Str
up = map (λ c. c + 11)

abbrev down : Str → Str
down = map (λ c. c - 11)

abbrev piece : Option Str → Str
piece none = 2 ∷ []
piece (some s) = 3 ∷ up s

abbrev pieces : List RawRecipient → Str
pieces [] = []
pieces (r ∷ rs) = piece r.delay_reason ++ 1 ∷ pieces rs

abbrev inner : RawEntry → Str
inner e = up e.queue_id ++ 1 ∷ (up e.queue_name ++ 1 ∷ pieces e.recipients)

abbrev add_piece : Str → List RawRecipient → List RawRecipient
add_piece [] rest = rest
add_piece (c ∷ s) rest =
    if c == 2
    then recipient_of none ∷ rest
    else if c == 3
    then recipient_of (some (down s)) ∷ rest
    else rest

abbrev recipients : List Str → List RawRecipient
recipients [] = []
recipients (p ∷ ps) = add_piece p (recipients ps)

abbrev decode : List Str → Option RawEntry
decode (id ∷ name ∷ rest) =
    some (record { queue_id = down id; queue_name = down name; recipients = recipients rest })
decode _ = none

abbrev from_str : Str → Option RawEntry
from_str [] = none
from_str (c ∷ s) = decode (split 1 s)

down-up : (s : Str) → down (up s) ≡ s
down-up [] = refl
down-up (c ∷ s) = let e : (c + 11) - 11 ≡ c = omega arith in rw (e, down-up s) refl

plain-up : (s : Str) → contains_char 1 (up s) ≡ false
plain-up [] = refl
plain-up (c ∷ s) = ground (arith, plain-up s)

newline-up : (s : Str) → contains_char b'\n' (up s) ≡ false
newline-up [] = refl
newline-up (c ∷ s) = ground (arith, newline-up s)

split-piece : (d : ℕ) (a b : Str) → contains_char d a ≡ false → split d (a ++ d ∷ b) ≡ a ∷ split d b
unfolding split
split-piece d [] b h = let e : (d == d) ≡ true = ground arith in rw e refl
split-piece d (c ∷ a) b h =
    let e : (c == d) ≡ false = ground arith in rw (e, split-piece d a b (ground arith)) refl

contains-append :
    (d : ℕ) (a b : Str) → contains_char d (a ++ b) ≡ (contains_char d a || contains_char d b)
contains-append d [] b = refl
contains-append d (c ∷ a) b = ground (arith, contains-append d a b)

newline-pieces : (rs : List RawRecipient) → contains_char b'\n' (pieces rs) ≡ false
newline-pieces [] = refl
newline-pieces (r ∷ rs) = go r.delay_reason (newline-pieces rs)
  where
    go :
        (o : Option Str)
        → contains_char b'\n' (pieces rs) ≡ false
        → contains_char b'\n' (piece o ++ 1 ∷ pieces rs) ≡ false
    go none h = ground (arith, h)
    go (some s) h =
        rw (contains-append b'\n' (up s) (1 ∷ pieces rs), newline-up s) (ground (arith, h))

read-pieces : (rs : List RawRecipient) → recipients (split 1 (pieces rs ++ b'}' ∷ [])) ≡ rs
unfolding split
read-pieces [] = refl
read-pieces (r ∷ rs) = go r.delay_reason (read-pieces rs)
  where
    go :
        (o : Option Str)
        → recipients (split 1 (pieces rs ++ b'}' ∷ [])) ≡ rs
        → recipients (split 1 ((piece o ++ 1 ∷ pieces rs) ++ b'}' ∷ [])) ≡ recipient_of o ∷ rs
    go none h =
        ap recipients (split-piece 1 (2 ∷ []) (pieces rs ++ b'}' ∷ []) refl)
        ∙ ap (◌∷◌ (recipient_of none)) h
    go (some s) h =
        ap (λ t. recipients (split 1 (3 ∷ t))) (append_assoc (up s) (1 ∷ pieces rs) (b'}' ∷ []))
        ∙ ap recipients (split-piece 1 (3 ∷ up s) (pieces rs ++ b'}' ∷ []) (plain-up s))
        ∙ rw (down-up s) (ap (◌∷◌ (recipient_of (some s))) h)

-- The text behind the brace, with its separators to the right.
inner-append :
    (e : RawEntry)
    → inner e ++ b'}' ∷ []
      ≡ up e.queue_id ++ 1 ∷ (up e.queue_name ++ 1 ∷ (pieces e.recipients ++ b'}' ∷ []))
inner-append e =
    append_assoc (up e.queue_id) (1 ∷ (up e.queue_name ++ 1 ∷ pieces e.recipients)) (b'}' ∷ [])
    ∙ ap (λ t. up e.queue_id ++ 1 ∷ t)
        (append_assoc (up e.queue_name) (1 ∷ pieces e.recipients) (b'}' ∷ []))

pub from_str-to_string : (e : RawEntry) → from_str (b'{' ∷ (inner e ++ b'}' ∷ [])) ≡ some e
from_str-to_string e =
    ap (λ t. decode (split 1 t)) (inner-append e)
    ∙ ap decode (
        split-piece 1 (up e.queue_id) (up e.queue_name ++ 1 ∷ (pieces e.recipients ++ b'}' ∷ []))
          (plain-up e.queue_id))
    ∙ ap (λ ps. decode (up e.queue_id ∷ ps))
        (split-piece 1 (up e.queue_name) (pieces e.recipients ++ b'}' ∷ []) (plain-up e.queue_name))
    ∙ rw (down-up e.queue_id, down-up e.queue_name, read-pieces e.recipients) refl

pub one_line : (e : RawEntry) → contains_char b'\n' (inner e) ≡ false
one_line e =
    rw
      (
        contains-append b'\n' (up e.queue_id) (1 ∷ (up e.queue_name ++ 1 ∷ pieces e.recipients)),
        newline-up e.queue_id,
        contains-append b'\n' (up e.queue_name) (1 ∷ pieces e.recipients),
        newline-up e.queue_name,
        newline-pieces e.recipients,
      )
      refl

abbrev pub json : SerdeJson
json = record {
  from_str = from_str;
  inner = inner;
  from_str-to_string = from_str-to_string;
  one_line = one_line;
}
