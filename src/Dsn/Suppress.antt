-- ===== src/Dsn/Suppress.antt =====
-- Which reports suppress an address.
use postbud.Classification.{Classification, permanent, unknown, of_class, from_status}
use postbud.Dsn.Fields.{IsCoherent}
use postbud.Dsn.Reports.{parse-IsCoherent}
use postbud.Dsn.{
  Report, recipient_is_the_problem, names_a_missing_mailbox, missing_mailbox, flat, is_permanent,
  should_suppress, parse, recipient_details,
}
use postbud.Prelude.{
  ◌≡◌, refl, sym, ◌∙◌, ◌⊎◌, inl, inr, ◌↔◌, true, false, List, [], ◌∷◌, ◌++◌, arith, Option, none,
  some, any, Any, All, is_some_and, Bool-cases,
}
use postbud.Text.Case.{eq_of_str_eq}
use postbud.Text.Contains.{any_iff, Infix, contains_iff}
use postbud.Text.Split.{split_once-cases, split_once-append, split_once-of_not_contains}
use postbud.Text.{Str, codes, str_eq, trim, first_piece, contains, contains_char}

-- The details of RFC 3463 that say that the recipient's address is bad.
abbrev pub BadAddress : Str → Type 0
BadAddress d =
    (d ≡ codes "1.1")
    ⊎ (d ≡ codes "1.2")
    ⊎ (d ≡ codes "1.3")
    ⊎ (d ≡ codes "1.6")
    ⊎ (d ≡ codes "1.10")
    ⊎ (d ≡ codes "2.1")

-- A status that blames the recipient: a class, a dot, and one of those details.
abbrev pub BlamesRecipient : Str → Type 0
BlamesRecipient status =
    (class : Str) × (detail : Str) × (trim status ≡ class ++ b'.' ∷ detail)
    × (contains_char b'.' class ≡ false)
    × BadAddress detail

listed_iff : (d : Str) → any (str_eq d) recipient_details ≡ true ↔ BadAddress d
listed_iff d = (
  λ h. ground (
    arith,
    eq_of_str_eq d (codes "1.1"),
    eq_of_str_eq d (codes "1.2"),
    eq_of_str_eq d (codes "1.3"),
    eq_of_str_eq d (codes "1.6"),
    eq_of_str_eq d (codes "1.10"),
    eq_of_str_eq d (codes "2.1"),
  ),
  elim [
    | inl e ↦ rw e refl
    | inr (inl e) ↦ rw e refl
    | inr (inr (inl e)) ↦ rw e refl
    | inr (inr (inr (inl e))) ↦ rw e refl
    | inr (inr (inr (inr (inl e)))) ↦ rw e refl
    | inr (inr (inr (inr (inr e)))) ↦ rw e refl
  ],
)

-- The status test passes exactly on those.
pub recipient_is_the_problem_iff :
    (status : Str) → recipient_is_the_problem status ≡ true ↔ BlamesRecipient status
unfolding recipient_is_the_problem
recipient_is_the_problem_iff status = (forth, back)
  where
    forth : recipient_is_the_problem status ≡ true → BlamesRecipient status
    forth h = elim (split_once-cases b'.' (trim status)) [
      | inl k ↦ absurd (ground (arith, split_once-of_not_contains b'.' (trim status) k))
      | inr (a, b, e, k) ↦
          (a, b, e, k, (listed_iff b).0 (ground (arith, split_once-append b'.' a b k)))
    ]

    back : BlamesRecipient status → recipient_is_the_problem status ≡ true
    back (a, b, e, k, l) =
        rw (e, split_once-append b'.' a b k, recipient_is_the_problem) ((listed_iff b).1 l)

-- The diagnostic holds, up to case and spacing, a phrase that says that the mailbox is missing.
abbrev pub NamesMissing : Str → Type 0
NamesMissing diagnostic = Any (λ phrase. Infix phrase (flat diagnostic)) missing_mailbox

names_a_missing_mailbox_iff : (d : Str) → names_a_missing_mailbox d ≡ true ↔ NamesMissing d
unfolding names_a_missing_mailbox
names_a_missing_mailbox_iff d =
    any_iff (λ phrase. contains phrase (flat d)) (λ phrase. Infix phrase (flat d))
      (λ phrase. contains_iff phrase (flat d)) missing_mailbox

-- A report whose status is of class 5, with a status or a diagnostic that blames the recipient.
abbrev pub Justified : Report → Type 0
Justified r =
    (s : Str) × (r.status ≡ some s)
    × (first_piece b'.' (trim s) ≡ codes "5")
    × (BlamesRecipient s ⊎ ((d : Str) × (r.diagnostic ≡ some d) × NamesMissing d))

of_class-permanent : (c : Str) → of_class c ≡ permanent → c ≡ codes "5"
unfolding of_class
of_class-permanent c h = ground (arith, eq_of_str_eq c (codes "5"))

class_of : (s : Str) → from_status s ≡ permanent → first_piece b'.' (trim s) ≡ codes "5"
unfolding from_status
class_of s h = of_class-permanent (first_piece b'.' (trim s)) h

of_class_5 : (s : Str) → first_piece b'.' (trim s) ≡ codes "5" → from_status s ≡ permanent
unfolding from_status of_class
of_class_5 s h = rw h refl

-- The tests that a suppressing report passed.
abbrev Passed : Report → Type 0
Passed r =
    (s : Str) × (r.status ≡ some s)
    × (from_status s ≡ permanent)
    × ((recipient_is_the_problem s ≡ true)
        ⊎ ((d : Str) × (r.diagnostic ≡ some d) × (names_a_missing_mailbox d ≡ true)))

names_cases :
    (o : Option Str)
    → is_some_and names_a_missing_mailbox o ≡ true
    → (d : Str) × (o ≡ some d) × (names_a_missing_mailbox d ≡ true)
names_cases none h = cc
names_cases (some d) h = (d, refl, h)

status_cases :
    (o : Option Str)
    → (elim o [ none ↦ unknown | some s ↦ from_status s ]) ≡ permanent
    → (s : Str) × (o ≡ some s) × (from_status s ≡ permanent)
status_cases none h = cc
status_cases (some s) h = (s, refl, h)

is_permanent-true : (c : Classification) → is_permanent c ≡ true → c ≡ permanent
is_permanent-true permanent h = refl
is_permanent-true Classification.accepted h = cc
is_permanent-true Classification.transient h = cc
is_permanent-true unknown h = cc

should_suppress-Passed : (r : Report) → IsCoherent r → should_suppress r ≡ true → Passed r
unfolding should_suppress
should_suppress-Passed r c h =
    let p = is_permanent-true r.classification (ground arith) in
    let (s, e, k) = status_cases r.status (sym c.classified ∙ p) in
    elim (Bool-cases (recipient_is_the_problem s)) [
      | inl t ↦ (s, e, k, inl t)
      | inr f ↦ (s, e, k, inr (names_cases r.diagnostic (ground arith)))
    ]

Passed-should_suppress : (r : Report) → IsCoherent r → Passed r → should_suppress r ≡ true
unfolding should_suppress
Passed-should_suppress r c (s, e, k, w) =
    let p : r.classification ≡ permanent = c.classified ∙ rw e k in ground arith

Passed-iff-Justified : (r : Report) → Passed r ↔ Justified r
Passed-iff-Justified r = (forth, back)
  where
    forth : Passed r → Justified r
    forth (s, e, k, inl t) = (s, e, class_of s k, inl ((recipient_is_the_problem_iff s).0 t))
    forth (s, e, k, inr (d, q, t)) =
        (s, e, class_of s k, inr (d, q, (names_a_missing_mailbox_iff d).0 t))

    back : Justified r → Passed r
    back (s, e, k, inl t) = (s, e, of_class_5 s k, inl ((recipient_is_the_problem_iff s).1 t))
    back (s, e, k, inr (d, q, t)) =
        (s, e, of_class_5 s k, inr (d, q, (names_a_missing_mailbox_iff d).1 t))

All-should_suppress :
    (rs : List Report) → All IsCoherent rs → All (λ r. should_suppress r ≡ true ↔ Justified r) rs
All-should_suppress [] h = tt
All-should_suppress (r ∷ rs) h = (
  (
    λ e. (Passed-iff-Justified r).0 (should_suppress-Passed r h.0 e),
    λ j. Passed-should_suppress r h.0 ((Passed-iff-Justified r).1 j),
  ),
  All-should_suppress rs h.1,
)

-- A report of a notification suppresses its address exactly if it carries a status of class 5
-- and that status, or the diagnostic, says that the recipient's address is bad.
pub parse-should_suppress :
    (raw : Str) → All (λ r. should_suppress r ≡ true ↔ Justified r) (parse raw)
parse-should_suppress raw = All-should_suppress (parse raw) (parse-IsCoherent raw)
