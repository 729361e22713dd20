-- ===== src/Observing/Rounds.antt =====
-- What a round of checks records, and what is due behind it.
use postbud.DnsCheck.{DomainResult}
use postbud.Domains.Cadence.{has_id, interval, stale_new, due-any}
use postbud.Domains.{
  SendingDomain, DomainRow, CheckRow, is_current, is_domain, entries, check_row, record_check,
  latest_check, is_due, due_for_check,
}
use postbud.Observing.{World, Round, check_domain, check_each, run_due_checks}
use postbud.Prelude.Rows.{count_where-pos}
use postbud.Prelude.{
  ℕ, suc, ◌+◌, ◌≤◌, ◌≡◌, refl, sym, ap, subst, ◌∙◌, Bool, true, false, ◌&&◌, List, [], ◌∷◌, ◌++◌,
  append-nil, append_assoc, Option, none, some, arith, ltb, leb, ◌==◌, if◌then◌else◌, any, select,
  count_where, insert_by, sort_by, length, Memᴰ, Bool-cases, inl, inr,
}

abbrev pub row_of : World → SendingDomain → Option (Option DomainResult) → List CheckRow
row_of world d (some (some result)) = check_row (world.clock d) d.id result ∷ []
row_of world d _ = []

-- The rows that the domains' own checks give, each for itself.
abbrev pub verdicts : World → List SendingDomain → List CheckRow
verdicts world [] = []
verdicts world (d ∷ due) = row_of world d (check_domain world d) ++ verdicts world due

abbrev pub Records : World → List CheckRow → ℕ → List SendingDomain → Round → Type 0
Records world checks checked due round =
    (round.checks ≡ checks ++ verdicts world due)
    × (round.checked ≡ checked + length (verdicts world due))

check_each-Records :
    (world : World) (checks : List CheckRow) (checked : ℕ) (due : List SendingDomain)
    → (check_each world checks checked due).finished ≡ true
    → Records world checks checked due (check_each world checks checked due)
unfolding check_each record_check
check_each-Records world checks checked [] f = (sym (append-nil checks), omega arith)
check_each-Records world checks checked (d ∷ due) f =
    go (check_domain world d) refl (λ cs n. check_each-Records world cs n due)
  where
    go :
        (o : Option (Option DomainResult))
        → check_domain world d ≡ o
        → ((cs : List CheckRow) (n : ℕ)
            → (check_each world cs n due).finished ≡ true
            → Records world cs n due (check_each world cs n due))
        → Records world checks checked (d ∷ due) (check_each world checks checked (d ∷ due))
    go none e later = absurd (let g : false ≡ true = rw (e, check_each) at f in cc)
    go (some none) e later = rw (e, check_each) (later checks checked (rw (e, check_each) at f))
    go (some (some result)) e later =
        let row = check_row (world.clock d) d.id result in
        let r : Records world (checks ++ row ∷ []) (suc checked) due
            (check_each world (checks ++ row ∷ []) (suc checked) due) =
          later (checks ++ row ∷ []) (suc checked) (rw (e, check_each) at f) in
        rw (e, check_each)
          (r.0 ∙ append_assoc checks (row ∷ []) (verdicts world due), omega (arith, r.1))

latest-append :
    (id : ℕ) (xs ys : List CheckRow) (c : CheckRow)
    → latest_check id ys ≡ some c
    → latest_check id (xs ++ ys) ≡ some c
unfolding latest_check
latest-append id [] ys c h = h
latest-append id (x ∷ xs) ys c h = rw (latest-append id xs ys c h) refl

latest-none :
    (world : World) (id : ℕ) (due : List SendingDomain)
    → any (has_id id) due ≡ false
    → latest_check id (verdicts world due) ≡ none
unfolding latest_check
latest-none world id [] h = refl
latest-none world id (d ∷ due) h =
    go (check_domain world d) (ground arith) (latest-none world id due (ground arith))
  where
    go :
        (o : Option (Option DomainResult))
        → (d.id == id) ≡ false
        → latest_check id (verdicts world due) ≡ none
        → latest_check id (row_of world d o ++ verdicts world due) ≡ none
    go none e later = later
    go (some none) e later = later
    go (some (some result)) e later = rw (latest_check, later, e) refl

latest-verdicts :
    (world : World) (d : SendingDomain) (result : DomainResult) (due : List SendingDomain)
    → Memᴰ d due
    → count_where (has_id d.id) due ≤ 1
    → check_domain world d ≡ some (some result)
    → latest_check d.id (verdicts world due) ≡ some (check_row (world.clock d) d.id result)
unfolding latest_check
latest-verdicts world d result [] m u e = elim m [ ]
latest-verdicts world d result (x ∷ due) (Memᴰ.head s) u e =
    let later : any (has_id d.id) due ≡ false =
      ground (arith, ap (λ z. z.id) s, count_where-pos (has_id d.id) due) in
    rw (← s, e)
      (rw (latest-none world d.id due later)
        (let i : (d.id == d.id) ≡ true = ground arith in rw i refl))
latest-verdicts world d result (x ∷ due) (Memᴰ.tail m) u e =
    latest-append d.id (row_of world x (check_domain world x)) (verdicts world due)
      (check_row (world.clock d) d.id result)
      (latest-verdicts world d result due m (omega (arith, u)) e)

count-entries :
    (id : ℕ) (rows : List DomainRow)
    → count_where (has_id id) (entries rows) ≡ count_where (is_domain id) rows
count-entries id [] = refl
count-entries id (r ∷ rows) = omega (arith, count-entries id rows)

count-insert_by :
    (p : DomainRow → Bool) (before : DomainRow → DomainRow → Bool) (x : DomainRow)
    (rows : List DomainRow)
    → count_where p (insert_by before x rows) ≡ (if p x then 1 else 0) + count_where p rows
unfolding insert_by
count-insert_by p before x [] = refl
count-insert_by p before x (y ∷ rows) = ground (arith, count-insert_by p before x rows)

count-sort_by :
    (p : DomainRow → Bool) (before : DomainRow → DomainRow → Bool) (rows : List DomainRow)
    → count_where p (sort_by before rows) ≡ count_where p rows
unfolding sort_by
count-sort_by p before [] = refl
count-sort_by p before (x ∷ rows) =
    omega (arith, count-insert_by p before x (sort_by before rows), count-sort_by p before rows)

count-select :
    (p q : DomainRow → Bool) (rows : List DomainRow)
    → count_where p (select q rows) ≤ count_where p rows
count-select p q [] = omega arith
count-select p q (x ∷ rows) = ground (arith, count-select p q rows)

count-due :
    (now retry revalidate id : ℕ) (rows : List DomainRow) (checks : List CheckRow)
    → count_where (has_id id) (due_for_check now rows checks retry revalidate)
      ≤ count_where (is_domain id) rows
unfolding due_for_check
count-due now retry revalidate id rows checks =
    let chosen = select (is_due now retry revalidate checks) rows in
    let before = λ (a : DomainRow) (b : DomainRow). leb a.entry.id b.entry.id in
    omega (
      arith,
      count-entries id (sort_by before chosen),
      count-sort_by (is_domain id) before chosen,
      count-select (is_domain id) (is_due now retry revalidate checks) rows,
    )

-- A round that comes to its end adds what the checks of the domains give, each for itself.
run_due_checks-Records :
    (world : World) (now : ℕ) (rows : List DomainRow) (checks : List CheckRow)
    → (run_due_checks world now rows checks).finished ≡ true
    → Records world checks 0
        (due_for_check now rows checks 15 24)
        (run_due_checks world now rows checks)
unfolding run_due_checks
run_due_checks-Records world now rows checks f =
    check_each-Records world checks 0 (due_for_check now rows checks 15 24) f

due-latest :
    (later retry revalidate id : ℕ) (checks : List CheckRow) (now : ℕ) (result : DomainResult)
    (rows : List DomainRow)
    → latest_check id checks ≡ some (check_row now id result)
    → any (λ r. is_domain id r && is_due later retry revalidate checks r) rows ≡ (
        any (λ r. is_domain id r && is_current r) rows
        && ltb (now + interval retry revalidate result.valid) later)
due-latest later retry revalidate id checks now result [] h = refl
due-latest later retry revalidate id checks now result (r ∷ rows) h =
    elim (Bool-cases (is_domain id r)) [
      | inr e ↦ rw e (due-latest later retry revalidate id checks now result rows h)
      | inl e ↦
          let same : id ≡ r.entry.id = ground arith in
          let l : latest_check r.entry.id checks ≡ some (check_row now id result) =
            subst (λ i. latest_check i checks ≡ some (check_row now id result)) same h in
          rw (l, e)
            (ground (
              arith,
              due-latest later retry revalidate id checks now result rows h,
              stale_new now later retry revalidate id result,
            ))
    ]

-- After a round that comes to its end, a domain that it checked is due again exactly if it has not
-- ended and its verdict is old enough: more than 24 hours where everything was right, and more than
-- 15 minutes where something was wrong. The ids of the domains are a key.
pub due_for_check-run_due_checks :
    (world : World) (now later : ℕ) (rows : List DomainRow) (checks : List CheckRow)
    (d : SendingDomain) (result : DomainResult)
    → (run_due_checks world now rows checks).finished ≡ true
    → count_where (is_domain d.id) rows ≤ 1
    → Memᴰ d (due_for_check now rows checks 15 24)
    → check_domain world d ≡ some (some result)
    → any
        (has_id d.id)
        (due_for_check later rows (run_due_checks world now rows checks).checks 15 24)
      ≡ (any (λ r. is_domain d.id r && is_current r) rows
          && ltb (world.clock d + interval 15 24 result.valid) later)
due_for_check-run_due_checks world now later rows checks d result f u m e =
    let due = due_for_check now rows checks 15 24 in
    let after = (run_due_checks world now rows checks).checks in
    let one : count_where (has_id d.id) due ≤ 1 =
      omega (arith, u, count-due now 15 24 d.id rows checks) in
    let l : latest_check d.id after ≡ some (check_row (world.clock d) d.id result) =
      ap (latest_check d.id) (run_due_checks-Records world now rows checks f).0
      ∙ latest-append d.id checks (verdicts world due) (check_row (world.clock d) d.id result)
          (latest-verdicts world d result due m one e) in
    due-any later rows after 15 24 d.id
    ∙ due-latest later 15 24 d.id after (world.clock d) result rows l
