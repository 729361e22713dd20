-- ===== src/Observing/Visited.antt =====
-- What a round of checks makes of each domain that is due.
use postbud.DnsCheck.Names.{dmarc_names}
use postbud.DnsCheck.{Observed, DomainResult, evaluate}
use postbud.Domains.{SendingDomain, DomainRow, CheckRow, check_row, record_check, due_for_check}
use postbud.Observing.Answered.{
  Texts, Fails, Hosts, HostsFail, PolicyAt, PolicyFails, PolicyEnd, ConsentEnd, name_in, texts_in,
  txt-Texts, txt-Fails, mx-Hosts, mx-HostsFail, find_dmarc-PolicyEnd, fetch_all-ConsentEnd,
}
use postbud.Observing.{
  ResolveError, Resolver, World, Round, Answers, txt, mx, find_dmarc, fetch_all, consent_names, ask,
  observed, observe, expected_of, bounce_verdict, check_domain, check_each, run_due_checks,
}
use postbud.Prelude.{
  ℕ, suc, ◌+◌, ◌≡◌, refl, sym, ap, ◌∙◌, true, false, List, [], ◌∷◌, ◌++◌, append-nil, append_assoc,
  map, length, Option, none, some, arith, All, Any,
}
use postbud.Result.{Result, ok, err}
use postbud.Text.{Str, codes}

abbrev key_name : SendingDomain → Str
key_name d = d.dkim_selector ++ (codes "._domainkey." ++ d.domain)

-- Every question about the domain has an answer, and these are the answers.
pub record Answered (resolver : Resolver) (d : SendingDomain) (seen : Observed) : Type 0 where
  pub apex : Texts resolver d.domain seen.domain_txt
  pub key : Texts resolver (key_name d) seen.dkim_txt
  pub policy : PolicyAt resolver (dmarc_names d.domain) seen.dmarc_txt seen.dmarc_found_at
  pub hosts : Hosts resolver d.domain seen.mx
  pub asked :
      consent_names (seen.dmarc_txt, seen.dmarc_found_at) ≡ some (map name_in seen.report_auth)
  pub consents : All (λ p. Texts resolver (name_in p) (texts_in p)) seen.report_auth

-- The resolver has no answer to a question about the domain.
pub data Unanswered (resolver : Resolver) (d : SendingDomain) : Type 0 where
  no_apex : Fails resolver d.domain → Unanswered resolver d
  no_key : Fails resolver (key_name d) → Unanswered resolver d
  no_policy : PolicyFails resolver (dmarc_names d.domain) → Unanswered resolver d
  no_hosts : HostsFail resolver d.domain → Unanswered resolver d
  no_consent :
      (texts : List Str) (found_at : Option Str) (names : List Str)
      → PolicyAt resolver (dmarc_names d.domain) texts found_at
      → consent_names (texts, found_at) ≡ some names
      → Any (Fails resolver) names
      → Unanswered resolver d

-- The verdict of the rules on the answers, but for what is known of the bounce mailbox.
abbrev pub Judged : Resolver → SendingDomain → DomainResult → Type 0
Judged resolver d result =
    (seen : Observed) × (verdict : DomainResult) × Answered resolver d seen
    × (evaluate
          (record {
            spf = d.spf_expected;
            dkim_public_key = d.dkim_public_key;
            mx = d.mx_expected;
            dmarc_policy = d.dmarc_policy_expected;
          })
          seen
        ≡ some verdict)
    × (result ≡ record verdict { bounce = result.bounce })

-- The rows that the domains give, one after the other.
pub data Visits (world : World) : List SendingDomain → List CheckRow → Type 0 where
  over : Visits world [] []
  judged :
      (d : SendingDomain) (due : List SendingDomain) (rows : List CheckRow) (result : DomainResult)
      → Judged world.resolver d result
      → Visits world due rows
      → Visits world (d ∷ due) (check_row (world.clock d) d.id result ∷ rows)
  unanswered :
      (d : SendingDomain) (due : List SendingDomain) (rows : List CheckRow)
      → Unanswered world.resolver d
      → Visits world due rows
      → Visits world (d ∷ due) rows

module _ (resolver : Resolver) (d : SendingDomain) where
  abbrev AskEnd : Result Answers ResolveError → Type 0
  AskEnd (err x) = Unanswered resolver d
  AskEnd (ok a) =
      Texts resolver d.domain a.domain_txt
      × Texts resolver (key_name d) a.dkim_txt
      × PolicyAt resolver (dmarc_names d.domain) a.dmarc.0 a.dmarc.1
      × Hosts resolver d.domain a.mx

  ask-AskEnd : AskEnd (ask resolver d.domain d.dkim_selector)
  unfolding ask
  ask-AskEnd =
      go (txt resolver d.domain) refl (txt resolver (key_name d)) refl
        (find_dmarc resolver (dmarc_names d.domain)) refl
        (find_dmarc-PolicyEnd resolver (dmarc_names d.domain)) (mx resolver d.domain) refl
    where
      go :
          (apex : Result (List Str) ResolveError)
          → txt resolver d.domain ≡ apex
          → (key : Result (List Str) ResolveError) → txt resolver (key_name d) ≡ key
          → (policy : Result (List Str × Option Str) ResolveError)
          → find_dmarc resolver (dmarc_names d.domain) ≡ policy
          → PolicyEnd resolver (dmarc_names d.domain) (find_dmarc resolver (dmarc_names d.domain))
          → (hosts : Result (List Str) ResolveError) → mx resolver d.domain ≡ hosts
          → AskEnd (ask resolver d.domain d.dkim_selector)
      go (err x) a key k policy p pe hosts h =
          rw (a, ask) (no_apex (txt-Fails resolver d.domain x a))
      go (ok apex) a (err x) k policy p pe hosts h =
          rw (a, k, ask) (no_key (txt-Fails resolver (key_name d) x k))
      go (ok apex) a (ok key) k (err x) p pe hosts h = rw (a, k, p, ask) (no_policy (rw p at pe))
      go (ok apex) a (ok key) k (ok policy) p pe (err x) h =
          rw (a, k, p, h, ask) (no_hosts (mx-HostsFail resolver d.domain x h))
      go (ok apex) a (ok key) k (ok (texts, found_at)) p pe (ok hosts) h =
          rw (a, k, p, h, ask)
            (
              txt-Texts resolver d.domain apex a,
              txt-Texts resolver (key_name d) key k,
              (rw p at pe),
              mx-Hosts resolver d.domain hosts h,
            )

  abbrev ObserveEnd : Option (Result Observed ResolveError) → Type 0
  ObserveEnd none = Unit
  ObserveEnd (some (err x)) = Unanswered resolver d
  ObserveEnd (some (ok seen)) = Answered resolver d seen

  observe-ObserveEnd : ObserveEnd (observe resolver d.domain d.dkim_selector)
  unfolding observe
  observe-ObserveEnd = go (ask resolver d.domain d.dkim_selector) refl ask-AskEnd
    where
      consented :
          (a : Answers) (names : List Str)
          → AskEnd (ok a)
          → consent_names a.dmarc ≡ some names
          → (r : Result (List (Str × List Str)) ResolveError) → ConsentEnd resolver names r
          → ObserveEnd (some (observed a r))
      consented a names e c (err x) p = no_consent a.dmarc.0 a.dmarc.1 names e.2 c p
      consented a names e c (ok pairs) p = record {
        apex = e.0;
        key = e.1;
        policy = e.2;
        hosts = e.3;
        asked = c ∙ ap some (sym p.0);
        consents = p.1;
      }

      by_names :
          (a : Answers)
          → AskEnd (ok a)
          → ask resolver d.domain d.dkim_selector ≡ ok a
          → (o : Option (List Str)) → consent_names a.dmarc ≡ o
          → ObserveEnd (observe resolver d.domain d.dkim_selector)
      by_names a e q none c = rw (q, c, observe) tt
      by_names a e q (some names) c =
          rw (q, c, observe)
            (consented a names e c (fetch_all resolver names) (fetch_all-ConsentEnd resolver names))

      go :
          (r : Result Answers ResolveError)
          → ask resolver d.domain d.dkim_selector ≡ r
          → AskEnd (ask resolver d.domain d.dkim_selector)
          → ObserveEnd (observe resolver d.domain d.dkim_selector)
      go (err x) q e = rw (q, observe) (rw q at e)
      go (ok a) q e = by_names a (rw q at e) q (consent_names a.dmarc) refl

bounce_verdict_only :
    (world : World) (d : SendingDomain) (v : DomainResult)
    → bounce_verdict world d v ≡ record v { bounce = (bounce_verdict world d v).bounce }
bounce_verdict_only world d v = go world.bounce_mailbox refl d.mx_expected refl
  where
    go :
        (mailbox : Option Str)
        → world.bounce_mailbox ≡ mailbox
        → (m : Option Str) → d.mx_expected ≡ m
        → bounce_verdict world d v ≡ record v { bounce = (bounce_verdict world d v).bounce }
    go none e m f = rw e refl
    go (some mailbox) e none f = rw (e, f) refl
    go (some mailbox) e (some m) f = rw (e, f) refl

module _ (world : World) (d : SendingDomain) where
  abbrev CheckEnd : Option (Option DomainResult) → Type 0
  CheckEnd none = Unit
  CheckEnd (some none) = Unanswered world.resolver d
  CheckEnd (some (some result)) = Judged world.resolver d result

  check_domain-CheckEnd : CheckEnd (check_domain world d)
  unfolding check_domain
  check_domain-CheckEnd =
      go (observe world.resolver d.domain d.dkim_selector) refl
        (observe-ObserveEnd world.resolver d)
    where
      by_rules :
          (seen : Observed)
          → Answered world.resolver d seen
          → observe world.resolver d.domain d.dkim_selector ≡ some (ok seen)
          → (v : Option DomainResult) → evaluate (expected_of d) seen ≡ v
          → CheckEnd (check_domain world d)
      by_rules seen a o none e = rw (o, e, check_domain) tt
      by_rules seen a o (some v) e =
          rw (o, e, check_domain) (seen, v, a, e, bounce_verdict_only world d v)

      go :
          (r : Option (Result Observed ResolveError))
          → observe world.resolver d.domain d.dkim_selector ≡ r
          → ObserveEnd world.resolver d (observe world.resolver d.domain d.dkim_selector)
          → CheckEnd (check_domain world d)
      go none o e = rw (o, check_domain) tt
      go (some (err x)) o e = rw (o, check_domain) (rw o at e)
      go (some (ok seen)) o e = by_rules seen (rw o at e) o (evaluate (expected_of d) seen) refl

abbrev pub Completes : World → List CheckRow → ℕ → List SendingDomain → Round → Type 0
Completes world checks checked due round =
    (rows : List CheckRow) × (round.checks ≡ checks ++ rows)
    × (round.checked ≡ checked + length rows)
    × Visits world due rows

check_each-Completes :
    (world : World) (checks : List CheckRow) (checked : ℕ) (due : List SendingDomain)
    → (check_each world checks checked due).finished ≡ true
    → Completes world checks checked due (check_each world checks checked due)
unfolding check_each record_check
check_each-Completes world checks checked [] f = ([], sym (append-nil checks), omega arith, over)
check_each-Completes world checks checked (d ∷ due) f =
    go (check_domain world d) refl (check_domain-CheckEnd world d)
      (λ cs n. check_each-Completes world cs n due)
  where
    go :
        (o : Option (Option DomainResult))
        → check_domain world d ≡ o
        → CheckEnd world d (check_domain world d)
        → ((cs : List CheckRow) (n : ℕ)
            → (check_each world cs n due).finished ≡ true
            → Completes world cs n due (check_each world cs n due))
        → Completes world checks checked (d ∷ due) (check_each world checks checked (d ∷ due))
    go none e c later = absurd (let g : false ≡ true = rw (e, check_each) at f in cc)
    go (some none) e c later =
        let (rows, k, n, v) = later checks checked (rw (e, check_each) at f) in
        rw (e, check_each) (rows, k, n, unanswered d due rows (rw e at c) v)
    go (some (some result)) e c later =
        let row = check_row (world.clock d) d.id result in
        let (rows, k, n, v) = later (checks ++ row ∷ []) (suc checked) (rw (e, check_each) at f) in
        rw (e, check_each)
          (
            row ∷ rows,
            k ∙ append_assoc checks (row ∷ []) rows,
            omega (arith, n),
            judged d due rows result (rw e at c) v,
          )

-- A round that comes to its end visits the domains that are due in turn, and adds to the table, and
-- counts, one row for each domain about which the resolver answers every question. The row tells the
-- verdict of the rules on those answers, but for the bounce mailbox. A domain gets no row only if the
-- resolver has no answer to a question that the check asks: at the domain, its key, a name where a
-- policy is looked for and none was found before, its mail hosts, or a name that must consent to a
-- report.
pub run_due_checks-Completes :
    (world : World) (now : ℕ) (rows : List DomainRow) (checks : List CheckRow)
    → (run_due_checks world now rows checks).finished ≡ true
    → Completes world checks 0
        (due_for_check now rows checks 15 24)
        (run_due_checks world now rows checks)
unfolding run_due_checks
run_due_checks-Completes world now rows checks f =
    check_each-Completes world checks 0 (due_for_check now rows checks 15 24) f
