-- ===== src/Observing/Answered.antt =====
-- What the questions about a domain find out, told by the resolver's answers alone: which answers make
-- up an observation, and which failure ends it.
use postbud.DnsCheck.{is_dmarc}
use postbud.Observing.{
  ResolveError, no_records_found, trouble, Resolver, empty_if_absent, record_text, txt, mx,
  find_dmarc, fetch_all,
}
use postbud.Prelude.{
  ℕ, ◌⊎◌, ◌≡◌, refl, ap, true, false, List, [], ◌∷◌, map, Option, none, some, arith, any, All, Any,
  inl, inr, Bool-cases,
}
use postbud.Result.{Result, ok, err}
use postbud.Text.{Str}

abbrev pub name_in : Str × List Str → Str
name_in (name, texts) = name

abbrev pub texts_in : Str × List Str → List Str
texts_in (name, texts) = texts

module _ (resolver : Resolver) where
  -- The text records at a name: those of the answer, or none if the answer is that there are none.
  abbrev pub Texts : Str → List Str → Type 0
  Texts name texts =
      ((resolver.txt_lookup name ≡ err no_records_found) × (texts ≡ []))
      ⊎ ((answer : List (List (List ℕ))) × (resolver.txt_lookup name ≡ ok answer)
          × (texts ≡ map (record_text resolver.lossy) answer))

  -- The resolver has no answer.
  abbrev pub Fails : Str → Type 0
  Fails name = (e : Str) × (resolver.txt_lookup name ≡ err (trouble e))

  abbrev pub Hosts : Str → List Str → Type 0
  Hosts name hosts =
      ((resolver.mx_lookup name ≡ err no_records_found) × (hosts ≡ []))
      ⊎ (resolver.mx_lookup name ≡ ok hosts)

  abbrev pub HostsFail : Str → Type 0
  HostsFail name = (e : Str) × (resolver.mx_lookup name ≡ err (trouble e))

  -- The records at the first of the names that has a policy, and that name.
  abbrev pub PolicyAt : List Str → List Str → Option Str → Type 0
  PolicyAt [] texts found_at = (texts ≡ []) × (found_at ≡ none)
  PolicyAt (name ∷ names) texts found_at =
      (Texts name texts × (any is_dmarc texts ≡ true) × (found_at ≡ some name))
      ⊎ ((others : List Str) × Texts name others
          × (any is_dmarc others ≡ false)
          × PolicyAt names texts found_at)

  -- A name fails, and none before it has a policy.
  abbrev pub PolicyFails : List Str → Type 0
  PolicyFails [] = ⊥
  PolicyFails (name ∷ names) =
      Fails name
      ⊎ ((others : List Str) × Texts name others
          × (any is_dmarc others ≡ false)
          × PolicyFails names)

  pub txt-Texts : (name : Str) (texts : List Str) → txt resolver name ≡ ok texts → Texts name texts
  unfolding txt empty_if_absent
  txt-Texts name texts h = go (resolver.txt_lookup name) refl
    where
      go :
          (answer : Result (List (List (List ℕ))) ResolveError)
          → resolver.txt_lookup name ≡ answer
          → Texts name texts
      go (ok answer) e = inr (answer, e, ground arith)
      go (err no_records_found) e = inl (e, ground arith)
      go (err (trouble x)) e = absurd (ground arith)

  pub txt-Fails : (name : Str) (x : ResolveError) → txt resolver name ≡ err x → Fails name
  unfolding txt empty_if_absent
  txt-Fails name x h = go (resolver.txt_lookup name) refl
    where
      go :
          (answer : Result (List (List (List ℕ))) ResolveError)
          → resolver.txt_lookup name ≡ answer
          → Fails name
      go (ok answer) e = absurd (ground arith)
      go (err no_records_found) e = absurd (ground arith)
      go (err (trouble y)) e = (y, e)

  pub mx-Hosts : (name : Str) (hosts : List Str) → mx resolver name ≡ ok hosts → Hosts name hosts
  unfolding mx empty_if_absent
  mx-Hosts name hosts h = go (resolver.mx_lookup name) refl
    where
      go :
          (answer : Result (List Str) ResolveError)
          → resolver.mx_lookup name ≡ answer
          → Hosts name hosts
      go (ok answer) e = inr (ground arith)
      go (err no_records_found) e = inl (e, ground arith)
      go (err (trouble x)) e = absurd (ground arith)

  pub mx-HostsFail : (name : Str) (x : ResolveError) → mx resolver name ≡ err x → HostsFail name
  unfolding mx empty_if_absent
  mx-HostsFail name x h = go (resolver.mx_lookup name) refl
    where
      go :
          (answer : Result (List Str) ResolveError)
          → resolver.mx_lookup name ≡ answer
          → HostsFail name
      go (ok answer) e = absurd (ground arith)
      go (err no_records_found) e = absurd (ground arith)
      go (err (trouble y)) e = (y, e)

  -- What a search for a policy ends with.
  abbrev pub PolicyEnd : List Str → Result (List Str × Option Str) ResolveError → Type 0
  PolicyEnd names (ok (texts, found_at)) = PolicyAt names texts found_at
  PolicyEnd names (err x) = PolicyFails names

  pub find_dmarc-PolicyEnd : (names : List Str) → PolicyEnd names (find_dmarc resolver names)
  unfolding find_dmarc
  find_dmarc-PolicyEnd [] = (refl, refl)
  find_dmarc-PolicyEnd (name ∷ names) =
      go (txt resolver name) refl (find_dmarc resolver names) refl (find_dmarc-PolicyEnd names)
    where
      next :
          (others : List Str)
          → Texts name others
          → any is_dmarc others ≡ false
          → (r : Result (List Str × Option Str) ResolveError) → PolicyEnd names r
          → PolicyEnd (name ∷ names) r
      next others t f (ok (texts, found_at)) p = inr (others, t, f, p)
      next others t f (err x) p = inr (others, t, f, p)

      go :
          (o : Result (List Str) ResolveError)
          → txt resolver name ≡ o
          → (r : Result (List Str × Option Str) ResolveError) → find_dmarc resolver names ≡ r
          → PolicyEnd names (find_dmarc resolver names)
          → PolicyEnd (name ∷ names) (find_dmarc resolver (name ∷ names))
      go (err x) e r k ih = rw (e, find_dmarc) (inl (txt-Fails name x e))
      go (ok texts) e r k ih = elim (Bool-cases (any is_dmarc texts)) [
        | inl d ↦ rw (e, find_dmarc) (rw d (inl (txt-Texts name texts e, d, refl)))
        | inr d ↦
            rw (e, find_dmarc)
              (rw d (next texts (txt-Texts name texts e) d (find_dmarc resolver names) ih))
      ]

  -- What the questions for consent end with.
  abbrev pub ConsentEnd : List Str → Result (List (Str × List Str)) ResolveError → Type 0
  ConsentEnd names (ok pairs) =
      (map name_in pairs ≡ names) × All (λ p. Texts (name_in p) (texts_in p)) pairs
  ConsentEnd names (err x) = Any Fails names

  pub fetch_all-ConsentEnd : (names : List Str) → ConsentEnd names (fetch_all resolver names)
  unfolding fetch_all
  fetch_all-ConsentEnd [] = (refl, tt)
  fetch_all-ConsentEnd (name ∷ names) =
      go (txt resolver name) refl (fetch_all resolver names) refl (fetch_all-ConsentEnd names)
    where
      go :
          (o : Result (List Str) ResolveError)
          → txt resolver name ≡ o
          → (r : Result (List (Str × List Str)) ResolveError) → fetch_all resolver names ≡ r
          → ConsentEnd names (fetch_all resolver names)
          → ConsentEnd (name ∷ names) (fetch_all resolver (name ∷ names))
      go (err x) e r k ih = rw (e, fetch_all) (inl (txt-Fails name x e))
      go (ok texts) e (err x) k ih = rw (e, k, fetch_all) (inr (rw k at ih))
      go (ok texts) e (ok pairs) k ih =
          let done : ConsentEnd names (ok pairs) = rw k at ih in
          rw (e, k, fetch_all) (ap (◌∷◌ name) done.0, (txt-Texts name texts e, done.1))
