-- ===== src/Address/Bounce.antt =====
-- `domain` and `bounce_sender`: the envelope sender keeps the domain of the message's sender.
use postbud.Address.Normal.{IsNormal, normalize-IsNormal, normalize-of_IsNormal}
use postbud.Address.{normalize, domain, not_a_local_part, bounce_sender}
use postbud.Prelude.{
  ℕ, ◌≡◌, refl, sym, ap, ◌∙◌, inl, inr, true, false, [], ◌∷◌, ◌++◌, Option, none, some, arith,
  is_empty, any, ◌>>=◌,
}
use postbud.Result.{ok}
use postbud.Text.Case.{to_ascii_lowercase_idem, contains_char-to_ascii_lowercase}
use postbud.Text.Contains.{any-append}
use postbud.Text.Split.{rsplit_once-cases, rsplit_once-append}
use postbud.Text.{Str, is_whitespace, to_ascii_lowercase, trim, contains_char}

-- What `domain` finds: the text behind the last `@`, folded, and not empty.
pub record IsDomainOf (address d : Str) : Type 0 where
  pub local : Str
  pub host : Str
  pub splits : address ≡ local ++ b'@' ∷ host
  pub folded : d ≡ to_ascii_lowercase host
  pub last_at : contains_char b'@' d ≡ false
  pub ne_nil : is_empty d ≡ false

pub domain-IsDomainOf : (address : Str) {d : Str} → domain address ≡ some d → IsDomainOf address d
unfolding domain
domain-IsDomainOf address {d} h = elim (rsplit_once-cases b'@' address) [
  | inl (e, k) ↦ absurd (ground arith)
  | inr (l, t, e, s, k) ↦ record {
    local = l;
    host = t;
    splits = s;
    folded = ground arith;
    last_at = ground (arith, contains_char-to_ascii_lowercase b'@' t refl);
    ne_nil = ground arith;
  }
]

pub domain-append :
    (l h : Str)
    → contains_char b'@' h ≡ false
    → is_empty h ≡ false
    → domain (l ++ b'@' ∷ h) ≡ some (to_ascii_lowercase h)
unfolding domain
domain-append l [] k ne = cc
domain-append l (c ∷ h) k ne = rw (rsplit_once-append b'@' l (c ∷ h) k, domain) refl

-- A folded domain is found again behind any local part.
pub domain-of_IsDomainOf : (l : Str) {a d : Str} → IsDomainOf a d → domain (l ++ b'@' ∷ d) ≡ some d
domain-of_IsDomainOf l {d = d} i =
    domain-append l d i.last_at i.ne_nil
    ∙ ap some (ap to_ascii_lowercase i.folded ∙ to_ascii_lowercase_idem i.host ∙ sym i.folded)

-- Whenever there is an envelope sender, it is the trimmed mailbox at the domain of the message's
-- sender, and its own domain is that same domain.
pub bounce_sender-domain :
    (mail_from mailbox : Str) {s : Str}
    → bounce_sender mail_from mailbox ≡ some s
    → (d : Str) × (domain mail_from ≡ some d) × (s ≡ trim mailbox ++ b'@' ∷ d) × (domain s ≡ some d)
unfolding bounce_sender
bounce_sender-domain mail_from mailbox {s} h = go (domain mail_from) refl
  where
    go :
        (o : Option Str)
        → domain mail_from ≡ o
        → (d : Str) × (domain mail_from ≡ some d)
          × (s ≡ trim mailbox ++ b'@' ∷ d)
          × (domain s ≡ some d)
    go none e = absurd (ground arith)
    go (some d) e =
        let i = domain-IsDomainOf mail_from e in
        let shape : s ≡ trim mailbox ++ b'@' ∷ d = ground arith in
        (d, e, shape, rw shape (domain-of_IsDomainOf (trim mailbox) i))

-- The mailbox names a local part: something is left of it, with no `@` and no whitespace.
pub record IsMailbox (mailbox : Str) : Type 0 where
  pub ne_nil : is_empty (trim mailbox) ≡ false
  pub plain : any not_a_local_part (trim mailbox) ≡ false

any-not_a_local_part : (s : Str) → any not_a_local_part s ≡ false → any is_whitespace s ≡ false
any-not_a_local_part [] h = refl
any-not_a_local_part (c ∷ s) h = ground (arith, any-not_a_local_part s)

is_empty-of_contains : (c : ℕ) (s : Str) → contains_char c s ≡ true → is_empty s ≡ false
is_empty-of_contains c [] h = cc
is_empty-of_contains c (x ∷ s) h = refl

domain-of_IsNormal : {a : Str} (n : IsNormal a) → domain a ≡ some n.host
domain-of_IsNormal n =
    ap domain n.splits
    ∙ domain-append n.local n.host n.last_at (is_empty-of_contains b'.' n.host n.dotted)
    ∙ ap some n.lowered

-- For every accepted sender and every mailbox that names a local part there is an envelope
-- sender, and it is an address that `normalize` accepts as it is.
pub bounce_sender-normalize :
    (raw mailbox : Str) {mail_from : Str}
    → normalize raw ≡ ok mail_from
    → IsMailbox mailbox
    → (s : Str) × (bounce_sender mail_from mailbox ≡ some s) × (normalize s ≡ ok s)
unfolding bounce_sender
bounce_sender-normalize raw mailbox {mail_from} h m = (
  trim mailbox ++ b'@' ∷ n.host,
  rw (m.ne_nil, m.plain) (rw (domain-of_IsNormal n, ◌>>=◌) refl),
  normalize-of_IsNormal sender,
)
  where
    n : IsNormal mail_from
    n = normalize-IsNormal raw h

    host_no_space : any is_whitespace (b'@' ∷ n.host) ≡ false
    host_no_space = ground (
      arith,
      any-append is_whitespace n.local (b'@' ∷ n.host),
      ap (any is_whitespace) n.splits,
      n.no_space,
    )

    sender : IsNormal (trim mailbox ++ b'@' ∷ n.host)
    sender = record {
      local = trim mailbox;
      host = n.host;
      splits = refl;
      local_ne_nil = m.ne_nil;
      last_at = n.last_at;
      dotted = n.dotted;
      lowered = n.lowered;
      no_space = ground (
        arith,
        any-append is_whitespace (trim mailbox) (b'@' ∷ n.host),
        any-not_a_local_part (trim mailbox) m.plain,
        host_no_space,
      );
    }
