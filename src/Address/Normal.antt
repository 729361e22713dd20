-- ===== src/Address/Normal.antt =====
-- What `normalize` returns, on every path, and that it returns it again.
use postbud.Address.{
  AddressError, empty, whitespace, no_at, empty_part, bare_domain, check_parts, check_split,
  normalize,
}
use postbud.Prelude.{
  ℕ, ◌≡◌, ◌≢◌, refl, ap, ◌∙◌, ◌⊎◌, inl, inr, true, false, [], ◌∷◌, ◌++◌, arith, if◌then◌else◌,
  is_empty, any, Bool-cases,
}
use postbud.Result.{Result, ok, err}
use postbud.Text.Case.{
  to_ascii_lowercase_idem, contains_char-to_ascii_lowercase, is_whitespace-lower,
}
use postbud.Text.Contains.{any-append}
use postbud.Text.Split.{rsplit_once-cases, rsplit_once-append}
use postbud.Text.Trim.{trim-of_no_whitespace}
use postbud.Text.{Str, is_whitespace, to_ascii_lowercase, trim, rsplit_once, contains_char}

-- The shape of a stored address: a local part, the last `@`, and a dotted domain in lower case,
-- with no whitespace anywhere.
pub record IsNormal (a : Str) : Type 0 where
  pub local : Str
  pub host : Str
  pub splits : a ≡ local ++ b'@' ∷ host
  pub local_ne_nil : is_empty local ≡ false
  pub last_at : contains_char b'@' host ≡ false
  pub dotted : contains_char b'.' host ≡ true
  pub lowered : to_ascii_lowercase host ≡ host
  pub no_space : any is_whitespace a ≡ false

any-to_ascii_lowercase : (s : Str) → any is_whitespace (to_ascii_lowercase s) ≡ any is_whitespace s
any-to_ascii_lowercase [] = refl
any-to_ascii_lowercase (c ∷ s) = ground (arith, is_whitespace-lower c, any-to_ascii_lowercase s)

no_space-lowered :
    (a b : Str)
    → any is_whitespace (a ++ b'@' ∷ b) ≡ false
    → any is_whitespace (a ++ b'@' ∷ to_ascii_lowercase b) ≡ false
no_space-lowered a b h = ground (
  arith,
  any-append is_whitespace a (b'@' ∷ b),
  any-append is_whitespace a (b'@' ∷ to_ascii_lowercase b),
  any-to_ascii_lowercase b,
)

check_parts-IsNormal :
    (l d : Str) {a : Str}
    → any is_whitespace (l ++ b'@' ∷ d) ≡ false
    → contains_char b'@' d ≡ false
    → check_parts l d ≡ ok a
    → IsNormal a
unfolding check_parts
check_parts-IsNormal l d {a} w k h = record {
  local = l;
  host = to_ascii_lowercase d;
  splits = shape;
  local_ne_nil = ground arith;
  last_at = contains_char-to_ascii_lowercase b'@' d refl ∙ k;
  dotted = contains_char-to_ascii_lowercase b'.' d refl ∙ ground arith;
  lowered = to_ascii_lowercase_idem d;
  no_space = rw shape (no_space-lowered l d w);
}
  where
    shape : a ≡ l ++ b'@' ∷ to_ascii_lowercase d
    shape = ground arith

-- An accepted address is in the stored shape.
pub normalize-IsNormal : (raw : Str) {a : Str} → normalize raw ≡ ok a → IsNormal a
unfolding normalize
normalize-IsNormal raw {a} h = elim (rsplit_once-cases b'@' (trim raw)) [
  | inl (e, k) ↦ absurd (ground arith)
  | inr (l, d, e, s, k) ↦ check_parts-IsNormal l d {a = a} (ground arith) k (ground arith)
]

is_empty-append_cons : (a : Str) (c : ℕ) (b : Str) → is_empty (a ++ c ∷ b) ≡ false
is_empty-append_cons [] c b = refl
is_empty-append_cons (x ∷ a) c b = refl

-- An address in the stored shape is accepted as it is.
pub normalize-of_IsNormal : {a : Str} → IsNormal a → normalize a ≡ ok a
unfolding normalize check_parts
normalize-of_IsNormal {a} n = ground (
  arith,
  trim-of_no_whitespace a n.no_space,
  ap (rsplit_once b'@') n.splits,
  rsplit_once-append b'@' n.local n.host n.last_at,
  ap is_empty n.splits,
  is_empty-append_cons n.local b'@' n.host,
)

-- What each result says of the trimmed text.
abbrev pub Verdict : Str → Result Str AddressError → Type 0
Verdict t (err empty) = t ≡ []
Verdict t (err whitespace) = any is_whitespace t ≡ true
Verdict t (err no_at) = (t ≢ []) × (any is_whitespace t ≡ false) × (contains_char b'@' t ≡ false)
Verdict t (err empty_part) =
    (l : Str) × (d : Str) × (t ≡ l ++ b'@' ∷ d)
    × (any is_whitespace t ≡ false)
    × (contains_char b'@' d ≡ false)
    × ((l ≡ []) ⊎ (d ≡ []))
Verdict t (err bare_domain) =
    (l : Str) × (d : Str) × (t ≡ l ++ b'@' ∷ d)
    × (any is_whitespace t ≡ false)
    × (contains_char b'@' d ≡ false)
    × (l ≢ [])
    × (d ≢ [])
    × (contains_char b'.' d ≡ false)
Verdict t (ok a) =
    (l : Str) × (d : Str) × (t ≡ l ++ b'@' ∷ d)
    × (any is_whitespace t ≡ false)
    × (contains_char b'@' d ≡ false)
    × (l ≢ [])
    × (contains_char b'.' d ≡ true)
    × (a ≡ l ++ b'@' ∷ to_ascii_lowercase d)

check_parts-Verdict :
    (t l d : Str)
    → t ≡ l ++ b'@' ∷ d
    → any is_whitespace t ≡ false
    → contains_char b'@' d ≡ false
    → Verdict t (check_parts l d)
unfolding check_parts
check_parts-Verdict t [] d s w k = ([], d, s, w, k, inl refl)
check_parts-Verdict t (c ∷ l) [] s w k = (c ∷ l, [], s, w, k, inr refl)
check_parts-Verdict t (c ∷ l) (x ∷ d) s w k = elim (Bool-cases (contains_char b'.' (x ∷ d))) [
  | inl dot ↦ rw dot (c ∷ l, x ∷ d, s, w, k, λ e. cc, dot, refl)
  | inr bare ↦ rw bare (c ∷ l, x ∷ d, s, w, k, λ e. cc, λ e. cc, bare)
]

check_split-Verdict :
    (t : Str) → t ≢ [] → any is_whitespace t ≡ false → Verdict t (check_split (rsplit_once b'@' t))
unfolding check_split
check_split-Verdict t ne w = elim (rsplit_once-cases b'@' t) [
  | inl (e, k) ↦ rw e (ne, w, k)
  | inr (l, d, e, s, k) ↦ rw e (check_parts-Verdict t l d s w k)
]

-- Every result of `normalize` is the right one for the trimmed text: each error names a fault
-- that the text has, and an accepted address is the text with the part behind its last `@` in
-- lower case.
pub normalize-Verdict : (raw : Str) → Verdict (trim raw) (normalize raw)
unfolding normalize
normalize-Verdict raw = verdict (trim raw)
  where
    checked :
        (t : Str)
        → t ≢ []
        → Verdict t
            (if any is_whitespace t then err whitespace else check_split (rsplit_once b'@' t))
    checked t ne = elim (Bool-cases (any is_whitespace t)) [
      | inl w ↦ rw w w
      | inr w ↦ rw w (check_split-Verdict t ne w)
    ]

    verdict :
        (t : Str)
        → Verdict t (
            if is_empty t
            then err empty
            else if any is_whitespace t
            then err whitespace
            else check_split (rsplit_once b'@' t))
    verdict [] = refl
    verdict (c ∷ t) = checked (c ∷ t) (λ e. cc)

-- What `normalize` accepts is in the stored shape, and is accepted again unchanged.
pub normalize_fixed :
    (raw : Str) {a : Str} → normalize raw ≡ ok a → IsNormal a × (normalize a ≡ ok a)
normalize_fixed raw h = let n = normalize-IsNormal raw h in (n, normalize-of_IsNormal n)
