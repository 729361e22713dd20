-- ===== src/Text/Split.antt =====
-- Laws of `split_once` and `rsplit_once`: what they return puts the text together again, and
-- the side that they promise is free of the separator.
use postbud.Prelude.{
  ℕ, ◌≡◌, refl, false, [], ◌∷◌, ◌++◌, none, some, arith, ◌==◌, Bool-cases, ◌⊎◌, inl, inr,
}
use postbud.Text.{Str, split_once, rsplit_once, contains_char}

pub rsplit_once-none : (d : ℕ) (s : Str) → rsplit_once d s ≡ none → contains_char d s ≡ false
unfolding rsplit_once
rsplit_once-none d [] h = refl
rsplit_once-none d (c ∷ s) h = ground (arith, rsplit_once-none d s)

pub rsplit_once-of_not_contains :
    (d : ℕ) (s : Str) → contains_char d s ≡ false → rsplit_once d s ≡ none
unfolding rsplit_once
rsplit_once-of_not_contains d [] h = refl
rsplit_once-of_not_contains d (c ∷ s) h = ground (arith, rsplit_once-of_not_contains d s)

pub rsplit_once-cases :
    (d : ℕ) (s : Str)
    → ((rsplit_once d s ≡ none) × (contains_char d s ≡ false))
      ⊎ ((a : Str) × (b : Str) × (rsplit_once d s ≡ some (a, b))
          × (s ≡ a ++ d ∷ b)
          × (contains_char d b ≡ false))
unfolding rsplit_once
rsplit_once-cases d [] = inl (refl, refl)
rsplit_once-cases d (c ∷ s) = elim (rsplit_once-cases d s) [
  | inr (a, b, e, h, k) ↦ inr (c ∷ a, b, rw (e, rsplit_once), rw h, k)
  | inl (e, k) ↦ elim (Bool-cases (c == d)) [
    | inl t ↦ inr ([], s, ground arith, ground arith, k)
    | inr f ↦ inl (ground arith, ground arith)
  ]
]

pub rsplit_once-some :
    (d : ℕ) (s : Str) {a b : Str}
    → rsplit_once d s ≡ some (a, b)
    → (s ≡ a ++ d ∷ b) × (contains_char d b ≡ false)
rsplit_once-some d s h = elim (rsplit_once-cases d s) [
  | inl (e, k) ↦ cc
  | inr (x, y, e, p, k) ↦ ground arith
]

-- The text is split at its last separator, whatever stands before it.
pub rsplit_once-append :
    (d : ℕ) (a b : Str) → contains_char d b ≡ false → rsplit_once d (a ++ d ∷ b) ≡ some (a, b)
unfolding rsplit_once
rsplit_once-append d [] b h = ground (arith, rsplit_once-of_not_contains d b)
rsplit_once-append d (c ∷ a) b h = rw (rsplit_once-append d a b h)

pub split_once-append :
    (d : ℕ) (a b : Str) → contains_char d a ≡ false → split_once d (a ++ d ∷ b) ≡ some (a, b)
unfolding split_once
split_once-append d [] b h = ground arith
split_once-append d (c ∷ a) b h = ground (arith, split_once-append d a b)

pub split_once-of_not_contains :
    (d : ℕ) (s : Str) → contains_char d s ≡ false → split_once d s ≡ none
unfolding split_once
split_once-of_not_contains d [] h = refl
split_once-of_not_contains d (c ∷ s) h = ground (arith, split_once-of_not_contains d s)

-- A text without the separator, or the two sides of its first one.
pub split_once-cases :
    (d : ℕ) (s : Str)
    → (contains_char d s ≡ false)
      ⊎ ((a : Str) × (b : Str) × (s ≡ a ++ d ∷ b) × (contains_char d a ≡ false))
split_once-cases d [] = inl refl
split_once-cases d (c ∷ s) = elim (Bool-cases (c == d)) [
  | inl e ↦ inr ([], s, ground arith, refl)
  | inr e ↦ elim (split_once-cases d s) [
    | inl h ↦ inl (ground arith)
    | inr (a, b, h, k) ↦ inr (c ∷ a, b, rw h, ground arith)
  ]
]
