-- ===== src/Text/Contains.antt =====
-- Laws of the searches in a text.
use postbud.Prelude.{
  ◌≡◌, refl, ap, inl, inr, ◌↔◌, Bool, true, ◌||◌, List, [], ◌∷◌, ◌++◌, arith, any, Any, Bool-cases,
}
use postbud.Text.{Str, starts_with, contains}

pub any-append {ℓ} :
    {A : Type ℓ} (p : A → Bool) (xs ys : List A) → any p (xs ++ ys) ≡ (any p xs || any p ys)
any-append p [] ys = refl
any-append p (x ∷ xs) ys = ground (arith, any-append p xs ys)

-- A test passes on some item exactly if what it decides holds of some item.
pub any_iff {ℓ} :
    {A : Type ℓ} (p : A → Bool) (P : A → Type 0)
    → ((x : A) → p x ≡ true ↔ P x)
    → (xs : List A) → any p xs ≡ true ↔ Any P xs
any_iff p P h [] = (λ e. cc, λ n. absurd n)
any_iff p P h (x ∷ xs) =
    let ih = any_iff p P h xs in
    (
      λ e. elim (Bool-cases (p x)) [ inl t ↦ inl ((h x).0 t) | inr f ↦ inr (ih.0 (rw f at e)) ],
      elim [ inl t ↦ rw ((h x).1 t) refl | inr t ↦ ground (arith, ih.1 t) ],
    )

-- `p` stands somewhere in the text.
abbrev pub Infix : Str → Str → Type 0
Infix p s = (a : Str) × (b : Str) × (s ≡ a ++ (p ++ b))

starts_with-prefix : (p s : Str) → starts_with p s ≡ true → (b : Str) × (s ≡ p ++ b)
unfolding starts_with
starts_with-prefix [] s h = (s, refl)
starts_with-prefix (x ∷ p) [] h = cc
starts_with-prefix (x ∷ p) (c ∷ s) h =
    let (b, e) = starts_with-prefix p s (ground arith) in (b, ground arith)

starts_with-append : (p b : Str) → starts_with p (p ++ b) ≡ true
unfolding starts_with
starts_with-append [] b = refl
starts_with-append (x ∷ p) b = ground (arith, starts_with-append p b)

contains-Infix : (p s : Str) → contains p s ≡ true → Infix p s
unfolding contains
contains-Infix [] s h = ([], s, refl)
contains-Infix (x ∷ p) [] h = cc
contains-Infix (x ∷ p) (c ∷ s) h = elim (Bool-cases (starts_with (x ∷ p) (c ∷ s))) [
  | inl e ↦ let (b, q) = starts_with-prefix (x ∷ p) (c ∷ s) e in ([], b, q)
  | inr e ↦ let (a, b, q) = contains-Infix (x ∷ p) s (ground arith) in (c ∷ a, b, ap (◌∷◌ c) q)
]

contains-append : (p a b : Str) → contains p (a ++ (p ++ b)) ≡ true
unfolding contains
contains-append [] [] [] = refl
contains-append [] [] (c ∷ b) = refl
contains-append (x ∷ p) [] b = rw (starts_with-append (x ∷ p) b)
contains-append p (c ∷ a) b = ground (arith, contains-append p a b)

pub contains_iff : (p s : Str) → contains p s ≡ true ↔ Infix p s
contains_iff p s = (contains-Infix p s, λ h. rw h.2 (contains-append p h.0 h.1))
