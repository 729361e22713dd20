-- ===== src/Paging/Order.antt =====
-- Rows in descending order of their keys: the order of `order by ... desc`, and what the condition of
-- a cursor leaves of it.
use postbud.Prelude.{
  ℕ, ◌≡◌, refl, ap, ◌∙◌, Bool, true, false, not, ◌&&◌, ◌||◌, List, [], ◌∷◌, arith, ltb, ◌==◌,
  if◌then◌else◌, select, insert_by, sort_by, All, Bool-cases, inl, inr,
}

-- What the comparison of a key has to satisfy.
pub record StrictOrder (K : Type 0) : Type 0 where
  pub lt : K → K → Bool
  pub lt_asymm : (a b : K) → lt a b ≡ true → lt b a ≡ false
  pub lt_trans : (a b c : K) → lt a b ≡ true → lt b c ≡ true → lt a c ≡ true

pub ltb_asymm : (a b : ℕ) → ltb a b ≡ true → ltb b a ≡ false
ltb_asymm a b h = ground arith

pub ltb_trans : (a b c : ℕ) → ltb a b ≡ true → ltb b c ≡ true → ltb a c ≡ true
ltb_trans a b c h k = ground arith

abbrev pub by_id : StrictOrder ℕ
by_id = record { lt = ltb; lt_asymm = ltb_asymm; lt_trans = ltb_trans }

-- PostgreSQL's comparison of rows.
abbrev pub lt_pair : ℕ × ℕ → ℕ × ℕ → Bool
lt_pair a b = ltb a.0 b.0 || (a.0 == b.0 && ltb a.1 b.1)

pub lt_pair_asymm : (a b : ℕ × ℕ) → lt_pair a b ≡ true → lt_pair b a ≡ false
lt_pair_asymm a b h = ground arith

pub lt_pair_trans : (a b c : ℕ × ℕ) → lt_pair a b ≡ true → lt_pair b c ≡ true → lt_pair a c ≡ true
lt_pair_trans a b c h k = ground arith

abbrev pub by_time : StrictOrder (ℕ × ℕ)
by_time = record { lt = lt_pair; lt_asymm = lt_pair_asymm; lt_trans = lt_pair_trans }

module _ {K A : Type 0} (order : StrictOrder K) (key : A → K) where
  abbrev pub newer : A → A → Bool
  newer a b = not (order.lt (key a) (key b))

  abbrev pub Below : A → A → Type 0
  Below x y = order.lt (key y) (key x) ≡ true

  abbrev pub Descending : List A → Type 0
  Descending [] = Unit
  Descending (x ∷ xs) = All (Below x) xs × Descending xs

  -- The keys of two rows of the table differ.
  abbrev pub differ : A → A → Bool
  differ x y = order.lt (key x) (key y) || order.lt (key y) (key x)

  abbrev pub Distinct : List A → Type 0
  Distinct [] = Unit
  Distinct (x ∷ xs) = All (λ y. differ x y ≡ true) xs × Distinct xs

  pub All-select : (P : A → Type 0) (p : A → Bool) (xs : List A) → All P xs → All P (select p xs)
  All-select P p [] h = tt
  All-select P p (x ∷ xs) h = elim (Bool-cases (p x)) [
    | inl e ↦ rw e (h.0, All-select P p xs h.1)
    | inr e ↦ rw e (All-select P p xs h.1)
  ]

  Below-trans : (x y : A) (zs : List A) → Below x y → All (Below y) zs → All (Below x) zs
  Below-trans x y [] h k = tt
  Below-trans x y (z ∷ zs) h k =
      (order.lt_trans (key z) (key y) (key x) k.0 h, Below-trans x y zs h k.1)

  All-insert :
      (P : A → Type 0) (x : A) (ys : List A) → P x → All P ys → All P (insert_by newer x ys)
  unfolding insert_by
  All-insert P x [] h k = (h, tt)
  All-insert P x (y ∷ ys) h k = elim (Bool-cases (newer x y)) [
    | inl e ↦ rw e (h, k)
    | inr e ↦ rw e (k.0, All-insert P x ys h k.1)
  ]

  Descending-insert :
      (x : A) (ys : List A)
      → All (λ y. differ x y ≡ true) ys
      → Descending ys
      → Descending (insert_by newer x ys)
  unfolding insert_by
  Descending-insert x [] h d = (tt, tt)
  Descending-insert x (y ∷ ys) h d = elim (Bool-cases (newer x y)) [
    | inl e ↦ let b : Below x y = ground (arith, h.0) in rw e ((b, Below-trans x y ys b d.0), d)
    | inr e ↦ rw e (All-insert (Below y) x ys (ground arith) d.0, Descending-insert x ys h.1 d.1)
  ]

  All-sort : (P : A → Type 0) (xs : List A) → All P xs → All P (sort_by newer xs)
  unfolding sort_by
  All-sort P [] h = tt
  All-sort P (x ∷ xs) h = All-insert P x (sort_by newer xs) h.0 (All-sort P xs h.1)

  pub Descending-sort : (xs : List A) → Distinct xs → Descending (sort_by newer xs)
  unfolding sort_by
  Descending-sort [] h = tt
  Descending-sort (x ∷ xs) h =
      Descending-insert x (sort_by newer xs) (All-sort (λ y. differ x y ≡ true) xs h.0)
        (Descending-sort xs h.1)

  insert_front : (x : A) (zs : List A) → All (Below x) zs → insert_by newer x zs ≡ x ∷ zs
  unfolding insert_by
  insert_front x [] h = refl
  insert_front x (z ∷ zs) h = rw (order.lt_asymm (key z) (key x) h.0) refl

  select-insert :
      (p : A → Bool) (x : A) (ys : List A)
      → All (λ y. differ x y ≡ true) ys
      → Descending ys
      → select p (insert_by newer x ys)
        ≡ (if p x then insert_by newer x (select p ys) else select p ys)
  unfolding insert_by
  select-insert p x [] h d = refl
  select-insert p x (y ∷ ys) h d = elim (Bool-cases (newer x y)) [
    | inl e ↦
        let b : Below x y = ground (arith, h.0) in
        let f : insert_by newer x (select p (y ∷ ys)) ≡ x ∷ select p (y ∷ ys) =
          insert_front x (select p (y ∷ ys))
            (All-select (Below x) p (y ∷ ys) (b, Below-trans x y ys b d.0)) in
        rw (e, f) refl
    | inr e ↦ rw e (ground (arith, select-insert p x ys h.1 d.1))
  ]

  pub select-sort :
      (p : A → Bool) (xs : List A)
      → Distinct xs
      → select p (sort_by newer xs) ≡ sort_by newer (select p xs)
  unfolding sort_by
  select-sort p [] h = refl
  select-sort p (x ∷ xs) h =
      select-insert p x (sort_by newer xs) (All-sort (λ y. differ x y ≡ true) xs h.0)
        (Descending-sort xs h.1)
      ∙ elim (Bool-cases (p x)) [
        | inl e ↦ rw e (ap (insert_by newer x) (select-sort p xs h.1))
        | inr e ↦ rw e (select-sort p xs h.1)
      ]
