-- ===== src/Store/Unordered.antt =====
-- A query that takes one row and gives no order: `limit 1`, or `fetch_optional` on a query that may find
-- several. Any of the rows that it finds may be the one; the platform picks.
use postbud.Prelude.{
  ℕ, zero, suc, ◌≡◌, refl, Bool, true, false, List, [], ◌∷◌, map, Option, none, some, arith, any,
  select, Memᴰ, Bool-cases, inl, inr,
}
use postbud.Store.{Platform}

-- The row at a place, or the last one.
abbrev pub row_at : {A : Type 0} → ℕ → List A → Option A
row_at n [] = none
row_at n (x ∷ []) = some x
row_at zero (x ∷ y ∷ rows) = some x
row_at (suc n) (x ∷ y ∷ rows) = row_at n (y ∷ rows)

unfoldable pub fetch_any : {A : Type 0} → Platform → (A → ℕ) → (A → Bool) → List A → Option A
fetch_any env id_of p rows = row_at (env.pick (map id_of (select p rows))) (select p rows)

module _ {A : Type 0} where
  select-none : (p : A → Bool) (rows : List A) → any p rows ≡ false → select p rows ≡ []
  select-none p [] h = refl
  select-none p (x ∷ rows) h = ground (arith, select-none p rows)

  any-of_select : (p : A → Bool) (rows : List A) → select p rows ≡ [] → any p rows ≡ false
  any-of_select p [] h = refl
  any-of_select p (x ∷ rows) h = ground (arith, any-of_select p rows)

  row_at-none : (n : ℕ) (rows : List A) → row_at n rows ≡ none → rows ≡ []
  row_at-none n [] h = refl
  row_at-none n (x ∷ []) h = absurd (ground arith)
  row_at-none zero (x ∷ y ∷ rows) h = absurd (ground arith)
  row_at-none (suc n) (x ∷ y ∷ rows) h =
      absurd (let e : y ∷ rows ≡ [] = row_at-none n (y ∷ rows) h in ground arith)

  row_at-Memᴰ : (n : ℕ) (rows : List A) (z : A) → row_at n rows ≡ some z → Memᴰ z rows
  row_at-Memᴰ n [] z h = absurd (ground arith)
  row_at-Memᴰ n (x ∷ []) z h = Memᴰ.head (ground arith)
  row_at-Memᴰ zero (x ∷ y ∷ rows) z h = Memᴰ.head (ground arith)
  row_at-Memᴰ (suc n) (x ∷ y ∷ rows) z h = Memᴰ.tail (row_at-Memᴰ n (y ∷ rows) z h)

  Memᴰ-select :
      (p : A → Bool) (rows : List A) (z : A) → Memᴰ z (select p rows) → Memᴰ z rows × (p z ≡ true)
  Memᴰ-select p [] z m = elim m [ ]
  Memᴰ-select p (x ∷ rows) z m = elim (Bool-cases (p x)) [
    | inl e ↦ at_head e (Memᴰ-select p rows z) (rw e at m)
    | inr e ↦ let r = Memᴰ-select p rows z (rw e at m) in (Memᴰ.tail r.0, r.1)
  ]
    where
      at_head :
          p x ≡ true
          → (Memᴰ z (select p rows) → Memᴰ z rows × (p z ≡ true))
          → Memᴰ z (x ∷ select p rows)
          → Memᴰ z (x ∷ rows) × (p z ≡ true)
      at_head e later (Memᴰ.head s) = (Memᴰ.head s, rw s e)
      at_head e later (Memᴰ.tail m') = let r = later m' in (Memᴰ.tail r.0, r.1)

  module _ (env : Platform) (id_of : A → ℕ) (p : A → Bool) (rows : List A) where
    pub fetch_any-none : any p rows ≡ false → fetch_any env id_of p rows ≡ none
    unfolding fetch_any
    fetch_any-none h = rw (select-none p rows h) refl

    pub any-of_fetch_any : fetch_any env id_of p rows ≡ none → any p rows ≡ false
    unfolding fetch_any
    any-of_fetch_any h =
        any-of_select p rows (row_at-none (env.pick (map id_of (select p rows))) (select p rows) h)

    pub fetch_any-Memᴰ : (z : A) → fetch_any env id_of p rows ≡ some z → Memᴰ z rows × (p z ≡ true)
    unfolding fetch_any
    fetch_any-Memᴰ z h =
        Memᴰ-select p rows z
          (row_at-Memᴰ (env.pick (map id_of (select p rows))) (select p rows) z h)
