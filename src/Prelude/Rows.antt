-- ===== src/Prelude/Rows.antt =====
-- Laws of the statements on a table: what an update, a selection, an order and a limit do to a
-- count, to a search and to a property of all rows.
use mathlib.Core.Bool.{Bool, true, false, ◌&&◌, ◌||◌}
use mathlib.Core.List.{List, [], ◌∷◌, ◌++◌, Memᴰ, map}
use mathlib.Core.Logic.{inl, inr}
use mathlib.Core.Option.{none, some}
use mathlib.Core.Path.{◌≡◌, refl, ap, ◌∙◌}
use native.Mathlib.Omega.{arith}
use Prim.Native.Nat.{ℕ, zero, suc, ◌+◌, ◌≤◌}
use postbud.Prelude.Lists.{
  length, take, any, select, find?, update_where, count_where, All, insert_by, sort_by,
}
use postbud.Prelude.Tests.{if◌then◌else◌, Bool-cases}

module _ {ℓ} {A : Type ℓ} where
  pub count_where-concat :
      (p : A → Bool) (xs : List A) (x : A)
      → count_where p (xs ++ x ∷ []) ≡ count_where p xs + (if p x then 1 else 0)
  count_where-concat p [] x = omega arith
  count_where-concat p (y ∷ xs) x = omega (arith, count_where-concat p xs x)

  pub count_where-none : (p : A → Bool) (xs : List A) → any p xs ≡ false → count_where p xs ≡ 0
  count_where-none p [] h = refl
  count_where-none p (x ∷ xs) h = ground (arith, count_where-none p xs)

  pub count_where-pos : (p : A → Bool) (xs : List A) → any p xs ≡ true → 1 ≤ count_where p xs
  count_where-pos p [] h = cc
  count_where-pos p (x ∷ xs) h = ground (arith, count_where-pos p xs)

  -- A test that the update does not change.
  pub count_where-update_where :
      (q p : A → Bool) (f : A → A)
      → ((x : A) → q (f x) ≡ q x)
      → (xs : List A) → count_where q (update_where p f xs) ≡ count_where q xs
  count_where-update_where q p f h [] = refl
  count_where-update_where q p f h (x ∷ xs) =
      ground (arith, h x, count_where-update_where q p f h xs)

  pub any-update_where :
      (q p : A → Bool) (f : A → A)
      → ((x : A) → q (f x) ≡ q x)
      → (xs : List A) → any q (update_where p f xs) ≡ any q xs
  any-update_where q p f h [] = refl
  any-update_where q p f h (x ∷ xs) = ground (arith, h x, any-update_where q p f h xs)

  -- A search by such a test finds the same row, updated or not.
  pub find?-update_where :
      (q p : A → Bool) (f : A → A)
      → ((x : A) → q (f x) ≡ q x)
      → (xs : List A) (y : A) → find? q xs ≡ some y
      → find? q (update_where p f xs) ≡ some (if p y then f y else y)
  find?-update_where q p f h [] y e = cc
  find?-update_where q p f h (x ∷ xs) y e = ground (arith, h x, find?-update_where q p f h xs y)

  -- A search by a test that no updated row passes, before or after, is not affected.
  pub find?-update_where_other :
      (q p : A → Bool) (f : A → A)
      → ((x : A) → p x ≡ true → q x ≡ false)
      → ((x : A) → p x ≡ true → q (f x) ≡ false)
      → (xs : List A) → find? q (update_where p f xs) ≡ find? q xs
  find?-update_where_other q p f h k [] = refl
  find?-update_where_other q p f h k (x ∷ xs) =
      let ih = find?-update_where_other q p f h k xs in
      elim (Bool-cases (p x)) [ inl e ↦ rw (e, h x e, k x e) ih | inr e ↦ rw (e, ih) refl ]

  pub find?-append :
      (q : A → Bool) (xs ys : List A) (y : A) → find? q xs ≡ some y → find? q (xs ++ ys) ≡ some y
  find?-append q [] ys y e = cc
  find?-append q (x ∷ xs) ys y e = ground (arith, find?-append q xs ys y)

  pub find?-concat :
      (q : A → Bool) (xs : List A) (y : A)
      → find? q xs ≡ none
      → q y ≡ true
      → find? q (xs ++ y ∷ []) ≡ some y
  find?-concat q [] y e h = rw h refl
  find?-concat q (x ∷ xs) y e h = ground (arith, find?-concat q xs y)

  pub find?-none : (q : A → Bool) (xs : List A) → find? q xs ≡ none → any q xs ≡ false
  find?-none q [] e = refl
  find?-none q (x ∷ xs) e = ground (arith, find?-none q xs)

  pub any-of_find? : (q : A → Bool) (xs : List A) (y : A) → find? q xs ≡ some y → any q xs ≡ true
  any-of_find? q [] y e = cc
  any-of_find? q (x ∷ xs) y e = ground (arith, any-of_find? q xs y)

  pub find?-true : (q : A → Bool) (xs : List A) (y : A) → find? q xs ≡ some y → q y ≡ true
  find?-true q [] y e = cc
  find?-true q (x ∷ xs) y e = ground (arith, find?-true q xs y)

  pub any-select : (q p : A → Bool) (xs : List A) → any q (select p xs) ≡ any (λ x. q x && p x) xs
  any-select q p [] = refl
  any-select q p (x ∷ xs) = ground (arith, any-select q p xs)

  pub any-take : (q : A → Bool) (n : ℕ) (xs : List A) → any q (take n xs) ≡ true → any q xs ≡ true
  any-take q zero xs h = cc
  any-take q (suc n) [] h = cc
  any-take q (suc n) (x ∷ xs) h = ground (arith, any-take q n xs)

  any-insert_by :
      (q : A → Bool) (before : A → A → Bool) (x : A) (xs : List A)
      → any q (insert_by before x xs) ≡ (q x || any q xs)
  unfolding insert_by
  any-insert_by q before x [] = refl
  any-insert_by q before x (y ∷ ys) = ground (arith, any-insert_by q before x ys)

  pub any-sort_by :
      (q : A → Bool) (before : A → A → Bool) (xs : List A) → any q (sort_by before xs) ≡ any q xs
  unfolding sort_by
  any-sort_by q before [] = refl
  any-sort_by q before (x ∷ xs) =
      any-insert_by q before x (sort_by before xs) ∙ ap (◌||◌ (q x)) (any-sort_by q before xs)

  pub any-map {κ} :
      {B : Type κ} (q : B → Bool) (f : A → B) (xs : List A)
      → any q (map f xs) ≡ any (λ x. q (f x)) xs
  any-map q f [] = refl
  any-map q f (x ∷ xs) = ap (◌||◌ (q (f x))) (any-map q f xs)

  -- An update changes each row by itself.
  pub update_where-map :
      (p : A → Bool) (f : A → A) (xs : List A)
      → update_where p f xs ≡ map (λ x. if p x then f x else x) xs
  update_where-map p f [] = refl
  update_where-map p f (x ∷ xs) = ap (◌∷◌ (if p x then f x else x)) (update_where-map p f xs)

  pub map-update_where :
      (g : A → A) (p : A → Bool) (f : A → A) (xs : List A)
      → map g (update_where p f xs) ≡ map (λ x. g (if p x then f x else x)) xs
  map-update_where g p f [] = refl
  map-update_where g p f (x ∷ xs) =
      ap (◌∷◌ (g (if p x then f x else x))) (map-update_where g p f xs)

  pub update_where-after_map :
      (p : A → Bool) (f g : A → A) (xs : List A)
      → update_where p f (map g xs) ≡ map (λ x. if p (g x) then f (g x) else g x) xs
  update_where-after_map p f g [] = refl
  update_where-after_map p f g (x ∷ xs) =
      ap (◌∷◌ (if p (g x) then f (g x) else g x)) (update_where-after_map p f g xs)

  pub map-id : (xs : List A) → xs ≡ map (λ x. x) xs
  map-id [] = refl
  map-id (x ∷ xs) = ap (◌∷◌ x) (map-id xs)

  -- A test that the function of a map does not change.
  pub count_where-map :
      (q : A → Bool) (f : A → A)
      → ((x : A) → q (f x) ≡ q x)
      → (xs : List A) → count_where q (map f xs) ≡ count_where q xs
  count_where-map q f h [] = refl
  count_where-map q f h (x ∷ xs) = ground (arith, h x, count_where-map q f h xs)

  pub any-after_map :
      (q : A → Bool) (f : A → A)
      → ((x : A) → q (f x) ≡ q x)
      → (xs : List A) → any q (map f xs) ≡ any q xs
  any-after_map q f h [] = refl
  any-after_map q f h (x ∷ xs) = ground (arith, h x, any-after_map q f h xs)

  pub find?-map :
      (q : A → Bool) (f : A → A)
      → ((x : A) → q (f x) ≡ q x)
      → (xs : List A) (y : A) → find? q xs ≡ some y
      → find? q (map f xs) ≡ some (f y)
  find?-map q f h [] y e = cc
  find?-map q f h (x ∷ xs) y e = ground (arith, h x, find?-map q f h xs y)

  pub length-take : (n : ℕ) (xs : List A) → length (take n xs) ≤ n
  length-take zero xs = omega arith
  length-take (suc n) [] = omega arith
  length-take (suc n) (x ∷ xs) = omega (arith, length-take n xs)

  pub any_of_mem : (q : A → Bool) {x : A} (xs : List A) → Memᴰ x xs → q x ≡ true → any q xs ≡ true
  any_of_mem q [] m h = elim m [ ]
  any_of_mem q (y ∷ xs) (Memᴰ.head e) h = rw (← e, h) refl
  any_of_mem q (y ∷ xs) (Memᴰ.tail m) h = ground (arith, any_of_mem q xs m h)

  any-and : (q p : A → Bool) (xs : List A) → any (λ y. q y && p y) xs ≡ true → any q xs ≡ true
  any-and q p [] h = cc
  any-and q p (x ∷ xs) h = ground (arith, any-and q p xs)

  -- Where a test holds of one row at most, a row that passes it is the one that any row with a
  -- further property is.
  pub unique_row :
      (q p : A → Bool) {x : A} (xs : List A)
      → Memᴰ x xs
      → q x ≡ true
      → count_where q xs ≤ 1
      → any (λ y. q y && p y) xs ≡ true
      → p x ≡ true
  unique_row q p [] m h u a = cc
  unique_row q p (y ∷ xs) (Memᴰ.head e) h u a =
      rw e (let hy : q y ≡ true = rw e at h in ground (arith, any-and q p xs, count_where-pos q xs))
  unique_row q p (y ∷ xs) (Memᴰ.tail m) h u a =
      let later : 1 ≤ count_where q xs = count_where-pos q xs (any_of_mem q xs m h) in
      elim (Bool-cases (q y)) [
        | inl t ↦ absurd (ground arith)
        | inr f ↦ unique_row q p xs m h (ground arith) (ground arith)
      ]

module _ {ℓ κ} {A : Type ℓ} (P : A → Type κ) where
  pub All-of_mem : ((x : A) → P x) → (xs : List A) → All P xs
  All-of_mem h [] = tt
  All-of_mem h (x ∷ xs) = (h x, All-of_mem h xs)

  pub All-map :
      (f : A → A) → ((x : A) → P x → P (f x)) → (xs : List A) → All P xs → All P (map f xs)
  All-map f k [] h = tt
  All-map f k (x ∷ xs) h = (k x h.0, All-map f k xs h.1)

  pub All-concat : (xs : List A) (x : A) → All P xs → P x → All P (xs ++ x ∷ [])
  All-concat [] x h k = (k, tt)
  All-concat (y ∷ xs) x h k = (h.0, All-concat xs x h.1 k)

  -- An update keeps a property of all rows if it keeps it at each row that it changes.
  pub All-update_where :
      (p : A → Bool) (f : A → A) (xs : List A)
      → ((x : A) → Memᴰ x xs → p x ≡ true → P x → P (f x))
      → All P xs
      → All P (update_where p f xs)
  All-update_where p f [] k h = tt
  All-update_where p f (x ∷ xs) k h = (
    elim (Bool-cases (p x)) [ inl e ↦ rw e (k x (Memᴰ.head refl) e h.0) | inr e ↦ rw e h.0 ],
    All-update_where p f xs (λ y m. k y (Memᴰ.tail m)) h.1,
  )
