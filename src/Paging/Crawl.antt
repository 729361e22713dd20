-- ===== src/Paging/Crawl.antt =====
-- What a caller sees who follows the cursors from page to page.
use mathlib.Core.Option
use postbud.Int.{pos, clamp}
use postbud.Paging.Order.{
  StrictOrder, newer, Below, Descending, Distinct, Descending-sort, select-sort, All-select,
}
use postbud.Paging.{Page, last, paginate, keyset}
use postbud.Prelude.{
  ℕ, zero, suc, ◌+◌, ◌≤◌, ◌<◌, ◌≡◌, refl, sym, ap, subst, append-nil, ◌∙◌, Bool, true, false, ◌||◌,
  List, [], ◌∷◌, ◌++◌, Option, none, some, arith, ltb, is_none, is_some_and, select, take, drop,
  length, insert_by, sort_by, All, Bool-cases, inl, inr,
}

-- The items of the pages, from the one that the cursor asks for to the last or the fuel's end.
abbrev pub crawl : {K A : Type 0} → (Option K → Page A K) → ℕ → Option K → List A
crawl get zero before = []
crawl get (suc fuel) before =
    let page = get before in
    page.items ++ (elim page.next [ none ↦ [] | some k ↦ crawl get fuel (some k) ])

module _ {A : Type 0} where
  take-append-drop : (n : ℕ) (xs : List A) → take n xs ++ drop n xs ≡ xs
  take-append-drop zero xs = refl
  take-append-drop (suc n) [] = refl
  take-append-drop (suc n) (x ∷ xs) = ap (◌∷◌ x) (take-append-drop n xs)

  take-take : (n : ℕ) (xs : List A) → take n (take (suc n) xs) ≡ take n xs
  take-take zero xs = refl
  take-take (suc n) [] = refl
  take-take (suc n) (x ∷ xs) = ap (◌∷◌ x) (take-take n xs)

  take-all : (n : ℕ) (xs : List A) → length xs ≤ n → take n xs ≡ xs
  take-all zero [] h = refl
  take-all zero (x ∷ xs) h = absurd (omega (arith, h))
  take-all (suc n) [] h = refl
  take-all (suc n) (x ∷ xs) h = ap (◌∷◌ x) (take-all n xs (omega (arith, h)))

  longer : (n : ℕ) (xs : List A) → ltb n (length (take (suc n) xs)) ≡ ltb n (length xs)
  longer zero [] = refl
  longer zero (x ∷ xs) = ground arith
  longer (suc n) [] = refl
  longer (suc n) (x ∷ xs) = ground (arith, longer n xs)

  length-drop : (n : ℕ) (xs : List A) → n ≤ length xs → n + length (drop n xs) ≡ length xs
  length-drop zero xs h = omega arith
  length-drop (suc n) [] h = absurd (omega (arith, h))
  length-drop (suc n) (x ∷ xs) h = omega (arith, length-drop n xs (omega (arith, h)))

  some_last : (n : ℕ) (xs : List A) → 1 ≤ n → 1 ≤ length xs → is_none (last (take n xs)) ≡ false
  some_last zero xs h k = absurd (omega (arith, h))
  some_last (suc n) [] h k = absurd (omega (arith, k))
  some_last (suc n) (x ∷ xs) h k = ground arith

  no_rows_left : (n : ℕ) (xs : List A) → last (take n xs) ≡ none → drop n xs ≡ xs
  no_rows_left zero xs h = refl
  no_rows_left (suc n) [] h = refl
  no_rows_left (suc n) (x ∷ xs) h = ground arith

  All-last :
      (P : A → Type 0) (n : ℕ) (xs : List A) (y : A) → All P xs → last (take n xs) ≡ some y → P y
  All-last P zero xs y h e = absurd (ground arith)
  All-last P (suc n) [] y h e = absurd (ground arith)
  All-last P (suc n) (x ∷ xs) y h e = go (last (take n xs)) refl (All-last P n xs y h.1)
    where
      go : (o : Option A) → last (take n xs) ≡ o → (last (take n xs) ≡ some y → P y) → P y
      go none f later = subst P (ground arith) h.0
      go (some z) f later = later (ground arith)

  select-all : (p : A → Bool) (xs : List A) → All (λ x. p x ≡ true) xs → select p xs ≡ xs
  select-all p [] h = refl
  select-all p (x ∷ xs) h = rw (h.0, select-all p xs h.1) refl

  select-select :
      (p q : A → Bool)
      → ((x : A) → p x ≡ true → q x ≡ true)
      → (xs : List A) → select p (select q xs) ≡ select p xs
  select-select p q h [] = refl
  select-select p q h (x ∷ xs) = ground (arith, h x, select-select p q h xs)

module _ {K A : Type 0} (order : StrictOrder K) (key : A → K) where
  abbrev older : Option K → A → Bool
  older before r = is_none before || is_some_and (λ k. order.lt (key r) k) before

  Descending-select :
      (p : A → Bool) (xs : List A) → Descending order key xs → Descending order key (select p xs)
  Descending-select p [] d = tt
  Descending-select p (x ∷ xs) d = elim (Bool-cases (p x)) [
    | inl e ↦ rw e (All-select order key (Below order key x) p xs d.0, Descending-select p xs d.1)
    | inr e ↦ rw e (Descending-select p xs d.1)
  ]

  -- The rows below the last one of a page are those behind the page.
  select-below :
      (n : ℕ) (xs : List A) (y : A)
      → Descending order key xs
      → last (take n xs) ≡ some y
      → select (older (some (key y))) xs ≡ drop n xs
  select-below zero xs y d e = absurd (ground arith)
  select-below (suc n) [] y d e = absurd (ground arith)
  select-below (suc n) (x ∷ xs) y d e = go (last (take n xs)) refl (select-below n xs y d.1)
    where
      go :
          (o : Option A)
          → last (take n xs) ≡ o
          → (last (take n xs) ≡ some y → select (older (some (key y))) xs ≡ drop n xs)
          → select (older (some (key y))) (x ∷ xs) ≡ drop n xs
      go none f later =
          let same : x ≡ y = ground arith in
          let i : order.lt (key x) (key x) ≡ false =
            ground (arith, order.lt_asymm (key x) (key x)) in
          let b : order.lt (key x) (key y) ≡ false =
            subst (λ z. order.lt (key x) (key z) ≡ false) same i in
          rw (b, no_rows_left n xs f)
            (select-all (older (some (key y))) xs
              (subst (λ z. All (Below order key z) xs) same d.0))
      go (some z) f later =
          let l : last (take n xs) ≡ some y = ground arith in
          let b : order.lt (key x) (key y) ≡ false =
            order.lt_asymm (key y) (key x) (All-last (Below order key x) n xs y d.0 l) in
          rw b (later l)

  -- A cursor further down leaves nothing that the one above it did not.
  older_trans :
      (before : Option K) (rows : List A) (limit : ℕ) (y : A)
      → last (take limit (select (older before) rows)) ≡ some y
      → (r : A) → older (some (key y)) r ≡ true
      → older before r ≡ true
  older_trans none rows limit y e r h = refl
  older_trans (some k) rows limit y e r h = order.lt_trans (key r) (key y) k h (
      All-last (λ x. order.lt (key x) k ≡ true) limit (select (older (some k)) rows) y
        (All-selected rows) e)
    where
      All-selected :
          (xs : List A) → All (λ x. order.lt (key x) k ≡ true) (select (older (some k)) xs)
      All-selected [] = tt
      All-selected (x ∷ xs) = elim (Bool-cases (order.lt (key x) k)) [
        | inl e ↦ rw e (e, All-selected xs)
        | inr e ↦ rw e (All-selected xs)
      ]

  select-next :
      (before : Option K) (rows : List A) (limit : ℕ) (y : A)
      → Descending order key rows
      → last (take limit (select (older before) rows)) ≡ some y
      → select (older (some (key y))) rows ≡ drop limit (select (older before) rows)
  select-next before rows limit y d e =
      sym (
        select-select (older (some (key y))) (older before) (older_trans before rows limit y e)
          rows)
      ∙ select-below limit (select (older before) rows) y (Descending-select (older before) rows d)
          e

  -- A page in terms of the rows in order.
  abbrev page_at : List A → ℕ → Option K → Page A K
  page_at rows limit before = paginate (take (suc limit) (select (older before) rows)) limit key

  crawl-rows :
      (rows : List A) (limit : ℕ)
      → Descending order key rows
      → 1 ≤ limit
      → (fuel : ℕ) (before : Option K) → length (select (older before) rows) < fuel
      → crawl (page_at rows limit) fuel before ≡ select (older before) rows
  unfolding paginate
  crawl-rows rows limit d l zero before h = absurd (omega (arith, h))
  crawl-rows rows limit d l (suc fuel) before h =
      elim (Bool-cases (ltb limit (length (select (older before) rows)))) [
        | inr e ↦
            rw (longer limit (select (older before) rows), e)
              (append-nil (take (suc limit) (select (older before) rows))
                ∙ take-all (suc limit) (select (older before) rows) (ground arith))
        | inl e ↦
            rw
              (
                longer limit (select (older before) rows),
                e,
                take-take limit (select (older before) rows),
              )
              (go (last (take limit (select (older before) rows))) refl e
                (crawl-rows rows limit d l fuel))
      ]
    where
      go :
          (o : Option A)
          → last (take limit (select (older before) rows)) ≡ o
          → ltb limit (length (select (older before) rows)) ≡ true
          → ((c : Option K)
              → length (select (older c) rows) < fuel
              → crawl (page_at rows limit) fuel c ≡ select (older c) rows)
          → take limit (select (older before) rows)
              ++ (elim (Option.map key (last (take limit (select (older before) rows)))) [
                | none ↦ []
                | some k ↦ crawl (page_at rows limit) fuel (some k)
              ])
            ≡ select (older before) rows
      go none f e later = absurd (ground (arith, some_last limit (select (older before) rows) l))
      go (some y) f e later =
          let n : select (older (some (key y))) rows ≡ drop limit (select (older before) rows) =
            select-next before rows limit y d f in
          let s : length (drop limit (select (older before) rows)) < fuel =
            ground (arith, length-drop limit (select (older before) rows)) in
          rw f (
            rw (later (some (key y)) (rw n s), n)
              (take-append-drop limit (select (older before) rows)))

  visible-keyset :
      (rows : List A) (limit : ℕ) (before : Option K)
      → Distinct order key rows
      → limit ≤ 200
      → keyset order key before (suc limit) rows
        ≡ take (suc limit) (select (older before) (sort_by (newer order key) rows))
  unfolding keyset clamp
  visible-keyset rows limit before d h =
      let c : clamp (pos (suc limit)) 1 201 ≡ suc limit = ground arith in
      rw (c, select-sort order key (older before) rows d) refl

  length-insert :
      (x : A) (rows : List A) → length (insert_by (newer order key) x rows) ≡ suc (length rows)
  unfolding insert_by
  length-insert x [] = refl
  length-insert x (y ∷ rows) = ground (arith, length-insert x rows)

  length-sort : (rows : List A) → length (sort_by (newer order key) rows) ≡ length rows
  unfolding sort_by
  length-sort [] = refl
  length-sort (x ∷ rows) =
      length-insert x (sort_by (newer order key) rows) ∙ ap suc (length-sort rows)

  pub crawl-congr :
      (get get' : Option K → Page A K)
      → ((c : Option K) → get c ≡ get' c)
      → (fuel : ℕ) (c : Option K) → crawl get fuel c ≡ crawl get' fuel c
  crawl-congr get get' h zero c = refl
  crawl-congr get get' h (suc fuel) c =
      rw (h c) (go (get' c).next (λ k. crawl-congr get get' h fuel (some k)))
    where
      go :
          (o : Option K)
          → ((k : K) → crawl get fuel (some k) ≡ crawl get' fuel (some k))
          → (get' c).items ++ (elim o [ none ↦ [] | some k ↦ crawl get fuel (some k) ])
            ≡ (get' c).items ++ (elim o [ none ↦ [] | some k ↦ crawl get' fuel (some k) ])
      go none later = refl
      go (some k) later = ap (λ rest. (get' c).items ++ rest) (later k)

  -- The pages of a query that looks one row ahead.
  abbrev pub keyset_page : List A → ℕ → Option K → Page A K
  keyset_page rows limit before = paginate (keyset order key before (suc limit) rows) limit key

  select-none : (rows : List A) → select (older none) rows ≡ rows
  select-none [] = refl
  select-none (r ∷ rows) = ap (◌∷◌ r) (select-none rows)

  pub crawl-keyset :
      (rows : List A) (limit : ℕ)
      → Distinct order key rows
      → 1 ≤ limit
      → limit ≤ 200
      → (fuel : ℕ) → length rows < fuel
      → crawl (keyset_page rows limit) fuel none ≡ sort_by (newer order key) rows
  crawl-keyset rows limit d l u fuel h =
      let sorted = sort_by (newer order key) rows in
      crawl-congr (keyset_page rows limit) (page_at sorted limit)
        (λ c. ap (λ items. paginate items limit key) (visible-keyset rows limit c d u)) fuel none
      ∙ crawl-rows sorted limit (Descending-sort order key rows d) l fuel none
          (rw (select-none sorted, length-sort rows) h)
      ∙ select-none sorted
