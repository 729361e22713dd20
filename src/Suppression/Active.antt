-- ===== src/Suppression/Active.antt =====
-- Laws of the suppression list: what adding and lifting do to the addresses that are suppressed,
-- and that no two active rows are for one tenant and one address.
use postbud.Prelude.Rows.{count_where-concat, count_where-none}
use postbud.Prelude.{
  ℕ, ◌≤◌, ◌≡◌, refl, ◌∙◌, inl, inr, ◌↔◌, true, not, ◌&&◌, ◌||◌, List, [], ◌∷◌, Option, none, some,
  arith, ◌==◌, any, update_where, count_where, Bool-cases,
}
use postbud.Store.{Platform, Db, Suppression, Reason}
use postbud.Suppression.{
  same_tenant, applies_to, same_address, suppresses, is_suppressed, conflicts, new_suppression, add,
  lift, removable, remove,
}
use postbud.Text.Case.{eq_of_str_eq, str_eq_refl}
use postbud.Text.Contains.{any-append}
use postbud.Text.{Str}

same_tenant-applies_to :
    (o tenant : Option ℕ) (t : ℕ)
    → same_tenant o tenant ≡ true
    → applies_to tenant t ≡ true
    → applies_to o t ≡ true
same_tenant-applies_to none tenant t h a = refl
same_tenant-applies_to (some x) none t h a = cc
same_tenant-applies_to (some x) (some y) t h a = ground arith

same_tenant_iff : (a b : Option ℕ) → same_tenant a b ≡ true ↔ (a ≡ b)
same_tenant_iff none none = (λ h. refl, λ h. refl)
same_tenant_iff none (some y) = (λ h. cc, λ h. cc)
same_tenant_iff (some x) none = (λ h. cc, λ h. cc)
same_tenant_iff (some x) (some y) = (λ h. ground arith, λ h. ground arith)

module _ (env : Platform) where
  same_address_refl : (a : Str) → same_address env a a ≡ true
  same_address_refl a = str_eq_refl (env.sql_lower a)

  same_address_eq : (a b : Str) → same_address env a b ≡ true → env.sql_lower a ≡ env.sql_lower b
  same_address_eq a b h = eq_of_str_eq (env.sql_lower a) (env.sql_lower b) h

  -- A row that keeps `add` from inserting suppresses for each tenant that it was added for.
  conflicts-suppresses :
      (tenant : Option ℕ) (t : ℕ) (address to : Str)
      → applies_to tenant t ≡ true
      → same_address env address to ≡ true
      → (rows : List Suppression) → any (conflicts env tenant address) rows ≡ true
      → any (suppresses env t to) rows ≡ true
  conflicts-suppresses tenant t address to a e [] h = cc
  conflicts-suppresses tenant t address to a e (s ∷ rows) h =
      elim (Bool-cases (conflicts env tenant address s)) [
        | inl c ↦
            let q : same_address env s.address to ≡ true =
              rw (same_address_eq s.address address (ground arith)) e in
            ground (arith, same_tenant-applies_to s.tenant_id tenant t)
        | inr c ↦ ground (arith, conflicts-suppresses tenant t address to a e rows)
      ]

  -- After adding an address, a tenant's address is suppressed exactly if it was before, or if it
  -- is the added one and the addition was for that tenant or for all.
  pub is_suppressed-add :
      (now : ℕ) (db : Db) (tenant : Option ℕ) (address : Str) (reason : Reason) (source : Str)
      (detail : Option Str) (t : ℕ) (to : Str)
      → is_suppressed env (add env now db tenant address reason source detail) t to
        ≡ (is_suppressed env db t to || (same_address env address to && applies_to tenant t))
  unfolding is_suppressed add
  is_suppressed-add now db tenant address reason source detail t to = ground (
    arith,
    λ (a : applies_to tenant t ≡ true) (e : same_address env address to ≡ true).
        conflicts-suppresses tenant t address to a e db.suppressions,
    any-append (suppresses env t to) db.suppressions
        (new_suppression db.suppression_seq now tenant address reason source detail ∷ []),
  )

  -- After lifting a row, exactly the other rows suppress.
  pub is_suppressed-remove :
      (now : ℕ) (db : Db) (id : ℕ) (removed_by : Str) (t : ℕ) (to : Str)
      → is_suppressed env (remove now db id removed_by).0 t to
        ≡ any (λ s. suppresses env t to s && not (s.id == id)) db.suppressions
  unfolding is_suppressed remove
  is_suppressed-remove now db id removed_by t to = rest db.suppressions
    where
      rest :
          (rows : List Suppression)
          → any (suppresses env t to) (update_where (removable id) (lift now removed_by) rows)
            ≡ any (λ s. suppresses env t to s && not (s.id == id)) rows
      rest [] = refl
      rest (s ∷ rows) = ground (arith, rest rows)

  -- Adding a suppression touches no message.
  pub add-messages :
      (now : ℕ) (db : Db) (tenant : Option ℕ) (address : Str) (reason : Reason) (source : Str)
      (detail : Option Str)
      → (add env now db tenant address reason source detail).messages ≡ db.messages
  unfolding add
  add-messages now db tenant address reason source detail = ground arith

  -- The unique index: one active row at most for each tenant, or for all, and each address.
  abbrev pub IsUnique : Db → Type 0
  IsUnique db =
      (tenant : Option ℕ) (address : Str)
      → count_where (conflicts env tenant address) db.suppressions ≤ 1

  -- Two keys that the index takes for one meet the same rows.
  conflicts_congr :
      (tenant tenant' : Option ℕ) (address address' : Str) (s : Suppression)
      → same_tenant tenant tenant' ≡ true
      → same_address env address address' ≡ true
      → conflicts env tenant' address' s ≡ conflicts env tenant address s
  conflicts_congr tenant tenant' address address' s h e =
      rw (← (same_tenant_iff tenant tenant').0 h, ← same_address_eq address address' e) refl

  any-conflicts_congr :
      (tenant tenant' : Option ℕ) (address address' : Str)
      → same_tenant tenant tenant' ≡ true
      → same_address env address address' ≡ true
      → (rows : List Suppression)
      → any (conflicts env tenant' address') rows ≡ any (conflicts env tenant address) rows
  any-conflicts_congr tenant tenant' address address' h e [] = refl
  any-conflicts_congr tenant tenant' address address' h e (s ∷ rows) =
      rw
        (
          conflicts_congr tenant tenant' address address' s h e,
          any-conflicts_congr tenant tenant' address address' h e rows,
        )
        refl

  -- Adding keeps the index.
  pub add-IsUnique :
      (now : ℕ) (db : Db) (tenant : Option ℕ) (address : Str) (reason : Reason) (source : Str)
      (detail : Option Str)
      → IsUnique db
      → IsUnique (add env now db tenant address reason source detail)
  unfolding add
  add-IsUnique now db tenant address reason source detail u tenant' address' =
      elim (Bool-cases (any (conflicts env tenant address) db.suppressions)) [
        | inl c ↦ rw c (u tenant' address')
        | inr c ↦ rw c (
            rw (count_where-concat (conflicts env tenant' address') db.suppressions new)
              (elim (Bool-cases (conflicts env tenant' address' new)) [
                | inr f ↦ rw f (omega (arith, u tenant' address'))
                | inl e ↦ rw e (
                    omega (
                      arith,
                      count_where-none (conflicts env tenant' address') db.suppressions (
                          any-conflicts_congr tenant tenant' address address' (ground arith)
                            (ground arith) db.suppressions
                          ∙ c),
                    ))
              ]))
      ]
    where
      new : Suppression
      new = new_suppression db.suppression_seq now tenant address reason source detail

  count_where-lift :
      (now : ℕ) (id : ℕ) (by : Str) (tenant : Option ℕ) (address : Str) (rows : List Suppression)
      → count_where (conflicts env tenant address) (update_where (removable id) (lift now by) rows)
        ≤ count_where (conflicts env tenant address) rows
  count_where-lift now id by tenant address [] = omega arith
  count_where-lift now id by tenant address (s ∷ rows) =
      ground (arith, count_where-lift now id by tenant address rows)

  -- Lifting keeps the index.
  pub remove-IsUnique :
      (now : ℕ) (db : Db) (id : ℕ) (by : Str) → IsUnique db → IsUnique (remove now db id by).0
  unfolding remove
  remove-IsUnique now db id by u tenant address =
      omega (arith, u tenant address, count_where-lift now id by tenant address db.suppressions)
