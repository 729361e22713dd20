-- ===== src/Tenants/Keys.antt =====
-- Which keys resolve to a tenant after a rotation and after a deactivation.
use postbud.Prelude.{
  ℕ, ◌≡◌, ◌≢◌, refl, sym, ap, ◌∙◌, true, false, List, [], ◌∷◌, Option, none, some, arith, find?,
  update_where, Bool-cases, inl, inr, ==_refl,
}
use postbud.Store.{Platform}
use postbud.Tenants.{
  Tenant, TenantRow, Registry, hash, is_tenant, answers, by_api_key, with_hash, rotate_key,
  with_active, set_active,
}
use postbud.Text.Case.{eq_of_str_eq}
use postbud.Text.{Str, str_eq}

false-true : false ≢ true
false-true e = cc

-- A row that the new digest is written to answers to no other.
answers-rotated :
    (id : ℕ) (h k : List ℕ) (rows : List TenantRow) {r : TenantRow}
    → find? (answers k) (update_where (is_tenant id) (with_hash h) rows) ≡ some r
    → is_tenant id r ≡ true
    → str_eq h k ≡ true
answers-rotated id h k [] e i = cc
answers-rotated id h k (s ∷ rows) {r} e i = elim (Bool-cases (is_tenant id s)) [
  | inl a ↦ elim (Bool-cases (str_eq h k)) [
    | inl b ↦ b
    | inr b ↦ answers-rotated id h k rows {r = r} (ground arith) i
  ]
  | inr a ↦ elim (Bool-cases (answers k s)) [
    | inl b ↦
        (let same : s ≡ r = ground arith in
          absurd (false-true (sym a ∙ (ap (is_tenant id) same ∙ i))))
    | inr b ↦ answers-rotated id h k rows {r = r} (ground arith) i
  ]
]

answers-deactivated :
    (id : ℕ) (k : List ℕ) (rows : List TenantRow) {r : TenantRow}
    → find? (answers k) (update_where (is_tenant id) (with_active false) rows) ≡ some r
    → is_tenant id r ≡ false
answers-deactivated id k [] e = cc
answers-deactivated id k (s ∷ rows) {r} e = elim (Bool-cases (is_tenant id s)) [
  | inl a ↦ answers-deactivated id k rows {r = r} (ground arith)
  | inr a ↦ elim (Bool-cases (answers k s)) [
    | inl b ↦ (let same : s ≡ r = ground arith in ap (is_tenant id) (sym same) ∙ a)
    | inr b ↦ answers-deactivated id k rows {r = r} (ground arith)
  ]
]

-- Once a tenant's key is rotated, no key resolves to the tenant but one with the digest of the new
-- key: the old key is dead in the same transaction.
pub rotate_key-by_api_key :
    (env : Platform) (key : Str) (reg : Registry) (id : ℕ) {reg' : Registry} {answer : Option Str}
    (presented : Str) (t : Tenant)
    → rotate_key env key reg id ≡ some (reg', answer)
    → by_api_key env reg' presented ≡ some t
    → t.id ≡ id
    → hash env presented ≡ hash env key
unfolding rotate_key by_api_key
rotate_key-by_api_key env key reg id {reg'} presented t h e i =
    go (find? (answers (hash env presented)) after) refl
  where
    after : List TenantRow
    after = update_where (is_tenant id) (with_hash (hash env key)) reg.tenants

    rotated : reg'.tenants ≡ after
    rotated = ground arith

    go :
        (o : Option TenantRow)
        → find? (answers (hash env presented)) after ≡ o
        → hash env presented ≡ hash env key
    go none f = absurd (ground arith)
    go (some r) f =
        let same : r.id ≡ t.id = ground arith in
        sym (
          eq_of_str_eq (hash env key) (hash env presented) (
            answers-rotated id (hash env key) (hash env presented) reg.tenants {r = r} f
              (rw (same, i) (==_refl id))))

-- Once a tenant is deactivated, no key resolves to it.
pub set_active-by_api_key :
    (env : Platform) (reg : Registry) (id : ℕ) (presented : Str) (t : Tenant)
    → by_api_key env (set_active reg id false).0 presented ≡ some t
    → t.id ≢ id
unfolding set_active by_api_key
set_active-by_api_key env reg id presented t e i =
    go (find? (answers (hash env presented)) after) refl
  where
    after : List TenantRow
    after = update_where (is_tenant id) (with_active false) reg.tenants

    go : (o : Option TenantRow) → find? (answers (hash env presented)) after ≡ o → ⊥
    go none f = absurd (ground arith)
    go (some r) f =
        let same : r.id ≡ t.id = ground arith in
        let other : is_tenant id r ≡ false =
          answers-deactivated id (hash env presented) reg.tenants {r = r} f in
        absurd (ground (arith, ==_refl id))
