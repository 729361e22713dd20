-- ===== src/Tenants/History.antt =====
-- The history of domains is complete: what a tenant may send as is what its last change says.
use postbud.Prelude.Rows.{All-concat}
use postbud.Prelude.{
  ℕ, ◌≡◌, refl, sym, ap, ◌∙◌, Bool, true, false, List, [], ◌∷◌, ◌++◌, Option, none, some, arith,
  ◌==◌, if◌then◌else◌, any, All, find?, update_where, Bool-cases, inl, inr, ==_refl,
}
use postbud.Store.{Platform}
use postbud.Tenants.{
  Tenant, TenantRow, DomainChange, Registry, hash, is_tenant, clashes, create, with_hash,
  rotate_key, with_active, set_active, with_domains, same_domains, set_domains,
}
use postbud.Text.{Str}

-- The domains that the changes leave to a tenant that had `domains` before them.
abbrev pub granted : ℕ → List Str → List DomainChange → List Str
granted id domains [] = domains
granted id domains (c ∷ rest) =
    granted id (if c.tenant_id == id then c.domains_after else domains) rest

-- Every tenant has the domains that the history leaves it, starting from none.
abbrev pub IsRecorded : Registry → Type 0
IsRecorded reg = All (λ r. r.from_domains ≡ granted r.id [] reg.changes) reg.tenants

granted-concat :
    (id : ℕ) (domains : List Str) (cs : List DomainChange) (c : DomainChange)
    → granted id domains (cs ++ c ∷ [])
      ≡ (if c.tenant_id == id then c.domains_after else granted id domains cs)
granted-concat id domains [] c = refl
granted-concat id domains (d ∷ cs) c =
    granted-concat id (if d.tenant_id == id then d.domains_after else domains) cs c

-- An update that leaves the ids and the domains alone.
All-same :
    (p : TenantRow → Bool) (f : TenantRow → TenantRow)
    → ((r : TenantRow) → ((f r).id ≡ r.id) × ((f r).from_domains ≡ r.from_domains))
    → (cs : List DomainChange) (rows : List TenantRow)
    → All (λ r. r.from_domains ≡ granted r.id [] cs) rows
    → All (λ r. r.from_domains ≡ granted r.id [] cs) (update_where p f rows)
All-same p f k cs [] h = tt
All-same p f k cs (r ∷ rows) h = elim (Bool-cases (p r)) [
  | inl e ↦
      rw e ((k r).1 ∙ h.0 ∙ ap (λ i. granted i [] cs) (sym (k r).0), All-same p f k cs rows h.1)
  | inr e ↦ rw e (h.0, All-same p f k cs rows h.1)
]

-- The row that is changed takes the new domains, and the others meet no new change.
All-changed :
    (id : ℕ) (c : DomainChange) (cs : List DomainChange) (rows : List TenantRow)
    → c.tenant_id ≡ id
    → All (λ r. r.from_domains ≡ granted r.id [] cs) rows
    → All
        (λ r. r.from_domains ≡ granted r.id [] (cs ++ c ∷ []))
        (update_where (is_tenant id) (with_domains c.domains_after) rows)
All-changed id c cs [] t h = tt
All-changed id c cs (r ∷ rows) t h = (first, All-changed id c cs rows t h.1)
  where
    first :
        let r' = if is_tenant id r then with_domains c.domains_after r else r in
        r'.from_domains ≡ granted r'.id [] (cs ++ c ∷ [])
    first = ground (arith, granted-concat r.id [] cs c, h.0, ==_refl id)

-- Setting a tenant's domains keeps the history complete.
pub set_domains-IsRecorded :
    (now : ℕ) (reg : Registry) (id : ℕ) (from_domains : List Str) (by : Str)
    → IsRecorded reg
    → IsRecorded (set_domains now reg id from_domains by).0
unfolding set_domains
set_domains-IsRecorded now reg id from_domains by h = go (find? (is_tenant id) reg.tenants) refl
  where
    go :
        (o : Option TenantRow)
        → find? (is_tenant id) reg.tenants ≡ o
        → IsRecorded (set_domains now reg id from_domains by).0
    go none e = rw (e, set_domains) h
    go (some row) e = elim (Bool-cases (same_domains row.from_domains from_domains)) [
      | inl s ↦ rw (e, set_domains) (rw s h)
      | inr s ↦
          rw (e, set_domains)
            (rw s (
              All-changed id
                (record {
                  tenant_id = id;
                  changed_at = now;
                  changed_by = by;
                  domains_before = row.from_domains;
                  domains_after = from_domains;
                })
                reg.changes reg.tenants refl h))
    ]

-- Rotating a key and switching a tenant on or off keep the history complete.
pub rotate_key-IsRecorded :
    (env : Platform) (key : Str) (reg : Registry) (id : ℕ) {reg' : Registry} {answer : Option Str}
    → rotate_key env key reg id ≡ some (reg', answer)
    → IsRecorded reg
    → IsRecorded reg'
unfolding rotate_key
rotate_key-IsRecorded env key reg id {reg'} e h =
    let same : record reg {
      tenants = update_where (is_tenant id) (with_hash (hash env key)) reg.tenants;
    }
        ≡ reg' =
      ground arith in
    rw (← same) (
      All-same (is_tenant id) (with_hash (hash env key)) (λ r. (refl, refl)) reg.changes reg.tenants
        h)

All-others :
    (id : ℕ) (name : Str) (digest : List ℕ) (c : DomainChange) (cs : List DomainChange)
    (rows : List TenantRow)
    → c.tenant_id ≡ id
    → any (clashes id name digest) rows ≡ false
    → All (λ r. r.from_domains ≡ granted r.id [] cs) rows
    → All (λ r. r.from_domains ≡ granted r.id [] (cs ++ c ∷ [])) rows
All-others id name digest c cs [] t f h = tt
All-others id name digest c cs (r ∷ rows) t f h =
    (other, All-others id name digest c cs rows t (ground arith) h.1)
  where
    apart : (c.tenant_id == r.id) ≡ false
    apart = ground arith

    other : r.from_domains ≡ granted r.id [] (cs ++ c ∷ [])
    other = h.0 ∙ sym (granted-concat r.id [] cs c ∙ rw apart refl)

create-IsRecorded :
    (env : Platform) (now id : ℕ) (key : Str) (reg : Registry) (name : Str)
    (from_domains : List Str) (note : Option Str) (by : Str) {reg' : Registry}
    {answer : Tenant × Str}
    → create env now id key reg name from_domains note by ≡ some (reg', answer)
    → IsRecorded reg
    → IsRecorded reg'
unfolding create
create-IsRecorded env now id key reg name from_domains note by {reg'} e h =
    let row : TenantRow = record {
      id = id;
      name = name;
      api_key_hash = hash env key;
      from_domains = from_domains;
      active = true;
      created_at = now;
      note = note;
    } in
    let opening : DomainChange = record {
      tenant_id = id;
      changed_at = now;
      changed_by = by;
      domains_before = [];
      domains_after = from_domains;
    } in
    let same : record { tenants = reg.tenants ++ row ∷ []; changes = reg.changes ++ opening ∷ [] }
        ≡ reg' =
      ground arith in
    let fresh : any (clashes id name (hash env key)) reg.tenants ≡ false = ground arith in
    rw (← same) (
      All-concat (λ r. r.from_domains ≡ granted r.id [] (reg.changes ++ opening ∷ [])) reg.tenants
        row (All-others id name (hash env key) opening reg.changes reg.tenants refl fresh h)
        (sym (granted-concat id [] reg.changes opening ∙ rw (==_refl id) refl)))

-- The changes of the tables, each one transaction.
pub data TenantOp : Type 0 where
  creates : ℕ → ℕ → Str → Str → List Str → Option Str → Str → TenantOp
  rotates : Str → ℕ → TenantOp
  switches : ℕ → Bool → TenantOp
  grants : ℕ → ℕ → List Str → Str → TenantOp

abbrev kept {ℓ} : {A : Type ℓ} → Registry → Option (Registry × A) → Registry
kept reg none = reg
kept reg (some (reg', answer)) = reg'

unfoldable pub change : Platform → TenantOp → Registry → Registry
change env (creates now id key name from_domains note by) reg =
    kept reg (create env now id key reg name from_domains note by)
change env (rotates key id) reg = kept reg (rotate_key env key reg id)
change env (switches id active) reg = (set_active reg id active).0
change env (grants now id from_domains by) reg = (set_domains now reg id from_domains by).0

abbrev pub change_all : Platform → List TenantOp → Registry → Registry
change_all env [] reg = reg
change_all env (op ∷ ops) reg = change_all env ops (change env op reg)

kept-IsRecorded {ℓ} :
    {A : Type ℓ} (reg : Registry) (o : Option (Registry × A))
    → ((reg' : Registry) (a : A) → o ≡ some (reg', a) → IsRecorded reg')
    → IsRecorded reg
    → IsRecorded (kept reg o)
kept-IsRecorded reg none k h = h
kept-IsRecorded reg (some (reg', a)) k h = k reg' a refl

-- Whatever is done to the tenants, the history stays complete: the domains of every tenant are
-- those that the recorded changes leave it.
pub change_all-IsRecorded :
    (env : Platform) (ops : List TenantOp) (reg : Registry)
    → IsRecorded reg
    → IsRecorded (change_all env ops reg)
unfolding change
change_all-IsRecorded env [] reg h = h
change_all-IsRecorded env (creates now id key name from_domains note by ∷ ops) reg h =
    change_all-IsRecorded env ops _ (
      kept-IsRecorded reg (create env now id key reg name from_domains note by)
        (λ reg' a e.
          create-IsRecorded env now id key reg name from_domains note by {answer = a} e h)
        h)
change_all-IsRecorded env (rotates key id ∷ ops) reg h = change_all-IsRecorded env ops _ (
    kept-IsRecorded reg (rotate_key env key reg id)
      (λ reg' a e. rotate_key-IsRecorded env key reg id {answer = a} e h) h)
change_all-IsRecorded env (switches id active ∷ ops) reg h =
    change_all-IsRecorded env ops (set_active reg id active).0 (
      unfold set_active in
      All-same (is_tenant id) (with_active active) (λ r. (refl, refl)) reg.changes reg.tenants h)
change_all-IsRecorded env (grants now id from_domains by ∷ ops) reg h =
    change_all-IsRecorded env ops (set_domains now reg id from_domains by).0
      (set_domains-IsRecorded now reg id from_domains by h)
