-- ===== src/Operations/Attributed.antt =====
-- What the requests leave behind: who may make them, and who is named in the history.
use postbud.Address.{normalize, message}
use postbud.Domains.{DomainRow, SendingDomain}
use postbud.Domains
use postbud.Gate.Users.{perform}
use postbud.Operations.Domains.{new_entry}
use postbud.Gate.Grants.{SomeAdmin}
use postbud.Gate.Access.{MayWrite, is_ok, authorize_write-MayWrite}
use postbud.Gate.{Surface, Admin, authorize_write}
use postbud.Operations.Requests.{
  Site, Request, suppress_add, suppress_remove, tenant_create, tenant_rotate, tenant_active,
  tenant_domains, domain_add, domain_end, on_users, Draw, Reply, or_not_found, set_registry,
  set_created, set_rotated, set_registered, has_tenant, done, suppress, handle, operate,
}
use postbud.Operations.{clean_domains}
use postbud.Prelude.{
  ℕ, ◌≡◌, refl, sym, Bool, true, false, not, ◌&&◌, is_empty, List, [], ◌++◌, append-nil, Option,
  none, some, All, find?, any, Bool-cases, inl, inr,
}
use postbud.Result.{Result, ok, err, ◌>>=◌, map_err}
use postbud.Store.{Platform}
use postbud.Submit.{ApiError, bad_request}
use postbud.Tenants.{Registry, Tenant, TenantRow, DomainChange, is_tenant, same_domains}
use postbud.Tenants
use postbud.Text.{Str, codes, trim}

-- Only a caller who may write changes anything: a request that is served comes with the token of the
-- installation, with a grant of the admin role, or from the allowlist before there is a grant.
pub operate-MayWrite :
    (env : Platform) (surface : Surface) (draw : Draw) (site : Site) (header : Option Str)
    (request : Request)
    → is_ok (operate env surface draw site header request) ≡ true
    → MayWrite env site.users surface header (SomeAdmin env site.users)
unfolding operate
operate-MayWrite env surface draw site header request h =
    (authorize_write-MayWrite env site.users surface header).0
      (go (authorize_write env site.users surface header) refl)
  where
    go :
        (r : Result Admin ApiError)
        → authorize_write env site.users surface header ≡ r
        → is_ok r ≡ true
    go (ok who) e = refl
    go (err x) e = absurd (let f : false ≡ true = rw (e, operate) at h in cc)

-- The history of one table grows by rows that name the operator, or not at all.
abbrev pub GrowsBy : Str → List DomainChange → List DomainChange → Type 0
GrowsBy actor before later =
    (more : List DomainChange) × ((later ≡ before ++ more) × All (λ c. c.changed_by ≡ actor) more)

GrowsBy-refl : (actor : Str) (log : List DomainChange) → GrowsBy actor log log
GrowsBy-refl actor log = ([], (sym (append-nil log), tt))

-- A request that fails leaves the tables as they were.
abbrev pub site_after : Site → Result (Site × Reply) ApiError → Site
site_after site (ok (site', reply)) = site'
site_after site (err e) = site

abbrev Audited : Site → Str → Result (Site × Reply) ApiError → Type 0
Audited site actor r = GrowsBy actor site.registry.changes (site_after site r).registry.changes

Audited-create :
    (env : Platform) (draw : Draw) (site : Site) (name : Str) (domains : List Str)
    (note' : Option Str) (actor : Str)
    → Audited site actor (
        set_created site
          (Tenants.create env draw.now draw.id draw.key site.registry name domains note' actor))
unfolding Tenants.create
Audited-create env draw site name domains note' actor =
    elim (Bool-cases
      (any (Tenants.clashes draw.id name (Tenants.hash env draw.key)) site.registry.tenants)) [
        | inl c ↦ rw c (GrowsBy-refl actor site.registry.changes)
        | inr c ↦ rw c (_, (refl, (refl, tt)))
      ]

Audited-rotate :
    (env : Platform) (key : Str) (site : Site) (id : ℕ) (actor : Str)
    → Audited site actor (set_rotated site (Tenants.rotate_key env key site.registry id))
unfolding Tenants.rotate_key
Audited-rotate env key site id actor =
    elim (Bool-cases (any (is_tenant id) site.registry.tenants)) [
      | inr i ↦ rw i (GrowsBy-refl actor site.registry.changes)
      | inl i ↦
          elim (Bool-cases (
            any (λ r. not (is_tenant id r) && Tenants.has_hash (Tenants.hash env key) r)
              site.registry.tenants)) [
                | inl c ↦ rw (i, c) (GrowsBy-refl actor site.registry.changes)
                | inr c ↦ rw (i, c) (GrowsBy-refl actor site.registry.changes)
              ]
    ]

GrowsBy-set_domains :
    (now : ℕ) (reg : Registry) (id : ℕ) (domains : List Str) (actor : Str)
    → GrowsBy actor reg.changes (Tenants.set_domains now reg id domains actor).0.changes
unfolding Tenants.set_domains
GrowsBy-set_domains now reg id domains actor = go (find? (is_tenant id) reg.tenants) refl
  where
    go :
        (o : Option TenantRow)
        → find? (is_tenant id) reg.tenants ≡ o
        → GrowsBy actor reg.changes (Tenants.set_domains now reg id domains actor).0.changes
    go none f = rw (f, Tenants.set_domains) (GrowsBy-refl actor reg.changes)
    go (some row) f = elim (Bool-cases (same_domains row.from_domains domains)) [
      | inl s ↦ rw (f, Tenants.set_domains) (rw s (GrowsBy-refl actor reg.changes))
      | inr s ↦ rw (f, Tenants.set_domains) (rw s (_, (refl, (refl, tt))))
    ]

Audited-found :
    (site site' : Site) (actor : Str) (b : Bool)
    → GrowsBy actor site.registry.changes site'.registry.changes
    → Audited site actor (or_not_found site' b)
Audited-found site site' actor true g = g
Audited-found site site' actor false g = GrowsBy-refl actor site.registry.changes

Audited-bind :
    {A : Type 0} (site : Site) (actor : Str) (r : Result A ApiError)
    (next : A → Result (Site × Reply) ApiError)
    → ((a : A) → Audited site actor (next a))
    → Audited site actor (r >>= next)
Audited-bind site actor (ok a) next h = h a
Audited-bind site actor (err e) next h = GrowsBy-refl actor site.registry.changes

Audited-suppress :
    (env : Platform) (draw : Draw) (site : Site) (who : Admin) (tenant_id : Option ℕ)
    (detail : Option Str) (address : Str)
    → Audited site who.actor (suppress env draw site who tenant_id detail address)
Audited-suppress env draw site who tenant_id detail address =
    elim (Bool-cases (has_tenant site tenant_id)) [
      | inl e ↦ rw e (GrowsBy-refl who.actor site.registry.changes)
      | inr e ↦ rw e (GrowsBy-refl who.actor site.registry.changes)
    ]

Audited-registered :
    (domain : Str) (site : Site) (actor : Str) (o : Option (List DomainRow × SendingDomain))
    → Audited site actor (set_registered domain site o)
Audited-registered domain site actor none = GrowsBy-refl actor site.registry.changes
Audited-registered domain site actor (some (rows, entry)) = GrowsBy-refl actor site.registry.changes

-- Whatever an operator asks for, the history of the tenants' domains loses nothing, and every row that
-- it gains names the operator.
pub handle-GrowsBy :
    (env : Platform) (draw : Draw) (site : Site) (who : Admin) (request : Request)
    → GrowsBy who.actor site.registry.changes
        (site_after site (handle env draw site who request)).registry.changes
unfolding handle Tenants.set_active
handle-GrowsBy env draw site who (suppress_add address tenant_id detail) =
    Audited-bind site who.actor
      (map_err (λ e. bad_request (codes "address: " ++ message e)) (normalize address))
      (suppress env draw site who tenant_id detail)
      (Audited-suppress env draw site who tenant_id detail)
handle-GrowsBy env draw site who (suppress_remove id) =
    Audited-found site _ who.actor _ (GrowsBy-refl who.actor site.registry.changes)
handle-GrowsBy env draw site who (tenant_create name from_domains note') =
    elim (Bool-cases (is_empty (trim name))) [
      | inl e ↦ rw e (GrowsBy-refl who.actor site.registry.changes)
      | inr e ↦ rw e (
          Audited-bind site who.actor (clean_domains from_domains)
            (λ domains. set_created site (
              Tenants.create env draw.now draw.id draw.key site.registry (trim name) domains note'
                who.actor))
            (λ domains. Audited-create env draw site (trim name) domains note' who.actor))
    ]
handle-GrowsBy env draw site who (tenant_rotate id) = Audited-rotate env draw.key site id who.actor
handle-GrowsBy env draw site who (tenant_active id active) =
    Audited-found site _ who.actor _ (GrowsBy-refl who.actor site.registry.changes)
handle-GrowsBy env draw site who (tenant_domains id from_domains) =
    Audited-bind site who.actor (clean_domains from_domains)
      (λ domains.
        set_registry site (Tenants.set_domains draw.now site.registry id domains who.actor))
      (λ domains.
        Audited-found site _ who.actor _
          (GrowsBy-set_domains draw.now site.registry id domains who.actor))
handle-GrowsBy env draw site who (domain_add req) =
    Audited-bind site who.actor (new_entry draw.now draw.id draw.spf_default who.actor req)
      (λ entry. set_registered entry.domain site (Domains.add env site.domains entry))
      (λ entry. Audited-registered entry.domain site who.actor (Domains.add env site.domains entry))
handle-GrowsBy env draw site who (domain_end id) =
    Audited-found site _ who.actor _ (GrowsBy-refl who.actor site.registry.changes)
handle-GrowsBy env draw site who (on_users request) =
    Audited-bind site who.actor (perform env draw.now draw.id site.users who request)
      (λ users. ok (record site { users = users }, done))
      (λ users. GrowsBy-refl who.actor site.registry.changes)
