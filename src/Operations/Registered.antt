-- ===== src/Operations/Registered.antt =====
-- What the requests do to the registry of sending domains.
use postbud.Address.{normalize, message}
use postbud.Domains.{DomainRow, SendingDomain, entries, ended, add, end}
use postbud.Domains
use postbud.Gate.Users.{perform}
use postbud.Gate.{Admin}
use postbud.Operations.Attributed.{site_after}
use postbud.Operations.Cleaned.{IsAcceptable, new_entry-IsAcceptable}
use postbud.Operations.Domains.{new_entry}
use postbud.Operations.Requests.{
  Site, Request, suppress_add, suppress_remove, tenant_create, tenant_rotate, tenant_active,
  tenant_domains, domain_add, domain_end, on_users, Draw, Reply, or_not_found, set_registry,
  set_created, set_rotated, set_registered, has_tenant, done, suppress, handle,
}
use postbud.Operations.{clean_domains}
use postbud.Prelude.{
  ℕ, ◌≡◌, refl, sym, ap, ◌∙◌, Bool, true, false, is_empty, List, [], ◌∷◌, ◌++◌, append-nil, Option,
  none, some, All, any, update_where, Bool-cases, inl, inr,
}
use postbud.Result.{Result, ok, err, ◌>>=◌, map_err}
use postbud.Store.{Platform}
use postbud.Submit.{ApiError, bad_request}
use postbud.Tenants.{Registry, Tenant}
use postbud.Tenants
use postbud.Text.{Str, codes, trim}

-- The entries are those from before, and behind them new ones that are acceptable and name the
-- operator.
abbrev pub Registers : Str → List DomainRow → List DomainRow → Type 0
Registers actor before later =
    (more : List SendingDomain) × (entries later ≡ entries before ++ more)
    × All (λ d. IsAcceptable d × (d.created_by ≡ actor)) more

Registers-same :
    (actor : Str) (before later : List DomainRow)
    → entries later ≡ entries before
    → Registers actor before later
Registers-same actor before later e = ([], e ∙ sym (append-nil (entries before)), tt)

entries-update_where :
    (p : DomainRow → Bool) (now : ℕ) (by : Str) (rows : List DomainRow)
    → entries (update_where p (ended now by) rows) ≡ entries rows
entries-update_where p now by [] = refl
entries-update_where p now by (r ∷ rows) = elim (Bool-cases (p r)) [
  | inl e ↦ rw e (ap (◌∷◌ r.entry) (entries-update_where p now by rows))
  | inr e ↦ rw e (ap (◌∷◌ r.entry) (entries-update_where p now by rows))
]

entries-concat :
    (rows : List DomainRow) (r : DomainRow)
    → entries (rows ++ r ∷ []) ≡ entries rows ++ r.entry ∷ []
entries-concat [] r = refl
entries-concat (x ∷ rows) r = ap (◌∷◌ x.entry) (entries-concat rows r)

abbrev Kept : Site → Str → Result (Site × Reply) ApiError → Type 0
Kept site actor r = Registers actor site.domains (site_after site r).domains

module _ (site : Site) (actor : Str) where
  Kept-same : Registers actor site.domains site.domains
  Kept-same = Registers-same actor site.domains site.domains refl

  Kept-found :
      (site' : Site) (b : Bool)
      → Registers actor site.domains site'.domains
      → Kept site actor (or_not_found site' b)
  Kept-found site' true g = g
  Kept-found site' false g = Kept-same

  Kept-bind :
      {A : Type 0} (r : Result A ApiError) (next : A → Result (Site × Reply) ApiError)
      → ((a : A) → r ≡ ok a → Kept site actor (next a))
      → Kept site actor (r >>= next)
  Kept-bind (ok a) next h = h a refl
  Kept-bind (err e) next h = Kept-same

  Kept-created : (o : Option (Registry × (Tenant × Str))) → Kept site actor (set_created site o)
  Kept-created none = Kept-same
  Kept-created (some (reg, (tenant, key))) = Kept-same

  Kept-rotated : (o : Option (Registry × Option Str)) → Kept site actor (set_rotated site o)
  Kept-rotated none = Kept-same
  Kept-rotated (some (reg, none)) = Kept-same
  Kept-rotated (some (reg, some key)) = Kept-same

  Kept-registered :
      (env : Platform) (entry : SendingDomain)
      → IsAcceptable entry × (entry.created_by ≡ actor)
      → Kept site actor (set_registered entry.domain site (Domains.add env site.domains entry))
  unfolding Domains.add
  Kept-registered env entry a =
      elim (Bool-cases (any (Domains.clashes env entry.domain) site.domains)) [
        | inl c ↦ rw c Kept-same
        | inr c ↦ rw c (entry ∷ [], entries-concat site.domains _, (a, tt))
      ]

Kept-suppress :
    (env : Platform) (draw : Draw) (site : Site) (who : Admin) (tenant_id : Option ℕ)
    (detail : Option Str) (address : Str)
    → Kept site who.actor (suppress env draw site who tenant_id detail address)
Kept-suppress env draw site who tenant_id detail address =
    elim (Bool-cases (has_tenant site tenant_id)) [
      | inl e ↦ rw e (Kept-same site who.actor)
      | inr e ↦ rw e (Kept-same site who.actor)
    ]

-- Whatever an operator asks for, the registry of sending domains keeps the entries that it has, ended
-- or not, and a new entry is acceptable and names the operator as the one who created it: its name is
-- clean, it has a selector and a key of 64 bytes or more, and its policy, if there is one, is none,
-- quarantine or reject.
pub handle-Registers :
    (env : Platform) (draw : Draw) (site : Site) (who : Admin) (request : Request)
    → Registers who.actor site.domains (site_after site (handle env draw site who request)).domains
unfolding handle Domains.end
handle-Registers env draw site who (suppress_add address tenant_id detail) =
    Kept-bind site who.actor
      (map_err (λ e. bad_request (codes "address: " ++ message e)) (normalize address))
      (suppress env draw site who tenant_id detail)
      (λ a e. Kept-suppress env draw site who tenant_id detail a)
handle-Registers env draw site who (suppress_remove id) =
    Kept-found site who.actor _ _ (Kept-same site who.actor)
handle-Registers env draw site who (tenant_create name from_domains note') =
    elim (Bool-cases (is_empty (trim name))) [
      | inl e ↦ rw e (Kept-same site who.actor)
      | inr e ↦ rw e (
          Kept-bind site who.actor (clean_domains from_domains)
            (λ domains. set_created site (
              Tenants.create env draw.now draw.id draw.key site.registry (trim name) domains note'
                who.actor))
            (λ domains k. Kept-created site who.actor (
              Tenants.create env draw.now draw.id draw.key site.registry (trim name) domains note'
                who.actor)))
    ]
handle-Registers env draw site who (tenant_rotate id) =
    Kept-rotated site who.actor (Tenants.rotate_key env draw.key site.registry id)
handle-Registers env draw site who (tenant_active id active) =
    Kept-found site who.actor _ _ (Kept-same site who.actor)
handle-Registers env draw site who (tenant_domains id from_domains) =
    Kept-bind site who.actor (clean_domains from_domains)
      (λ domains.
        set_registry site (Tenants.set_domains draw.now site.registry id domains who.actor))
      (λ domains k. Kept-found site who.actor _ _ (Kept-same site who.actor))
handle-Registers env draw site who (domain_add req) =
    Kept-bind site who.actor (new_entry draw.now draw.id draw.spf_default who.actor req)
      (λ entry. set_registered entry.domain site (Domains.add env site.domains entry))
      (λ entry k.
        Kept-registered site who.actor env entry
          (new_entry-IsAcceptable draw.now draw.id draw.spf_default who.actor req entry k))
handle-Registers env draw site who (domain_end id) = Kept-found site who.actor _ _ (
    Registers-same who.actor site.domains _
      (entries-update_where _ draw.now who.actor site.domains))
handle-Registers env draw site who (on_users request) =
    Kept-bind site who.actor (perform env draw.now draw.id site.users who request)
      (λ users. ok (record site { users = users }, done)) (λ users k. Kept-same site who.actor)
