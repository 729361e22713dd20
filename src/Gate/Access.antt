-- ===== src/Gate/Access.antt =====
-- Who may change things on the admin surface.
use postbud.Admins.{AdminUser, is_active, is_admin_role, matches, role_of, number_of}
use postbud.Admins
use postbud.Gate.Grants.{
  SomeAdmin, OnlyAdmin, picked, SomeAdmin-of_picked, picked-of_OnlyAdmin, picked-none,
}
use postbud.Gate.{
  Role, admin, viewer, Admin, Identity, Oidc, Surface, names, actor_of, env_allowlisted, presented,
  is_token, operator, by_issuer, of_token, or_unauthorized, authenticate, resolve, only_admin,
  authorize_write,
}
use postbud.Gate
use postbud.Prelude.{
  ◌≡◌, refl, sym, ◌∙◌, Bool, true, false, not, ◌&&◌, ◌||◌, List, Option, none, some, arith, any,
  is_none, Bool-cases, inl, inr,
}
use postbud.Result.{Result, ok, err}
use postbud.Store.{Platform}
use postbud.Text.Case.{eq_of_str_eq, str_eq_refl}
use postbud.Tenants.{hash}
use postbud.Text.{Str}

abbrev pub is_ok : {A E : Type 0} → Result A E → Bool
is_ok (ok a) = true
is_ok (err e) = false

-- The three ways: the token of the installation, the grants of an identity of the issuer, and the
-- allowlist while there is no active grant.
pub data MayWrite (env : Platform) (users : List AdminUser) (surface : Surface)
    (header : Option Str) (Granted : Identity → Type 0) : Type 0 where
  by_token :
      (credential configured : Str)
      → presented header ≡ some credential
      → surface.admin_token ≡ some configured
      → hash env credential ≡ hash env configured
      → MayWrite env users surface header Granted
  by_grant :
      (credential : Str) (oidc : Oidc) (identity : Identity)
      → presented header ≡ some credential
      → surface.admin_oidc ≡ some oidc
      → oidc.verify credential ≡ some identity
      → Granted identity
      → MayWrite env users surface header Granted
  by_allowlist :
      (credential : Str) (oidc : Oidc) (identity : Identity)
      → presented header ≡ some credential
      → surface.admin_oidc ≡ some oidc
      → oidc.verify credential ≡ some identity
      → any is_active users ≡ false
      → any (names identity) oidc.users ≡ true
      → MayWrite env users surface header Granted

abbrev writes : Option Admin → Bool
writes none = false
writes (some who) = is_ok (only_admin (ok who))

-- The role of an identity in the table, and in the allowlist.
operator-granted :
    (env : Platform) (users : List AdminUser) (oidc : Oidc) (identity : Identity) (user : AdminUser)
    → picked env users identity ≡ some user
    → writes (operator env users oidc identity) ≡ is_admin_role user.role
unfolding operator Gate.role_of Admins.resolve
operator-granted env users oidc identity user f =
    rw f (elim (Bool-cases (is_admin_role user.role)) [
      | inl e ↦ rw e refl
      | inr e ↦ rw e (ground arith)
    ])

operator-listed :
    (env : Platform) (users : List AdminUser) (oidc : Oidc) (identity : Identity)
    → picked env users identity ≡ none
    → writes (operator env users oidc identity)
      ≡ (not (any is_active users) && any (names identity) oidc.users)
unfolding operator Gate.role_of Admins.resolve env_allowlisted
operator-listed env users oidc identity f =
    rw f (elim (Bool-cases (not (any is_active users) && any (names identity) oidc.users)) [
      | inl e ↦ rw e refl
      | inr e ↦ rw e refl
    ])

is_ok-or_unauthorized : (o : Option Admin) → is_ok (only_admin (or_unauthorized o)) ≡ writes o
is_ok-or_unauthorized none = refl
is_ok-or_unauthorized (some who) = refl

-- No issuer, no operator.
no_issuer :
    (env : Platform) (users : List AdminUser) (surface : Surface) (credential : Str)
    → is_none surface.admin_oidc ≡ true
    → by_issuer env users surface credential ≡ none
unfolding by_issuer
no_issuer env users surface credential h = ground arith

abbrev permits : Platform → List AdminUser → Surface → Option Str → Bool
permits env users surface none = false
permits env users surface (some credential) =
    is_token env surface credential || writes (by_issuer env users surface credential)

write-permits :
    (env : Platform) (users : List AdminUser) (surface : Surface) (header : Option Str)
    → is_ok (authorize_write env users surface header)
      ≡ permits env users surface (presented header)
unfolding authorize_write resolve authenticate
write-permits env users surface header =
    elim (Bool-cases (is_none surface.admin_token && is_none surface.admin_oidc)) [
      | inl c ↦ rw c (disabled (presented header) c)
      | inr c ↦ rw c (go (presented header))
    ]
  where
    disabled :
        (o : Option Str)
        → (is_none surface.admin_token && is_none surface.admin_oidc) ≡ true
        → false ≡ permits env users surface o
    disabled none c = refl
    disabled (some credential) c =
        let t : is_token env surface credential ≡ false = ground arith in
        rw (t, no_issuer env users surface credential (ground arith)) refl

    go :
        (o : Option Str)
        → is_ok (only_admin (authenticate env users surface o)) ≡ permits env users surface o
    go none = refl
    go (some credential) = elim (Bool-cases (is_token env surface credential)) [
      | inl t ↦ rw t refl
      | inr t ↦ rw t (is_ok-or_unauthorized (by_issuer env users surface credential))
    ]

write-by_issuer :
    (env : Platform) (users : List AdminUser) (surface : Surface) (header : Option Str)
    (credential : Str) (oidc : Oidc) (identity : Identity)
    → presented header ≡ some credential
    → surface.admin_oidc ≡ some oidc
    → oidc.verify credential ≡ some identity
    → writes (operator env users oidc identity) ≡ true
    → is_ok (authorize_write env users surface header) ≡ true
unfolding by_issuer
write-by_issuer env users surface header credential oidc identity p o v w =
    rw (write-permits env users surface header, p, o, v, w) (ground arith)

write-of_OnlyAdmin :
    (env : Platform) (users : List AdminUser) (oidc : Oidc) (identity : Identity)
    → OnlyAdmin env users identity
    → writes (operator env users oidc identity) ≡ true
write-of_OnlyAdmin env users oidc identity o =
    let (u, f, a) = picked-of_OnlyAdmin env users identity o in
    operator-granted env users oidc identity u f ∙ rw a refl

write_of_MayWrite :
    (env : Platform) (users : List AdminUser) (surface : Surface) (header : Option Str)
    → MayWrite env users surface header (OnlyAdmin env users)
    → is_ok (authorize_write env users surface header) ≡ true
write_of_MayWrite env users surface header (by_token credential configured p t h) =
    rw (write-permits env users surface header, p, t, h, str_eq_refl (hash env configured)) refl
write_of_MayWrite env users surface header (by_grant credential oidc identity p o v a) =
    write-by_issuer env users surface header credential oidc identity p o v
      (write-of_OnlyAdmin env users oidc identity a)
write_of_MayWrite env users surface header (by_allowlist credential oidc identity p o v n l) =
    write-by_issuer env users surface header credential oidc identity p o v
      (operator-listed env users oidc identity (picked-none env users identity n) ∙ rw (n, l) refl)

MayWrite-of_operator :
    (env : Platform) (users : List AdminUser) (surface : Surface) (header : Option Str)
    (credential : Str) (oidc : Oidc) (identity : Identity)
    → presented header ≡ some credential
    → surface.admin_oidc ≡ some oidc
    → oidc.verify credential ≡ some identity
    → writes (operator env users oidc identity) ≡ true
    → MayWrite env users surface header (SomeAdmin env users)
MayWrite-of_operator env users surface header credential oidc identity p o v w =
    go (picked env users identity) refl
  where
    go :
        (r : Option AdminUser)
        → picked env users identity ≡ r
        → MayWrite env users surface header (SomeAdmin env users)
    go (some user) f = by_grant credential oidc identity p o v (
        SomeAdmin-of_picked env users identity user f
          (sym (operator-granted env users oidc identity user f) ∙ w))
    go none f =
        let e : (not (any is_active users) && any (names identity) oidc.users) ≡ true =
          sym (operator-listed env users oidc identity f) ∙ w in
        by_allowlist credential oidc identity p o v (ground arith) (ground arith)

MayWrite-of_credential :
    (env : Platform) (users : List AdminUser) (surface : Surface) (header : Option Str)
    (credential : Str)
    → presented header ≡ some credential
    → permits env users surface (some credential) ≡ true
    → MayWrite env users surface header (SomeAdmin env users)
unfolding by_issuer
MayWrite-of_credential env users surface header credential p w =
    elim (Bool-cases (is_token env surface credential)) [
      | inl t ↦ token surface.admin_token refl t
      | inr t ↦ issuer surface.admin_oidc refl (ground arith)
    ]
  where
    token :
        (c : Option Str)
        → surface.admin_token ≡ c
        → is_token env surface credential ≡ true
        → MayWrite env users surface header (SomeAdmin env users)
    token none e t = absurd (ground arith)
    token (some configured) e t =
        by_token credential configured p e
          (eq_of_str_eq (hash env credential) (hash env configured) (ground arith))

    verified :
        (oidc : Oidc) (i : Option Identity)
        → surface.admin_oidc ≡ some oidc
        → oidc.verify credential ≡ i
        → writes (by_issuer env users surface credential) ≡ true
        → MayWrite env users surface header (SomeAdmin env users)
    verified oidc none o v h = absurd (ground arith)
    verified oidc (some identity) o v h =
        MayWrite-of_operator env users surface header credential oidc identity p o v (ground arith)

    issuer :
        (c : Option Oidc)
        → surface.admin_oidc ≡ c
        → writes (by_issuer env users surface credential) ≡ true
        → MayWrite env users surface header (SomeAdmin env users)
    issuer none o h = absurd (ground arith)
    issuer (some oidc) o h = verified oidc (oidc.verify credential) o refl h

-- Who may change things. A caller who may has the token of the installation in the header, or a token
-- of the issuer whose identity has an active grant of the admin role, or one whose identity is on the
-- allowlist while the table has no active grant. The other way round, a caller may with the token of
-- the installation, or with a token of the issuer whose identity has active grants of the admin role
-- and of no other, or with one whose identity is on the allowlist while the table has no active grant.
-- (Where an identity has active grants of both roles, one by its subject and one by its email, the
-- query gives no order and its answer decides.) A grant is an identity's if its identifier is the
-- subject or, up to case, the email.
pub authorize_write-MayWrite :
    (env : Platform) (users : List AdminUser) (surface : Surface) (header : Option Str)
    → (is_ok (authorize_write env users surface header) ≡ true
        → MayWrite env users surface header (SomeAdmin env users))
      × (MayWrite env users surface header (OnlyAdmin env users)
          → is_ok (authorize_write env users surface header) ≡ true)
authorize_write-MayWrite env users surface header =
    (go (presented header) refl, write_of_MayWrite env users surface header)
  where
    go :
        (o : Option Str)
        → presented header ≡ o
        → is_ok (authorize_write env users surface header) ≡ true
        → MayWrite env users surface header (SomeAdmin env users)
    go none p w =
        absurd (let e : false ≡ true = rw (write-permits env users surface header, p) at w in cc)
    go (some credential) p w =
        MayWrite-of_credential env users surface header credential p
          (rw (write-permits env users surface header, p) at w)
