-- ===== src/Gate/Bootstrap.antt =====
-- The requests of operators in sequence, and when the allowlist of the environment decides.
use postbud.Admins.History.{kept, change, adds, ends, changes}
use postbud.Admins.LastAdmin.{IsManaged, change_all-IsManaged}
use postbud.Admins.{AdminUser, AdminError, has_id, is_active, is_active_admin, is_role, matches}
use postbud.Admins
use postbud.Gate.Users.{UserRequest, user_add, user_role, user_end, found, added, perform, serve}
use postbud.Gate.{
  Oidc, Identity, Surface, Admin, presented, is_token, operator, role_of, by_issuer, authenticate,
  resolve, authorize_write,
}
use postbud.Prelude.Rows.{find?-none}
use postbud.Prelude.{
  ℕ, ◌≤◌, ◌≡◌, refl, Bool, true, false, List, [], ◌∷◌, Option, none, some, arith, any, find?,
  count_where, is_empty, Bool-cases, inl, inr, ◌&&◌, is_none,
}
use postbud.Result.{Result, ok, err}
use postbud.Store.Unordered.{fetch_any-none}
use postbud.Store.{Platform}
use postbud.Submit.{ApiError, unauthorized}
use postbud.Text.{Str, codes, trim}

-- A request that comes at a time, with the number that the database would draw.
pub record Arrival : Type 0 where
  pub now : ℕ
  pub id : ℕ
  pub header : Option Str
  pub request : UserRequest

-- A request that fails leaves the table as it was.
abbrev pub served : List AdminUser → Result (List AdminUser) ApiError → List AdminUser
served users (ok users') = users'
served users (err e) = users

abbrev pub serve_one : Platform → Surface → List AdminUser → Arrival → List AdminUser
serve_one env surface users a = served users (serve env surface a.now a.id users a.header a.request)

abbrev pub serve_all : Platform → Surface → List AdminUser → List Arrival → List AdminUser
serve_all env surface users [] = users
serve_all env surface users (a ∷ rest) = serve_all env surface (serve_one env surface users a) rest

-- Every number that the database would draw is one that no row has.
abbrev pub AllNew : Platform → Surface → List AdminUser → List Arrival → Type 0
AllNew env surface users [] = Unit
AllNew env surface users (a ∷ rest) =
    (any (has_id a.id) users ≡ false) × AllNew env surface (serve_one env surface users a) rest

found-IsManaged :
    (users : List AdminUser) (r : Result (List AdminUser × Bool) AdminError) (verb statement : Str)
    → IsManaged users
    → IsManaged (kept users r)
    → IsManaged (served users (found r verb statement))
found-IsManaged users (ok (users', true)) verb statement m k = k
found-IsManaged users (ok (users', false)) verb statement m k = m
found-IsManaged users (err e) verb statement m k = m

added-IsManaged :
    (users : List AdminUser) (r : Result (List AdminUser × AdminUser) AdminError) (identifier : Str)
    → IsManaged (kept users r)
    → IsManaged (served users (added identifier r))
added-IsManaged users (ok (users', row)) identifier k = k
added-IsManaged users (err e) identifier k = k

perform-IsManaged :
    (env : Platform) (now id : ℕ) (users : List AdminUser) (who : Admin) (request : UserRequest)
    → any (has_id id) users ≡ false
    → IsManaged users
    → IsManaged (served users (perform env now id users who request))
unfolding perform change
perform-IsManaged env now id users who (user_add identifier role note) f m =
    elim (Bool-cases (is_empty (trim identifier))) [
      | inl e ↦ rw e m
      | inr e ↦ elim (Bool-cases (is_role role)) [
        | inr r ↦ rw (e, r) m
        | inl r ↦
            rw (e, r)
              (added-IsManaged users
                (Admins.add env now id users (trim identifier) role note who.actor)
                (trim identifier)
                (change_all-IsManaged env (adds now id (trim identifier) role note who.actor ∷ [])
                  users (f, tt) m))
      ]
    ]
perform-IsManaged env now id users who (user_role target role) f m =
    elim (Bool-cases (is_role role)) [
      | inr r ↦ rw r m
      | inl r ↦ rw r (
          found-IsManaged users (Admins.set_role env now id users target role who.actor)
            (codes "demote") (codes "writing new grant") m
            (change_all-IsManaged env (changes now id target role who.actor ∷ []) users (f, tt) m))
    ]
perform-IsManaged env now id users who (user_end target) f m =
    found-IsManaged users (Admins.end now users target who.actor) (codes "remove")
      (codes "ending admin user") m
      (change_all-IsManaged env (ends now target who.actor ∷ []) users (tt, tt) m)

serve-IsManaged :
    (env : Platform) (surface : Surface) (users : List AdminUser) (a : Arrival)
    → any (has_id a.id) users ≡ false
    → IsManaged users
    → IsManaged (serve_one env surface users a)
unfolding serve
serve-IsManaged env surface users a f m = go (authorize_write env users surface a.header) refl
  where
    go :
        (r : Result Admin ApiError)
        → authorize_write env users surface a.header ≡ r
        → IsManaged (serve_one env surface users a)
    go (err e) w = rw (w, serve) m
    go (ok who) w = rw (w, serve) (perform-IsManaged env a.now a.id users who a.request f m)

serve_all-IsManaged :
    (env : Platform) (surface : Surface) (users : List AdminUser) (requests : List Arrival)
    → AllNew env surface users requests
    → IsManaged users
    → IsManaged (serve_all env surface users requests)
serve_all-IsManaged env surface users [] f m = m
serve_all-IsManaged env surface users (a ∷ rest) f m =
    serve_all-IsManaged env surface (serve_one env surface users a) rest f.1
      (serve-IsManaged env surface users a f.0 m)

any_active :
    (users : List AdminUser) → 1 ≤ count_where is_active_admin users → any is_active users ≡ true
any_active [] h = absurd (omega (arith, h))
any_active (u ∷ users) h = ground (arith, any_active users)

refused_without_grant :
    (env : Platform) (users : List AdminUser) (surface : Surface) (header : Option Str)
    (credential : Str) (oidc : Oidc) (identity : Identity)
    → IsManaged users
    → presented header ≡ some credential
    → is_token env surface credential ≡ false
    → surface.admin_oidc ≡ some oidc
    → oidc.verify credential ≡ some identity
    → find? (matches env identity.sub identity.email) users ≡ none
    → authorize_write env users surface header ≡ err unauthorized
unfolding authorize_write resolve authenticate by_issuer operator role_of Admins.resolve
refused_without_grant env users surface header credential oidc identity m p t o v f =
    let configured : (is_none surface.admin_token && is_none surface.admin_oidc) ≡ false =
      ground arith in
    rw (configured, p)
      (rw (t, o)
        (rw v (
          rw
            (
              fetch_any-none env Admins.number_of (matches env identity.sub identity.email) users
                  (find?-none (matches env identity.sub identity.email) users f),
              any_active users m.managed,
            )
            refl)))

-- Once the table has an active admin, the allowlist of the environment admits nobody, whatever
-- requests are served after that: an identity that no active grant names is refused, even one
-- that the allowlist names.
pub serve_all-closes_bootstrap :
    (env : Platform) (surface : Surface) (users : List AdminUser) (requests : List Arrival)
    (header : Option Str) (credential : Str) (oidc : Oidc) (identity : Identity)
    → AllNew env surface users requests
    → IsManaged users
    → presented header ≡ some credential
    → is_token env surface credential ≡ false
    → surface.admin_oidc ≡ some oidc
    → oidc.verify credential ≡ some identity
    → find? (matches env identity.sub identity.email) (serve_all env surface users requests) ≡ none
    → authorize_write env (serve_all env surface users requests) surface header ≡ err unauthorized
serve_all-closes_bootstrap env surface users requests header credential oidc identity f m p t o v
      g =
    refused_without_grant env (serve_all env surface users requests) surface header credential oidc
      identity (serve_all-IsManaged env surface users requests f m) p t o v g
