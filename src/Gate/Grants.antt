-- ===== src/Gate/Grants.antt =====
-- The grants of an identity, and which of them the query of its role takes.
use postbud.Admins.{AdminUser, is_active, is_admin_role, matches, number_of}
use postbud.Gate.{Identity}
use postbud.Prelude.Rows.{any_of_mem}
use postbud.Prelude.{
  ℕ, ◌⊎◌, ◌≡◌, refl, sym, ◌∙◌, true, false, ◌||◌, List, [], ◌∷◌, Option, none, some, arith, any,
  is_none, is_some_and, Memᴰ, Bool-cases, inl, inr,
}
use postbud.Store.Unordered.{fetch_any, fetch_any-none, any-of_fetch_any, fetch_any-Memᴰ}
use postbud.Store.{Platform}
use postbud.Text.Case.{eq_of_str_eq, str_eq_refl}
use postbud.Text.{Str, codes, str_eq}

-- A grant that is in force for an identity: its identifier is the subject, or the email up to case.
pub record GrantsTo (env : Platform) (identity : Identity) (u : AdminUser) : Type 0 where
  pub current : u.ended_at ≡ none
  pub named :
      (u.identifier ≡ identity.sub)
      ⊎ ((e : Str) × (identity.email ≡ some e) × (env.sql_lower u.identifier ≡ env.sql_lower e))

-- Some grant in force for the identity is one of an admin.
abbrev pub SomeAdmin : Platform → List AdminUser → Identity → Type 0
SomeAdmin env users identity =
    (u : AdminUser) × Memᴰ u users × GrantsTo env identity u × (u.role ≡ codes "admin")

-- There is a grant in force for the identity, and every one of them is one of an admin.
abbrev pub OnlyAdmin : Platform → List AdminUser → Identity → Type 0
OnlyAdmin env users identity =
    ((u : AdminUser) × Memᴰ u users × GrantsTo env identity u)
    × ((u : AdminUser) → Memᴰ u users → GrantsTo env identity u → u.role ≡ codes "admin")

named-of_email :
    (env : Platform) (identifier : Str) (email : Option Str)
    → is_some_and (λ e. str_eq (env.sql_lower identifier) (env.sql_lower e)) email ≡ true
    → (e : Str) × (email ≡ some e) × (env.sql_lower identifier ≡ env.sql_lower e)
named-of_email env identifier none h = absurd (ground arith)
named-of_email env identifier (some e) h =
    (e, refl, eq_of_str_eq (env.sql_lower identifier) (env.sql_lower e) h)

GrantsTo-of_matches :
    (env : Platform) (identity : Identity) (u : AdminUser)
    → matches env identity.sub identity.email u ≡ true
    → GrantsTo env identity u
GrantsTo-of_matches env identity u h = record {
  current = none_of u.ended_at (ground arith);
  named = elim (Bool-cases (str_eq u.identifier identity.sub)) [
    | inl e ↦ inl (eq_of_str_eq u.identifier identity.sub e)
    | inr e ↦ inr (named-of_email env u.identifier identity.email (ground arith))
  ];
}
  where
    none_of : (o : Option ℕ) → is_none o ≡ true → o ≡ none
    none_of none t = refl
    none_of (some at) t = absurd (ground arith)

matches-of_GrantsTo :
    (env : Platform) (identity : Identity) (u : AdminUser)
    → GrantsTo env identity u
    → matches env identity.sub identity.email u ≡ true
matches-of_GrantsTo env identity u g = rw g.current (go g.named)
  where
    go :
        (u.identifier ≡ identity.sub)
          ⊎ ((e : Str) × (identity.email ≡ some e) × (env.sql_lower u.identifier ≡ env.sql_lower e))
        → (str_eq u.identifier identity.sub
            || is_some_and
                (λ e. str_eq (env.sql_lower u.identifier) (env.sql_lower e))
                identity.email)
          ≡ true
    go (inl e) = rw (e, str_eq_refl identity.sub) refl
    go (inr (e, m, l)) = rw (m, l, str_eq_refl (env.sql_lower e)) (ground arith)

-- What the query answers for an identity.
abbrev pub picked : Platform → List AdminUser → Identity → Option AdminUser
picked env users identity = fetch_any env number_of (matches env identity.sub identity.email) users

pub SomeAdmin-of_picked :
    (env : Platform) (users : List AdminUser) (identity : Identity) (u : AdminUser)
    → picked env users identity ≡ some u
    → is_admin_role u.role ≡ true
    → SomeAdmin env users identity
SomeAdmin-of_picked env users identity u f a =
    let r = fetch_any-Memᴰ env number_of (matches env identity.sub identity.email) users u f in
    (u, r.0, GrantsTo-of_matches env identity u r.1, eq_of_str_eq u.role (codes "admin") a)

-- Where every grant is one of an admin and there is one, the query finds one of those.
pub picked-of_OnlyAdmin :
    (env : Platform) (users : List AdminUser) (identity : Identity)
    → OnlyAdmin env users identity
    → (u : AdminUser) × (picked env users identity ≡ some u) × (u.role ≡ codes "admin")
picked-of_OnlyAdmin env users identity ((u, m, g), all) = go (picked env users identity) refl
  where
    go :
        (r : Option AdminUser)
        → picked env users identity ≡ r
        → (v : AdminUser) × (picked env users identity ≡ some v) × (v.role ≡ codes "admin")
    go none f = absurd (
        let e : true ≡ false =
          sym (
            any_of_mem (matches env identity.sub identity.email) users m
              (matches-of_GrantsTo env identity u g))
          ∙ any-of_fetch_any env number_of (matches env identity.sub identity.email) users f in
        cc)
    go (some v) f =
        let r = fetch_any-Memᴰ env number_of (matches env identity.sub identity.email) users v f in
        (v, f, all v r.0 (GrantsTo-of_matches env identity v r.1))

nobody :
    (env : Platform) (sub : Str) (email : Option Str) (users : List AdminUser)
    → any is_active users ≡ false
    → any (matches env sub email) users ≡ false
nobody env sub email [] h = refl
nobody env sub email (u ∷ users) h = ground (arith, nobody env sub email users)

pub picked-none :
    (env : Platform) (users : List AdminUser) (identity : Identity)
    → any is_active users ≡ false
    → picked env users identity ≡ none
picked-none env users identity h =
    fetch_any-none env number_of (matches env identity.sub identity.email) users
      (nobody env identity.sub identity.email users h)
