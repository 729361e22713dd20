-- ===== src/Admins.antt =====
-- crates/postbud-db/src/admin_user.rs: who may operate the admin surface. Rows end and are never
-- deleted. Each function is one transaction; `id` is the number that the database draws.
pub mod History
pub mod LastAdmin
use mathlib.Core.Option
use postbud.Prelude.{
  ℕ, Bool, true, false, not, ◌&&◌, ◌||◌, List, [], ◌∷◌, ◌++◌, Option, none, some, ◌==◌, ltb, leb,
  if◌then◌else◌, any, is_none, is_some, is_some_and, select, find?, update_where, count_where, take,
  sort_by,
}
use postbud.Result.{Result, ok, err}
use postbud.Store.Unordered.{fetch_any}
use postbud.Store.{Platform}
use postbud.Text.{Str, codes, str_eq}

pub record AdminUser : Type 0 where
  pub id : ℕ
  pub identifier : Str
  pub role : Str
  pub note : Option Str
  pub created_at : ℕ
  pub created_by : Str
  pub ended_at : Option ℕ
  pub ended_by : Option Str

-- A grant that is there already, the rule of the last admin, and what a constraint refuses.
pub data AdminError : Type 0 where
  already_granted last_admin refused : AdminError

abbrev pub is_active : AdminUser → Bool
is_active u = is_none u.ended_at

abbrev pub is_admin_role : Str → Bool
is_admin_role role = str_eq role (codes "admin")

abbrev pub is_active_admin : AdminUser → Bool
is_active_admin u = is_active u && is_admin_role u.role

abbrev pub has_id : ℕ → AdminUser → Bool
has_id id u = u.id == id

-- `check (role in ('admin', 'viewer'))`
abbrev pub is_role : Str → Bool
is_role role = is_admin_role role || str_eq role (codes "viewer")

-- The unique index on the active grants of an identifier.
abbrev pub clashes : Platform → Str → AdminUser → Bool
clashes env identifier u =
    is_active u && str_eq (env.sql_lower u.identifier) (env.sql_lower identifier)

abbrev pub new_user : ℕ → ℕ → Str → Str → Option Str → Str → AdminUser
new_user id now identifier role note created_by = record {
  id = id;
  identifier = identifier;
  role = role;
  note = note;
  created_at = now;
  created_by = created_by;
  ended_at = none;
  ended_by = none;
}

unfoldable pub add :
    Platform
    → ℕ
    → ℕ
    → List AdminUser
    → Str
    → Str
    → Option Str
    → Str
    → Result (List AdminUser × AdminUser) AdminError
add env now id users identifier role note created_by =
    let row = new_user id now identifier role note created_by in
    if not (is_role role)
    then err refused
    else if any (clashes env identifier) users
    then err already_granted
    else ok (users ++ row ∷ [], row)

abbrev pub ended : ℕ → Str → AdminUser → AdminUser
ended now by u = record u { ended_at = some now; ended_by = some by }

abbrev pub end_row : ℕ → ℕ → Str → List AdminUser → List AdminUser
end_row now id by users = update_where (has_id id) (ended now by) users

abbrev pub is_active_with : ℕ → AdminUser → Bool
is_active_with id u = has_id id u && is_active u

-- The count of the locked rows, and the rule.
abbrev pub is_last_admin : List AdminUser → Str → Bool
is_last_admin users role = is_admin_role role && leb (count_where is_active_admin users) 1

unfoldable pub end : ℕ → List AdminUser → ℕ → Str → Result (List AdminUser × Bool) AdminError
end now users id ended_by = elim (find? (is_active_with id) users) [
  | none ↦ ok (users, false)
  | some target ↦
      if is_last_admin users target.role
      then err last_admin
      else ok (end_row now id ended_by users, true)
]

-- The insertion behind the end of the old grant, which a constraint may refuse.
abbrev pub regrant :
    Platform
    → ℕ
    → ℕ
    → List AdminUser
    → AdminUser
    → Str
    → Str
    → Result (List AdminUser × Bool) AdminError
regrant env now new_id users target role actor =
    if not (is_role role) || any (clashes env target.identifier) users
    then err refused
    else ok (users ++ new_user new_id now target.identifier role target.note actor ∷ [], true)

unfoldable pub set_role :
    Platform → ℕ → ℕ → List AdminUser → ℕ → Str → Str → Result (List AdminUser × Bool) AdminError
set_role env now new_id users id role actor = elim (find? (is_active_with id) users) [
  | none ↦ ok (users, false)
  | some target ↦
      if str_eq target.role role
      then ok (users, true)
      else if is_last_admin users target.role
      then err last_admin
      else regrant env now new_id (end_row now id actor users) target role actor
]

-- `identifier = $1 or ($2 is not null and lower(identifier) = lower($2))`
abbrev pub matches : Platform → Str → Option Str → AdminUser → Bool
matches env sub email u =
    is_active u
    && (str_eq u.identifier sub
        || is_some_and (λ e. str_eq (env.sql_lower u.identifier) (env.sql_lower e)) email)

abbrev pub number_of : AdminUser → ℕ
number_of u = u.id

abbrev pub role_of : AdminUser → Str
role_of u = u.role

-- `limit 1` without an order: any of the grants that match.
unfoldable pub resolve : Platform → List AdminUser → Str → Option Str → Option Str × Bool
resolve env users sub email = (
  Option.map role_of (fetch_any env number_of (matches env sub email) users),
  any is_active users,
)

-- Active grants first, then by identifier and the newest first; `collates` is the database's order
-- on texts.
abbrev pub listed_before : Platform → (Str → Str → Bool) → AdminUser → AdminUser → Bool
listed_before env collates a b =
    if is_active a && not (is_active b)
    then true
    else if is_active b && not (is_active a)
    then false
    else if str_eq (env.sql_lower a.identifier) (env.sql_lower b.identifier)
    then leb b.id a.id
    else collates (env.sql_lower a.identifier) (env.sql_lower b.identifier)

unfoldable pub list : Platform → (Str → Str → Bool) → List AdminUser → Bool → List AdminUser
list env collates users include_ended =
    take 500
      (sort_by (listed_before env collates) (select (λ u. include_ended || is_active u) users))
