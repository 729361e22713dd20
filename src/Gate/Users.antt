-- ===== src/Gate/Users.antt =====
-- crates/postbud-api/src/admin.rs: the requests that change the operators, `user_add`, `user_role` and
-- `user_end`. A request gets the time and the number that the database draws.
use postbud.Admins.{AdminUser, AdminError, already_granted, last_admin, refused, is_role}
use postbud.Admins
use postbud.Gate.{Surface, Admin, authorize_write}
use postbud.Prelude.{ℕ, Bool, true, false, List, [], ◌++◌, Option, if◌then◌else◌, is_empty}
use postbud.Result.{Result, ok, err, ◌>>=◌}
use postbud.Store.{Platform}
use postbud.Submit.{ApiError, not_found, bad_request}
use postbud.Text.{Str, codes, trim}

pub data UserRequest : Type 0 where
  user_add : Str → Str → Option Str → UserRequest
  user_role : ℕ → Str → UserRequest
  user_end : ℕ → UserRequest

abbrev pub unknown_role : Str → Str
unknown_role role = codes "unknown role '" ++ (role ++ codes "' (admin or viewer)")

-- What an error says, with the statement that a constraint refused.
abbrev pub error_text : Str → Str → Str → AdminError → Str
error_text identifier verb statement already_granted =
    codes "'" ++ (identifier ++ codes "' already has an active grant")
error_text identifier verb statement last_admin =
    codes "cannot " ++ (verb ++ codes " the last admin — grant someone else the admin role first")
error_text identifier verb statement refused = statement

-- A change answers whether the id has an active grant.
abbrev pub found :
    Result (List AdminUser × Bool) AdminError → Str → Str → Result (List AdminUser) ApiError
found (ok (users, true)) verb statement = ok users
found (ok (users, false)) verb statement = err not_found
found (err e) verb statement = err (bad_request (error_text [] verb statement e))

abbrev pub added :
    Str → Result (List AdminUser × AdminUser) AdminError → Result (List AdminUser) ApiError
added identifier (ok (users, row)) = ok users
added identifier (err e) =
    err (bad_request (error_text identifier [] (codes "adding admin user") e))

unfoldable pub perform :
    Platform → ℕ → ℕ → List AdminUser → Admin → UserRequest → Result (List AdminUser) ApiError
perform env now id users operator (user_add identifier role note) =
    if is_empty (trim identifier)
    then err (bad_request (codes "identifier is required"))
    else if is_role role
    then added (trim identifier)
        (Admins.add env now id users (trim identifier) role note operator.actor)
    else err (bad_request (unknown_role role))
perform env now id users operator (user_role target role) =
    if is_role role
    then found (Admins.set_role env now id users target role operator.actor) (codes "demote")
        (codes "writing new grant")
    else err (bad_request (unknown_role role))
perform env now id users operator (user_end target) =
    found (Admins.end now users target operator.actor) (codes "remove") (codes "ending admin user")

-- A request with its header: the table afterwards, or the error.
unfoldable pub serve :
    Platform
    → Surface
    → ℕ
    → ℕ
    → List AdminUser
    → Option Str
    → UserRequest
    → Result (List AdminUser) ApiError
serve env surface now id users header request =
    authorize_write env users surface header >>= λ operator.
    perform env now id users operator request
