-- ===== src/Admins/History.antt =====
-- The operations on the table as one step, and that they lose no grant.
use postbud.Admins.{
  AdminUser, AdminError, is_active_with, clashes, new_user, add, end_row, end, regrant,
  is_last_admin, is_role, set_role,
}
use postbud.Prelude.{
  ℕ, ◌≡◌, refl, sym, ap, ◌∙◌, not, ◌||◌, List, [], ◌∷◌, ◌++◌, append-nil, append_assoc, map, Option,
  none, some, arith, any, find?, Bool-cases, inl, inr,
}
use postbud.Result.{Result, ok, err}
use postbud.Store.{Platform}
use postbud.Text.{Str, str_eq}

pub data UserOp : Type 0 where
  adds : ℕ → ℕ → Str → Str → Option Str → Str → UserOp
  ends : ℕ → ℕ → Str → UserOp
  changes : ℕ → ℕ → ℕ → Str → Str → UserOp

-- An operation that fails leaves the table as it was.
abbrev pub kept :
    {A : Type 0} → List AdminUser → Result (List AdminUser × A) AdminError → List AdminUser
kept users (ok (users', answer)) = users'
kept users (err e) = users

unfoldable pub change : Platform → UserOp → List AdminUser → List AdminUser
change env (adds now id identifier role note by) users =
    kept users (add env now id users identifier role note by)
change env (ends now id by) users = kept users (end now users id by)
change env (changes now new_id id role actor) users =
    kept users (set_role env now new_id users id role actor)

abbrev pub change_all : Platform → List UserOp → List AdminUser → List AdminUser
change_all env [] users = users
change_all env (op ∷ ops) users = change_all env ops (change env op users)

-- What a row grants, without whether and how it ended.
pub record Grant : Type 0 where
  pub id : ℕ
  pub identifier : Str
  pub role : Str
  pub note : Option Str
  pub created_at : ℕ
  pub created_by : Str

abbrev pub grant_of : AdminUser → Grant
grant_of u = record {
  id = u.id;
  identifier = u.identifier;
  role = u.role;
  note = u.note;
  created_at = u.created_at;
  created_by = u.created_by;
}

map-append : (a b : List AdminUser) → map grant_of (a ++ b) ≡ map grant_of a ++ map grant_of b
map-append [] b = refl
map-append (u ∷ a) b = ap (◌∷◌ (grant_of u)) (map-append a b)

map-end_row :
    (now id : ℕ) (by : Str) (users : List AdminUser)
    → map grant_of (end_row now id by users) ≡ map grant_of users
map-end_row now id by [] = refl
map-end_row now id by (u ∷ users) = ground (arith, map-end_row now id by users)

-- The new table has the old grants, and behind them perhaps more.
abbrev pub Extends : List AdminUser → List AdminUser → Type 0
Extends users users' = (more : List Grant) × (map grant_of users' ≡ map grant_of users ++ more)

Extends-refl : (users : List AdminUser) → Extends users users
Extends-refl users = ([], sym (append-nil (map grant_of users)))

Extends-add :
    (env : Platform) (now id : ℕ) (users : List AdminUser) (identifier role : Str)
    (note : Option Str) (by : Str)
    → Extends users (kept users (add env now id users identifier role note by))
unfolding add
Extends-add env now id users identifier role note by = elim (Bool-cases (is_role role)) [
  | inr e ↦ rw e (Extends-refl users)
  | inl e ↦ elim (Bool-cases (any (clashes env identifier) users)) [
    | inl c ↦ rw (e, c) (Extends-refl users)
    | inr c ↦
        rw (e, c)
          (
            grant_of (new_user id now identifier role note by) ∷ [],
            map-append users (new_user id now identifier role note by ∷ []),
          )
  ]
]

Extends-end :
    (now : ℕ) (users : List AdminUser) (id : ℕ) (by : Str)
    → Extends users (kept users (end now users id by))
unfolding end
Extends-end now users id by = go (find? (is_active_with id) users) refl
  where
    go :
        (o : Option AdminUser)
        → find? (is_active_with id) users ≡ o
        → Extends users (kept users (end now users id by))
    go none f = rw (f, end) (Extends-refl users)
    go (some target) f = elim (Bool-cases (is_last_admin users target.role)) [
      | inl l ↦ rw (f, end) (rw l (Extends-refl users))
      | inr l ↦
          rw (f, end)
            (rw l ([], map-end_row now id by users ∙ sym (append-nil (map grant_of users))))
    ]

Extends-regrant :
    (env : Platform) (now new_id id : ℕ) (users : List AdminUser) (target : AdminUser)
    (role actor : Str)
    → Extends users
        (kept users (regrant env now new_id (end_row now id actor users) target role actor))
Extends-regrant env now new_id id users target role actor =
    elim (Bool-cases
      (not (is_role role) || any (clashes env target.identifier) (end_row now id actor users))) [
        | inl c ↦ rw c (Extends-refl users)
        | inr c ↦
            let row = new_user new_id now target.identifier role target.note actor in
            rw c (
              grant_of row ∷ [],
              map-append (end_row now id actor users) (row ∷ [])
                  ∙ ap (λ gs. gs ++ grant_of row ∷ []) (map-end_row now id actor users),
            )
      ]

Extends-set_role :
    (env : Platform) (now new_id : ℕ) (users : List AdminUser) (id : ℕ) (role actor : Str)
    → Extends users (kept users (set_role env now new_id users id role actor))
unfolding set_role
Extends-set_role env now new_id users id role actor = go (find? (is_active_with id) users) refl
  where
    go :
        (o : Option AdminUser)
        → find? (is_active_with id) users ≡ o
        → Extends users (kept users (set_role env now new_id users id role actor))
    go none f = rw (f, set_role) (Extends-refl users)
    go (some target) f = elim (Bool-cases (str_eq target.role role)) [
      | inl s ↦ rw (f, set_role) (rw s (Extends-refl users))
      | inr s ↦ elim (Bool-cases (is_last_admin users target.role)) [
        | inl l ↦ rw (f, set_role) (rw (s, l) (Extends-refl users))
        | inr l ↦
            rw (f, set_role) (rw (s, l) (Extends-regrant env now new_id id users target role actor))
      ]
    ]

Extends-trans : (a b c : List AdminUser) → Extends a b → Extends b c → Extends a c
Extends-trans a b c (m, e) (n, f) =
    (m ++ n, f ∙ ap (λ gs. gs ++ n) e ∙ append_assoc (map grant_of a) m n)

Extends-change :
    (env : Platform) (op : UserOp) (users : List AdminUser) → Extends users (change env op users)
unfolding change
Extends-change env (adds now id identifier role note by) users =
    Extends-add env now id users identifier role note by
Extends-change env (ends now id by) users = Extends-end now users id by
Extends-change env (changes now new_id id role actor) users =
    Extends-set_role env now new_id users id role actor

-- No operation loses or rewrites a grant: the grants of the table before, with who gave them and
-- when, are the first ones of the table after, in their order.
pub change_all-Extends :
    (env : Platform) (ops : List UserOp) (users : List AdminUser)
    → Extends users (change_all env ops users)
change_all-Extends env [] users = Extends-refl users
change_all-Extends env (op ∷ ops) users =
    Extends-trans users (change env op users) (change_all env ops (change env op users))
      (Extends-change env op users) (change_all-Extends env ops (change env op users))
