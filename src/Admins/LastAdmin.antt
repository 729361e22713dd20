-- ===== src/Admins/LastAdmin.antt =====
-- The rule of the last admin: once there is an admin there always is one.
use postbud.Admins.History.{UserOp, adds, ends, changes, kept, change, change_all}
use postbud.Admins.{
  AdminUser, has_id, is_active_admin, is_active_with, is_admin_role, is_role, clashes, new_user,
  add, end_row, end, regrant, is_last_admin, set_role,
}
use postbud.Prelude.Rows.{count_where-concat, count_where-none}
use postbud.Prelude.{
  ℕ, suc, ◌+◌, ◌≤◌, ◌≡◌, refl, ap, ◌∙◌, false, not, ◌&&◌, ◌||◌, List, [], ◌∷◌, ◌++◌, Option, none,
  some, arith, any, find?, count_where, Bool-cases, inl, inr,
}
use postbud.Store.{Platform}
use postbud.Text.{Str, str_eq}

-- The primary key, and an active admin.
pub record IsManaged (users : List AdminUser) : Type 0 where
  pub ids : (id : ℕ) → count_where (has_id id) users ≤ 1
  pub managed : 1 ≤ count_where is_active_admin users

-- The number that the database draws is one that no row has.
abbrev pub Fresh : UserOp → List AdminUser → Type 0
Fresh (adds now id identifier role _ by) users = any (has_id id) users ≡ false
Fresh (ends now id by) users = Unit
Fresh (changes now new_id id role actor) users = any (has_id new_id) users ≡ false

abbrev pub AllFresh : Platform → List UserOp → List AdminUser → Type 0
AllFresh env [] users = Unit
AllFresh env (op ∷ ops) users = Fresh op users × AllFresh env ops (change env op users)

any-end_row :
    (now id : ℕ) (by : Str) (i : ℕ) (users : List AdminUser)
    → any (has_id i) (end_row now id by users) ≡ any (has_id i) users
any-end_row now id by i [] = refl
any-end_row now id by i (u ∷ users) = ground (arith, any-end_row now id by i users)

ids-end_row :
    (now id : ℕ) (by : Str) (i : ℕ) (users : List AdminUser)
    → count_where (has_id i) (end_row now id by users) ≡ count_where (has_id i) users
ids-end_row now id by i [] = refl
ids-end_row now id by i (u ∷ users) = ground (arith, ids-end_row now id by i users)

-- Ending a row costs at most the admins that have its id.
admins-end_row :
    (now id : ℕ) (by : Str) (users : List AdminUser)
    → count_where is_active_admin users
      ≤ count_where is_active_admin (end_row now id by users)
        + count_where (λ u. has_id id u && is_active_admin u) users
admins-end_row now id by [] = omega arith
admins-end_row now id by (u ∷ users) = ground (arith, admins-end_row now id by users)

admins_le_ids :
    (id : ℕ) (users : List AdminUser)
    → count_where (λ u. has_id id u && is_active_admin u) users ≤ count_where (has_id id) users
admins_le_ids id [] = omega arith
admins_le_ids id (u ∷ users) = ground (arith, admins_le_ids id users)

-- If the active row of the id is no admin, one of the rows with that id is none.
admins_lt_ids :
    (id : ℕ) (users : List AdminUser) (target : AdminUser)
    → find? (is_active_with id) users ≡ some target
    → is_admin_role target.role ≡ false
    → suc (count_where (λ u. has_id id u && is_active_admin u) users)
      ≤ count_where (has_id id) users
admins_lt_ids id [] target f r = cc
admins_lt_ids id (u ∷ users) target f r = elim (Bool-cases (is_active_with id u)) [
  | inl e ↦
      let same : u ≡ target = ground arith in
      let viewer : is_admin_role u.role ≡ false = ap (λ x. is_admin_role x.role) same ∙ r in
      ground (arith, admins_le_ids id users)
  | inr e ↦ ground (arith, admins_lt_ids id users target (ground arith) r)
]

ended-managed :
    (now id : ℕ) (by : Str) (users : List AdminUser) (target : AdminUser)
    → IsManaged users
    → find? (is_active_with id) users ≡ some target
    → is_last_admin users target.role ≡ false
    → 1 ≤ count_where is_active_admin (end_row now id by users)
ended-managed now id by users target m f l = elim (Bool-cases (is_admin_role target.role)) [
  | inl a ↦ ground (arith, m.ids id, admins_le_ids id users, admins-end_row now id by users)
  | inr a ↦ omega (
    arith,
    m.managed,
    m.ids id,
    admins_lt_ids id users target f a,
    admins-end_row now id by users,
  )
]

ended-IsManaged :
    (now id : ℕ) (by : Str) (users : List AdminUser) (target : AdminUser)
    → IsManaged users
    → find? (is_active_with id) users ≡ some target
    → is_last_admin users target.role ≡ false
    → IsManaged (end_row now id by users)
ended-IsManaged now id by users target m f l = record {
  ids = λ i. rw (ids-end_row now id by i users) (m.ids i);
  managed = ended-managed now id by users target m f l;
}

concat-IsManaged :
    (users : List AdminUser) (u : AdminUser)
    → any (has_id u.id) users ≡ false
    → IsManaged users
    → IsManaged (users ++ u ∷ [])
concat-IsManaged users u f m = record {
  ids = λ i. rw (count_where-concat (has_id i) users u) (elim (Bool-cases (has_id i u)) [
    | inl e ↦
        let same : any (has_id i) users ≡ false = ground (arith, f) in
        rw e (omega (arith, count_where-none (has_id i) users same))
    | inr e ↦ rw e (omega (arith, m.ids i))
  ]);
  managed = rw (count_where-concat is_active_admin users u) (omega (arith, m.managed));
}

add-IsManaged :
    (env : Platform) (now id : ℕ) (users : List AdminUser) (identifier role : Str)
    (note : Option Str) (by : Str)
    → any (has_id id) users ≡ false
    → IsManaged users
    → IsManaged (kept users (add env now id users identifier role note by))
unfolding add
add-IsManaged env now id users identifier role note by f m = elim (Bool-cases (is_role role)) [
  | inr e ↦ rw e m
  | inl e ↦ elim (Bool-cases (any (clashes env identifier) users)) [
    | inl c ↦ rw (e, c) m
    | inr c ↦ rw (e, c) (concat-IsManaged users (new_user id now identifier role note by) f m)
  ]
]

end-IsManaged :
    (now : ℕ) (users : List AdminUser) (id : ℕ) (by : Str)
    → IsManaged users
    → IsManaged (kept users (end now users id by))
unfolding end
end-IsManaged now users id by m = go (find? (is_active_with id) users) refl
  where
    go :
        (o : Option AdminUser)
        → find? (is_active_with id) users ≡ o
        → IsManaged (kept users (end now users id by))
    go none f = rw (f, end) m
    go (some target) f = elim (Bool-cases (is_last_admin users target.role)) [
      | inl l ↦ rw (f, end) (rw l m)
      | inr l ↦ rw (f, end) (rw l (ended-IsManaged now id by users target m f l))
    ]

set_role-IsManaged :
    (env : Platform) (now new_id : ℕ) (users : List AdminUser) (id : ℕ) (role actor : Str)
    → any (has_id new_id) users ≡ false
    → IsManaged users
    → IsManaged (kept users (set_role env now new_id users id role actor))
unfolding set_role
set_role-IsManaged env now new_id users id role actor n m =
    go (find? (is_active_with id) users) refl
  where
    regranted :
        (target : AdminUser)
        → IsManaged (end_row now id actor users)
        → IsManaged
            (kept users (regrant env now new_id (end_row now id actor users) target role actor))
    regranted target e =
        elim (Bool-cases (
          not (is_role role) || any (clashes env target.identifier) (end_row now id actor users))) [
            | inl c ↦ rw c m
            | inr c ↦ rw c (
                concat-IsManaged (end_row now id actor users)
                  (new_user new_id now target.identifier role target.note actor)
                  (any-end_row now id actor new_id users ∙ n) e)
          ]

    go :
        (o : Option AdminUser)
        → find? (is_active_with id) users ≡ o
        → IsManaged (kept users (set_role env now new_id users id role actor))
    go none f = rw (f, set_role) m
    go (some target) f = elim (Bool-cases (str_eq target.role role)) [
      | inl s ↦ rw (f, set_role) (rw s m)
      | inr s ↦ elim (Bool-cases (is_last_admin users target.role)) [
        | inl l ↦ rw (f, set_role) (rw (s, l) m)
        | inr l ↦
            rw (f, set_role)
              (rw (s, l) (regranted target (ended-IsManaged now id actor users target m f l)))
      ]
    ]

-- Once the table has an active admin it always has one, whatever grants are added, ended and
-- changed: no operation removes or demotes the last.
pub change_all-IsManaged :
    (env : Platform) (ops : List UserOp) (users : List AdminUser)
    → AllFresh env ops users
    → IsManaged users
    → IsManaged (change_all env ops users)
unfolding change
change_all-IsManaged env [] users f m = m
change_all-IsManaged env (adds now id identifier role note by ∷ ops) users f m =
    change_all-IsManaged env ops (kept users (add env now id users identifier role note by)) f.1
      (add-IsManaged env now id users identifier role note by f.0 m)
change_all-IsManaged env (ends now id by ∷ ops) users f m =
    change_all-IsManaged env ops (kept users (end now users id by)) f.1
      (end-IsManaged now users id by m)
change_all-IsManaged env (changes now new_id id role actor ∷ ops) users f m =
    change_all-IsManaged env ops (kept users (set_role env now new_id users id role actor)) f.1
      (set_role-IsManaged env now new_id users id role actor f.0 m)
