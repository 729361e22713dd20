-- ===== src/System/Exclusive.antt =====
-- Two claims within the lease share no message.
use postbud.Prelude.{
  ℕ, ◌+◌, ◌≤◌, ◌≡◌, true, false, List, [], ◌∷◌, map, arith, All, select, update_where, Bool-cases,
  inl, inr, subst, ◌==◌, eq_of_==,
}
use postbud.Queue.Sound.{any-of_chosen}
use postbud.Queue.{
  Claimed, Attachment, is_in, chosen, claim, mark_claimed, to_claimed, claim_timeout_minutes,
}
use postbud.Store.{Platform, Db, Message, minutes}
use postbud.System.Lease.{IsLeased, Meanwhile, apply_all, not_due, apply_all-IsLeased}
use postbud.System.{Op}
use postbud.Text.{Str}

abbrev pub ids_of : List Claimed → List ℕ
ids_of = map (λ c. c.id)

-- The ids that a claim hands out are among those that its inner query chose.
is_in-ids_of :
    (ids : List ℕ) (by_message : List (ℕ × List Attachment)) (ms : List Message) (i : ℕ)
    → is_in (ids_of (map (to_claimed by_message) (select (λ m. is_in ids m.id) ms))) i ≡ true
    → is_in ids i ≡ true
is_in-ids_of ids by_message [] i h = cc
is_in-ids_of ids by_message (m ∷ ms) i h = elim (Bool-cases (is_in ids m.id)) [
  | inr f ↦ is_in-ids_of ids by_message ms i (rw f at h)
  | inl t ↦ elim (Bool-cases (m.id == i)) [
    | inl e ↦ subst (λ k. is_in ids k ≡ true) (eq_of_== m.id i e) t
    | inr n ↦ is_in-ids_of ids by_message ms i (rw n at (rw t at h))
  ]
]

marked-IsLeased :
    (now : ℕ) (worker : Str) (given ids : List ℕ)
    → ((i : ℕ) → is_in given i ≡ true → is_in ids i ≡ true)
    → (ms : List Message)
    → All (IsLeased now given) (update_where (λ m. is_in ids m.id) (mark_claimed now worker) ms)
marked-IsLeased now worker given ids sub [] = tt
marked-IsLeased now worker given ids sub (m ∷ ms) = (
  elim (Bool-cases (is_in ids m.id)) [
    | inl t ↦ rw t (λ h. omega arith)
    | inr f ↦ rw f (λ h. let t = sub m.id h in cc)
  ],
  marked-IsLeased now worker given ids sub ms,
)

-- Right after a claim the lease holds for what it handed out.
claim-IsLeased :
    (now : ℕ) (locked : List ℕ) (db : Db) (worker : Str) (batch : ℕ)
    → let (db', claimed) = claim now locked db worker batch in
      All (IsLeased now (ids_of claimed)) db'.messages
unfolding claim
claim-IsLeased now locked db worker batch =
    let ids = chosen now locked batch db.messages in
    marked-IsLeased now worker _ ids (is_in-ids_of ids _ _) db.messages

-- What a later claim hands out before the lease is over is not among the leased ids.
claimed_others :
    (from : ℕ) (held : List ℕ) (now : ℕ) (locked : List ℕ) (batch : ℕ) (ms : List Message)
    (by_message : List (ℕ × List Attachment))
    → now ≤ from + minutes claim_timeout_minutes
    → All (IsLeased from held) ms
    → (rows : List Message)
    → All
        (λ c. is_in held c.id ≡ false)
        (map (to_claimed by_message) (select (λ m. is_in (chosen now locked batch ms) m.id) rows))
claimed_others from held now locked batch ms by_message k l [] = tt
claimed_others from held now locked batch ms by_message k l (m ∷ rows) =
    elim (Bool-cases (is_in (chosen now locked batch ms) m.id)) [
      | inr f ↦ rw f (claimed_others from held now locked batch ms by_message k l rows)
      | inl t ↦ rw t (
        not_due from held now m.id locked ms k l (any-of_chosen now locked batch ms m.id t),
        claimed_others from held now locked batch ms by_message k l rows,
      )
    ]

-- A message that one worker has claimed is not handed to another for the ten minutes that follow,
-- whatever operations come in between, as long as they claim no earlier, record no outcome of a
-- message of the batch and draw none of its ids for a new message.
pub claim_exclusive :
    (env : Platform) (now later : ℕ) (locked locked' : List ℕ) (db : Db) (worker worker' : Str)
    (batch batch' : ℕ) (between : List Op)
    → later ≤ now + minutes claim_timeout_minutes
    → All (Meanwhile now (ids_of (claim now locked db worker batch).1)) between
    → let (db', claimed) = claim now locked db worker batch in
      All
        (λ c. is_in (ids_of claimed) c.id ≡ false)
        (claim later locked' (apply_all env between db') worker' batch').1
unfolding claim
claim_exclusive env now later locked locked' db worker worker' batch batch' between k w =
    let (db', claimed) = claim now locked db worker batch in
    let after = apply_all env between db' in
    claimed_others now (ids_of claimed) later locked' batch' after.messages _ k
      (apply_all-IsLeased now (ids_of claimed) env between db' w
        (claim-IsLeased now locked db worker batch))
      _
