-- ===== src/Queue/Sound.antt =====
-- The well-formedness of the queue's table, and that every operation of the queue keeps it.
use mathlib.Core.List.{Memᴰ}
use postbud.Prelude.Rows.{
  count_where-update_where, any-select, any-take, any-sort_by, any-map, unique_row,
  All-update_where,
}
use postbud.Prelude.{
  ℕ, ◌≤◌, ◌≡◌, refl, sym, ◌∙◌, Bool, true, false, not, ◌&&◌, List, none, arith, ◌==◌, leb, any, All,
  is_some, is_none, ==_refl, select, take, update_where, count_where, sort_by,
}
use postbud.Queue.{is_queued, has_key, has_id, id_of, is_due, is_in, chosen}
use postbud.Store.{Message}
use postbud.Text.{Str}

-- A row is open exactly while it has no completion time; a claim has a worker, and only an open
-- row is claimed; a purged row is finished and has no body.
pub record IsSoundRow (m : Message) : Type 0 where
  pub completed : is_queued m.status ≡ is_none m.completed_at
  pub claimant : is_some m.claimed_at ≡ is_some m.claimed_by
  pub claimed_open : is_some m.claimed_at ≡ true → is_queued m.status ≡ true
  pub purged :
      is_some m.body_purged_at ≡ true
      → (is_queued m.status ≡ false) × (m.body_text ≡ none) × (m.body_html ≡ none)

-- Every row is sound, and the primary key and the unique constraint hold.
pub record IsSound (messages : List Message) : Type 0 where
  pub rows : All IsSoundRow messages
  pub ids : (id : ℕ) → count_where (has_id id) messages ≤ 1
  pub keys : (tenant : ℕ) (key : Str) → count_where (has_key tenant key) messages ≤ 1

-- An update that leaves the identifying columns alone.
module _ (p : Message → Bool) (f : Message → Message) where
  abbrev pub KeepsKeys : Type 0
  KeepsKeys =
      (m : Message)
      → ((f m).id ≡ m.id)
        × ((f m).tenant_id ≡ m.tenant_id)
        × ((f m).idempotency_key ≡ m.idempotency_key)

  pub update_where-IsSound :
      KeepsKeys
      → (ms : List Message)
      → ((m : Message) → Memᴰ m ms → p m ≡ true → IsSoundRow m → IsSoundRow (f m))
      → IsSound ms
      → IsSound (update_where p f ms)
  update_where-IsSound k ms rows s = record {
    rows = All-update_where IsSoundRow p f ms rows s.rows;
    ids =
        λ id. rw (count_where-update_where (has_id id) p f (λ m. rw ((k m).0) refl) ms) (s.ids id);
    keys = λ t key.
        rw (count_where-update_where (has_key t key) p f (λ m. rw ((k m).1, (k m).2) refl) ms)
          (s.keys t key);
  }

-- An id that the inner query chose is that of a row that is due and not locked.
pub any-of_chosen :
    (now : ℕ) (locked : List ℕ) (batch : ℕ) (ms : List Message) (id : ℕ)
    → is_in (chosen now locked batch ms) id ≡ true
    → any (λ m. has_id id m && (is_due now m && not (is_in locked m.id))) ms ≡ true
unfolding chosen
any-of_chosen now locked batch ms id h =
    let due = λ (m : Message). is_due now m && not (is_in locked m.id) in
    let before = λ (a b : Message). leb a.next_attempt_at b.next_attempt_at in
    sym (any-select (has_id id) due ms)
    ∙ sym (any-sort_by (has_id id) before (select due ms))
    ∙ any-take (has_id id) batch (sort_by before (select due ms))
        (sym (any-map (λ i. i == id) id_of (take batch (sort_by before (select due ms)))) ∙ h)

-- So where the ids are unique, the rows that `claim` marks are due.
pub is_due-of_chosen :
    (now : ℕ) (locked : List ℕ) (batch : ℕ) (ms : List Message)
    → ((id : ℕ) → count_where (has_id id) ms ≤ 1)
    → (m : Message) → Memᴰ m ms
    → is_in (chosen now locked batch ms) m.id ≡ true
    → is_due now m ≡ true
is_due-of_chosen now locked batch ms u m mem h =
    let both =
      unique_row (has_id m.id) (λ x. is_due now x && not (is_in locked x.id)) ms mem (==_refl m.id)
        (u m.id) (any-of_chosen now locked batch ms m.id h) in
    ground arith
