-- ===== src/RelayQueue/Rows.antt =====
-- `reconcile` works on each row of the table by itself.
use postbud.Prelude.Rows.{map-update_where, update_where-after_map, map-id}
use postbud.Prelude.{ℕ, ◌≡◌, ap, ◌∙◌, List, [], ◌∷◌, map, if◌then◌else◌, update_where}
use postbud.RelayQueue.{
  Queued, Reconciled, changes, observe, see_entry, see_entries, has_left, conclude, reconcile,
}
use postbud.Store.{Db, Message, BounceReport}

-- The first statement at one row, for all entries in turn.
abbrev pub observed : ℕ → List Queued → Message → Message
observed now [] m = m
observed now (e ∷ rest) m = observed now rest (if changes e m then observe now e m else m)

see_entries-map :
    (now : ℕ) (messages : List Message) (out : Reconciled) (entries : List Queued)
    → (see_entries now messages out entries).0 ≡ map (observed now entries) messages
unfolding see_entries see_entry
see_entries-map now messages out [] = map-id messages
see_entries-map now messages out (e ∷ rest) =
    see_entries-map now (update_where (changes e) (observe now e) messages)
      (see_entry now messages out e).1 rest
    ∙ map-update_where (observed now rest) (changes e) (observe now e) messages

-- Both statements at one row.
abbrev pub row_after : ℕ → ℕ → List Queued → List BounceReport → Message → Message
row_after now grace_secs entries bounces m =
    let seen = observed now entries m in
    if has_left now grace_secs entries bounces seen then conclude now seen else seen

-- The whole call works on each row by itself.
pub reconcile-map :
    (now : ℕ) (db : Db) (entries : List Queued) (grace_secs : ℕ)
    → (reconcile now db entries grace_secs).0.messages
      ≡ map (row_after now grace_secs entries db.bounces) db.messages
unfolding reconcile
reconcile-map now db entries grace_secs =
    ap (update_where (has_left now grace_secs entries db.bounces) (conclude now))
      (see_entries-map now db.messages _ entries)
    ∙ update_where-after_map (has_left now grace_secs entries db.bounces) (conclude now)
        (observed now entries) db.messages
