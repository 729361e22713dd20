-- ===== src/Bounce/Rows.antt =====
-- The row that a report becomes, and the message that it is joined to.
use postbud.Bounce.{stored, message_of, has_queue_id, bounce_class, to_suppress}
use postbud.Classification.{Classification}
use postbud.Dsn.{Report, should_suppress}
use postbud.Prelude.{
  ℕ, ◌≡◌, ◌≢◌, ◌↔◌, refl, sym, ap, ◌∙◌, Bool, true, false, ◌&&◌, List, [], ◌∷◌, map, Option, none,
  some, arith, is_none, is_some, Memᴰ, Each, Bool-cases, inl, inr,
}
use postbud.Prelude.Rows.{any_of_mem}
use postbud.Queue.{id_of}
use postbud.Store.Unordered.{fetch_any, any-of_fetch_any, fetch_any-Memᴰ}
use postbud.Store.{Platform, Message, BounceReport, BounceClass}
use postbud.Text.Case.{eq_of_str_eq, str_eq_refl}
use postbud.Text.{Str}

-- The message went to the relay under the queue id that the report names.
abbrev pub IsNamedBy : Report → Message → Type 0
IsNamedBy r m = (q : Str) × (m.relay_queue_id ≡ some q) × (r.relay_queue_id ≡ some q)

-- A row of the table that tells all of a report, with the message that it is about.
pub record Stores (now : ℕ) (raw : Str) (messages : List Message) (r : Report) (row : BounceReport)
    : Type 0 where
  pub at_time : row.received_at ≡ now
  pub whole : row.raw ≡ raw
  pub same_queue_id : row.relay_queue_id ≡ r.relay_queue_id
  pub same_recipient : row.final_rcpt ≡ r.final_recipient
  pub same_status : row.status_code ≡ r.status
  pub same_diagnostic : row.diagnostic ≡ r.diagnostic
  pub joined :
      (id : ℕ)
      → row.message_id ≡ some id
      → (m : Message) × Memᴰ m messages × (m.id ≡ id) × IsNamedBy r m
  pub unjoined : row.message_id ≡ none → (m : Message) → Memᴰ m messages → IsNamedBy r m → ⊥
  pub permanent_iff :
      row.classification ≡ some BounceClass.permanent ↔ r.classification ≡ Classification.permanent
  pub transient_iff :
      row.classification ≡ some BounceClass.transient ↔ r.classification ≡ Classification.transient
  pub classed : row.classification ≢ none

module _ (env : Platform) (messages : List Message) where
  message_of-some :
      (r : Report) (o : Option Str) (id : ℕ)
      → r.relay_queue_id ≡ o
      → message_of env messages o ≡ some id
      → (m : Message) × Memᴰ m messages × (m.id ≡ id) × IsNamedBy r m
  unfolding message_of
  message_of-some r none id e h = absurd (ground arith)
  message_of-some r (some q) id e h = go (fetch_any env id_of (has_queue_id q) messages) refl
    where
      named :
          (m : Message) (o : Option Str)
          → m.relay_queue_id ≡ o
          → has_queue_id q m ≡ true
          → m.relay_queue_id ≡ some q
      named m none f t = absurd (ground arith)
      named m (some p) f t = f ∙ ap some (eq_of_str_eq p q (ground arith))

      go :
          (found : Option Message)
          → fetch_any env id_of (has_queue_id q) messages ≡ found
          → (m : Message) × Memᴰ m messages × (m.id ≡ id) × IsNamedBy r m
      go none f = absurd (ground arith)
      go (some m) f =
          let t = fetch_any-Memᴰ env id_of (has_queue_id q) messages m f in
          (m, t.0, ground arith, (q, named m m.relay_queue_id refl t.1, e))

  message_of-none :
      (r : Report)
      → message_of env messages r.relay_queue_id ≡ none
      → (m : Message) → Memᴰ m messages
      → IsNamedBy r m
      → ⊥
  unfolding message_of
  message_of-none r h m i (q, e, f) = go (fetch_any env id_of (has_queue_id q) messages) refl
    where
      go : (found : Option Message) → fetch_any env id_of (has_queue_id q) messages ≡ found → ⊥
      go none g =
          let t : has_queue_id q m ≡ true = rw (e, str_eq_refl q) refl in
          let c : true ≡ false =
            sym (any_of_mem (has_queue_id q) messages i t)
            ∙ any-of_fetch_any env id_of (has_queue_id q) messages g in
          cc
      go (some found) g =
          let c : some found.id ≡ none = (rw (f, message_of, g) at h) in ground arith

permanent-bounce_class :
    (c : Classification)
    → some (bounce_class c) ≡ some BounceClass.permanent ↔ c ≡ Classification.permanent
permanent-bounce_class Classification.permanent = (λ h. refl, λ h. refl)
permanent-bounce_class Classification.transient =
    (λ h. absurd (ground arith), λ h. absurd (ground arith))
permanent-bounce_class c = (λ h. absurd (ground arith), λ h. absurd (ground arith))

transient-bounce_class :
    (c : Classification)
    → some (bounce_class c) ≡ some BounceClass.transient ↔ c ≡ Classification.transient
transient-bounce_class Classification.permanent =
    (λ h. absurd (ground arith), λ h. absurd (ground arith))
transient-bounce_class Classification.transient = (λ h. refl, λ h. refl)
transient-bounce_class c = (λ h. absurd (ground arith), λ h. absurd (ground arith))

module _ (env : Platform) (now : ℕ) (raw : Str) (messages : List Message) where
  -- The row that stores a report of the notification.
  abbrev pub row_of : Report → BounceReport
  row_of r = stored now raw r (message_of env messages r.relay_queue_id)

  row_of-Stores : (r : Report) → Stores now raw messages r (row_of r)
  row_of-Stores r = record {
    at_time = refl;
    whole = refl;
    same_queue_id = refl;
    same_recipient = refl;
    same_status = refl;
    same_diagnostic = refl;
    joined = λ id h. message_of-some env messages r r.relay_queue_id id refl h;
    unjoined = λ h m i n. message_of-none env messages r h m i n;
    permanent_iff = permanent-bounce_class r.classification;
    transient_iff = transient-bounce_class r.classification;
    classed = λ h. absurd (ground arith);
  }

  pub Each-row_of : (rs : List Report) → Each (Stores now raw messages) rs (map row_of rs)
  Each-row_of [] = tt
  Each-row_of (r ∷ rs) = (row_of-Stores r, Each-row_of rs)

abbrev pub is_unjoined : BounceReport → Bool
is_unjoined row = is_none row.message_id

-- The report suppresses an address.
abbrev pub takes_address : Report → Bool
takes_address r = should_suppress r && is_some r.final_recipient

pub to_suppress_lem : (r : Report) → is_some (to_suppress r) ≡ takes_address r
to_suppress_lem r = elim (Bool-cases (should_suppress r)) [ inl e ↦ rw e refl | inr e ↦ rw e refl ]
