-- ===== src/Showq.antt =====
-- crates/postbud-core/src/showq.rs: the answer of the relay's queue socket, which is a sequence of
-- NUL-separated names and values in which an empty name ends a record. `lossy` stands for
-- `String::from_utf8_lossy`.
pub mod Framing
use postbud.Prelude.{
  Bool, true, false, List, [], ◌∷◌, ◌++◌, Option, none, some, ℕ, if◌then◌else◌, is_empty, is_none,
  ◌&&◌,
}
use postbud.RelayQueue.{Queued}
use postbud.Text.{Str, codes, str_eq, split, trim}

-- The fields of a record as far as it is read.
pub record Partial : Type 0 where
  pub queue_id : Option Str
  pub queue_name : Option Str
  pub reason : Option Str

abbrev pub blank : Partial
blank = record { queue_id = none; queue_name = none; reason = none }

-- `filter(|r| !r.is_empty())`
abbrev pub not_empty : Option Str → Option Str
not_empty none = none
not_empty (some r) = if is_empty r then none else some r

abbrev pub to_queued : Option Str → Option Str → Option Str → Option Queued
to_queued (some id) (some name) reason =
    some (record { queue_id = id; queue_name = name; reason = not_empty reason })
to_queued _ _ reason = none

-- The entry that a record boundary leaves, if its id and its queue were there.
unfoldable pub finish : Partial → Option Queued
finish p = to_queued p.queue_id p.queue_name p.reason

abbrev pub push : List Queued → Option Queued → List Queued
push out none = out
push out (some e) = out ++ e ∷ []

-- One name with its value, both decoded.
unfoldable pub see_field : Partial → Str → Str → Partial
see_field p name value =
    if str_eq name (codes "queue_id")
    then record p { queue_id = some value }
    else if str_eq name (codes "queue_name")
    then record p { queue_name = some value }
    else if str_eq name (codes "reason") && is_none p.reason
    then record p { reason = some value }
    else p

module _ (lossy : List ℕ → Str) where
  -- The loop over the fields; a name without a value ends it.
  unfoldable pub read_fields : Partial → List Queued → List (List ℕ) → List Queued
  read_fields p out [] = out
  read_fields p out ([] ∷ rest) = read_fields blank (push out (finish p)) rest
  read_fields p out ((c ∷ name) ∷ []) = out
  read_fields p out ((c ∷ name) ∷ value ∷ rest) =
      read_fields (see_field p (lossy (c ∷ name)) (trim (lossy value))) out rest

  unfoldable pub parse : List ℕ → List Queued
  unfolding read_fields
  parse bytes = read_fields blank [] (split 0 bytes)
