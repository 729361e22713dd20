-- ===== src/Address.antt =====
-- crates/postbud-core/src/address.rs: `normalize`, `domain`, `bounce_sender`.
pub mod Normal
pub mod Bounce
use postbud.Prelude.{
  ℕ, Bool, true, false, not, ◌&&◌, ◌||◌, List, [], ◌∷◌, ◌++◌, Option, none, some, ◌==◌,
  if◌then◌else◌, is_empty, any, ◌>>=◌,
}
use postbud.Result.{Result, ok, err}
use postbud.Text.{Str, codes, is_whitespace, to_ascii_lowercase, trim, rsplit_once, contains_char}

pub data AddressError : Type 0 where
  empty whitespace no_at empty_part bare_domain : AddressError

-- The tests behind the split at the last `@`.
check_parts : Str → Str → Result Str AddressError
check_parts local domain =
    if is_empty local || is_empty domain
    then err empty_part
    else if not (contains_char b'.' domain)
    then err bare_domain
    else ok (local ++ b'@' ∷ to_ascii_lowercase domain)

check_split : Option (Str × Str) → Result Str AddressError
unfolding check_parts
check_split none = err no_at
check_split (some (local, domain)) = check_parts local domain

unfoldable pub normalize : Str → Result Str AddressError
unfolding check_split
normalize raw =
    let trimmed = trim raw in
    if is_empty trimmed
    then err empty
    else if any is_whitespace trimmed
    then err whitespace
    else check_split (rsplit_once b'@' trimmed)

-- `filter(|d| !d.is_empty())`
abbrev non_empty : Str → Option Str
non_empty d = if is_empty d then none else some d

unfoldable pub domain : Str → Option Str
domain address = elim (rsplit_once b'@' address) [
  | none ↦ none
  | some (local, d) ↦ non_empty (to_ascii_lowercase d)
]

-- The test that the mailbox is no local part.
abbrev pub not_a_local_part : ℕ → Bool
not_a_local_part c = c == b'@' || is_whitespace c

unfoldable pub bounce_sender : Str → Str → Option Str
unfolding domain
bounce_sender mail_from mailbox =
    let name = trim mailbox in
    if is_empty name || any not_a_local_part name
    then none
    else domain mail_from >>= λ d. some (name ++ b'@' ∷ d)

-- `Display` of the error.
unfoldable pub message : AddressError → Str
message empty = codes "address is empty"
message whitespace = codes "address contains whitespace"
message no_at = codes "address has no '@'"
message empty_part = codes "address has an empty local part or domain"
message bare_domain = codes "domain has no dot"
