-- ===== src/Dmarc/Unpack.antt =====
-- crates/postbud-core/src/dmarc.rs: `extract`, `inflate_gzip` and `unzip`.
use postbud.Dmarc.{
  DmarcError, too_large, too_many_members, empty, archive, max_uncompressed, max_archive_members,
  clipped,
}
use postbud.Prelude.{
  ℕ, suc, Bool, List, [], ◌∷◌, Option, none, some, ltb, if◌then◌else◌, is_empty, take, length,
}
use postbud.Result.{Result, ok, err}
use postbud.Text.{Str, starts_with}

-- What a decompressor gives: bytes, and at their end perhaps an error.
pub record Stream : Type 0 where
  pub bytes : List ℕ
  pub failure : Option Str

pub record Member : Type 0 where
  pub is_file : Bool
  pub size : ℕ
  pub content : Stream

-- `flate2` and `zip`: the stream of a blob, and the members of an archive, each of which may be
-- unreadable.
pub record Archives : Type 0 where
  pub gunzip : List ℕ → Stream
  pub open_zip : List ℕ → Result (List (Result Member Str)) Str

abbrev pub or_failure : List ℕ → Option Str → Result (List ℕ) DmarcError
or_failure bytes none = ok bytes
or_failure bytes (some e) = err (archive (clipped e))

-- `take(MAX_UNCOMPRESSED + 1).read_to_end(..)`: an error behind the limit is not met.
unfoldable pub read_capped : Stream → Result (List ℕ) DmarcError
read_capped s =
    if ltb max_uncompressed (length s.bytes)
    then ok (take (suc max_uncompressed) s.bytes)
    else or_failure s.bytes s.failure

abbrev pub within : Result (List ℕ) DmarcError → Result (List ℕ) DmarcError
within (err e) = err e
within (ok out) = if ltb max_uncompressed (length out) then err too_large else ok out

unfoldable pub inflate_gzip : Archives → List ℕ → Result (List ℕ) DmarcError
inflate_gzip archives blob = within (read_capped (archives.gunzip blob))

abbrev pub and_then :
    Result (List ℕ) DmarcError
    → Result (List (List ℕ)) DmarcError
    → Result (List (List ℕ)) DmarcError
and_then (err e) rest = err e
and_then (ok doc) (err e) = err e
and_then (ok doc) (ok docs) = ok (doc ∷ docs)

abbrev pub content_of : Member → Result (List ℕ) DmarcError
content_of m = if ltb max_uncompressed m.size then err too_large else within (read_capped m.content)

-- The files among the members, up to the first that cannot be read.
unfoldable pub read_members : List (Result Member Str) → Result (List (List ℕ)) DmarcError
read_members [] = ok []
read_members (err e ∷ rest) = err (archive (clipped e))
read_members (ok m ∷ rest) =
    let later = read_members rest in if m.is_file then and_then (content_of m) later else later

abbrev pub not_none : Result (List (List ℕ)) DmarcError → Result (List (List ℕ)) DmarcError
not_none (err e) = err e
not_none (ok docs) = if is_empty docs then err empty else ok docs

abbrev pub open_members : Result (List (Result Member Str)) Str → Result (List (List ℕ)) DmarcError
open_members (err e) = err (archive (clipped e))
open_members (ok members) =
    if ltb max_archive_members (length members)
    then err too_many_members
    else not_none (read_members members)

unfoldable pub unzip : Archives → List ℕ → Result (List (List ℕ)) DmarcError
unzip archives blob = open_members (archives.open_zip blob)

abbrev pub alone : Result (List ℕ) DmarcError → Result (List (List ℕ)) DmarcError
alone (err e) = err e
alone (ok doc) = ok (doc ∷ [])

unfoldable pub extract : Archives → List ℕ → Result (List (List ℕ)) DmarcError
extract archives blob =
    if starts_with (0x1f ∷ 0x8b ∷ []) blob
    then alone (inflate_gzip archives blob)
    else if starts_with (b'P' ∷ b'K' ∷ 3 ∷ 4 ∷ []) blob
    then unzip archives blob
    else if ltb max_uncompressed (length blob)
    then err too_large
    else ok (blob ∷ [])
