-- ===== src/DnsCheck/Names.antt =====
-- crates/postbud-core/src/dnscheck.rs: the names of hosts and of records to look up.
use postbud.Prelude.{
  ◌-◌, not, ◌&&◌, ◌||◌, List, [], ◌∷◌, ◌++◌, map, Option, none, some, ltb, leb, if◌then◌else◌,
  is_empty, any, select, drop, length, ◌>>=◌,
}
use postbud.Text.Bytes.{byte_len, split_at, trim_end_char}
use postbud.Text.{
  Str, codes, str_eq, to_ascii_lowercase, eq_ignore_ascii_case, trim, split, split_once,
  rsplit_once, first_piece, join,
}

unfoldable pub normalize_host : Str → Str
normalize_host h = to_ascii_lowercase (trim_end_char b'.' (trim h))

-- The last two labels.
abbrev pub last_two : List Str → List Str
last_two labels = if leb (length labels) 2 then labels else drop (length labels - 2) labels

unfoldable pub organizational_domain : Str → Str
organizational_domain domain =
    to_ascii_lowercase (join (codes ".") (last_two (split b'.' (trim_end_char b'.' domain))))

-- A host that is new and not empty goes behind the others.
abbrev pub add_host : List Str → Str → List Str
add_host out host = if is_empty host || any (str_eq host) out then out else out ++ host ∷ []

abbrev pub add_address : List Str → Str → List Str
add_address out addr = elim (rsplit_once b'@' (first_piece b'!' addr)) [
  | none ↦ out
  | some (local, host) ↦ add_host out (normalize_host host)
]

-- One entry of the list; the slice behind the length test panics inside a character.
unfoldable pub see_uri : List Str → Str → Option (List Str)
see_uri out raw =
    let uri = trim raw in
    if ltb (byte_len uri) 7 then some out else elim (split_at uri 7) [
      | none ↦ none
      | some (scheme, addr) ↦
          if not (eq_ignore_ascii_case scheme (codes "mailto:"))
          then some out
          else some (add_address out addr)
    ]

unfoldable pub see_uris : List Str → List Str → Option (List Str)
see_uris out [] = some out
see_uris out (uri ∷ rest) = see_uri out uri >>= λ out'. see_uris out' rest

abbrev see_value : List Str → Str × Str → Option (List Str)
see_value out (key, value) =
    if not (eq_ignore_ascii_case (trim key) (codes "rua"))
    then some out
    else see_uris out (split b',' value)

unfoldable pub see_tag : List Str → Str → Option (List Str)
see_tag out tag = elim (split_once b'=' tag) [
  | none ↦ some out
  | some (key, value) ↦ see_value out (key, value)
]

unfoldable pub see_tags : List Str → List Str → Option (List Str)
unfolding see_tag
see_tags out [] = some out
see_tags out (tag ∷ rest) = see_tag out tag >>= λ out'. see_tags out' rest

unfoldable pub rua_domains : Str → Option (List Str)
unfolding see_tags
rua_domains text = see_tags [] (split b';' text)

unfoldable pub report_auth_names : Str → Str → Option (List Str)
report_auth_names publishing_domain text = rua_domains text >>= λ hosts. some (
    map (λ host. publishing_domain ++ (codes "._report._dmarc." ++ host))
      (select
        (λ host.
          not (str_eq (organizational_domain host) (organizational_domain publishing_domain)))
        hosts))

unfoldable pub dmarc_names : Str → List Str
dmarc_names domain =
    let d = to_ascii_lowercase (trim_end_char b'.' domain) in
    let org = organizational_domain d in
    (codes "_dmarc." ++ d)
    ∷ (if not (str_eq org d) && not (is_empty org) then (codes "_dmarc." ++ org) ∷ [] else [])
