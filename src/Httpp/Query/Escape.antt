-- ===== src/Httpp/Query/Escape.antt =====
-- src/httpp/httpp.c: hex and url_escape, which decodes a value.
use checkedc_icecast.Base.{
  ℕ, ◌+◌, ◌-◌, ◌*◌, ◌%◌, ◌&&◌, [], ◌∷◌, Option, none, some, leb, ◌==◌, if◌then◌else◌, Bytes,
}

-- `none` is the -1 of the source.
unfoldable pub hex : ℕ → Option ℕ
hex c =
    if leb b'0' c && leb c b'9'
    then some (c - b'0')
    else if leb b'A' c && leb c b'F'
    then some (c - b'A' + 10)
    else if leb b'a' c && leb c b'f'
    then some (c - b'a' + 10)
    else none

unfoldable pub hex_pair : ℕ → ℕ → Option ℕ
unfolding hex
hex_pair a b = elim (hex a) [
  | none ↦ none
  | some h ↦ elim (hex b) [ none ↦ none | some l ↦ some ((h * 16 + l) % 256) ]
]

unfoldable pub emit : ℕ → Option Bytes → Option Bytes
emit c none = none
emit c (some s) = some (c ∷ s)

unfoldable pub decode_char : ℕ → Option Bytes → Option Bytes
decode_char c rest =
    if c == b'+'
    then emit b' ' rest
    else if c == b'#'
    then some []
    else if c == 0
    then none
    else emit c rest

-- As util_url_unescape, and a `+` stands for a space.
unfoldable pub url_escape : Bytes → Option Bytes
url_escape [] = some []
url_escape (c ∷ []) = if c == b'%' then none else decode_char c (some [])
url_escape (c ∷ a ∷ []) =
    let rest = url_escape (a ∷ []) in if c == b'%' then none else decode_char c rest
url_escape (c ∷ a ∷ b ∷ s) =
    let skipped = url_escape s in
    let rest = url_escape (a ∷ b ∷ s) in
    if c == b'%'
    then elim (hex_pair a b) [ none ↦ none | some d ↦ emit d skipped ]
    else decode_char c rest
