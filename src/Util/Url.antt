-- ===== src/Util/Url.antt =====
-- src/util.c: URL escaping, its inverse, and hexadecimal. A `char` is a byte, 0 to 255; the pointer
-- walk over a C string is a recursion on the list of its bytes.
pub mod RoundTrip
use checkedc_icecast.Base.{
  ℕ, ◌+◌, ◌-◌, ◌*◌, ◌/◌, ◌%◌, Bool, ◌&&◌, ◌||◌, List, [], ◌∷◌, ◌++◌, Option, none, some, leb, ◌==◌,
  if◌then◌else◌, Bytes, codes, get_or, replicate,
}

-- `none` is the -1 of the source.
unfoldable pub hex : ℕ → Option ℕ
hex c =
    if leb b'0' c && leb c b'9'
    then some (c - b'0')
    else if leb b'A' c && leb c b'F'
    then some (c - b'A' + 10)
    else if leb b'a' c && leb c b'f'
    then some (c - b'a' + 10)
    else none

-- Both digits of a `%xx`, or `none` when one of them is none.
unfoldable pub hex_pair : ℕ → ℕ → Option ℕ
unfolding hex
hex_pair a b = elim (hex a) [
  | none ↦ none
  | some h ↦ elim (hex b) [ none ↦ none | some l ↦ some ((h * 16 + l) % 256) ]
]

abbrev pub hexchars : Bytes
hexchars = codes "0123456789abcdef"

-- The table by its rows of 16 entries, equal neighbours joined.
abbrev pub safechars : List ℕ
safechars =
    replicate 48 0
    ++ (replicate 10 1
        ++ (replicate 6 0
            ++ (0 ∷ replicate 15 1
                ++ (replicate 11 1
                    ++ (replicate 5 0
                        ++ (0 ∷ replicate 15 1 ++ (replicate 11 1 ++ replicate 133 0)))))))

unfoldable pub is_safe : ℕ → Bool
is_safe c = if get_or safechars c 0 == 0 then Bool.false else Bool.true

-- `hexchars[(c >> 4) & 0x0F]`
unfoldable pub high_digit : ℕ → ℕ
high_digit c = get_or hexchars (c / 16 % 16) 0

-- `hexchars[c & 0x0F]`
unfoldable pub low_digit : ℕ → ℕ
low_digit c = get_or hexchars (c % 16) 0

unfoldable pub util_url_escape : Bytes → Bytes
util_url_escape [] = []
util_url_escape (c ∷ s) =
    let rest = util_url_escape s in
    if is_safe c then c ∷ rest else b'%' ∷ high_digit c ∷ low_digit c ∷ rest

-- Puts a decoded byte in front of what the rest decodes to.
unfoldable pub emit : ℕ → Option Bytes → Option Bytes
emit c none = none
emit c (some s) = some (c ∷ s)

-- One character that is not the start of a `%xx`.
unfoldable pub unescape_char : ℕ → Option Bytes → Option Bytes
unfolding emit
unescape_char c rest = if c == b'#' then some [] else if c == 0 then none else emit c rest

-- A `%` needs two more characters; `#` ends the text. The result is the decoded buffer up to the
-- terminator that the source writes; a `%00` leaves a NUL inside it.
unfoldable pub util_url_unescape : Bytes → Option Bytes
util_url_unescape [] = some []
util_url_unescape (c ∷ []) = if c == b'%' then none else unescape_char c (some [])
util_url_unescape (c ∷ a ∷ []) =
    let rest = util_url_unescape (a ∷ []) in if c == b'%' then none else unescape_char c rest
util_url_unescape (c ∷ a ∷ b ∷ s) =
    let skipped = util_url_unescape s in
    let rest = util_url_unescape (a ∷ b ∷ s) in
    if c == b'%'
    then elim (hex_pair a b) [ none ↦ none | some d ↦ emit d skipped ]
    else unescape_char c rest

unfoldable pub util_bin_to_hex : Bytes → Bytes
util_bin_to_hex [] = []
util_bin_to_hex (c ∷ s) = high_digit c ∷ low_digit c ∷ util_bin_to_hex s
