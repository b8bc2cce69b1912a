-- ===== src/Util/Url/RoundTrip.antt =====
-- src/util.c: escaping and unescaping, hexadecimal output, and the sizes of their buffers.
use checkedc_icecast.Base.{
  ℕ, suc, ◌*◌, ◌≤◌, ◌<◌, ◌≡◌, refl, ap, inl, inr, Bool, true, false, not, ◌||◌, [], ◌∷◌, Option,
  none, some, arith, ◌==◌, Bool-cases, every_below, holds_below, Bytes, IsText, All, length,
}
use checkedc_icecast.Util.Url.{
  hex_pair, is_safe, high_digit, low_digit, util_url_escape, emit, unescape_char, util_url_unescape,
  util_bin_to_hex,
}

reads_as : Option ℕ → ℕ → Bool
reads_as none c = false
reads_as (some d) c = d == c

reads_as_sound : (o : Option ℕ) (c : ℕ) → reads_as o c ≡ true → o ≡ some c
unfolding reads_as
reads_as_sound none c h = cc
reads_as_sound (some d) c h = ground arith

digits_table : every_below 256 (λ c. reads_as (hex_pair (high_digit c) (low_digit c)) c) ≡ true
unfolding every_below reads_as hex_pair high_digit low_digit
digits_table = refl

-- A byte's two digits read back as the byte.
pub hex_pair-digits : (c : ℕ) → c < 256 → hex_pair (high_digit c) (low_digit c) ≡ some c
hex_pair-digits c h = reads_as_sound _ c (holds_below _ c h digits_table)

-- A byte of the table of safe characters stands for itself when the text is read back.
unfoldable pub is_literal : ℕ → Bool
is_literal c = not (c == b'%' || c == b'#' || c == 0)

safe_is_literal : ℕ → Bool
unfolding is_literal is_safe
safe_is_literal c = not (is_safe c) || is_literal c

safe_table : every_below 256 safe_is_literal ≡ true
unfolding every_below safe_is_literal
safe_table = refl

is_literal-safe : (c : ℕ) → c < 256 → is_safe c ≡ true → is_literal c ≡ true
unfolding safe_is_literal
is_literal-safe c h e = ground (arith, holds_below safe_is_literal c h safe_table)

pub unescape-literal :
    (c : ℕ) (s : Bytes)
    → is_literal c ≡ true
    → util_url_unescape (c ∷ s) ≡ emit c (util_url_unescape s)
unfolding is_literal util_url_unescape unescape_char
unescape-literal c [] h = ground arith
unescape-literal c (a ∷ []) h = ground arith
unescape-literal c (a ∷ b ∷ s) h = ground arith

unescape-percent :
    (a b d : ℕ) (s : Bytes)
    → hex_pair a b ≡ some d
    → util_url_unescape (b'%' ∷ a ∷ b ∷ s) ≡ emit d (util_url_unescape s)
unfolding util_url_unescape
unescape-percent a b d s h = rw h

-- Unescaping what the escaper wrote gives every C string back.
pub unescape-escape : (s : Bytes) → IsText s → util_url_unescape (util_url_escape s) ≡ some s
unfolding util_url_escape util_url_unescape emit
unescape-escape [] h = refl
unescape-escape (c ∷ s) h = elim (Bool-cases (is_safe c)) [
  | inl e ↦
      rw (
        e,
        unescape-literal c (util_url_escape s) (is_literal-safe c h.0.1 e),
        unescape-escape s h.1,
      )
  | inr e ↦ rw (
    e,
    unescape-percent (high_digit c) (low_digit c) c (util_url_escape s) (hex_pair-digits c h.0.1),
    unescape-escape s h.1,
  )
]

-- The escaped text fits the `len * 3 + 1` bytes that the source allocates for it.
length-url_escape : (s : Bytes) → length (util_url_escape s) ≤ length s * 3
unfolding util_url_escape
length-url_escape [] = omega arith
length-url_escape (c ∷ s) = ground (arith, length-url_escape s)

abbrev decoded_length : Option Bytes → ℕ
decoded_length none = 0
decoded_length (some d) = length d

unescape_char-le :
    (c : ℕ) (o : Option Bytes) → decoded_length (unescape_char c o) ≤ suc (decoded_length o)
unfolding unescape_char emit
unescape_char-le c none = ground arith
unescape_char-le c (some d) = ground arith

percent-le :
    (o : Option ℕ) (r : Option Bytes)
    → decoded_length (elim o [ none ↦ none | some d ↦ emit d r ]) ≤ suc (decoded_length r)
unfolding emit
percent-le none r = omega arith
percent-le (some d) none = omega arith
percent-le (some d) (some s) = omega arith

decoded_length-le : (s : Bytes) → decoded_length (util_url_unescape s) ≤ length s
unfolding util_url_unescape
decoded_length-le [] = omega arith
decoded_length-le (c ∷ []) = elim (Bool-cases (c == b'%')) [
  | inl e ↦ rw e (omega arith)
  | inr e ↦ rw e (unescape_char-le c (some []))
]
decoded_length-le (c ∷ a ∷ []) = elim (Bool-cases (c == b'%')) [
  | inl e ↦ rw e (omega arith)
  | inr e ↦
      rw e
        (omega (arith, unescape_char-le c (util_url_unescape (a ∷ [])), decoded_length-le (a ∷ [])))
]
decoded_length-le (c ∷ a ∷ b ∷ s) = elim (Bool-cases (c == b'%')) [
  | inl e ↦
      rw e (omega (arith, percent-le (hex_pair a b) (util_url_unescape s), decoded_length-le s))
  | inr e ↦ rw e (
      omega
        (arith, unescape_char-le c (util_url_unescape (a ∷ b ∷ s)), decoded_length-le (a ∷ b ∷ s)))
]

-- A decoded text fits the `len + 1` bytes that the source allocates for it.
length-url_unescape : (s : Bytes) {d : Bytes} → util_url_unescape s ≡ some d → length d ≤ length s
length-url_unescape s h = omega (arith, decoded_length-le s, ap decoded_length h)

-- The hexadecimal text read back, two digits to a byte.
pub from_hex : Bytes → Option Bytes
from_hex [] = some []
from_hex (a ∷ []) = none
from_hex (a ∷ b ∷ s) = elim (hex_pair a b) [ none ↦ none | some c ↦ emit c (from_hex s) ]

-- The hexadecimal text of bytes has two digits for each, and these digits read back as the bytes.
pub from_hex-bin_to_hex :
    (s : Bytes)
    → All (λ c. c < 256) s
    → (from_hex (util_bin_to_hex s) ≡ some s) × (length (util_bin_to_hex s) ≡ length s * 2)
unfolding util_bin_to_hex from_hex emit
from_hex-bin_to_hex [] h = (refl, omega arith)
from_hex-bin_to_hex (c ∷ s) h = (
  rw (hex_pair-digits c h.0, from_hex, (from_hex-bin_to_hex s h.1).0),
  omega (arith, (from_hex-bin_to_hex s h.1).1),
)
