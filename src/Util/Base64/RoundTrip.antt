-- ===== src/Util/Base64/RoundTrip.antt =====
-- src/util.c: decoding what was encoded, and the sizes of the two buffers.
use checkedc_icecast.Base.{
  ℕ, ◌+◌, ◌*◌, ◌/◌, ◌%◌, ◌≤◌, ◌<◌, ◌≡◌, refl, ap, Bool, true, false, [], ◌∷◌, ◌++◌, Option, none,
  some, arith, ◌==◌, Bytes, IsText, All, length, length-append, every_below, holds_below, c_string,
}
use checkedc_icecast.Util.Base64.{
  Code, invalid, padding, value, encode_digit, decode_digit, util_base64_encode, decode_group,
  decode_rest, util_base64_decode,
}

is_value : Code → ℕ → Bool
is_value (value n) m = n == m
is_value padding m = false
is_value invalid m = false

is_value_sound : (c : Code) (n : ℕ) → is_value c n ≡ true → c ≡ value n
unfolding is_value
is_value_sound (value m) n h = ground arith
is_value_sound padding n h = cc
is_value_sound invalid n h = cc

digit_table : every_below 64 (λ n. is_value (decode_digit (encode_digit n)) n) ≡ true
unfolding every_below is_value decode_digit encode_digit
digit_table = refl

decode_digit-encode_digit : (n : ℕ) → n < 64 → decode_digit (encode_digit n) ≡ value n
decode_digit-encode_digit n h = is_value_sound _ n (holds_below _ n h digit_table)

equals_sign : decode_digit b'=' ≡ padding
unfolding decode_digit
equals_sign = refl

-- The zeros that the decoder writes for the padding of the last group.
pub zeros : Bytes → Bytes
zeros [] = []
zeros (a ∷ []) = 0 ∷ 0 ∷ []
zeros (a ∷ b ∷ []) = 0 ∷ []
zeros (a ∷ b ∷ c ∷ s) = zeros s

first_byte : (a b : ℕ) → b < 256 → a / 4 * 4 + (a % 4 * 16 + b / 16) / 16 ≡ a
first_byte a b h = omega arith

second_byte_lem :
    (a b c : ℕ)
    → b < 256
    → c < 256
    → (a % 4 * 16 + b / 16) % 16 * 16 + (b % 16 * 4 + c / 64) / 4 ≡ b
second_byte_lem a b c hb hc = omega arith

third_byte_lem : (b c : ℕ) → c < 256 → (b % 16 * 4 + c / 64) % 4 * 64 + c % 64 ≡ c
third_byte_lem b c h = omega arith

pub decode-encode :
    (s : Bytes)
    → All (λ c. c < 256) s
    → util_base64_decode (util_base64_encode s) ≡ some (s ++ zeros s)
unfolding util_base64_decode util_base64_encode zeros decode_group
decode-encode [] h = refl
decode-encode (a ∷ []) h =
    rw
      (
        decode_digit-encode_digit (a / 4) (omega arith),
        decode_digit-encode_digit (a % 4 * 16 + 0 / 16) (omega arith),
        equals_sign,
      )
      (cc (first_byte a 0 (omega arith)))
decode-encode (a ∷ b ∷ []) h =
    rw
      (
        decode_digit-encode_digit (a / 4) (omega arith),
        decode_digit-encode_digit (a % 4 * 16 + b / 16) (omega arith),
        decode_digit-encode_digit (b % 16 * 4) (omega arith),
        equals_sign,
      )
      (cc (first_byte a b h.1.0, last_byte))
  where
    last_byte : (a % 4 * 16 + b / 16) % 16 * 16 + b % 16 * 4 / 4 ≡ b
    last_byte = omega arith
decode-encode (a ∷ b ∷ c ∷ s) h =
    rw
      (
        decode_digit-encode_digit (a / 4) (omega arith),
        decode_digit-encode_digit (a % 4 * 16 + b / 16) (omega arith),
        decode_digit-encode_digit (b % 16 * 4 + c / 64) (omega arith),
        decode_digit-encode_digit (c % 64) (omega arith),
        decode-encode s h.1.1.1,
      )
      (cc (first_byte a b h.1.0, second_byte_lem a b c h.1.0 h.1.1.0, third_byte_lem b c h.1.1.0))

IsText-below : (s : Bytes) → IsText s → All (λ c. c < 256) s
IsText-below [] h = tt
IsText-below (c ∷ s) h = (h.0.1, IsText-below s h.1)

c_string-zeros : (s t : Bytes) → IsText s → c_string (s ++ zeros t) ≡ s
unfolding c_string zeros
c_string-zeros [] [] h = refl
c_string-zeros [] (a ∷ []) h = refl
c_string-zeros [] (a ∷ b ∷ []) h = refl
c_string-zeros [] (a ∷ b ∷ c ∷ t) h = c_string-zeros [] t h
c_string-zeros (d ∷ s) t h = ground (arith, c_string-zeros s t h.1)

-- Decoding the encoding of a C string never fails, and its reader sees the string again.
pub base64_decode-encode :
    (s : Bytes)
    → IsText s
    → (d : Bytes) × (util_base64_decode (util_base64_encode s) ≡ some d) × (c_string d ≡ s)
base64_decode-encode s h = (s ++ zeros s, decode-encode s (IsText-below s h), c_string-zeros s s h)

-- The encoder's output with its terminator fits the `len * 4 / 3 + 4` bytes allocated for it.
length-base64_encode : (s : Bytes) → length (util_base64_encode s) + 1 ≤ length s * 4 / 3 + 4
unfolding util_base64_encode
length-base64_encode [] = omega arith
length-base64_encode (a ∷ []) = omega arith
length-base64_encode (a ∷ b ∷ []) = omega arith
length-base64_encode (a ∷ b ∷ c ∷ s) = omega (arith, length-base64_encode s)

length-decode_group : (a b c d : Code) → length (decode_group a b c d) ≤ 3
unfolding decode_group
length-decode_group (value v) (value w) c d = ground arith
length-decode_group (value v) padding c d = omega arith
length-decode_group (value v) invalid c d = omega arith
length-decode_group padding b c d = omega arith
length-decode_group invalid b c d = omega arith

decode_rest-some :
    (g : Bytes) (o : Option Bytes) {d : Bytes}
    → decode_rest g o ≡ some d
    → (r : Bytes) × (o ≡ some r) × (d ≡ g ++ r)
unfolding decode_rest
decode_rest-some g none h = cc
decode_rest-some g (some r) h = (r, refl, cc)

-- A text that is decoded has a multiple of four bytes, and the decoder's output with its
-- terminator fits the `len * 3 / 4 + 5` bytes allocated for it.
length-base64_decode :
    (s : Bytes) {d : Bytes}
    → util_base64_decode s ≡ some d
    → (length s % 4 ≡ 0) × (length d + 1 ≤ length s * 3 / 4 + 5)
unfolding util_base64_decode
length-base64_decode [] {d} h = let e : [] ≡ d = cc in omega (arith, ap length e)
length-base64_decode (a ∷ []) h = cc
length-base64_decode (a ∷ b ∷ []) h = cc
length-base64_decode (a ∷ b ∷ c ∷ []) h = cc
length-base64_decode (a ∷ b ∷ c ∷ e ∷ s) {d} h =
    let g = decode_group (decode_digit a) (decode_digit b) (decode_digit c) (decode_digit e) in
    let r = decode_rest-some g (util_base64_decode s) h in
    omega (
      arith,
      length-base64_decode s r.1,
      ap length r.2,
      length-append g r.0,
      length-decode_group (decode_digit a) (decode_digit b) (decode_digit c) (decode_digit e),
    )
