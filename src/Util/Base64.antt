-- ===== src/Util/Base64.antt =====
-- src/util.c: base64. `a | b` joins disjoint bits here and is written as a sum; the encoder reads the
-- terminator of the C string, a zero, behind the last byte.
pub mod RoundTrip
use checkedc_icecast.Base.{
  ℕ, suc, zero, ◌+◌, ◌*◌, ◌/◌, ◌%◌, Bool, true, false, ◌||◌, List, [], ◌∷◌, ◌++◌, Option, none,
  some, if◌then◌else◌, Bytes, codes, get_or, replicate,
}

abbrev pub base64table : Bytes
base64table = codes "ABCDEFGHIJKLMNOPQRSTUVWXYZabcdefghijklmnopqrstuvwxyz0123456789+/"

-- An entry of base64decode: -2, -1, or a value.
pub data Code : Type 0 where
  invalid padding : Code
  value : ℕ → Code

-- The values from `first` on, `n` of them.
abbrev pub values : ℕ → ℕ → List Code
values first zero = []
values first (suc n) = value first ∷ values (suc first) n

abbrev pub base64decode : List Code
base64decode =
    replicate 43 invalid
    ++ (value 62 ∷ replicate 3 invalid
        ++ (value 63 ∷ values 52 10
            ++ (replicate 3 invalid
                ++ (padding ∷ replicate 3 invalid
                    ++ (values 0 26
                        ++ (replicate 6 invalid ++ (values 26 26 ++ replicate 133 invalid)))))))

unfoldable pub encode_digit : ℕ → ℕ
encode_digit n = get_or base64table n 0

unfoldable pub decode_digit : ℕ → Code
decode_digit c = get_or base64decode c invalid

unfoldable pub util_base64_encode : Bytes → Bytes
util_base64_encode [] = []
util_base64_encode (a ∷ []) =
    encode_digit (a / 4) ∷ encode_digit (a % 4 * 16 + 0 / 16) ∷ b'=' ∷ b'=' ∷ []
util_base64_encode (a ∷ b ∷ []) =
    encode_digit (a / 4)
    ∷ encode_digit (a % 4 * 16 + b / 16)
    ∷ encode_digit (b % 16 * 4)
    ∷ b'='
    ∷ []
util_base64_encode (a ∷ b ∷ c ∷ s) =
    encode_digit (a / 4)
    ∷ encode_digit (a % 4 * 16 + b / 16)
    ∷ encode_digit (b % 16 * 4 + c / 64)
    ∷ encode_digit (c % 64)
    ∷ util_base64_encode s

-- `code & 0x03`, where -1 has all bits set.
unfoldable pub low_bits : Code → ℕ
low_bits (value n) = n % 4
low_bits padding = 3
low_bits invalid = 2

-- The second output byte, from the second value and the third code.
unfoldable pub second_byte : ℕ → Code → ℕ
second_byte v (value n) = v % 16 * 16 + n / 4
second_byte v padding = 0
second_byte v invalid = 0

unfoldable pub third_byte : Code → Code → ℕ
third_byte c (value n) = low_bits c * 64 + n
third_byte c padding = 0
third_byte c invalid = 0

unfoldable pub is_invalid : Code → Bool
is_invalid invalid = true
is_invalid padding = false
is_invalid (value n) = false

-- The three bytes of a group of four codes; none when the group is skipped.
unfoldable pub decode_group : Code → Code → Code → Code → Bytes
unfolding second_byte third_byte is_invalid low_bits
decode_group (value v) (value w) c d =
    if is_invalid c || is_invalid d
    then []
    else (v * 4 + w / 16) ∷ second_byte w c ∷ third_byte c d ∷ []
decode_group (value v) padding c d = []
decode_group (value v) invalid c d = []
decode_group padding b c d = []
decode_group invalid b c d = []

unfoldable pub decode_rest : Bytes → Option Bytes → Option Bytes
decode_rest group none = none
decode_rest group (some out) = some (group ++ out)

-- The decoded buffer up to the terminator that the source writes; padding leaves NULs inside it.
unfoldable pub util_base64_decode : Bytes → Option Bytes
unfolding decode_rest
util_base64_decode [] = some []
util_base64_decode (a ∷ []) = none
util_base64_decode (a ∷ b ∷ []) = none
util_base64_decode (a ∷ b ∷ c ∷ []) = none
util_base64_decode (a ∷ b ∷ c ∷ d ∷ s) =
    decode_rest (decode_group (decode_digit a) (decode_digit b) (decode_digit c) (decode_digit d))
      (util_base64_decode s)
