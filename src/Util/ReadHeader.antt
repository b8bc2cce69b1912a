-- ===== src/Util/ReadHeader.antt =====
-- src/util.c: util_read_header. What a round of its loop gets from the socket is an argument, and so is what stands in
-- the variable of the character before the first one is read.
pub mod Shortest
use checkedc_icecast.Base.{
  ℕ, ◌-◌, Bool, true, false, not, ◌&&◌, ◌||◌, List, [], ◌∷◌, Option, none, some, ◌==◌, ltb,
  if◌then◌else◌, Bytes, length,
}

-- No byte within the time, a byte, the end of the connection, or an error of recv, which leaves the character alone.
pub data Recv : Type 0 where
  timed_out : Recv
  byte : ℕ → Recv
  closed : Recv
  failed : Recv

-- `len - 1` of an unsigned long
unfoldable pub limit_of : ℕ → ℕ
limit_of len = if len == 0 then 18446744073709551615 else len - 1

unfoldable pub put_char : ℕ → Bytes → Bytes
put_char c buff = if c == b'\r' then buff else c ∷ buff

-- The test behind a character, on a buffer with its newest byte first: two newlines, or one for a single line.
unfoldable pub ended : Bool → Bytes → Bool
ended entire [] = false
ended entire (c ∷ []) = false
ended entire (c ∷ b ∷ buff) = if entire then c == b'\n' && b == b'\n' else c == b'\n'

-- The loop: ret, and the buffer with its newest byte first.
unfoldable pub read_loop : Bool → ℕ → ℕ → Bytes → List Recv → Bool × Bytes
read_loop entire limit c buff [] = (false, buff)
read_loop entire limit c buff (timed_out ∷ net) = (false, buff)
read_loop entire limit c buff (closed ∷ net) = (false, buff)
read_loop entire limit c buff (failed ∷ net) =
    if ltb (length buff) limit
    then (ended entire (put_char c buff), put_char c buff)
    else (false, buff)
read_loop entire limit c buff (byte c' ∷ net) =
    let rest = read_loop entire limit c' (put_char c' buff) net in
    if ltb (length buff) limit
    then if ended entire (put_char c' buff) then (true, put_char c' buff) else rest
    else (false, buff)

-- The bytes in their order, before those of the second argument.
unfoldable pub in_order : Bytes → Bytes → Bytes
in_order [] after = after
in_order (c ∷ buff) after = in_order buff (c ∷ after)

unfoldable pub result_of : Bool × Bytes → Option Bytes
result_of (false, buff) = none
result_of (true, buff) = some (in_order buff [])

-- What stands in the buffer when it returns 1, before the NUL that it puts there; NULL when it returns 0.
unfoldable pub util_read_header : Bool → ℕ → ℕ → List Recv → Option Bytes
util_read_header entire len c net = result_of (read_loop entire (limit_of len) c [] net)
