-- ===== src/Util/ReadHeader/Shortest.antt =====
-- src/util.c: util_read_header as a search in the bytes that arrive.
use checkedc_icecast.Base.{
  ℕ, zero, suc, ◌+◌, ◌≤◌, ◌<◌, ◌-◌, ◌≡◌, refl, ◌∙◌, inl, inr, Bool, true, false, ◌&&◌, List, [],
  ◌∷◌, Option, none, some, ◌==◌, ltb, if◌then◌else◌, Bytes, length, take, Bool-cases, arith,
}
use checkedc_icecast.Util.ReadHeader.{
  Recv, timed_out, byte, closed, failed, limit_of, put_char, ended, read_loop, in_order, result_of,
  util_read_header,
}

-- What the loop takes for characters of the peer, without the carriage returns. After an error it takes the last
-- character once more.
pub arrived : ℕ → List Recv → Bytes
arrived c [] = []
arrived c (timed_out ∷ net) = []
arrived c (closed ∷ net) = []
arrived c (failed ∷ net) = if c == b'\r' then [] else c ∷ []
arrived c (byte c' ∷ net) = let rest = arrived c' net in if c' == b'\r' then rest else c' ∷ rest

before_all : ℕ → Option Bytes → Option Bytes
before_all c none = none
before_all c (some s) = some (c ∷ s)

-- Whether `b` behind `a` ends a header, or a single line.
ends : Bool → ℕ → ℕ → Bool
ends entire a b = if entire then b == b'\n' && a == b'\n' else b == b'\n'

-- The shortest beginning of a text that ends in an empty line; for a single line, the shortest one that ends in a
-- newline and is not only that.
pub shortest : Bool → Bytes → Option Bytes
shortest entire [] = none
shortest entire (a ∷ []) = none
shortest entire (a ∷ b ∷ text) =
    let rest = before_all a (shortest entire (b ∷ text)) in
    if ends entire a b then some (a ∷ b ∷ []) else rest

behind : Bytes → Option Bytes → Option Bytes
behind buff none = none
behind buff (some s) = some (in_order buff s)

behind-before :
    (a : ℕ) (buff : Bytes) (o : Option Bytes) → behind (a ∷ buff) o ≡ behind buff (before_all a o)
unfolding behind before_all in_order
behind-before a buff none = refl
behind-before a buff (some s) = refl

-- A character behind a buffer that has not ended.
char-shortest :
    (entire : Bool) (a x : ℕ) (buff text : Bytes) (more : Bool × Bytes)
    → (ended entire (x ∷ a ∷ buff) ≡ false
        → result_of more ≡ behind (a ∷ buff) (shortest entire (x ∷ text)))
    → result_of (if ended entire (x ∷ a ∷ buff) then (true, x ∷ a ∷ buff) else more)
      ≡ behind buff (shortest entire (a ∷ x ∷ text))
unfolding ends shortest behind ended result_of in_order
char-shortest entire a x buff text more h = elim (Bool-cases (ended entire (x ∷ a ∷ []))) [
  | inl e ↦ rw e refl
  | inr e ↦ rw e (h e ∙ behind-before a buff (shortest entire (x ∷ text)))
]

last-shortest :
    (entire : Bool) (a x : ℕ) (buff : Bytes) (room : ℕ)
    → result_of (ended entire (x ∷ a ∷ buff), x ∷ a ∷ buff)
      ≡ behind buff (shortest entire (a ∷ take (suc room) (x ∷ [])))
unfolding ends shortest behind before_all ended result_of in_order
last-shortest entire a x buff zero = elim (Bool-cases (ended entire (x ∷ a ∷ []))) [
  | inl e ↦ rw e refl
  | inr e ↦ rw e refl
]
last-shortest entire a x buff (suc room) = elim (Bool-cases (ended entire (x ∷ a ∷ []))) [
  | inl e ↦ rw e refl
  | inr e ↦ rw e refl
]

-- The loop with at least one byte in the buffer.
loop-shortest :
    (entire : Bool) (room limit c a : ℕ) (buff : Bytes) (net : List Recv)
    → limit ≡ room + length (a ∷ buff)
    → ended entire (a ∷ buff) ≡ false
    → result_of (read_loop entire limit c (a ∷ buff) net)
      ≡ behind buff (shortest entire (a ∷ take room (arrived c net)))
unfolding read_loop arrived ends shortest behind put_char ended result_of
loop-shortest entire zero limit c a buff [] l h = refl
loop-shortest entire (suc room) limit c a buff [] l h = refl
loop-shortest entire zero limit c a buff (timed_out ∷ net) l h = refl
loop-shortest entire (suc room) limit c a buff (timed_out ∷ net) l h = refl
loop-shortest entire zero limit c a buff (closed ∷ net) l h = refl
loop-shortest entire (suc room) limit c a buff (closed ∷ net) l h = refl
loop-shortest entire zero limit c a buff (failed ∷ net) l h =
    let full : ltb (length (a ∷ buff)) limit ≡ false = ground arith in rw full refl
loop-shortest entire zero limit c a buff (byte x ∷ net) l h =
    let full : ltb (length (a ∷ buff)) limit ≡ false = ground arith in rw full refl
loop-shortest entire (suc room) limit c a buff (failed ∷ net) l h =
    let free : ltb (length (a ∷ buff)) limit ≡ true = ground arith in
    elim (Bool-cases (c == b'\r')) [
      | inl e ↦ rw free (rw e (rw h refl))
      | inr e ↦ rw free (rw e (last-shortest entire a c buff room))
    ]
loop-shortest entire (suc room) limit c a buff (byte x ∷ net) l h =
    let free : ltb (length (a ∷ buff)) limit ≡ true = ground arith in
    elim (Bool-cases (x == b'\r')) [
      | inl e ↦ rw free (rw e (rw h (loop-shortest entire (suc room) limit x a buff net l h)))
      | inr e ↦ rw free (
          rw e (
            char-shortest entire a x buff (take room (arrived x net)) _
              (λ n. loop-shortest entire room limit x x (a ∷ buff) net (omega arith) n)))
    ]

one-short : (entire : Bool) (c limit : ℕ) → none ≡ shortest entire (take (suc limit) (c ∷ []))
unfolding ends shortest
one-short entire c zero = refl
one-short entire c (suc limit) = refl

behind-nothing : (o : Option Bytes) → behind [] o ≡ o
unfolding behind in_order
behind-nothing none = refl
behind-nothing (some s) = refl

-- The loop with an empty buffer.
empty-shortest :
    (entire : Bool) (limit c : ℕ) (net : List Recv)
    → result_of (read_loop entire limit c [] net) ≡ shortest entire (take limit (arrived c net))
unfolding read_loop arrived ends shortest behind put_char ended result_of
empty-shortest entire zero c [] = refl
empty-shortest entire (suc limit) c [] = refl
empty-shortest entire zero c (timed_out ∷ net) = refl
empty-shortest entire (suc limit) c (timed_out ∷ net) = refl
empty-shortest entire zero c (closed ∷ net) = refl
empty-shortest entire (suc limit) c (closed ∷ net) = refl
empty-shortest entire zero c (failed ∷ net) = refl
empty-shortest entire zero c (byte x ∷ net) = refl
empty-shortest entire (suc limit) c (failed ∷ net) =
    let free : ltb 0 (suc limit) ≡ true = ground arith in
    elim (Bool-cases (c == b'\r')) [
      | inl e ↦ rw free (rw e refl)
      | inr e ↦ rw free (rw e (one-short entire c limit))
    ]
empty-shortest entire (suc limit) c (byte x ∷ net) =
    let free : ltb 0 (suc limit) ≡ true = ground arith in
    elim (Bool-cases (x == b'\r')) [
      | inl e ↦ rw free (rw e (empty-shortest entire (suc limit) x net))
      | inr e ↦ rw free (
          rw e (
            loop-shortest entire limit (suc limit) x x [] net (omega arith) refl
            ∙ behind-nothing _))
    ]

put_char-fits :
    (x limit : ℕ) (buff : Bytes) → length buff < limit → length (put_char x buff) ≤ limit
unfolding put_char
put_char-fits x limit buff h = elim (Bool-cases (x == b'\r')) [
  | inl e ↦ rw e (omega arith)
  | inr e ↦ rw e (omega arith)
]

-- The bytes in the buffer.
loop-fits :
    (entire : Bool) (limit c : ℕ) (buff : Bytes) (net : List Recv)
    → length buff ≤ limit
    → length (read_loop entire limit c buff net).1 ≤ limit
unfolding read_loop
loop-fits entire limit c buff [] h = h
loop-fits entire limit c buff (timed_out ∷ net) h = h
loop-fits entire limit c buff (closed ∷ net) h = h
loop-fits entire limit c buff (failed ∷ net) h = elim (Bool-cases (ltb (length buff) limit)) [
  | inl b ↦ rw b (put_char-fits c limit buff (ground arith))
  | inr b ↦ rw b h
]
loop-fits entire limit c buff (byte x ∷ net) h = elim (Bool-cases (ltb (length buff) limit)) [
  | inl b ↦
      let fits = put_char-fits x limit buff (ground arith) in
      elim (Bool-cases (ended entire (put_char x buff))) [
        | inl e ↦ rw b (rw e fits)
        | inr e ↦ rw b (rw e (loop-fits entire limit x (put_char x buff) net fits))
      ]
  | inr b ↦ rw b h
]

limit_of_pos : (len : ℕ) → 0 < len → limit_of len ≡ len - 1
unfolding limit_of
limit_of_pos len h = ground arith

-- For a buffer of `len` bytes, not none, util_read_header gives the shortest beginning of what arrives that ends in an
-- empty line (for a single line: that ends in a newline and has two bytes or more), looked for in the first `len - 1` bytes
-- other than carriage returns, and nothing where there is none. An error of recv counts as the last byte once more.
-- What it writes and the NUL behind it fit into the buffer.
pub read_header-shortest :
    (entire : Bool) (len c : ℕ) (net : List Recv)
    → (0 < len)
    → (util_read_header entire len c net ≡ shortest entire (take (len - 1) (arrived c net)))
      × (length (read_loop entire (limit_of len) c [] net).1 < len)
unfolding util_read_header
read_header-shortest entire len c net h =
    let e = limit_of_pos len h in
    let fits = loop-fits entire (len - 1) c [] net (omega arith) in
    rw e (empty-shortest entire (len - 1) c net, (omega arith))
