-- ===== src/Stats/Words.antt =====
-- src/stats.c: the int and int64_t of its counters, integers that wrap around, where C leaves overflow
-- undefined; and the numbers that glibc's atoll and atoi read, which stop at the ends of a long, for atoi cast to int.
use checkedc_icecast.Base.{
  ℕ, ◌+◌, ◌-◌, ◌%◌, ◌≡◌, refl, sym, ap, ◌∙◌, inl, inr, true, arith, Bytes, ltb, leb, if◌then◌else◌,
  Bool-cases,
}
use checkedc_icecast.Base.Number.{ℤ, pos, negsuc, sub_ℕ, ◌+ℤ◌, ◌-ℤ◌, atoi}

-- The number from 0 to 2 ^ 32 - 1 with the same bits.
unfoldable pub residue : ℤ → ℕ
residue (pos n) = n % 4294967296
residue (negsuc n) = 4294967295 - n % 4294967296

unfoldable pub signed : ℕ → ℤ
signed r = if ltb r 2147483648 then pos r else negsuc (4294967295 - r)

unfoldable pub to_int : ℤ → ℤ
to_int z = signed (residue z)

unfoldable pub to_int64 : ℤ → ℤ
to_int64 (pos n) =
    let r = n % 18446744073709551616 in
    if ltb r 9223372036854775808 then pos r else negsuc (18446744073709551615 - r)
to_int64 (negsuc n) =
    let r = n % 18446744073709551616 in
    if ltb r 9223372036854775808 then negsuc r else pos (18446744073709551615 - r)

-- What strtol makes of a number out of range.
unfoldable pub to_range : ℤ → ℤ
to_range (pos n) = pos (if ltb n 9223372036854775808 then n else 9223372036854775807)
to_range (negsuc n) = negsuc (if ltb n 9223372036854775808 then n else 9223372036854775807)

unfoldable pub atoll : Bytes → ℤ
atoll s = to_range (atoi s)

-- atoi, as a cast of strtol.
unfoldable pub int_of : Bytes → ℤ
int_of s = to_int (atoll s)

residue-signed : (r : ℕ) → ltb r 4294967296 ≡ true → residue (signed r) ≡ r
unfolding signed residue
residue-signed r h = elim (Bool-cases (ltb r 2147483648)) [
  | inl e ↦ rw (e) (ground arith)
  | inr e ↦ rw (e) (ground arith)
]

residue_low : (z : ℤ) → ltb (residue z) 4294967296 ≡ true
unfolding residue
residue_low (pos n) = ground arith
residue_low (negsuc n) = ground arith

residue-sub : (a b : ℕ) → residue (sub_ℕ a b) ≡ (a + (4294967296 - b % 4294967296)) % 4294967296
unfolding residue
residue-sub a b = elim (Bool-cases (leb b a)) [
  | inl e ↦ rw (e) (ground arith)
  | inr e ↦ rw (e) (ground arith)
]

residue-add : (a b : ℤ) → residue (a +ℤ b) ≡ (residue a + residue b) % 4294967296
unfolding ◌+ℤ◌ residue
residue-add (pos a) (pos b) = residue-sub _ _ ∙ (omega arith)
residue-add (pos a) (negsuc b) = residue-sub _ _ ∙ (omega arith)
residue-add (negsuc a) (pos b) = residue-sub _ _ ∙ (omega arith)
residue-add (negsuc a) (negsuc b) = residue-sub _ _ ∙ (omega arith)

residue-int : (z : ℤ) → residue (to_int z) ≡ residue z
unfolding to_int
residue-int z = residue-signed (residue z) (residue_low z)

-- A sum of ints is the sum of the integers that they were cast from.
int-sum : (a b : ℤ) → to_int (to_int a +ℤ to_int b) ≡ to_int (a +ℤ b)
unfolding to_int
int-sum a b = ap signed (
    residue-add (to_int a) (to_int b)
    ∙ ap (λ x. (x + residue (to_int b)) % 4294967296) (residue-int a)
    ∙ ap (λ x. (residue a + x) % 4294967296) (residue-int b)
    ∙ sym (residue-add a b))

pub int-add : (s t : Bytes) → to_int (int_of s +ℤ int_of t) ≡ to_int (atoll s +ℤ atoll t)
unfolding int_of
int-add s t = int-sum (atoll s) (atoll t)

pub int-inc : (s : Bytes) → to_int (int_of s +ℤ pos 1) ≡ to_int (atoll s +ℤ pos 1)
unfolding int_of to_int signed residue
int-inc s = int-sum (atoll s) (pos 1)

minus_one : (z : ℤ) → z -ℤ pos 1 ≡ z +ℤ negsuc 0
unfolding ◌-ℤ◌ ◌+ℤ◌
minus_one (pos n) = refl
minus_one (negsuc n) = refl

pub int-dec : (s : Bytes) → to_int (int_of s -ℤ pos 1) ≡ to_int (atoll s +ℤ negsuc 0)
unfolding int_of to_int ◌+ℤ◌ signed residue
int-dec s = ap to_int (minus_one (to_int (atoll s))) ∙ int-sum (atoll s) (negsuc 0)
