-- ===== src/Connection/Requests/Search.antt =====
-- src/connection.c: the searches for a text in what was read so far and in all of it.
use checkedc_icecast.Base.{
  ℕ, ◌+◌, ◌-◌, ◌≤◌, ◌≡◌, refl, sym, ap, ◌∙◌, inl, inr, true, false, ◌&&◌, [], ◌∷◌, ◌++◌, Option,
  none, some, ◌==◌, Bytes, IsText, c_string, has_prefix, length, length-append, arith, Bool-cases,
  Option-cases, some_path, append-nil,
}
use checkedc_icecast.Mp3.Filter.{str_str}
use checkedc_icecast.Connection.Requests.{end_of, behind}

none-some : (n : Bytes) → ¬ (none ≡ some n)
none-some n e =
    omega (arith, ap (λ (o : Option Bytes). elim o as (λ _. ℕ) [ none ↦ 0 | some x ↦ 1 ]) e)

prefix-same : (t q k : Bytes) → length k ≤ length t → has_prefix (t ++ q) k ≡ has_prefix t k
unfolding has_prefix
prefix-same t q [] h = refl
prefix-same [] q (d ∷ k) h = absurd (omega arith)
prefix-same (c ∷ t) q (d ∷ k) h = ap (λ b. (c == d) && b) (prefix-same t q k (omega arith))

prefix-le : (t k : Bytes) → has_prefix t k ≡ true → length k ≤ length t
unfolding has_prefix
prefix-le t [] h = omega arith
prefix-le [] (d ∷ k) h = absurd (ground arith)
prefix-le (c ∷ t) (d ∷ k) h = ground (arith, prefix-le t k)

str_str-le : (t k r : Bytes) → str_str t k ≡ some r → (length k ≤ length r) × (length r ≤ length t)
unfolding str_str
str_str-le [] k r e = elim (Bool-cases (has_prefix [] k)) [
  | inl y ↦
      let same = some_path [] r (rw y at e) in
      (rw (← same) (prefix-le [] k y), rw (← same) (omega arith))
  | inr n ↦ absurd (none-some r (rw n at e))
]
str_str-le (c ∷ t) k r e = elim (Bool-cases (has_prefix (c ∷ t) k)) [
  | inl y ↦
      let same = some_path (c ∷ t) r (rw y at e) in
      (rw (← same) (prefix-le (c ∷ t) k y), rw (← same) (omega arith))
  | inr n ↦ let ih = str_str-le t k r (rw n at e) in (ih.0, omega (arith, ih.1))
]

str_str-append : (t q k r : Bytes) → str_str t k ≡ some r → str_str (t ++ q) k ≡ some (r ++ q)
unfolding str_str has_prefix
str_str-append [] [] k r e = e ∙ ap some (sym (append-nil r))
str_str-append [] (x ∷ q) [] r e = ap (λ s. some (s ++ x ∷ q)) (some_path [] r e)
str_str-append [] (x ∷ q) (d ∷ k) r e = absurd (none-some r e)
str_str-append (c ∷ t) q k r e = elim (Bool-cases (has_prefix (c ∷ t) k)) [
  | inl y ↦
      rw (prefix-same (c ∷ t) q k (prefix-le (c ∷ t) k y), y)
        (ap (λ s. some (s ++ q)) (some_path (c ∷ t) r (rw y at e)))
  | inr n ↦
      let found : str_str t k ≡ some r = rw n at e in
      let le = str_str-le t k r found in
      rw (prefix-same (c ∷ t) q k (omega (arith, le)), n) (str_str-append t q k r found)
]

pub str_str-prefix : (t q k : Bytes) → str_str (t ++ q) k ≡ none → str_str t k ≡ none
str_str-prefix t q k e = elim (Option-cases (str_str t k)) [
  | inl n ↦ n
  | inr (r, f) ↦ absurd (none-some (r ++ q) (sym e ∙ str_str-append t q k r f))
]

none-number : (n : ℕ) → ¬ (none ≡ some n)
none-number n e =
    omega (arith, ap (λ (o : Option ℕ). elim o as (λ _. ℕ) [ none ↦ 0 | some x ↦ 1 ]) e)

behind-some :
    (t k : Bytes) (n : ℕ)
    → behind t k ≡ some n
    → (r : Bytes) × (str_str t k ≡ some r) × (length t - length r + length k ≡ n)
unfolding behind end_of
behind-some t k n e = elim (Option-cases (str_str t k)) [
  | inl f ↦ absurd (none-number n (sym (ap (end_of t k) f) ∙ e))
  | inr (r, f) ↦ (r, f, some_path _ n (sym (ap (end_of t k) f) ∙ e))
]

pub behind-le : (t k : Bytes) (n : ℕ) → behind t k ≡ some n → n ≤ length t
behind-le t k n e =
    let b = behind-some t k n e in let le = str_str-le t k b.0 b.1 in omega (arith, b.2, le)

pub behind-append : (t q k : Bytes) (n : ℕ) → behind t k ≡ some n → behind (t ++ q) k ≡ some n
unfolding behind end_of
behind-append t q k n e =
    let b = behind-some t k n e in
    let le = str_str-le t k b.0 b.1 in
    ap (end_of (t ++ q) k) (str_str-append t q k b.0 b.1)
    ∙ ap some (omega (arith, b.2, le, length-append t q, length-append b.0 q))

pub behind-none : (t k : Bytes) → str_str t k ≡ none → behind t k ≡ none
unfolding behind end_of
behind-none t k e = ap (end_of t k) e

pub c_string-prefix : (s t : Bytes) → (r : Bytes) × (c_string (s ++ t) ≡ c_string s ++ r)
unfolding c_string
c_string-prefix [] t = (c_string t, refl)
c_string-prefix (c ∷ s) t = elim (Bool-cases (c == 0)) [
  | inl z ↦ ([], rw z refl)
  | inr n ↦ let ih = c_string-prefix s t in (ih.0, rw n (ap (◌∷◌ c) ih.1))
]

pub c_string-text : (s t : Bytes) → IsText s → c_string (s ++ t) ≡ s ++ c_string t
unfolding c_string
c_string-text [] t h = refl
c_string-text (c ∷ s) t h =
    let on : (c == 0) ≡ false = ground arith in rw on (ap (◌∷◌ c) (c_string-text s t h.1))

-- Where one of two cuts of a text lies before the other.
