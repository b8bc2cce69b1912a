-- ===== src/Httpp/Request/Words.antt =====
-- src/httpp/httpp.c: the scans of a request line and of a header line, on a text with its separator
-- written out.
use checkedc_icecast.Base.{
  ℕ, ◌≡◌, ◌≢◌, refl, true, false, [], ◌∷◌, ◌++◌, none, some, arith, Bytes, All, str_chr,
}
use checkedc_icecast.Httpp.Lines.{header_name, skip_spaces, rest_value, scan_value}
use checkedc_icecast.Httpp.Request.{word, words_from, before}

-- The bytes of a text are all other than `c`.
abbrev pub Lacks : ℕ → Bytes → Type 0
Lacks c = All (λ d. d ≢ c)

pub word-cut : (w s : Bytes) → Lacks b' ' w → word (w ++ b' ' ∷ s) ≡ w
unfolding word
word-cut [] s h = refl
word-cut (c ∷ w) s h = ground (arith, word-cut w s h.1)

pub word-all : (w : Bytes) → Lacks b' ' w → word w ≡ w
unfolding word
word-all [] h = refl
word-all (c ∷ w) h = ground (arith, word-all w h.1)

pub words-skip : (w s : Bytes) → Lacks b' ' w → words_from false (w ++ b' ' ∷ s) ≡ words_from true s
unfolding words_from
words-skip [] s h = refl
words-skip (c ∷ w) s h = ground (arith, words-skip w s h.1)

pub words-end : (w : Bytes) → Lacks b' ' w → words_from false w ≡ []
unfolding words_from
words-end [] h = refl
words-end (c ∷ w) h = ground (arith, words-end w h.1)

pub words-next :
    (w s : Bytes) → w ≢ [] → Lacks b' ' w → words_from true (w ++ b' ' ∷ s) ≡ w ∷ words_from true s
unfolding words_from
words-next [] s n h = absurd (n refl)
words-next (c ∷ w) s n h = ground (arith, word-cut (c ∷ w) s h, words-skip w s h.1)

pub words-last : (w : Bytes) → w ≢ [] → Lacks b' ' w → words_from true w ≡ w ∷ []
unfolding words_from
words-last [] n h = absurd (n refl)
words-last (c ∷ w) n h = ground (arith, word-all (c ∷ w) h, words-end w h.1)

pub before-cut : (c : ℕ) (w s : Bytes) → Lacks c w → before c (w ++ c ∷ s) ≡ w
unfolding before
before-cut c [] s h = ground arith
before-cut c (d ∷ w) s h = ground (arith, before-cut c w s h.1)

pub before-all : (c : ℕ) (w : Bytes) → Lacks c w → before c w ≡ w
unfolding before
before-all c [] h = refl
before-all c (d ∷ w) h = ground (arith, before-all c w h.1)

pub str_chr-cut : (c : ℕ) (w s : Bytes) → Lacks c w → str_chr (w ++ c ∷ s) c ≡ some (c ∷ s)
unfolding str_chr
str_chr-cut c [] s h = ground arith
str_chr-cut c (d ∷ w) s h = ground (arith, str_chr-cut c w s h.1)

pub str_chr-none : (c : ℕ) (w : Bytes) → Lacks c w → str_chr w c ≡ none
unfolding str_chr
str_chr-none c [] h = refl
str_chr-none c (d ∷ w) h = ground (arith, str_chr-none c w h.1)

pub name-cut : (w s : Bytes) → Lacks b':' w → header_name (w ++ b':' ∷ s) ≡ w
unfolding header_name
name-cut [] s h = refl
name-cut (c ∷ w) s h = ground (arith, name-cut w s h.1)

pub value-cut : (w s : Bytes) → Lacks b':' w → scan_value false (w ++ b':' ∷ s) ≡ scan_value true s
unfolding scan_value
value-cut [] s h = refl
value-cut (c ∷ w) s h = ground (arith, value-cut w s h.1)

-- A value that a header line carries: with a first byte that is no space.
abbrev pub IsValue : Bytes → Type 0
IsValue [] = ⊥
IsValue (c ∷ s) = c ≢ b' '

pub value-read : (v : Bytes) → IsValue v → scan_value true (b' ' ∷ v) ≡ some v
unfolding scan_value skip_spaces rest_value
value-read [] h = absurd h
value-read (c ∷ s) h = ground arith
