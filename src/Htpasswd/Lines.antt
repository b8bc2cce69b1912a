-- ===== src/Htpasswd/Lines.antt =====
-- src/auth_htpasswd.c and get_line of src/util.c: the lines of a file that was written line by line.
use checkedc_icecast.Base.{
  ℕ, zero, suc, ◌≤◌, ◌<◌, ◌≡◌, ◌≢◌, refl, ap, ◌∙◌, List, [], ◌∷◌, ◌++◌, arith, Bytes, length, All,
  c_string, append_assoc,
}
use checkedc_icecast.Htpasswd.Entries.{push_char, fgets_all, strip_end, get_line, file_lines}

abbrev pub IsLineChar : ℕ → Type 0
IsLineChar c = (c ≢ 0) × (c ≢ b'\r') × (c ≢ b'\n')

-- A line that fgets reads whole into a buffer of 512 bytes.
abbrev pub IsFileLine : Bytes → Type 0
IsFileLine l = All IsLineChar l × (length l < 511)

unfoldable pub render_file : List Bytes → Bytes
render_file [] = []
render_file (l ∷ ls) = l ++ b'\n' ∷ render_file ls

fgets_line :
    (left : ℕ) (l s : Bytes)
    → All IsLineChar l
    → length l ≤ left
    → fgets_all left (l ++ b'\n' ∷ s) ≡ (l ++ b'\n' ∷ []) ∷ fgets_all 510 s
unfolding fgets_all push_char
fgets_line zero [] s h k = refl
fgets_line (suc left) [] s h k = refl
fgets_line zero (c ∷ l) s h k = absurd (omega arith)
fgets_line (suc left) (c ∷ l) s h k = ground (arith, fgets_line left l s h.1)

c_string-line : (l : Bytes) → All IsLineChar l → c_string (l ++ b'\n' ∷ []) ≡ l ++ b'\n' ∷ []
unfolding c_string
c_string-line [] h = refl
c_string-line (c ∷ l) h = ground (arith, c_string-line l h.1)

strip_end-line : (l : Bytes) → All IsLineChar l → strip_end (l ++ b'\n' ∷ []) ≡ l
unfolding strip_end
strip_end-line [] h = refl
strip_end-line (c ∷ []) h = ground arith
strip_end-line (c ∷ d ∷ []) h = ap (◌∷◌ c) (strip_end-line (d ∷ []) h.1)
strip_end-line (c ∷ d ∷ e ∷ l) h = ap (◌∷◌ c) (strip_end-line (d ∷ e ∷ l) h.1)

get_line-line : (l : Bytes) → All IsLineChar l → get_line (l ++ b'\n' ∷ []) ≡ l
unfolding get_line
get_line-line l h = ap strip_end (c_string-line l h) ∙ strip_end-line l h

-- A file of lines of less than 511 bytes, with no line end or NUL inside, is read back line by line as
-- it was written.
pub file_lines-render : (ls : List Bytes) → All IsFileLine ls → file_lines (render_file ls) ≡ ls
unfolding file_lines render_file fgets_all
file_lines-render [] h = refl
file_lines-render (l ∷ ls) h =
    rw (fgets_line 510 l (render_file ls) h.0.0 (omega arith), get_line-line l h.0.0)
      (ap (◌∷◌ l) (file_lines-render ls h.1))

pub render-append :
    (ls : List Bytes) (l : Bytes) → render_file ls ++ (l ++ b'\n' ∷ []) ≡ render_file (ls ++ l ∷ [])
unfolding render_file
render-append [] l = refl
render-append (m ∷ ls) l =
    append_assoc m (b'\n' ∷ render_file ls) (l ++ b'\n' ∷ [])
    ∙ ap (λ t. m ++ b'\n' ∷ t) (render-append ls l)
