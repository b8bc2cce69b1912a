-- ===== src/Htpasswd/Entries.antt =====
-- src/auth_htpasswd.c, and get_line of src/util.c: the text of a file of users, its lines and their entries.
use checkedc_icecast.Base.{
  ℕ, zero, suc, ◌-◌, List, [], ◌∷◌, ◌++◌, Option, none, some, ◌==◌, if◌then◌else◌, Bytes, bytes_eq,
  c_string, str_chr,
}
use mathlib.Core.List.{map}
use checkedc_icecast.Httpp.Request.{before}

abbrev pub max_line_len : ℕ
max_line_len = 512

unfoldable pub push_char : ℕ → List Bytes → List Bytes
push_char c [] = (c ∷ []) ∷ []
push_char c (l ∷ ls) = (c ∷ l) ∷ ls

-- What successive fgets calls read: up to a newline, or as much as the room allows. `left` is the room
-- that is left after the next byte.
unfoldable pub fgets_all : ℕ → Bytes → List Bytes
fgets_all left [] = []
fgets_all zero (c ∷ s) = (c ∷ []) ∷ fgets_all (max_line_len - 2) s
fgets_all (suc left) (c ∷ s) =
    let fresh = fgets_all (max_line_len - 2) s in
    let more = fgets_all left s in if c == b'\n' then (c ∷ []) ∷ fresh else push_char c more

-- The end of a line is cut off: a newline, and a carriage return before it.
unfoldable pub strip_end : Bytes → Bytes
strip_end [] = []
strip_end (c ∷ []) = if c == b'\n' then [] else c ∷ []
strip_end (c ∷ d ∷ []) = if d == b'\n' then (if c == b'\r' then [] else c ∷ []) else c ∷ d ∷ []
strip_end (c ∷ d ∷ e ∷ s) = c ∷ strip_end (d ∷ e ∷ s)

unfoldable pub get_line : Bytes → Bytes
get_line buf = strip_end (c_string buf)

-- The lines that the loops over get_line see.
unfoldable pub file_lines : Bytes → List Bytes
file_lines content = map get_line (fgets_all (max_line_len - 2) content)

-- The text on both sides of the first colon; NULL for a line that is skipped.
unfoldable pub cut_entry : Bytes → Option Bytes → Option (Bytes × Bytes)
cut_entry line none = none
cut_entry line (some []) = none
cut_entry line (some (c ∷ pass)) = some (before b':' line, pass)

unfoldable pub read_user : Bytes → Option (Bytes × Bytes)
unfolding cut_entry
read_user [] = none
read_user (c ∷ line) = if c == b'#' then none else cut_entry (c ∷ line) (str_chr (c ∷ line) b':')

-- A line that the new file takes over, and the loop over the lines.
unfoldable pub copy_entry : Bytes → Bytes → Option (Bytes × Bytes) → Bytes
copy_entry username line none = []
copy_entry username line (some (name, pass)) =
    if bytes_eq username name then [] else line ++ b'\n' ∷ []

unfoldable pub copy_others : Bytes → List Bytes → Bytes
unfolding copy_entry
copy_others username [] = []
copy_others username (line ∷ lines) =
    copy_entry username line (read_user line) ++ copy_others username lines
