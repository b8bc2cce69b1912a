-- ===== src/Httpp/Lines.antt =====
-- src/httpp/httpp.c: the request cut into lines, and the `name: value` lines. `data` is the local copy of
-- the request, changed in place; `line[]` holds the offsets at which the lines begin.
pub mod Cut
use checkedc_icecast.Base.{
  ℕ, suc, zero, ◌+◌, ◌-◌, Bool, true, false, ◌||◌, List, [], ◌∷◌, Option, none, some, ◌==◌, leb,
  ltb, if◌then◌else◌, Bytes, c_string, to_lower, drop, take,
}
use mathlib.Core.List.{map}
use checkedc_icecast.Httpp.Tree.{VarTree}
use checkedc_icecast.Httpp.Vars.{HttpParser, httpp_setvar}

abbrev pub max_headers : ℕ
max_headers = 32

-- The line count, the changed data from where the loop stands, and the offsets of `line[1]` on.
pub record Split : Type 0 where
  pub lines : ℕ
  pub data_left : Bytes
  pub starts : List ℕ

abbrev pub keep : ℕ → Split → Split
keep c r = record r { data_left = c ∷ r.data_left }

abbrev pub mark : ℕ → Split → Split
mark i r = record r { starts = i ∷ r.starts }

-- `data[i + 1]` behind a newline: the end, a second line end, or the start of a line.
unfoldable pub at_newline : ℕ → ℕ → Bytes → Split → Split
at_newline i lines [] rest = record { lines = lines; data_left = 0 ∷ []; starts = [] }
at_newline i lines (d ∷ s) rest =
    if leb max_headers lines
    then record { lines = max_headers; data_left = 0 ∷ d ∷ s; starts = [] }
    else if d == b'\n' || d == b'\r'
    then record { lines = lines; data_left = 0 ∷ d ∷ s; starts = [] }
    else mark (i + 1) (keep 0 rest)

-- The loop from index `i`. No line end is left to find once 32 lines were counted, since the function
-- returns there.
unfoldable pub split_from : ℕ → ℕ → Bytes → Split
split_from i lines [] = record { lines = lines; data_left = []; starts = [] }
split_from i lines (c ∷ s) =
    let other = split_from (i + 1) lines s in
    let next_line = split_from (i + 1) (lines + 1) s in
    if c == b'\r'
    then keep 0 other
    else if c == b'\n'
    then at_newline i (lines + 1) s next_line
    else keep c other

unfoldable pub split_headers : Bytes → Split
unfolding split_from
split_headers content = split_from 0 0 content

-- The C string at an offset of the changed data.
unfoldable pub line_at : Bytes → ℕ → Bytes
line_at content start = c_string (drop start content)

-- The lines 1 to `lines - 1` that parse_headers visits.
unfoldable pub header_texts : Split → List Bytes
unfolding line_at
header_texts r = map (line_at r.data_left) (take (r.lines - 1) r.starts)

unfoldable pub lowercase : Bytes → Bytes
unfolding to_lower
lowercase s = map to_lower s

-- The name: the line up to its first colon, which is overwritten.
unfoldable pub header_name : Bytes → Bytes
header_name [] = []
header_name (c ∷ s) = if c == b':' then [] else c ∷ header_name s

unfoldable pub skip_spaces : Bytes → Bytes
skip_spaces [] = []
skip_spaces (c ∷ s) = if c == b' ' then skip_spaces s else c ∷ s

-- `if (i < slen) value = &thisline[i]`
unfoldable pub rest_value : Bytes → Option Bytes
rest_value [] = none
rest_value (c ∷ s) = some (c ∷ s)

-- The loop over a line; the flag is `whitespace`.
unfoldable pub scan_value : Bool → Bytes → Option Bytes
scan_value whitespace [] = none
scan_value whitespace (c ∷ s) =
    let colon = scan_value true s in
    let other = scan_value false s in
    if c == b':' then colon else if whitespace then rest_value (skip_spaces (c ∷ s)) else other

module _ (T : VarTree) where
  open T use {Tree}

  unfoldable pub parse_header_line : HttpParser Tree → Bytes → HttpParser Tree
  parse_header_line parser line =
      httpp_setvar T parser (lowercase (header_name line)) (scan_value false line)

  unfoldable pub parse_header_lines : HttpParser Tree → List Bytes → HttpParser Tree
  parse_header_lines parser [] = parser
  parse_header_lines parser (line ∷ lines) =
      parse_header_lines (parse_header_line parser line) lines

  unfoldable pub parse_headers : HttpParser Tree → Split → HttpParser Tree
  parse_headers parser r = parse_header_lines parser (header_texts r)
