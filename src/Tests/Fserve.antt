-- ===== src/Tests/Fserve.antt =====
-- src/fserve.c: ranges, and a range that is served.
use checkedc_icecast.Base.{
  ℕ, zero, suc, ◌-◌, ◌<◌, ◌≡◌, refl, ap, true, List, [], ◌∷◌, ◌++◌, none, some, Bytes, All, codes,
  arith, length, drop, case_eq, bytes_eq, str_rchr,
}
use checkedc_icecast.Base.Number.{decimal, digits_value, is_digit, is_blank}
use checkedc_icecast.Util.Headers.{
  Response, Server, build_headers, challenge, contenttype_buffer, data_part, header_text, snprintf,
  status_buffer,
}
use checkedc_icecast.Fserve.{
  FileConfig, FserveClient, sends_buffer, sends_playlist, from, unsatisfiable, answer_range,
  answer_missing, range_of, ends, fserve_content_type, or_basic, response_of, before_dot, xslt_of,
  scan_long, scan_digits, start_of, negated, positive,
}
use checkedc_icecast.Fserve.MimeTypes.{
  fserve_recheck_mime_types, is_skipped, ends_type, ends_word, is_gap,
}
use checkedc_icecast.Fserve.MimeTypes.Lines.{Entry, IsType, AreExts, IsWord, render}
use checkedc_icecast.Fserve.MimeTypes.Lookup.{AreEntries, last_type, content_type-last_type, lists}
use checkedc_icecast.Httpp.Tree.{list_tree}
use mathlib.Core.List.{map}
use checkedc_icecast.Util.Path.{util_get_extension}
use checkedc_icecast.Fserve.Serving.{handed_over, range-served, range_lines, serve_all}

abbrev server : Server
server = record {
  server_id = codes "Icecast";
  currenttime_buffer = [];
  config_headers = [];
  mount_headers = [];
}

abbrev files : FileConfig
files = record {
  fileserve = true;
  webroot = codes "web";
  hostname = codes "radio";
  port = 8000;
  server = server;
}

middle : range_of 10 (some (codes "Bytes= +4-")) ≡ from 4
unfolding range_of case_eq start_of scan_long is_blank positive scan_digits is_digit digits_value
middle = refl

at_the_end : range_of 10 (some (codes "bytes=10-")) ≡ from 10
unfolding range_of case_eq start_of scan_long is_blank positive scan_digits is_digit digits_value
at_the_end = refl

negative : range_of 10 (some (codes "bytes=-5")) ≡ unsatisfiable
unfolding range_of case_eq start_of scan_long is_blank negated scan_digits is_digit digits_value
negative = refl

other_unit : range_of 10 (some (codes "lines=1-")) ≡ unsatisfiable
unfolding range_of case_eq
other_unit = refl

playlist :
    answer_missing files none (codes "/a.b.xspf") (codes "xspf")
    ≡ sends_playlist (codes "xspf.xsl") (codes "/a.b")
unfolding answer_missing bytes_eq xslt_of before_dot str_rchr
playlist = refl

abbrev turns : ℕ → List ℕ
turns zero = []
turns (suc n) = 1 ∷ turns n

length-turns : (n : ℕ) → length (turns n) ≡ n
length-turns zero = refl
length-turns (suc n) = ap suc (length-turns n)

turns-All : (n : ℕ) → All (λ k. 0 < k) (turns n)
turns-All zero = tt
turns-All (suc n) = (omega arith, turns-All n)

abbrev mpeg : Response
mpeg = response_of 206 (codes "audio/mpeg") none

abbrev song : Bytes
song = codes "abcdef"

range-served_example :
    (text : Bytes) × (d : FserveClient) × (answer_range files (codes "audio/mpeg") song (from 2)
      ≡ sends_buffer text (some (drop 2 song)))
    × (serve_all (handed_over text (some (drop 2 song))) (turns 5000) ≡ ends d)
    × (d.sent
        ≡ (header_text server mpeg
            ++ snprintf (4096 - length (header_text server mpeg)) (range_lines (drop 2 song) 2 6))
          ++ drop 2 song)
unfolding response_of header_text build_headers status_buffer decimal contenttype_buffer challenge
    data_part
range-served_example =
    range-served files (codes "audio/mpeg") song 2 (turns 5000) (omega arith) (omega arith)
      (turns-All 5000) (omega (arith, length-turns 5000))

-- A line with two extensions, and another type behind it for the second.
abbrev entries : List Entry
entries =
    record { type = codes "a/o"; ext = codes "og"; exts = codes "mp3" ∷ []; behind = codes "x" }
    ∷ record { type = codes "a/m"; ext = codes "mp3"; exts = []; behind = [] }
    ∷ []

entries-AreEntries : AreEntries list_tree entries
unfolding AreEntries IsType AreExts IsWord is_skipped ends_type ends_word is_gap
entries-AreEntries = (
  (
    ((refl, (refl, (refl, tt))), refl),
    ((λ e. cc), (refl, (refl, tt)), ((λ e. cc), (refl, (refl, (refl, tt))), tt)),
  ),
  ((((refl, (refl, (refl, tt))), refl), ((λ e. cc), (refl, (refl, (refl, tt))), tt)), tt),
)

last_line : last_type entries (codes "mp3") none ≡ some (codes "a/m")
unfolding last_type lists bytes_eq
last_line = refl

content_type-last_type_example :
    fserve_content_type list_tree
      (some (fserve_recheck_mime_types list_tree (map render entries)))
      (codes "/s.mp3")
    ≡ or_basic
        (last_type entries (util_get_extension (codes "/s.mp3")) none)
        (util_get_extension (codes "/s.mp3"))
content_type-last_type_example =
    content_type-last_type list_tree entries (codes "/s.mp3") entries-AreEntries
