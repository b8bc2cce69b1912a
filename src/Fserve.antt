-- ===== src/Fserve.antt =====
-- src/fserve.c and src/format.c: the file server. A client of it is answered by the buffers that it came with and the
-- rest of its file. What the file system says of a path is an argument, and so is what the network takes of each send.
pub mod Serving
pub mod MimeTypes
use checkedc_icecast.Base.{
  ℕ, zero, suc, ◌+◌, ◌-◌, ◌≤◌, Bool, true, false, not, ◌&&◌, ◌||◌, List, [], ◌∷◌, ◌++◌, Option,
  none, some, ◌==◌, ltb, leb, if◌then◌else◌, Bytes, bytes_eq, case_eq, codes, has_prefix, str_chr,
  str_rchr, length, take, drop,
}
use checkedc_icecast.Base.Number.{ℤ, pos, negsuc, sub_ℕ, is_digit, is_blank, digits_value, decimal}
use checkedc_icecast.Httpp.Tree.{VarTree}
use checkedc_icecast.Httpp.Vars.{HttpParser, httpp_getvar, value_of}
use checkedc_icecast.Util.Headers.{Server, Response, snprintf, header_text}
use checkedc_icecast.Util.Path.{util_get_extension, util_get_path_from_normalised_uri}

-- What stat and fopen find at a path.
pub data FoundFile : Type 0 where
  missing : FoundFile
  special : FoundFile
  unreadable : FoundFile
  readable : Bytes → FoundFile

-- The fields of ice_config_t that are read, with what the headers of an answer are made of.
pub record FileConfig : Type 0 where
  pub fileserve : Bool
  pub webroot : Bytes
  pub hostname : Bytes
  pub port : ℕ
  pub server : Server

-- A status that is sent, a playlist by XSLT for the mount of that name, or the text that goes to the client
-- with what is left of a file.
pub data Answer : Type 0 where
  sends_error : ℕ → Answer
  sends_playlist : Bytes → Bytes → Answer
  sends_buffer : Bytes → Option Bytes → Answer

-- Where a range starts; without one, at the beginning.
pub data Range : Type 0 where
  whole : Range
  from : ℕ → Range
  unsatisfiable : Range

unfoldable pub scan_digits : Bytes → Option ℕ
scan_digits [] = none
scan_digits (c ∷ s) = if is_digit c then some (digits_value 0 (c ∷ s)) else none

unfoldable pub negated : Option ℕ → Option ℤ
negated none = none
negated (some n) = some (sub_ℕ 0 n)

unfoldable pub positive : Option ℕ → Option ℤ
positive none = none
positive (some n) = some (pos n)

-- `sscanf (s, "%ld-", &n) == 1`: blanks, a sign, digits.
unfoldable pub scan_long : Bytes → Option ℤ
scan_long [] = none
scan_long (c ∷ s) =
    let rest = scan_long s in
    if is_blank c
    then rest
    else if c == b'-'
    then negated (scan_digits s)
    else if c == b'+'
    then positive (scan_digits s)
    else positive (scan_digits (c ∷ s))

-- A start that is negative or behind the end is refused.
unfoldable pub start_of : ℕ → Option ℤ → Range
start_of content_length none = unsatisfiable
start_of content_length (some (pos n)) = if leb n content_length then from n else unsatisfiable
start_of content_length (some (negsuc n)) = unsatisfiable

unfoldable pub range_of : ℕ → Option Bytes → Range
range_of content_length none = whole
range_of content_length (some range) =
    if case_eq (take 6 range) (codes "bytes=")
    then start_of content_length (scan_long (drop 6 range))
    else unsatisfiable

-- `endpos`, which is not negative.
unfoldable pub end_position : ℕ → ℕ → ℕ
end_position start new_content_len = start + new_content_len - 1

unfoldable pub range_text : ℕ → ℕ → Bytes
range_text start content_length =
    let n = content_length - start in
    codes "Accept-Ranges: bytes\r\nContent-Length: "
    ++ (decimal n
        ++ (codes "\r\nContent-Range: bytes "
            ++ (decimal start
                ++ (b'-'
                    ∷ (decimal (end_position start n)
                        ++ b'/' ∷ (decimal content_length ++ codes "\r\n\r\n"))))))

unfoldable pub length_text : ℕ → Bytes
length_text content_length =
    codes "Accept-Ranges: bytes\r\nContent-Length: " ++ (decimal content_length ++ codes "\r\n\r\n")

unfoldable pub response_of : ℕ → Bytes → Option Bytes → Response
response_of status type datablock = record {
  cache = false;
  status = some status;
  statusmsg = none;
  contenttype = some type;
  charset = none;
  datablock = datablock;
}

-- The headers with a text behind them. At least 512 bytes of the buffer have to be left.
unfoldable pub with_headers : FileConfig → Response → Bytes → Option Bytes → Answer
with_headers config response text file =
    let header = header_text config.server response in
    if leb 3584 (length header)
    then sends_error 500
    else sends_buffer (header ++ snprintf (4096 - length header) text) file

unfoldable pub answer_range : FileConfig → Bytes → Bytes → Range → Answer
answer_range config type content whole =
    with_headers config (response_of 200 type none) (length_text (length content)) (some content)
answer_range config type content (from n) =
    with_headers config (response_of 206 type none) (range_text n (length content))
      (some (drop n content))
answer_range config type content unsatisfiable = sends_error 416

-- The path up to its last dot.
unfoldable pub before_dot : Bytes → Bytes
before_dot path = elim (str_rchr path b'.') as (λ _. Bytes) [
  | none ↦ path
  | some ext ↦ take (length path - length ext) path
]

-- A host without a port is passed over.
unfoldable pub host_text : FileConfig → Option Bytes → Bytes
host_text config none = config.hostname ++ b':' ∷ decimal config.port
host_text config (some host) = elim (str_chr host b':') as (λ _. Bytes) [
  | none ↦ config.hostname ++ b':' ∷ decimal config.port
  | some port ↦ host
]

unfoldable pub answer_m3u : FileConfig → Option Bytes → Bytes → Answer
answer_m3u config host path =
    with_headers config (response_of 200 (codes "audio/x-mpegurl") (some []))
      (codes "http://" ++ (host_text config host ++ (before_dot path ++ codes "\r\n"))) none

unfoldable pub xslt_of : Bytes → Option Bytes
xslt_of ext =
    if bytes_eq ext (codes "vclt")
    then some (codes "vclt.xsl")
    else if bytes_eq ext (codes "xspf")
    then some (codes "xspf.xsl")
    else none

-- There is no file: a playlist can be made.
unfoldable pub answer_missing : FileConfig → Option Bytes → Bytes → Bytes → Answer
answer_missing config host path ext =
    if bytes_eq ext (codes "m3u")
    then answer_m3u config host path
    else elim (xslt_of ext) as (λ _. Answer) [
      | none ↦ sends_error 404
      | some xslt ↦ sends_playlist xslt (before_dot path)
    ]

unfoldable pub basic_type : Bytes → Bytes
basic_type ext =
    if bytes_eq ext (codes "ogg")
    then codes "application/ogg"
    else if bytes_eq ext (codes "mp3")
    then codes "audio/mpeg"
    else if bytes_eq ext (codes "html")
    then codes "text/html"
    else if bytes_eq ext (codes "css")
    then codes "text/css"
    else if bytes_eq ext (codes "txt")
    then codes "text/plain"
    else if bytes_eq ext (codes "jpg")
    then codes "image/jpeg"
    else if bytes_eq ext (codes "png")
    then codes "image/png"
    else if bytes_eq ext (codes "m3u")
    then codes "audio/x-mpegurl"
    else if bytes_eq ext (codes "aac")
    then codes "audio/aac"
    else codes "application/octet-stream"

unfoldable pub or_basic : Option Bytes → Bytes → Bytes
or_basic none ext = basic_type ext
or_basic (some type) ext = type

module _ (T : VarTree) where
  open T use {Tree, avl_get_by_key}

  -- The types that a file gave, if it was read, and else the basic ones.
  unfoldable pub fserve_content_type : Option Tree → Bytes → Bytes
  fserve_content_type none path = basic_type (util_get_extension path)
  fserve_content_type (some mimetypes) path =
      let ext = util_get_extension path in or_basic (value_of (avl_get_by_key ext mimetypes)) ext

  unfoldable pub answer_file : FileConfig → Option Tree → HttpParser Tree → Bytes → Bytes → Answer
  answer_file config mimetypes parser path content =
      answer_range config (fserve_content_type mimetypes path) content
        (range_of (length content) (httpp_getvar T parser (codes "range")))

  unfoldable pub answer_found :
      FileConfig → Option Tree → HttpParser Tree → Bytes → FoundFile → Answer
  answer_found config mimetypes parser path (readable content) =
      if config.fileserve then answer_file config mimetypes parser path content else sends_error 404
  answer_found config mimetypes parser path missing =
      answer_missing config (httpp_getvar T parser (codes "host")) path
        (util_get_extension (util_get_path_from_normalised_uri config.webroot path))
  answer_found config mimetypes parser path other = sends_error 404

  unfoldable pub fserve_client_create :
      FileConfig → Option Tree → (Bytes → FoundFile) → HttpParser Tree → Bytes → Answer
  fserve_client_create config mimetypes files parser path =
      answer_found config mimetypes parser path
        (files (util_get_path_from_normalised_uri config.webroot path))

-- fserve_t and its client: the buffer and those behind it, the place in it, what is left of the file, and what
-- the network took.
pub record FserveClient : Type 0 where
  pub refbuf : Bytes
  pub next : List Bytes
  pub pos : ℕ
  pub file : Option Bytes
  pub sent : Bytes

-- What the network makes of a send: it takes some of the bytes, nothing for now, or the client is lost.
pub data Sending : Type 0 where
  takes : ℕ → Sending
  blocks : Sending
  breaks : Sending

pub data Turn : Type 0 where
  goes_on : FserveClient → Turn
  ends : FserveClient → Turn

unfoldable pub read_file : Option Bytes → Bytes × Option Bytes
read_file none = ([], none)
read_file (some file) = (take 4096 file, some (drop 4096 file))

-- The next bytes: of the file, or the next buffer. Without either the client is through.
unfoldable pub next_chunk : FserveClient → Bytes × Option Bytes → List Bytes → Turn
next_chunk c (b ∷ bytes, file) next =
    goes_on (record c { refbuf = b ∷ bytes; pos = 0; file = file })
next_chunk c ([], file) [] = ends c
next_chunk c ([], file) (r ∷ next) =
    goes_on (record c { refbuf = r; next = next; pos = 0; file = file })

unfoldable pub fetch : FserveClient → Turn
fetch c = if c.pos == length c.refbuf then next_chunk c (read_file c.file) c.next else goes_on c

unfoldable pub format_generic_write_to_client : FserveClient → Sending → Turn
format_generic_write_to_client c (takes n) =
    let bytes = take n (drop c.pos c.refbuf) in
    goes_on (record c { pos = c.pos + length bytes; sent = c.sent ++ bytes })
format_generic_write_to_client c blocks = goes_on c
format_generic_write_to_client c breaks = ends c

unfoldable pub and_send : Turn → Sending → Turn
and_send (ends c) sending = ends c
and_send (goes_on c) sending = format_generic_write_to_client c sending

-- A turn of a client that is ready.
unfoldable pub serve : FserveClient → Sending → Turn
serve c sending = and_send (fetch c) sending
