-- ===== src/Util/Headers/Build.antt =====
-- src/util.c: what the response header holds, and what its fixed buffers cut off.
use checkedc_icecast.Base.{
  ℕ, zero, suc, ◌^◌, ◌+◌, ◌-◌, ◌≤◌, ◌<◌, ◌≡◌, refl, sym, ap, inl, inr, ◌∙◌, List, [], ◌∷◌, ◌++◌,
  Option, none, some, arith, if◌then◌else◌, Bool-cases, Bytes, codes, length, take, length-append,
  append_assoc, append-nil, take-append, take_all,
}
use checkedc_icecast.Util.Headers.{
  HttpHeader, HeaderText, is_wanted, append_header, build_headers_loop, build_headers,
  contenttype_buffer, Server, Response, header_text, start_offset, room, print_at,
  util_http_build_header,
}

-- The header lines that a list stands for under a status, written independently of the buffer.
pub header_line : Option Bytes → Option Bytes → Bytes
header_line (some name) (some value) = name ++ (codes ": " ++ (value ++ codes "\r\n"))
header_line (some name) none = []
header_line none value = []

pub header_lines : List HttpHeader → Option ℕ → Bytes
header_lines [] status = []
header_lines (h ∷ headers) status =
    (if is_wanted h status then header_line h.name h.value else []) ++ header_lines headers status

append_header-line :
    (r : HeaderText) (name value : Option Bytes)
    → ((append_header r name value).text ≡ r.text ++ header_line name value)
      × ((append_header r name value).len + length r.text
          ≡ r.len + length (append_header r name value).text)
unfolding append_header header_line
append_header-line r none value = (sym (append-nil r.text), refl)
append_header-line r (some name) none = (sym (append-nil r.text), refl)
append_header-line r (some name) (some value) = (
  refl,
  omega (
    arith,
    length-append r.text (name ++ (codes ": " ++ (value ++ codes "\r\n"))),
    length-append name (codes ": " ++ (value ++ codes "\r\n")),
    length-append value (codes "\r\n"),
  ),
)

-- `*len` counts the text and its terminator.
abbrev IsCounted : HeaderText → Type 0
IsCounted r = r.len ≡ length r.text + 1

append_header-IsCounted :
    (r : HeaderText) (name value : Option Bytes)
    → IsCounted r
    → IsCounted (append_header r name value)
append_header-IsCounted r name value h = omega (arith, (append_header-line r name value).1)

loop_lines :
    (r : HeaderText) (headers : List HttpHeader) (status : Option ℕ)
    → IsCounted r
    → ((build_headers_loop r headers status).text ≡ r.text ++ header_lines headers status)
      × IsCounted (build_headers_loop r headers status)
unfolding build_headers_loop header_lines
loop_lines r [] status h = (sym (append-nil r.text), h)
loop_lines r (x ∷ headers) status h = elim (Bool-cases (is_wanted x status)) [
  | inl e ↦
      rw (e, build_headers_loop)
        (let ih =
            loop_lines (append_header r x.name x.value) headers status
              (append_header-IsCounted r x.name x.value h) in
          (
            ih.0
                ∙ ap (λ t. t ++ header_lines headers status) (append_header-line r x.name x.value).0
                ∙ append_assoc r.text (header_line x.name x.value) (header_lines headers status),
            ih.1,
          ))
  | inr e ↦ rw (e, build_headers_loop) (loop_lines r headers status h)
]

-- _build_headers writes one line for each header of the configuration and then of the mount whose
-- status is 0 or the response's and that has a name and a value, in order; and the size that it
-- asks of realloc is that of the text with its terminator.
pub build_headers-lines :
    (status : Option ℕ) (config_headers mount_headers : List HttpHeader)
    → ((build_headers status config_headers mount_headers).text
        ≡ header_lines config_headers status ++ header_lines mount_headers status)
      × ((build_headers status config_headers mount_headers).len
          ≡ length (build_headers status config_headers mount_headers).text + 1)
unfolding build_headers
build_headers-lines status config_headers mount_headers =
    let first = loop_lines (record { text = []; len = 1 }) config_headers status (omega arith) in
    let second = loop_lines _ mount_headers status first.1 in
    (second.0 ∙ ap (λ t. t ++ header_lines mount_headers status) first.0, second.1)

-- A content type of 65 bytes or more, with no charset, fills the 80 bytes of its buffer: the
-- buffer ends inside the content type, without the end of the line.
pub contenttype_cut :
    (contenttype : Bytes)
    → 65 ≤ length contenttype
    → contenttype_buffer (some contenttype) none ≡ codes "Content-Type: " ++ take 65 contenttype
unfolding contenttype_buffer
contenttype_cut contenttype h =
    ap (λ t. codes "Content-Type: " ++ t) (take-append 65 contenttype (codes "\r\n") h)

room-within : (len offset : ℕ) → len < 2 ^ 64 → offset ≤ len → room len offset ≡ len - offset
unfolding room
room-within len offset h k = omega arith

print_at-whole :
    (out text : Bytes) (offset size : ℕ)
    → length text < size
    → print_at out offset size text ≡ take offset out ++ text
unfolding print_at
print_at-whole out text offset zero h = absurd (omega arith)
print_at-whole out text offset (suc size) h =
    ap (λ t. take offset out ++ t) (take_all (suc size - 1) text (omega arith))

-- Where the buffer's size is a size_t and the header is shorter than the room behind the offset,
-- the buffer holds what stood before the offset and then the whole header, and the header's length
-- is returned.
pub http_build_header_fits :
    (v : Server) (out : Bytes) (len offset : ℕ) (r : Response)
    → len < 2 ^ 64
    → length (header_text v r) < len - offset
    → util_http_build_header v (some out) len (some offset) r
      ≡ some (take offset out ++ header_text v r, length (header_text v r))
unfolding util_http_build_header start_offset
http_build_header_fits v out len offset r h k = rw (
  room-within len offset h (omega arith),
  print_at-whole out (header_text v r) offset (len - offset) k,
)
