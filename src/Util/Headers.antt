-- ===== src/Util/Headers.antt =====
-- src/util.c: the response header. The clock's `Date` line, the server's id and the header lists of the
-- configuration and of the source's mount are arguments; a status of -1 is `none`, and header statuses
-- are not negative; an allocation succeeds.
pub mod Build
use checkedc_icecast.Base.Number.{decimal}
use checkedc_icecast.Base.{
  ℕ, suc, zero, ◌^◌, ◌+◌, ◌-◌, ◌/◌, ◌%◌, Bool, true, false, ◌||◌, List, [], ◌∷◌, ◌++◌, Option, none,
  some, ◌==◌, if◌then◌else◌, ltb, Bytes, codes, length, take,
}

-- ice_config_http_header_t; its only type is HTTP_HEADER_TYPE_STATIC.
pub record HttpHeader : Type 0 where
  pub name : Option Bytes
  pub value : Option Bytes
  pub status : ℕ

-- `*ret`, as the text before its terminator, and `*len`.
pub record HeaderText : Type 0 where
  pub text : Bytes
  pub len : ℕ

-- `header->status != 0 && header->status != status`, negated.
unfoldable pub is_wanted : HttpHeader → Option ℕ → Bool
is_wanted h none = h.status == 0
is_wanted h (some status) = h.status == 0 || h.status == status

unfoldable pub append_header : HeaderText → Option Bytes → Option Bytes → HeaderText
append_header r none value = r
append_header r (some name) none = r
append_header r (some name) (some value) = record {
  text = r.text ++ (name ++ (codes ": " ++ (value ++ b'\r' ∷ b'\n' ∷ [])));
  len = r.len + (length name + length value + 4);
}

unfoldable pub build_headers_loop : HeaderText → List HttpHeader → Option ℕ → HeaderText
unfolding append_header is_wanted
build_headers_loop r [] status = r
build_headers_loop r (h ∷ headers) status =
    build_headers_loop (if is_wanted h status then append_header r h.name h.value else r) headers
      status

unfoldable pub build_headers : Option ℕ → List HttpHeader → List HttpHeader → HeaderText
unfolding build_headers_loop
build_headers status config_headers mount_headers =
    build_headers_loop (build_headers_loop (record { text = []; len = 1 }) config_headers status)
      mount_headers status

-- `snprintf (buf, size, …)` of the full text: what is left in the buffer.
abbrev pub snprintf : ℕ → Bytes → Bytes
snprintf size text = take (size - 1) text

-- The switch on the status, with the protocol version that goes with it.
unfoldable pub status_text : ℕ → Bytes × Bytes
status_text status =
    if status == 200
    then (codes "1.0", codes "OK")
    else if status == 206
    then (codes "1.1", codes "Partial Content")
    else if status == 400
    then (codes "1.0", codes "Bad Request")
    else if status == 401
    then (codes "1.0", codes "Authentication Required")
    else if status == 403
    then (codes "1.0", codes "Forbidden")
    else if status == 404
    then (codes "1.0", codes "File Not Found")
    else if status == 416
    then (codes "1.0", codes "Request Range Not Satisfiable")
    else (codes "1.0", codes "(unknown status code)")

unfoldable pub status_line : Bytes × Bytes → ℕ → Bytes
status_line (version, message) status =
    codes "HTTP/" ++ (version ++ (b' ' ∷ decimal status ++ (b' ' ∷ message ++ b'\r' ∷ b'\n' ∷ [])))

-- `status_buffer`, of 80 bytes.
unfoldable pub status_buffer : Option ℕ → Option Bytes → Bytes
unfolding status_line status_text
status_buffer none message = []
status_buffer (some status) none = snprintf 80 (status_line (status_text status) status)
status_buffer (some status) (some message) = snprintf 80 (status_line (codes "1.0", message) status)

-- `contenttype_buffer`, of 80 bytes.
unfoldable pub contenttype_buffer : Option Bytes → Option Bytes → Bytes
contenttype_buffer none charset = []
contenttype_buffer (some contenttype) none =
    snprintf 80 (codes "Content-Type: " ++ (contenttype ++ b'\r' ∷ b'\n' ∷ []))
contenttype_buffer (some contenttype) (some charset) = snprintf 80 (
    codes "Content-Type: "
    ++ (contenttype ++ (codes "; charset=" ++ (charset ++ b'\r' ∷ b'\n' ∷ []))))

pub record Response : Type 0 where
  pub cache : Bool
  pub status : Option ℕ
  pub statusmsg : Option Bytes
  pub contenttype : Option Bytes
  pub charset : Option Bytes
  pub datablock : Option Bytes

pub record Server : Type 0 where
  pub server_id : Bytes
  pub currenttime_buffer : Bytes
  pub config_headers : List HttpHeader
  pub mount_headers : List HttpHeader

unfoldable pub challenge : Option ℕ → Bytes
challenge none = []
challenge (some status) =
    if status == 401 then codes "WWW-Authenticate: Basic realm=\"Icecast2 Server\"\r\n" else []

abbrev pub no_cache : Bytes
no_cache =
    codes "Cache-Control: no-cache, no-store\r\nExpires: Mon, 26 Jul 1997 05:00:00 GMT\r\n"
    ++ codes "Pragma: no-cache\r\n"

unfoldable pub data_part : Option Bytes → Bytes
data_part none = []
data_part (some block) = b'\r' ∷ b'\n' ∷ block

-- The text that the one `snprintf` formats.
unfoldable pub header_text : Server → Response → Bytes
header_text v r =
    status_buffer r.status r.statusmsg
    ++ (codes "Server: "
        ++ (v.server_id
            ++ (codes "\r\nConnection: Close\r\n"
                ++ (v.currenttime_buffer
                    ++ (contenttype_buffer r.contenttype r.charset
                        ++ (challenge r.status
                            ++ ((if r.cache then [] else no_cache)
                                ++ ((build_headers r.status v.config_headers v.mount_headers).text
                                    ++ data_part r.datablock))))))))

-- `offset`, or the length of the text in `out` where it is -1.
unfoldable pub start_offset : Bytes → Option ℕ → ℕ
start_offset out none = length out
start_offset out (some offset) = offset

-- `len -= offset`, of type size_t.
unfoldable pub room : ℕ → ℕ → ℕ
room len offset = (2 ^ 64 + len - offset) % 2 ^ 64

-- The text in `out` once `size` bytes at most were printed from `offset` on; with a size of 0 none are.
unfoldable pub print_at : Bytes → ℕ → ℕ → Bytes → Bytes
print_at out offset zero text = out
print_at out offset (suc size) text = take offset out ++ snprintf (suc size) text

-- The text in the buffer afterwards and the value returned; `none` is the -1 for a NULL buffer.
unfoldable pub util_http_build_header :
    Server → Option Bytes → ℕ → Option ℕ → Response → Option (Bytes × ℕ)
unfolding start_offset
util_http_build_header v none len offset r = none
util_http_build_header v (some out) len offset r =
    let start = start_offset out offset in
    some (print_at out start (room len start) (header_text v r), length (header_text v r))
