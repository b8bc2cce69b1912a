-- ===== src/Connection/Requests.antt =====
-- src/connection.c: process_request_queue gathers the headers of the clients that wait. What a read gives is an
-- argument, as sockets and the clock are: bytes, the end of the client, or nothing yet. The buffer of a client is
-- what was read, `offset` its length; the queues are lists.
pub mod Search
pub mod Arrives
use checkedc_icecast.Base.{
  ℕ, ◌+◌, ◌-◌, Bool, true, false, ◌&&◌, ◌||◌, List, [], ◌∷◌, ◌++◌, Option, none, some, ◌==◌,
  if◌then◌else◌, Bytes, codes, c_string, length, take,
}
use checkedc_icecast.Mp3.Filter.{str_str}

-- client_queue_t, with the address of its client and the client's buffer.
pub record ClientQueue : Type 0 where
  pub client : ℕ
  pub buffer : Bytes
  pub stream_offset : ℕ
  pub shoutcast : ℕ
  pub shoutcast_mount : Option Bytes

-- What client_read_bytes and the time give for a client.
pub data Read : Type 0 where
  got : Bytes → Read
  gone : Read
  waits : Read

unfoldable pub is_found : Option Bytes → Bool
is_found none = false
is_found (some rest) = true

unfoldable pub end_of : Bytes → Bytes → Option Bytes → Option ℕ
end_of text key none = none
end_of text key (some rest) = some (length text - length rest + length key)

-- `(ptr + strlen (key)) - text`, where ptr is the first `key` in the text.
unfoldable pub behind : Bytes → Bytes → Option ℕ
behind text key = end_of text key (str_str text key)

unfoldable pub or_else : Option ℕ → Option ℕ → Option ℕ
or_else none n = n
or_else (some m) n = some m

abbrev pub nsvcap_end : Bytes
nsvcap_end = codes "\r\r\n\r\r\n"

abbrev pub crlf_end : Bytes
crlf_end = codes "\r\n\r\n"

abbrev pub lf_end : Bytes
lf_end = codes "\n\n"

-- Where the data behind the headers starts.
unfoldable pub headers_end : Bytes → Option ℕ
headers_end text =
    or_else (behind text nsvcap_end) (or_else (behind text crlf_end) (behind text lf_end))

unfoldable pub has_line : Bytes → Bool
has_line text =
    is_found (str_str text (codes "\r\r\n"))
    || is_found (str_str text (codes "\r\n"))
    || is_found (str_str text (codes "\n"))

-- The stream_offset of a client that is passed on. A password line leaves it.
unfoldable pub pass_it : ClientQueue → Option ℕ
pass_it node =
    if node.shoutcast == 1 && has_line (c_string node.buffer)
    then some node.stream_offset
    else headers_end (c_string node.buffer)

pub data Fate : Type 0 where
  passes : ClientQueue → Fate
  stays : ClientQueue → Fate
  drops : Fate

unfoldable pub passed : ClientQueue → Option ℕ → Fate
passed node none = stays node
passed node (some n) = passes (record node { stream_offset = n })

-- `PER_CLIENT_REFBUF_SIZE - 1 - offset`
unfoldable pub room : ClientQueue → ℕ
room node = 4095 - length node.buffer

unfoldable pub with_data : ClientQueue → Bytes → Fate
with_data node [] = drops
with_data node (b ∷ bytes) =
    let more = record node { buffer = node.buffer ++ b ∷ bytes } in passed more (pass_it more)

-- Without room nothing is read, and the client goes.
unfoldable pub fate : ClientQueue → Read → Fate
fate node gone = drops
fate node waits = if room node == 0 then drops else stays node
fate node (got bytes) = with_data node (take (room node) bytes)

unfoldable pub add_connection : List ClientQueue → ClientQueue → List ClientQueue
add_connection con node = con ++ node ∷ []

unfoldable pub add_request_queue : List ClientQueue → ClientQueue → List ClientQueue
add_request_queue req node = req ++ node ∷ []

unfoldable pub get_connection : List ClientQueue → Option ClientQueue × List ClientQueue
get_connection [] = (none, [])
get_connection (node ∷ con) = (some node, con)

-- The request queue and the connection queue after one run along the first.
unfoldable pub process_request_queue :
    (ClientQueue → Read) → List ClientQueue → List ClientQueue → List ClientQueue × List ClientQueue
process_request_queue read [] con = ([], con)
process_request_queue read (node ∷ req) con =
    elim (fate node (read node)) as (λ _. List ClientQueue × List ClientQueue) [
      | passes next ↦ process_request_queue read req (add_connection con next)
      | stays next ↦ let rest = process_request_queue read req con in (next ∷ rest.0, rest.1)
      | drops ↦ process_request_queue read req con
    ]
