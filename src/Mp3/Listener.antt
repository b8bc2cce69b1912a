-- ===== src/Mp3/Listener.antt =====
-- src/format_mp3.c: format_mp3_write_buf_to_client puts the metadata into the stream that a listener gets. What the
-- network does is an argument: for each send the bytes that it takes, or an error. `sent` is what it took so far.
pub mod Framed
pub mod Steps
pub mod Writes
pub mod Relayed
pub mod Mixed
use checkedc_icecast.Base.{
  ℕ, zero, ◌+◌, ◌-◌, ◌%◌, ◌^◌, Bool, true, false, List, [], ◌∷◌, ◌++◌, Option, none, some, ◌==◌,
  ltb, leb, if◌then◌else◌, Bytes, codes, length, take, drop,
}

-- A refbuf of the stream; the metadata that it is associated with has an address.
pub record Metadata : Type 0 where
  pub address : ℕ
  pub bytes : Bytes

pub record Buffer : Type 0 where
  pub bytes : Bytes
  pub associated : Option Metadata

-- mp3_client_data and `pos` of the client.
pub record Mp3Client : Type 0 where
  pub interval : ℕ
  pub since_meta_block : ℕ
  pub in_metadata : Bool
  pub metadata_offset : ℕ
  pub associated : Option ℕ
  pub pos : ℕ
  pub net : List (Option ℕ)
  pub sent : Bytes

unfoldable pub at_most : ℕ → ℕ → ℕ
at_most n m = if ltb n m then n else m

-- The count of bytes that were taken, or -1.
unfoldable pub answered : Mp3Client → Bytes → List (Option ℕ) → Mp3Client × Option ℕ
answered c bytes [] = (c, none)
answered c bytes (none ∷ net) = (record c { net = net }, none)
answered c bytes (some n ∷ net) =
    let k = at_most n (length bytes) in
    (record c { net = net; sent = c.sent ++ take k bytes }, some k)

unfoldable pub client_send_bytes : Mp3Client → Bytes → Mp3Client × Option ℕ
client_send_bytes c bytes = answered c bytes c.net

unfoldable pub is_address : Option ℕ → ℕ → Bool
is_address none a = false
is_address (some b) a = b == a

-- The metadata that no source has set.
abbrev pub no_title : Bytes
no_title = 1 ∷ codes "StreamTitle='';" ++ 0 ∷ []

-- The bytes of the block, whole: metadata that the client does not have, else a zero.
unfoldable pub block_for : Option ℕ → Option Metadata → Bytes
block_for last none = no_title
block_for last (some m) = if is_address last m.address then 0 ∷ [] else m.bytes

-- The offset into the block. The single zero is sent from its start.
unfoldable pub offset_for : Option ℕ → ℕ → Option Metadata → ℕ
offset_for last offset none = offset
offset_for last offset (some m) = if is_address last m.address then 0 else offset

unfoldable pub address_of : Option Metadata → Option ℕ
address_of none = none
address_of (some m) = some m.address

-- The block was sent, or a part of it.
unfoldable pub after_send : Option Metadata → ℕ → Mp3Client × Option ℕ → Mp3Client × ℕ
after_send associated meta_len (c, none) = (record c { in_metadata = true }, 0)
after_send associated meta_len (c, some ret) =
    if ret == meta_len
    then (
      record c {
        associated = address_of associated;
        metadata_offset = 0;
        in_metadata = false;
        since_meta_block = 0;
      },
      ret,
    )
    else (record c { metadata_offset = c.metadata_offset + ret; in_metadata = true }, ret)

unfoldable pub send_stream_metadata : Mp3Client → Option Metadata → Mp3Client × ℕ
send_stream_metadata c associated =
    let metadata =
      drop (offset_for c.associated c.metadata_offset associated)
        (block_for c.associated associated) in
    after_send associated (length metadata) (client_send_bytes c metadata)

-- The bytes of the stream that were taken count to the interval.
unfoldable pub count_audio : Mp3Client × Option ℕ → Mp3Client × ℕ
count_audio (c, none) = (c, 0)
count_audio (c, some ret) =
    (record c { since_meta_block = c.since_meta_block + ret; pos = c.pos + ret }, ret)

unfoldable pub send_audio : Mp3Client → Bytes → Mp3Client × ℕ
send_audio c bytes = count_audio (client_send_bytes c bytes)

-- The client, and the bytes written so far.
unfoldable pub write_audio : Mp3Client → ℕ → Bytes → Mp3Client × ℕ
write_audio c written [] = (c, written)
write_audio c written (b ∷ buf) = let (c', ret) = send_audio c (b ∷ buf) in (c', written + ret)

-- The metadata block, then as much audio as one interval.
unfoldable pub write_block : Buffer → Mp3Client → ℕ → Bytes → Mp3Client × ℕ
write_block buffer c written buf =
    let (c', ret) = send_stream_metadata c buffer.associated in
    if c'.in_metadata
    then (c', written + ret)
    else write_audio c' (written + ret) (take c'.interval buf)

-- `interval - since_meta_block`, as an unsigned int.
unfoldable pub remaining_of : Mp3Client → ℕ
remaining_of c = (2 ^ 32 + c.interval - c.since_meta_block) % 2 ^ 32

-- The audio before the metadata block.
unfoldable pub write_before : Buffer → Mp3Client → ℕ → Bytes → ℕ → Mp3Client × ℕ
write_before buffer c written buf zero = write_block buffer c written buf
write_before buffer c written buf remaining =
    let (c', ret) = send_audio c (take remaining buf) in
    if ltb ret remaining
    then (c', written + ret)
    else write_block buffer c' (written + ret) (drop remaining buf)

unfoldable pub write_rest : Buffer → Mp3Client → ℕ → Bytes → Mp3Client × ℕ
write_rest buffer c written buf =
    if c.interval == 0
    then write_audio c written buf
    else if leb (remaining_of c) (length buf)
    then write_before buffer c written buf (remaining_of c)
    else write_audio c written buf

-- Metadata that was left over goes first.
unfoldable pub write_left : Buffer → Mp3Client → Bytes → Mp3Client × ℕ
write_left buffer c buf =
    let (c', ret) = send_stream_metadata c buffer.associated in
    if c'.in_metadata then (c', ret) else write_rest buffer c' ret buf

-- The client, and how many bytes were written.
unfoldable pub format_mp3_write_buf_to_client : Mp3Client → Buffer → Mp3Client × ℕ
format_mp3_write_buf_to_client c buffer =
    if c.in_metadata
    then write_left buffer c (drop c.pos buffer.bytes)
    else write_rest buffer c 0 (drop c.pos buffer.bytes)
