-- ===== src/Mp3/Title.antt =====
-- src/format_mp3.c: the titles that a user of the server sets, and the metadata block that is made of them. The
-- conversion of a text to the charset of the source is an argument.
pub mod Blocks
use checkedc_icecast.Base.{
  ℕ, ◌+◌, ◌-◌, ◌*◌, ◌/◌, ◌%◌, ◌^◌, Bool, true, false, not, ◌&&◌, ◌||◌, List, [], ◌∷◌, ◌++◌, Option,
  none, some, ltb, leb, if◌then◌else◌, Bytes, codes, bytes_eq, c_string, length, take, drop,
  replicate,
}
use checkedc_icecast.Mp3.Filter.{str_str, up_to, title_in, add_title}

-- The fields of mp3_state for titles. `metadata` is the block for the listeners, `titles` what the statistics are told.
pub record TitleState : Type 0 where
  pub url_artist : Option Bytes
  pub url_title : Option Bytes
  pub url : Option Bytes
  pub inline_url : Option Bytes
  pub update_metadata : Bool
  pub metadata : Bytes
  pub titles : List Bytes

-- A text that cannot be converted is taken as it is.
unfoldable pub converted : (Bytes → Option Bytes) → Option Bytes → Option Bytes
converted conv none = none
converted conv (some value) = elim (conv value) as (λ _. Option Bytes) [
  | none ↦ some value
  | some text ↦ some text
]

unfoldable pub store_tag : TitleState → Bytes → Option Bytes → TitleState
store_tag s tag value =
    if bytes_eq tag (codes "title") || bytes_eq tag (codes "song")
    then record s { url_title = value }
    else if bytes_eq tag (codes "artist")
    then record s { url_artist = value }
    else if bytes_eq tag (codes "url")
    then record s { url = value }
    else s

unfoldable pub mp3_set_tag :
    (Bytes → Option Bytes) → TitleState → Option Bytes → Option Bytes → TitleState
mp3_set_tag conv s none in_value = record s { update_metadata = true }
mp3_set_tag conv s (some tag) in_value = store_tag s tag (converted conv in_value)

unfoldable pub strlen_of : Option Bytes → ℕ
strlen_of none = 0
strlen_of (some text) = length text

unfoldable pub is_some : Option Bytes → Bool
is_some none = false
is_some (some text) = true

-- The inline URL up to the end of its quotes, the quotes counted.
unfoldable pub inline_length : Option Bytes → Bytes → ℕ
inline_length none url = 0
inline_length (some end) url = length url - length end + 2

unfoldable pub url_length : Option Bytes → Option Bytes → ℕ
url_length (some inline) url = inline_length (str_str inline (codes "';")) inline
url_length none none = 0
url_length none (some url) = length url + 14

-- The title, its quotes and the NUL, with the URL.
unfoldable pub all_length : TitleState → ℕ
all_length s =
    16
    + strlen_of s.url_artist
    + strlen_of s.url_title
    + (if is_some s.url_artist && is_some s.url_title then 3 else 0)
    + url_length s.inline_url s.url

-- `len`, an unsigned int.
unfoldable pub message_length : TitleState → ℕ
message_length s = all_length s % 2 ^ 32

-- The size of the text in units of sixteen bytes, an unsigned char.
unfoldable pub len_byte : ℕ → ℕ
len_byte len = ((2 ^ 32 + len - 1) % 2 ^ 32 / 16 + 1) % 256

-- What `%s` is given: nothing stands for NULL, which is undefined.
unfoldable pub display_of : Option Bytes → Bytes → Bytes
display_of none title = title
display_of (some artist) title = artist ++ (codes " - " ++ title)

-- What the first snprintf writes.
unfoldable pub title_text : ℕ → Option Bytes → Bytes → Bytes
title_text units artist title =
    units ∷ (codes "StreamTitle='" ++ (display_of artist title ++ codes "';"))

unfoldable pub url_text : Bytes → Bytes
url_text url = codes "StreamUrl='" ++ (url ++ codes "';")

-- What the second snprintf writes; `room` is size - r.
unfoldable pub second_text : ℕ → ℕ → Option Bytes → Option Bytes → Bytes
second_text size room none none = []
second_text size room none (some url) = url_text url
second_text size room (some inline) url = elim (str_str inline (codes "';")) as (λ _. Bytes) [
  | none ↦ []
  | some end ↦ if ltb (inline_length (some end) inline) room then url_text (drop 11 inline) else []
]

-- The buffer, which was zero before.
unfoldable pub printed : ℕ → Bytes → Bytes
printed size text = take (size - 1) text ++ replicate (size - length (take (size - 1) text)) 0

unfoldable pub title_block : TitleState → Bytes → ℕ → Bytes
title_block s title units =
    let first = title_text units s.url_artist title in
    let size = units * 16 + 1 in
    printed size (first ++ second_text size (size - length first) s.inline_url s.url)

unfoldable pub update_title : TitleState → Bytes → TitleState
update_title s block = record s {
  titles = add_title (title_in (c_string (drop 1 block))) s.titles;
  metadata = block;
}

-- A URL that was set would be written behind the buffer.
unfoldable pub writes_outside : ℕ → ℕ → Option Bytes → Option Bytes → Bool
writes_outside size r none none = false
writes_outside size r none (some url) = ltb size r
writes_outside size r (some inline) url = false

-- `none` stands for what is undefined: a title that is NULL is printed, or a write goes outside the buffer.
unfoldable pub set_title_to : TitleState → ℕ → Option Bytes → Option TitleState
set_title_to s units none = none
set_title_to s units (some title) =
    if writes_outside (units * 16 + 1) (length (title_text units s.url_artist title)) s.inline_url
      s.url
    then none
    else some (update_title s (title_block s title units))

unfoldable pub mp3_set_title : TitleState → Option TitleState
mp3_set_title s =
    if ltb 4080 (message_length s)
    then some s
    else set_title_to s (len_byte (message_length s)) s.url_title
