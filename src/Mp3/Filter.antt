-- ===== src/Mp3/Filter.antt =====
-- src/format_mp3.c: mp3_get_filter_meta takes the metadata blocks out of what a source sent. A refbuf is its
-- bytes; `build` is what stands in build_metadata, build_metadata_offset its length; the calls of stats_event_conv
-- are the titles that they pass on. The playlist log and
-- yp_touch are left out, and what goes before and after the loop: the reading, a title that was set by hand, and
-- the reference that the buffer gets to the metadata.
pub mod Runs
pub mod Bytewise
pub mod Chunks
pub mod Encoded
use checkedc_icecast.Base.{
  ℕ, zero, suc, ◌+◌, ◌-◌, ◌*◌, ◌%◌, ◌^◌, Bool, true, false, not, ◌&&◌, List, [], ◌∷◌, ◌++◌, Option,
  none, some, ◌==◌, ltb, leb, if◌then◌else◌, Bytes, bytes_eq, codes, c_string, has_prefix, length,
  take, drop,
}

-- The fields of mp3_state that the filter uses, and `running` of its source.
pub record Filter : Type 0 where
  pub interval : ℕ
  pub offset : ℕ
  pub build_len : ℕ
  pub build : Bytes
  pub metadata : Bytes
  pub inline_url : Option Bytes
  pub titles : List Bytes
  pub running : Bool

-- What is left in the buffer, or NULL with the stream ended.
pub data Filtered : Type 0 where
  kept : Filter → Bytes → Filtered
  ended : Filter → Filtered

-- `strstr (text, key)`: the text from the first `key` on.
unfoldable pub str_str : Bytes → Bytes → Option Bytes
str_str [] key = if has_prefix [] key then some [] else none
str_str (c ∷ text) key =
    let rest = str_str text key in if has_prefix (c ∷ text) key then some (c ∷ text) else rest

-- `text` up to where `rest`, its end, begins.
unfoldable pub up_to : Bytes → Option Bytes → Option Bytes
up_to text none = none
up_to text (some rest) = some (take (length text - length rest) text)

-- The title that filter_shoutcast_metadata passes on.
unfoldable pub title_in : Bytes → Option Bytes
title_in metadata =
    if has_prefix metadata (codes "StreamTitle='")
    then up_to (drop 13 metadata) (str_str (drop 13 metadata) (codes "';"))
    else none

unfoldable pub add_title : Option Bytes → List Bytes → List Bytes
add_title none titles = titles
add_title (some title) titles = titles ++ title ∷ []

unfoldable pub filter_shoutcast_metadata : Filter → Bytes → Filter
filter_shoutcast_metadata s block = record s {
  titles = add_title (title_in (c_string (drop 1 block))) s.titles;
}

-- `inline_metadata_interval - offset`, as an unsigned int.
unfoldable pub mp3_block : Filter → ℕ
mp3_block s = (2 ^ 32 + s.interval - s.offset) % 2 ^ 32

-- A length of 0 indicates that no byte of the block was seen yet.
unfoldable pub begin_block : Filter → ℕ → Filter
begin_block s src =
    if s.build_len == 0 then record s { build = []; build_len = 1 + src * 16 } else s

unfoldable pub metadata_remaining : Filter → ℕ
metadata_remaining s = s.build_len - length s.build

-- The test whether the block has a text and another one than the last.
unfoldable pub is_news : Filter → Bytes → Bool
is_news s block =
    ltb 1 s.build_len && not (bytes_eq (c_string (drop 1 block)) (c_string (drop 1 s.metadata)))

-- The new metadata; `none` for a text that ends the stream.
unfoldable pub assign_metadata : Filter → Bytes → Option Filter
assign_metadata s block =
    if has_prefix (drop 1 block) (codes "StreamTitle=")
    then some (record (filter_shoutcast_metadata s block) {
      metadata = block;
      inline_url = str_str (c_string (drop 1 block)) (codes "StreamUrl='");
    })
    else none

-- A whole block was read.
unfoldable pub finish_block : Filter → Bytes → Option Filter
finish_block s block = if is_news s block then assign_metadata s block else some s

-- The bytes that were built are not read again: the next block begins with a memset.
unfoldable pub after_block : Filter → Filter
after_block s = record s { offset = 0; build_len = 0; build = [] }

unfoldable pub end_stream : Filter → Filter
end_stream s = record s { running = false; build = [] }

unfoldable pub prepend : Bytes → Filtered → Filtered
prepend audio (kept s rest) = kept s (audio ++ rest)
prepend audio (ended s) = ended s

-- The loop over the bytes that were read. A round takes one of them at least.
unfoldable pub filter_loop : ℕ → Filter → Bytes → Filtered
filter_loop zero s bytes = kept s []
filter_loop (suc fuel) s [] = kept s []
filter_loop (suc fuel) s (src ∷ bytes) =
    let all = src ∷ bytes in
    let block = mp3_block s in
    let begun = begin_block s src in
    let remaining = metadata_remaining begun in
    let text = begun.build ++ (take (remaining - 1) all ++ 0 ∷ []) in
    elim (leb (length all) block) as (λ _. Filtered) [
      | true ↦ kept (record s { offset = s.offset + length all }) all
      | false ↦ elim (ltb 0 block) as (λ _. Filtered) [
        | true ↦
            prepend (take block all)
              (filter_loop fuel (record s { offset = s.offset + block }) (drop block all))
        | false ↦ elim (ltb (length all) remaining) as (λ _. Filtered) [
          | true ↦ kept (record begun { build = begun.build ++ all }) []
          | false ↦ elim (finish_block begun text) as (λ _. Filtered) [
            | none ↦ ended (end_stream begun)
            | some told ↦ filter_loop fuel (after_block told) (drop remaining all)
          ]
        ]
      ]
    ]

unfoldable pub filter_bytes : Filter → Bytes → Filtered
filter_bytes s bytes = filter_loop (suc (length bytes)) s bytes

-- The refbuf that is returned, NULL where the bytes were metadata only or the stream ends.
unfoldable pub full_buffer : Filtered → Filter × Option Bytes
full_buffer (ended s) = (s, none)
full_buffer (kept s []) = (s, none)
full_buffer (kept s (c ∷ audio)) = (s, some (c ∷ audio))

unfoldable pub mp3_get_filter_meta : Filter → Bytes → Filter × Option Bytes
mp3_get_filter_meta s bytes = full_buffer (filter_bytes s bytes)
