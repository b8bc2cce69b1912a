-- ===== src/Tests/Mp3.antt =====
-- src/format_mp3.c at concrete streams.
use checkedc_icecast.Base.{
  ◌≡◌, bytes_eq, c_string, refl, inl, inr, true, [], ◌∷◌, ◌++◌, none, some, codes, arith,
  has_prefix,
}
use checkedc_icecast.Mp3.Filter.{
  Filter, kept, filter_bytes, mp3_get_filter_meta, full_buffer, filter_loop, mp3_block, prepend,
  metadata_remaining, begin_block, finish_block, is_news, assign_metadata, after_block,
  filter_shoutcast_metadata, add_title, end_stream, str_str, title_in, up_to,
}
use checkedc_icecast.Mp3.Filter.Bytewise.{filter_bytes-bytewise}
use checkedc_icecast.Mp3.Filter.Runs.{IsFilter, bytewise}
use checkedc_icecast.Mp3.Filter.Encoded.{
  Block, IsBlock, AllBlocks, interleaved, audio_of, filter-interleaved,
}

-- A filter with three bytes of audio between two blocks.
abbrev fresh : Filter
fresh = record {
  interval = 3;
  offset = 0;
  build_len = 0;
  build = [];
  metadata = 0 ∷ [];
  inline_url = none;
  titles = [];
  running = true;
}

abbrev song : Block
song = record {
  audio = codes "abc";
  units = 2;
  text = codes "StreamTitle='A - B';" ++ (codes "............");
}

abbrev silent : Block
silent = record { audio = codes "def"; units = 0; text = [] }

fresh-IsFilter : IsFilter fresh
fresh-IsFilter = omega arith

song-IsBlock : IsBlock 3 song
unfolding has_prefix
song-IsBlock = record { audio_length = refl; text_length = refl; text_kind = inr refl }

silent-IsBlock : IsBlock 3 silent
silent-IsBlock = record { audio_length = refl; text_length = refl; text_kind = inl refl }

song_stream :
    (mp3_get_filter_meta fresh (interleaved (song ∷ silent ∷ []) (codes "gh"))).1
    ≡ some (codes "abcdefgh")
unfolding mp3_get_filter_meta full_buffer filter_bytes filter_loop interleaved mp3_block prepend
    metadata_remaining begin_block finish_block is_news bytes_eq c_string assign_metadata has_prefix
    after_block filter_shoutcast_metadata add_title end_stream str_str title_in up_to
song_stream = refl

song_titles :
    (mp3_get_filter_meta fresh (interleaved (song ∷ silent ∷ []) (codes "gh"))).0.titles
    ≡ codes "A - B" ∷ []
unfolding mp3_get_filter_meta full_buffer filter_bytes filter_loop interleaved mp3_block prepend
    metadata_remaining begin_block finish_block is_news bytes_eq c_string assign_metadata has_prefix
    after_block filter_shoutcast_metadata add_title end_stream str_str title_in up_to
song_titles = refl

filter_bytes-bytewise_example :
    filter_bytes fresh (interleaved (song ∷ []) (codes "gh"))
    ≡ bytewise fresh (interleaved (song ∷ []) (codes "gh"))
filter_bytes-bytewise_example =
    filter_bytes-bytewise fresh (interleaved (song ∷ []) (codes "gh")) fresh-IsFilter

filter-interleaved_example :
    (t : Filter) × (t.running ≡ true)
    × (filter_bytes fresh (interleaved (song ∷ silent ∷ []) (codes "gh"))
        ≡ kept t (audio_of (song ∷ silent ∷ []) (codes "gh")))
unfolding AllBlocks
filter-interleaved_example =
    filter-interleaved fresh (song ∷ silent ∷ []) (codes "gh") refl refl (omega arith) (omega arith)
      (song-IsBlock, (silent-IsBlock, tt))
