-- ===== src/Tests/Listener.antt =====
-- src/format_mp3.c at a listener that gets metadata, and at a title that is set.
use checkedc_icecast.Base.{
  ◌≡◌, ◌++◌, refl, inl, inr, true, false, [], ◌∷◌, none, some, codes, take, drop, arith, has_prefix,
}
use checkedc_icecast.Mp3.Filter.{Filter, kept, filter_bytes}
use checkedc_icecast.Mp3.Listener.{
  Metadata, Buffer, format_mp3_write_buf_to_client, write_left, write_rest, remaining_of,
  write_before, write_block, write_audio, send_audio, count_audio, send_stream_metadata, after_send,
  client_send_bytes, answered, at_most, offset_for, block_for, is_address, address_of,
}
use checkedc_icecast.Mp3.Listener.Framed.{IsMetadata}
use checkedc_icecast.Mp3.Listener.Relayed.{Session, first, write, next, here, step, Reached-relayed}
use checkedc_icecast.Mp3.Listener.Mixed.{send_metadata_mixed}
use checkedc_icecast.Mp3.Title.{TitleState}

abbrev fresh : Filter
fresh = record {
  interval = 3;
  offset = 0;
  build_len = 0;
  build = [];
  metadata = 0 ∷ [];
  inline_url = none;
  titles = [];
  running = true;
}

abbrev song : Metadata
song = record { address = 7; bytes = 2 ∷ codes "StreamTitle='A - B';............" }

abbrev later_song : Metadata
later_song = record { address = 8; bytes = 1 ∷ codes "StreamTitle='C';" }

song-IsMetadata : IsMetadata song.bytes
unfolding has_prefix
song-IsMetadata = record {
  units = 2;
  text = codes "StreamTitle='A - B';............";
  bytes_are = refl;
  text_length = refl;
  text_kind = inr refl;
}

abbrev audio : Buffer
audio = record { bytes = codes "abcde"; associated = some song }

abbrev more_audio : Buffer
more_audio = record { bytes = codes "fg"; associated = some song }

-- The network takes two bytes, then the rest of the interval and a part of the metadata, then all of it.
abbrev once : Session
once = record (first 3 audio) {
  client =
      (format_mp3_write_buf_to_client (record (first 3 audio).client { net = some 2 ∷ [] })
        audio).0;
}

abbrev twice : Session
twice = record once {
  client =
      (format_mp3_write_buf_to_client (record once.client { net = some 9 ∷ some 4 ∷ [] }) audio).0;
}

abbrev thrice : Session
thrice = record twice {
  client =
      (format_mp3_write_buf_to_client (record twice.client { net = some 99 ∷ some 99 ∷ [] })
        audio).0;
}

abbrev onwards : Session
onwards = record {
  client = record thrice.client { pos = 0 };
  buffer = more_audio;
  past = audio.bytes;
}

thrice_through : thrice.client.pos ≡ 5
unfolding format_mp3_write_buf_to_client write_left write_rest remaining_of write_before write_block
    write_audio send_audio count_audio send_stream_metadata after_send client_send_bytes answered
    at_most offset_for block_for is_address address_of
thrice_through = refl

nothing_left : onwards.client.metadata_offset ≡ 0
unfolding format_mp3_write_buf_to_client write_left write_rest remaining_of write_before write_block
    write_audio send_audio count_audio send_stream_metadata after_send client_send_bytes answered
    at_most offset_for block_for is_address address_of
nothing_left = refl

Reached-relayed_example :
    (t : Filter) × (t.running ≡ true)
    × (filter_bytes fresh onwards.client.sent
        ≡ kept t (onwards.past ++ take onwards.client.pos more_audio.bytes))
Reached-relayed_example =
    Reached-relayed {s = onwards} 3 audio fresh (omega arith) (omega arith) song-IsMetadata
      (step
        (step
          (step (step here (write (first 3 audio) (some 2 ∷ [])))
            (write once (some 9 ∷ some 4 ∷ [])))
          (write twice (some 99 ∷ some 99 ∷ [])))
        (next thrice more_audio thrice_through song-IsMetadata (inl nothing_left)))
      nothing_left refl refl refl

send_metadata_mixed_example :
    (let cut =
        (send_stream_metadata
          (record (first 3 audio).client { net = some 5 ∷ [] })
          (some song)).0 in
      let done = (send_stream_metadata (record cut { net = some 12 ∷ [] }) (some later_song)).0 in
      (done.in_metadata ≡ false)
      × (done.sent ≡ [] ++ (take 5 song.bytes ++ drop 5 later_song.bytes)))
unfolding is_address
send_metadata_mixed_example =
    send_metadata_mixed (first 3 audio).client song later_song 5 refl refl refl (omega arith)
      (omega arith)

abbrev titled : TitleState
titled = record {
  url_artist = some (codes "Artist");
  url_title = some (codes "Title");
  url = none;
  inline_url = none;
  update_metadata = true;
  metadata = [];
  titles = [];
}
