-- ===== src/Mp3/Filter/Runs.antt =====
-- src/format_mp3.c: an automaton that reads a stream with metadata byte by byte, and what it does on runs of bytes.
use checkedc_icecast.Base.{
  ℕ, zero, suc, ◌+◌, ◌-◌, ◌^◌, ◌≤◌, ◌<◌, ◌≡◌, refl, sym, ap, ◌∙◌, [], ◌∷◌, ◌++◌, Option, none, some,
  ltb, if◌then◌else◌, Bytes, arith, length, take, drop, append-nil, append_assoc, take_all,
  length-take, drop_one-drop, drop_all, length-drop, length-append,
}
use checkedc_icecast.Mp3.Filter.{
  Filter, Filtered, kept, ended, mp3_block, begin_block, metadata_remaining, is_news,
  assign_metadata, finish_block, after_block, end_stream, prepend, filter_shoutcast_metadata,
}

-- What holds between two buffers.
pub record IsFilter (s : Filter) : Type 0 where
  pub within : s.offset ≤ s.interval
  pub is_int : s.interval < 2 ^ 31
  pub building : 0 < s.build_len → length s.build < s.build_len

unfoldable pub close_block : Filter → Option Filter → Filtered
close_block s none = ended (end_stream s)
close_block s (some told) = kept (after_block told) []

-- A byte of a metadata block.
unfoldable pub block_byte : Filter → ℕ → Filtered
block_byte s b =
    if ltb 1 (metadata_remaining s)
    then kept (record s { build = s.build ++ b ∷ [] }) []
    else close_block s (finish_block s (s.build ++ 0 ∷ []))

-- A byte of the stream: audio until the interval is full, and then metadata.
unfoldable pub one_byte : Filter → ℕ → Filtered
one_byte s b =
    if ltb s.offset s.interval
    then kept (record s { offset = s.offset + 1 }) (b ∷ [])
    else block_byte (begin_block s b) b

unfoldable pub follow : Filtered → (Filter → Filtered) → Filtered
follow (kept s audio) f = prepend audio (f s)
follow (ended s) f = ended s

unfoldable pub bytewise : Filter → Bytes → Filtered
bytewise s [] = kept s []
bytewise s (b ∷ bytes) = follow (one_byte s b) (λ t. bytewise t bytes)

pub prepend-nil : (r : Filtered) → prepend [] r ≡ r
unfolding prepend
prepend-nil (kept s audio) = refl
prepend-nil (ended s) = refl

pub prepend-append : (a b : Bytes) (r : Filtered) → prepend (a ++ b) r ≡ prepend a (prepend b r)
unfolding prepend
prepend-append a b (kept s audio) = ap (kept s) (append_assoc a b audio)
prepend-append a b (ended s) = refl

one_byte-audio :
    (s : Filter) (b : ℕ)
    → s.offset < s.interval
    → one_byte s b ≡ kept (record s { offset = s.offset + 1 }) (b ∷ [])
unfolding one_byte
one_byte-audio s b h = ground arith

one_byte-block :
    (s : Filter) (b : ℕ) → s.interval ≤ s.offset → one_byte s b ≡ block_byte (begin_block s b) b
unfolding one_byte
one_byte-block s b h = ground arith

-- A run of audio bytes.
pub audio_run :
    (n : ℕ) (s : Filter) (bytes : Bytes)
    → n ≤ s.interval - s.offset
    → n ≤ length bytes
    → bytewise s bytes
      ≡ prepend (take n bytes) (bytewise (record s { offset = s.offset + n }) (drop n bytes))
unfolding bytewise follow
audio_run zero s bytes h k =
    ap (λ o. bytewise (record s { offset = o }) bytes) (omega arith) ∙ sym (prepend-nil _)
audio_run (suc n) s [] h k = absurd (omega arith)
audio_run (suc n) s (b ∷ bytes) h k =
    let s1 : Filter = record s { offset = s.offset + 1 } in
    ap (λ r. follow r (λ t. bytewise t bytes)) (one_byte-audio s b (omega arith))
    ∙ ap (prepend (b ∷ [])) (audio_run n s1 bytes (omega arith) (omega arith))
    ∙ sym (prepend-append (b ∷ []) (take n bytes) _)
    ∙ ap (λ o. prepend (b ∷ take n bytes) (bytewise (record s { offset = o }) (drop n bytes)))
        (omega arith)

begin_block-begun : (s : Filter) (b : ℕ) → 0 < s.build_len → begin_block s b ≡ s
unfolding begin_block
begin_block-begun s b h = ground arith

block_byte-more :
    (s : Filter) (b : ℕ)
    → 1 < metadata_remaining s
    → block_byte s b ≡ kept (record s { build = s.build ++ b ∷ [] }) []
unfolding block_byte
block_byte-more s b h = ground arith

remaining-append :
    (s : Filter) (b : ℕ)
    → metadata_remaining (record s { build = s.build ++ b ∷ [] }) ≡ metadata_remaining s - 1
unfolding metadata_remaining
remaining-append s b = omega (arith, length-append s.build (b ∷ []))

-- A run of bytes inside a metadata block, its last byte not among them.
block_run :
    (n : ℕ) (s : Filter) (bytes : Bytes)
    → s.interval ≤ s.offset
    → 0 < s.build_len
    → n < metadata_remaining s
    → n ≤ length bytes
    → bytewise s bytes ≡ bytewise (record s { build = s.build ++ take n bytes }) (drop n bytes)
unfolding bytewise follow
block_run zero s bytes o l h k =
    ap (λ t. bytewise (record s { build = t }) bytes) (sym (append-nil s.build))
block_run (suc n) s [] o l h k = absurd (omega arith)
block_run (suc n) s (b ∷ bytes) o l h k =
    let s1 : Filter = record s { build = s.build ++ b ∷ [] } in
    let step : one_byte s b ≡ kept s1 [] =
      one_byte-block s b o
      ∙ ap (λ t. block_byte t b) (begin_block-begun s b l)
      ∙ block_byte-more s b (omega arith) in
    ap (λ r. follow r (λ t. bytewise t bytes)) step
    ∙ prepend-nil _
    ∙ block_run n s1 bytes o l (omega (arith, remaining-append s b)) (omega arith)
    ∙ ap (λ t. bytewise (record s { build = t }) (drop n bytes))
        (append_assoc s.build (b ∷ []) (take n bytes))

pub begin_block_facts :
    (s : Filter) (b : ℕ)
    → (0 < (begin_block s b).build_len)
      × ((begin_block s b).offset ≡ s.offset)
      × ((begin_block s b).interval ≡ s.interval)
unfolding begin_block
begin_block_facts s b = ground arith

-- The first byte of a block says how long it is; the automaton reads it with the others.
pub bytewise-begin :
    (s : Filter) (b : ℕ) (bytes : Bytes)
    → s.interval ≤ s.offset
    → bytewise s (b ∷ bytes) ≡ bytewise (begin_block s b) (b ∷ bytes)
unfolding bytewise
bytewise-begin s b bytes o =
    let begun = begin_block s b in
    let facts = begin_block_facts s b in
    ap (λ r. follow r (λ t. bytewise t bytes))
      (one_byte-block s b o
        ∙ sym (
            one_byte-block begun b (omega (arith, facts))
            ∙ ap (λ t. block_byte t b) (begin_block-begun begun b facts.0)))

-- What was built does not matter once the block is whole.
close_block-build :
    (s : Filter) (built block : Bytes)
    → close_block (record s { build = built }) (finish_block (record s { build = built }) block)
      ≡ close_block s (finish_block s block)
unfolding close_block finish_block is_news assign_metadata after_block end_stream
    filter_shoutcast_metadata
close_block-build s built block = ground arith

block_byte-last :
    (s : Filter) (b : ℕ)
    → metadata_remaining s ≤ 1
    → block_byte s b ≡ close_block s (finish_block s (s.build ++ 0 ∷ []))
unfolding block_byte
block_byte-last s b h = ground arith

last_byte :
    (s : Filter) (rest : Bytes)
    → s.interval ≤ s.offset
    → 0 < s.build_len
    → metadata_remaining s ≤ 1
    → 0 < length rest
    → bytewise s rest
      ≡ follow (close_block s (finish_block s (s.build ++ 0 ∷ []))) (λ t. bytewise t (drop 1 rest))
unfolding bytewise
last_byte s [] o l r k = absurd (omega arith)
last_byte s (b ∷ rest) o l r k =
    ap (λ q. follow q (λ t. bytewise t rest))
      (one_byte-block s b o
        ∙ ap (λ t. block_byte t b) (begin_block-begun s b l)
        ∙ block_byte-last s b r)

remaining-take :
    (s : Filter) (bytes : Bytes) (n : ℕ)
    → metadata_remaining s ≡ suc n
    → suc n ≤ length bytes
    → metadata_remaining (record s { build = s.build ++ take n bytes }) ≤ 1
unfolding metadata_remaining
remaining-take s bytes n r k =
    omega (arith, length-append s.build (take n bytes), length-take n bytes)

-- The rest of a block, its last byte included.
pub whole_block :
    (s : Filter) (bytes : Bytes) (n : ℕ)
    → s.interval ≤ s.offset
    → 0 < s.build_len
    → metadata_remaining s ≡ suc n
    → suc n ≤ length bytes
    → bytewise s bytes
      ≡ follow
          (close_block s (finish_block s (s.build ++ (take n bytes ++ 0 ∷ []))))
          (λ t. bytewise t (drop (suc n) bytes))
whole_block s bytes n o l r k =
    let built = s.build ++ take n bytes in
    let s2 : Filter = record s { build = built } in
    block_run n s bytes o l (omega arith) (omega arith)
    ∙ last_byte s2 (drop n bytes) o l (remaining-take s bytes n r k)
        (omega (arith, length-drop n bytes))
    ∙ ap (λ q. follow q (λ t. bytewise t (drop 1 (drop n bytes))))
        (close_block-build s built (built ++ 0 ∷ [])
          ∙ ap (λ text. close_block s (finish_block s text))
              (append_assoc s.build (take n bytes) (0 ∷ [])))
    ∙ ap
        (λ rest.
          follow (close_block s (finish_block s (s.build ++ (take n bytes ++ 0 ∷ []))))
            (λ t. bytewise t rest))
        (drop_one-drop n bytes)

pub mp3_block-room : (s : Filter) → IsFilter s → mp3_block s ≡ s.interval - s.offset
unfolding mp3_block
mp3_block-room s h = omega arith

-- The buffer ends inside the audio.
pub all_audio :
    (s : Filter) (bytes : Bytes)
    → length bytes ≤ s.interval - s.offset
    → bytewise s bytes ≡ kept (record s { offset = s.offset + length bytes }) bytes
unfolding bytewise prepend
all_audio s bytes h =
    audio_run (length bytes) s bytes h (omega arith)
    ∙ rw (drop_all (length bytes) bytes (omega arith), take_all (length bytes) bytes (omega arith))
        (ap (kept (record s { offset = s.offset + length bytes })) (append-nil bytes))

-- The buffer ends inside a block.
pub all_block :
    (s : Filter) (bytes : Bytes)
    → s.interval ≤ s.offset
    → 0 < s.build_len
    → length bytes < metadata_remaining s
    → bytewise s bytes ≡ kept (record s { build = s.build ++ bytes }) []
unfolding bytewise
all_block s bytes o l h =
    block_run (length bytes) s bytes o l h (omega arith)
    ∙ rw (drop_all (length bytes) bytes (omega arith), take_all (length bytes) bytes (omega arith))
        refl
