-- ===== src/Mp3/Filter/Encoded.antt =====
-- src/format_mp3.c: what the filter gives back of a stream with metadata blocks in it.
use checkedc_icecast.Base.{
  ℕ, zero, suc, ◌+◌, ◌-◌, ◌*◌, ◌^◌, ◌≤◌, ◌<◌, ◌≡◌, refl, ap, ◌∙◌, inl, inr, ◌⊎◌, true, List, [],
  ◌∷◌, ◌++◌, some, Bytes, codes, c_string, has_prefix, arith, length, take, drop, length-append,
  Bool-cases,
}
use checkedc_icecast.Mp3.Filter.{
  Filter, kept, begin_block, metadata_remaining, is_news, assign_metadata, finish_block,
  after_block, str_str, prepend, filter_bytes, filter_shoutcast_metadata,
}
use checkedc_icecast.Mp3.Filter.Bytewise.{filter_bytes-bytewise}
use checkedc_icecast.Mp3.Filter.Runs.{
  IsFilter, close_block, follow, bytewise, prepend-nil, bytewise-begin, whole_block, all_audio,
}
use checkedc_icecast.Mp3.Filter.Chunks.{bytewise-append}

-- The audio of one interval and the text after it, its length in units of sixteen bytes.
pub record Block : Type 0 where
  pub audio : Bytes
  pub units : ℕ
  pub text : Bytes

pub record IsBlock (interval : ℕ) (b : Block) : Type 0 where
  pub audio_length : length b.audio ≡ interval
  pub text_length : length b.text ≡ b.units * 16
  pub text_kind : (b.units ≡ 0) ⊎ (has_prefix b.text (codes "StreamTitle=") ≡ true)

unfoldable pub AllBlocks : ℕ → List Block → Type 0
AllBlocks interval [] = Unit
AllBlocks interval (b ∷ blocks) = IsBlock interval b × AllBlocks interval blocks

-- The stream, and the audio in it.
unfoldable pub interleaved : List Block → Bytes → Bytes
interleaved [] tail = tail
interleaved (b ∷ blocks) tail = b.audio ++ b.units ∷ (b.text ++ interleaved blocks tail)

unfoldable pub audio_of : List Block → Bytes → Bytes
audio_of [] tail = tail
audio_of (b ∷ blocks) tail = b.audio ++ audio_of blocks tail

prefix-take :
    (n : ℕ) (t r p : Bytes)
    → length p ≤ n
    → n ≤ length t
    → has_prefix t p ≡ true
    → has_prefix (take n t ++ r) p ≡ true
unfolding has_prefix
prefix-take n t r [] h k e = refl
prefix-take zero t r (c ∷ p) h k e = absurd (omega arith)
prefix-take (suc n) [] r (c ∷ p) h k e = absurd (omega arith)
prefix-take (suc n) (d ∷ t) r (c ∷ p) h k e =
    ground (arith, prefix-take n t r p (omega arith) (omega arith))

prefix-append : (t r p : Bytes) → has_prefix t p ≡ true → has_prefix (t ++ r) p ≡ true
unfolding has_prefix
prefix-append t r [] e = refl
prefix-append [] r (c ∷ p) e = absurd (ground arith)
prefix-append (d ∷ t) r (c ∷ p) e = ground (arith, prefix-append t r p)

-- A block that is empty or begins with a title does not end the stream.
finish_block-goes_on :
    (s : Filter) (block : Bytes)
    → (s.build_len ≤ 1) ⊎ (has_prefix (drop 1 block) (codes "StreamTitle=") ≡ true)
    → (told : Filter) × (finish_block s block ≡ some told)
      × (told.interval ≡ s.interval)
      × (told.running ≡ s.running)
unfolding finish_block assign_metadata is_news filter_shoutcast_metadata
finish_block-goes_on s block h = elim (Bool-cases (is_news s block)) [
  | inr e ↦ (s, rw e refl, refl, refl)
  | inl e ↦ elim h [
    | inl few ↦ absurd (ground arith)
    | inr title ↦ (
      record (filter_shoutcast_metadata s block) {
        metadata = block;
        inline_url = str_str (c_string (drop 1 block)) (codes "StreamUrl='");
      },
      rw (e, title) refl,
      refl,
      refl,
    )
  ]
]

drop_past : (xs ys : Bytes) (n : ℕ) → length xs ≡ n → drop n (xs ++ ys) ≡ ys
drop_past [] ys zero e = refl
drop_past [] ys (suc n) e = absurd (omega arith)
drop_past (x ∷ xs) ys zero e = absurd (omega arith)
drop_past (x ∷ xs) ys (suc n) e = drop_past xs ys n (omega arith)

zero_or_pos : (n : ℕ) → (n ≡ 0) ⊎ (0 < n)
zero_or_pos zero = inl refl
zero_or_pos (suc n) = inr (omega arith)

drop_one-take : (n x : ℕ) (l r : Bytes) → 0 < n → drop 1 (take n (x ∷ l) ++ r) ≡ take (n - 1) l ++ r
drop_one-take zero x l r h = absurd (omega arith)
drop_one-take (suc n) x l r h = ap (λ k. take k l ++ r) (omega arith)

-- What is kept of a block to look at.
seen : Block → Bytes → Bytes
seen b rest = take (b.units * 16) (b.units ∷ (b.text ++ rest)) ++ 0 ∷ []

seen-title :
    (b : Block) (rest : Bytes) (interval : ℕ)
    → IsBlock interval b
    → (1 + b.units * 16 ≤ 1) ⊎ (has_prefix (drop 1 (seen b rest)) (codes "StreamTitle=") ≡ true)
unfolding seen
seen-title b rest interval g = elim g.text_kind [
  | inl e ↦ inl (omega arith)
  | inr e ↦ elim (zero_or_pos b.units) [
    | inl z ↦ inl (omega arith)
    | inr h ↦ inr (
        ap (λ l. has_prefix l (codes "StreamTitle="))
          (drop_one-take (b.units * 16) b.units (b.text ++ rest) (0 ∷ []) (omega arith))
        ∙ prefix-take (b.units * 16 - 1) (b.text ++ rest) (0 ∷ []) (codes "StreamTitle=")
            (omega arith) (omega (arith, length-append b.text rest, g.text_length))
            (prefix-append b.text rest (codes "StreamTitle=") e))
  ]
]

metadata_step :
    (s : Filter) (b : Block) (rest : Bytes)
    → s.interval ≤ s.offset
    → s.build_len ≡ 0
    → IsBlock s.interval b
    → (told : Filter) × (told.interval ≡ s.interval)
      × (told.running ≡ s.running)
      × (bytewise s (b.units ∷ (b.text ++ rest)) ≡ bytewise (after_block told) rest)
unfolding begin_block metadata_remaining close_block follow seen bytewise
metadata_step s b rest o l g =
    let n = b.units * 16 in
    let begun : Filter = record s { build = []; build_len = 1 + n } in
    let all = b.units ∷ (b.text ++ rest) in
    let on = finish_block-goes_on begun (seen b rest) (seen-title b rest s.interval g) in
    let begins : begin_block s b.units ≡ begun = rw l refl in
    (
      on.0,
      on.2,
      on.3,
      bytewise-begin s b.units (b.text ++ rest) o
          ∙ ap (λ t. bytewise t all) begins
          ∙ whole_block begun all n o (omega arith) (omega arith)
              (omega (arith, length-append b.text rest, g.text_length))
          ∙ ap (λ f. follow (close_block begun f) (λ t. bytewise t (drop (suc n) all))) on.1
          ∙ prepend-nil _
          ∙ ap (bytewise (after_block on.0)) (drop_past b.text rest n g.text_length),
    )

block_step :
    (s : Filter) (b : Block) (rest : Bytes)
    → s.offset ≡ 0
    → s.build_len ≡ 0
    → s.interval < 2 ^ 31
    → IsBlock s.interval b
    → (told : Filter) × (told.interval ≡ s.interval)
      × (told.running ≡ s.running)
      × (bytewise s (b.audio ++ b.units ∷ (b.text ++ rest))
          ≡ prepend b.audio (bytewise (after_block told) rest))
unfolding follow
block_step s b rest o l i g =
    let f : IsFilter s = omega arith in
    let full : Filter = record s { offset = s.offset + length b.audio } in
    let m = metadata_step full b rest (omega (arith, g.audio_length)) l g in
    (
      m.0,
      m.1,
      m.2,
      bytewise-append s b.audio (b.units ∷ (b.text ++ rest)) f
          ∙ ap (λ r. follow r (λ t. bytewise t (b.units ∷ (b.text ++ rest))))
              (all_audio s b.audio (omega (arith, g.audio_length)))
          ∙ ap (prepend b.audio) m.3,
    )

bytewise-interleaved :
    (s : Filter) (blocks : List Block) (tail : Bytes)
    → s.offset ≡ 0
    → s.build_len ≡ 0
    → s.interval < 2 ^ 31
    → length tail ≤ s.interval
    → AllBlocks s.interval blocks
    → (t : Filter) × (t.running ≡ s.running)
      × (bytewise s (interleaved blocks tail) ≡ kept t (audio_of blocks tail))
unfolding AllBlocks interleaved audio_of after_block prepend
bytewise-interleaved s [] tail o l i k g =
    (record s { offset = s.offset + length tail }, refl, all_audio s tail (omega arith))
bytewise-interleaved s (b ∷ blocks) tail o l i k g =
    let m = block_step s b (interleaved blocks tail) o l i g.0 in
    let all : AllBlocks m.0.interval blocks = rw m.1 g.1 in
    let rest =
      bytewise-interleaved (after_block m.0) blocks tail refl refl (omega (arith, m.1))
        (omega (arith, m.1)) all in
    (rest.0, rest.1 ∙ m.2, m.3 ∙ ap (prepend b.audio) rest.2)

-- A stream of blocks, read by a filter that is at the start of one, gives back the audio of all blocks
-- and of the tail, in order and without a byte of metadata, and the source goes on. The interval is
-- below 2^31, each block has an interval of audio, its text is empty or begins with `StreamTitle=` and
-- is padded to its length, and the tail is not longer than the interval.
pub filter-interleaved :
    (s : Filter) (blocks : List Block) (tail : Bytes)
    → s.offset ≡ 0
    → s.build_len ≡ 0
    → s.interval < 2 ^ 31
    → length tail ≤ s.interval
    → AllBlocks s.interval blocks
    → (t : Filter) × (t.running ≡ s.running)
      × (filter_bytes s (interleaved blocks tail) ≡ kept t (audio_of blocks tail))
filter-interleaved s blocks tail o l i k g =
    let f : IsFilter s = omega arith in
    let b = bytewise-interleaved s blocks tail o l i k g in
    (b.0, b.1, filter_bytes-bytewise s (interleaved blocks tail) f ∙ b.2)
