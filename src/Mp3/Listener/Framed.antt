-- ===== src/Mp3/Listener/Framed.antt =====
-- src/format_mp3.c: what a listener was sent is made of whole intervals with a metadata block behind each.
use checkedc_icecast.Base.{
  ℕ, ◌*◌, ◌^◌, ◌≤◌, ◌<◌, ◌≡◌, ◌⊎◌, refl, ap, ◌∙◌, inl, inr, true, false, List, [], ◌∷◌, ◌++◌,
  Option, none, some, Bytes, codes, has_prefix, arith, length, take, append_assoc, Bool-cases,
}
use checkedc_icecast.Mp3.Filter.Encoded.{Block, IsBlock, AllBlocks, interleaved, audio_of}
use checkedc_icecast.Mp3.Listener.{
  Metadata, Mp3Client, at_most, is_address, no_title, block_for, offset_for,
}

-- A length in units of sixteen bytes and a text of that length that is empty or begins with a title.
pub record IsMetadata (bytes : Bytes) : Type 0 where
  pub units : ℕ
  pub text : Bytes
  pub bytes_are : bytes ≡ units ∷ text
  pub text_length : length text ≡ units * 16
  pub text_kind : (units ≡ 0) ⊎ (has_prefix text (codes "StreamTitle=") ≡ true)

abbrev pub IsAssociated : Option Metadata → Type 0
IsAssociated none = Unit
IsAssociated (some m) = IsMetadata m.bytes

-- `heard` is the audio that was sent; behind it stands the part of the block that was sent.
pub record IsFramed (c : Mp3Client) (associated : Option Metadata) (heard : Bytes) : Type 0 where
  pub blocks : List Block
  pub tail : Bytes
  pub all_blocks : AllBlocks c.interval blocks
  pub tail_length : length tail ≡ c.since_meta_block
  pub sent_is :
      c.sent
      ≡ interleaved blocks (tail ++ take c.metadata_offset (block_for c.associated associated))
  pub heard_is : audio_of blocks tail ≡ heard
  pub within : c.since_meta_block ≤ c.interval
  pub is_int : c.interval < 2 ^ 32
  pub whole : c.in_metadata ≡ false → c.metadata_offset ≡ 0
  pub full : c.in_metadata ≡ true → c.since_meta_block ≡ c.interval
  pub part : c.metadata_offset < length (block_for c.associated associated)

pub no_title-IsMetadata : IsMetadata no_title
unfolding has_prefix
no_title-IsMetadata = record {
  units = 1;
  text = codes "StreamTitle='';" ++ 0 ∷ [];
  bytes_are = refl;
  text_length = refl;
  text_kind = inr refl;
}

pub block_for-IsMetadata :
    (last : Option ℕ) (a : Option Metadata) → IsAssociated a → IsMetadata (block_for last a)
unfolding block_for
block_for-IsMetadata last none h = no_title-IsMetadata
block_for-IsMetadata last (some m) h = elim (Bool-cases (is_address last m.address)) [
  | inl e ↦
      rw e (record {
        units = 0;
        text = [];
        bytes_are = refl;
        text_length = refl;
        text_kind = inl refl;
      })
  | inr e ↦ rw e h
]

pub interleaved-snoc :
    (blocks : List Block) (b : Block) (rest : Bytes)
    → interleaved (blocks ++ b ∷ []) rest
      ≡ interleaved blocks (b.audio ++ b.units ∷ (b.text ++ rest))
unfolding interleaved
interleaved-snoc [] b rest = refl
interleaved-snoc (a ∷ blocks) b rest =
    ap (λ r. a.audio ++ a.units ∷ (a.text ++ r)) (interleaved-snoc blocks b rest)

pub interleaved-append :
    (blocks : List Block) (tail more : Bytes)
    → interleaved blocks tail ++ more ≡ interleaved blocks (tail ++ more)
unfolding interleaved
interleaved-append [] tail more = refl
interleaved-append (b ∷ blocks) tail more =
    simp append_assoc
      (ap (λ r. b.audio ++ b.units ∷ (b.text ++ r)) (interleaved-append blocks tail more))

pub audio_of-append :
    (blocks : List Block) (tail more : Bytes)
    → audio_of blocks tail ++ more ≡ audio_of blocks (tail ++ more)
unfolding audio_of
audio_of-append [] tail more = refl
audio_of-append (b ∷ blocks) tail more =
    append_assoc b.audio (audio_of blocks tail) more
    ∙ ap (◌++◌ b.audio) (audio_of-append blocks tail more)

pub audio_of-snoc :
    (blocks : List Block) (b : Block) (rest : Bytes)
    → audio_of (blocks ++ b ∷ []) rest ≡ audio_of blocks (b.audio ++ rest)
unfolding audio_of
audio_of-snoc [] b rest = refl
audio_of-snoc (a ∷ blocks) b rest = ap (◌++◌ a.audio) (audio_of-snoc blocks b rest)

pub AllBlocks-snoc :
    (interval : ℕ) (blocks : List Block) (b : Block)
    → AllBlocks interval blocks
    → IsBlock interval b
    → AllBlocks interval (blocks ++ b ∷ [])
unfolding AllBlocks
AllBlocks-snoc interval [] b h g = (g, tt)
AllBlocks-snoc interval (a ∷ blocks) b h g = (h.0, AllBlocks-snoc interval blocks b h.1 g)

pub offset_for-eq :
    (last : Option ℕ) (n : ℕ) (a : Option Metadata)
    → n < length (block_for last a)
    → offset_for last n a ≡ n
unfolding offset_for block_for
offset_for-eq last n none h = refl
offset_for-eq last n (some m) h = elim (Bool-cases (is_address last m.address)) [
  | inl e ↦ rw e (omega (arith, (rw e at h)))
  | inr e ↦ rw e refl
]

pub at_most-le : (n m : ℕ) → at_most n m ≤ m
unfolding at_most
at_most-le n m = ground arith
