-- ===== src/Mp3/Listener/Steps.antt =====
-- src/format_mp3.c: each send keeps what a listener was sent in whole intervals.
use checkedc_icecast.Base.{
  take-plus, ℕ, ◌+◌, ◌≤◌, ◌<◌, ◌≡◌, refl, sym, ap, ◌∙◌, true, false, List, [], ◌∷◌, ◌++◌, Option,
  Bytes, arith, length, take, drop, length-append, take-append-drop, append_assoc, append-nil,
}
use checkedc_icecast.Mp3.Filter.Encoded.{Block, interleaved, audio_of}
use checkedc_icecast.Mp3.Listener.{Metadata, Mp3Client, block_for, address_of}
use checkedc_icecast.Mp3.Listener.Framed.{
  IsAssociated, IsFramed, interleaved-snoc, interleaved-append, audio_of-append, audio_of-snoc,
  AllBlocks-snoc, block_for-IsMetadata,
}

pub IsFramed-net :
    (c : Mp3Client) (a : Option Metadata) (heard : Bytes) (net : List (Option ℕ))
    → IsFramed c a heard
    → IsFramed (record c { net = net }) a heard
IsFramed-net c a heard net f = record {
  blocks = f.blocks;
  tail = f.tail;
  all_blocks = f.all_blocks;
  tail_length = f.tail_length;
  sent_is = f.sent_is;
  heard_is = f.heard_is;
  within = f.within;
  is_int = f.is_int;
  whole = f.whole;
  full = f.full;
  part = f.part;
}

pub IsFramed-at :
    (c : Mp3Client) (a : Option Metadata) (heard : Bytes) (pos : ℕ)
    → IsFramed c a heard
    → IsFramed (record c { pos = pos }) a heard
IsFramed-at c a heard pos f = record {
  blocks = f.blocks;
  tail = f.tail;
  all_blocks = f.all_blocks;
  tail_length = f.tail_length;
  sent_is = f.sent_is;
  heard_is = f.heard_is;
  within = f.within;
  is_int = f.is_int;
  whole = f.whole;
  full = f.full;
  part = f.part;
}

-- Where no part of a block was sent, the next buffer may have any metadata.
pub IsFramed-other :
    (c : Mp3Client) (a b : Option Metadata) (heard : Bytes)
    → IsAssociated b
    → c.metadata_offset ≡ 0
    → IsFramed c a heard
    → IsFramed c b heard
IsFramed-other c a b heard m e f =
    let next = block_for-IsMetadata c.associated b m in
    record {
      blocks = f.blocks;
      tail = f.tail;
      all_blocks = f.all_blocks;
      tail_length = f.tail_length;
      sent_is =
          f.sent_is
          ∙ ap (λ n. interleaved f.blocks (f.tail ++ take n (block_for c.associated a))) e
          ∙ sym (ap (λ n. interleaved f.blocks (f.tail ++ take n (block_for c.associated b))) e);
      heard_is = f.heard_is;
      within = f.within;
      is_int = f.is_int;
      whole = f.whole;
      full = f.full;
      part = omega (arith, ap (length {A = ℕ}) next.bytes_are);
    }

pub IsFramed-held :
    (c : Mp3Client) (a : Option Metadata) (heard : Bytes) (net : List (Option ℕ))
    → IsFramed c a heard
    → c.since_meta_block ≡ c.interval
    → IsFramed (record c { net = net; in_metadata = true }) a heard
IsFramed-held c a heard net f e = record {
  blocks = f.blocks;
  tail = f.tail;
  all_blocks = f.all_blocks;
  tail_length = f.tail_length;
  sent_is = f.sent_is;
  heard_is = f.heard_is;
  within = f.within;
  is_int = f.is_int;
  whole = λ t. cc;
  full = λ t. e;
  part = f.part;
}

pub IsFramed-audio :
    (c : Mp3Client) (a : Option Metadata) (heard bytes : Bytes) (net : List (Option ℕ)) (k : ℕ)
    → IsFramed c a heard
    → c.in_metadata ≡ false
    → length bytes ≡ k
    → c.since_meta_block + k ≤ c.interval
    → IsFramed
        (record c {
          net = net;
          sent = c.sent ++ bytes;
          since_meta_block = c.since_meta_block + k;
          pos = c.pos + k;
        })
        a
        (heard ++ bytes)
IsFramed-audio c a heard bytes net k f e l h =
    let none_of : (t : Bytes) → take c.metadata_offset t ≡ [] =
      λ t. ap (λ n. take n t) (f.whole e) in
    record {
      blocks = f.blocks;
      tail = f.tail ++ bytes;
      all_blocks = f.all_blocks;
      tail_length = omega (arith, length-append f.tail bytes, f.tail_length, l);
      sent_is =
          ap (λ l. l ++ bytes)
            (f.sent_is
              ∙ ap (λ l. interleaved f.blocks (f.tail ++ l)) (none_of (block_for c.associated a))
              ∙ ap (interleaved f.blocks) (append-nil f.tail))
          ∙ interleaved-append f.blocks f.tail bytes
          ∙ sym (
              ap (λ l. interleaved f.blocks ((f.tail ++ bytes) ++ l))
                (none_of (block_for c.associated a))
              ∙ ap (interleaved f.blocks) (append-nil (f.tail ++ bytes)));
      heard_is = sym (audio_of-append f.blocks f.tail bytes) ∙ ap (λ l. l ++ bytes) f.heard_is;
      within = h;
      is_int = f.is_int;
      whole = f.whole;
      full = λ t. cc;
      part = f.part;
    }

pub IsFramed-part :
    (c : Mp3Client) (a : Option Metadata) (heard : Bytes) (net : List (Option ℕ)) (k : ℕ)
    → IsFramed c a heard
    → c.since_meta_block ≡ c.interval
    → c.metadata_offset + k < length (block_for c.associated a)
    → IsFramed
        (record c {
          net = net;
          sent = c.sent ++ take k (drop c.metadata_offset (block_for c.associated a));
          metadata_offset = c.metadata_offset + k;
          in_metadata = true;
        })
        a
        heard
IsFramed-part c a heard net k f e h =
    let block = block_for c.associated a in
    record {
      blocks = f.blocks;
      tail = f.tail;
      all_blocks = f.all_blocks;
      tail_length = f.tail_length;
      sent_is =
          ap (λ l. l ++ take k (drop c.metadata_offset block)) f.sent_is
          ∙ interleaved-append f.blocks (f.tail ++ take c.metadata_offset block) _
          ∙ ap (interleaved f.blocks) (
              append_assoc f.tail (take c.metadata_offset block) _
              ∙ ap (◌++◌ f.tail) (sym (take-plus c.metadata_offset k block)));
      heard_is = f.heard_is;
      within = f.within;
      is_int = f.is_int;
      whole = λ t. cc;
      full = λ t. e;
      part = h;
    }

pub IsFramed-whole :
    (c : Mp3Client) (a : Option Metadata) (heard : Bytes) (net : List (Option ℕ))
    → IsFramed c a heard
    → IsAssociated a
    → c.since_meta_block ≡ c.interval
    → IsFramed
        (record c {
          net = net;
          sent = c.sent ++ drop c.metadata_offset (block_for c.associated a);
          associated = address_of a;
          metadata_offset = 0;
          in_metadata = false;
          since_meta_block = 0;
        })
        a
        heard
IsFramed-whole c a heard net f m e =
    let b = block_for-IsMetadata c.associated a m in
    let next = block_for-IsMetadata (address_of a) a m in
    let block = block_for c.associated a in
    let whole : Block = record { audio = f.tail; units = b.units; text = b.text } in
    record {
      blocks = f.blocks ++ whole ∷ [];
      tail = [];
      all_blocks = AllBlocks-snoc c.interval f.blocks whole f.all_blocks (record {
        audio_length = f.tail_length ∙ e;
        text_length = b.text_length;
        text_kind = b.text_kind;
      });
      tail_length = refl;
      sent_is =
          ap (λ l. l ++ drop c.metadata_offset block) f.sent_is
          ∙ interleaved-append f.blocks (f.tail ++ take c.metadata_offset block) _
          ∙ ap (interleaved f.blocks) (
              append_assoc f.tail (take c.metadata_offset block) _
              ∙ ap (◌++◌ f.tail) (
                  take-append-drop c.metadata_offset block
                  ∙ b.bytes_are
                  ∙ ap (◌∷◌ b.units) (sym (append-nil b.text))))
          ∙ sym (interleaved-snoc f.blocks whole []);
      heard_is =
          audio_of-snoc f.blocks whole [] ∙ ap (audio_of f.blocks) (append-nil f.tail) ∙ f.heard_is;
      within = omega arith;
      is_int = f.is_int;
      whole = λ t. refl;
      full = λ t. cc;
      part = omega (arith, ap (length {A = ℕ}) next.bytes_are);
    }
