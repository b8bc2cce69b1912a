-- ===== src/Mp3/Listener/Relayed.antt =====
-- src/format_mp3.c: a listener through the buffers of a stream, and a relay that reads what it was sent.
use checkedc_icecast.Base.{
  ℕ, ◌^◌, ◌<◌, ◌≡◌, ◌⊎◌, inl, inr, refl, sym, ap, ◌∙◌, false, List, [], ◌++◌, Option, none, Bytes,
  arith, length, take, append-nil, take_all,
}
use checkedc_icecast.Mp3.Filter.{Filter, kept, filter_bytes}
use checkedc_icecast.Mp3.Filter.Encoded.{AllBlocks, interleaved, audio_of, filter-interleaved}
use checkedc_icecast.Mp3.Listener.{
  Metadata, Buffer, Mp3Client, block_for, format_mp3_write_buf_to_client,
}
use checkedc_icecast.Mp3.Listener.Framed.{IsAssociated, IsFramed, block_for-IsMetadata}
use checkedc_icecast.Mp3.Listener.Steps.{IsFramed-net, IsFramed-at, IsFramed-other}
use checkedc_icecast.Mp3.Listener.Writes.{IsHeard, write_buf-Wrote}

-- The client at a buffer of the stream, with the bytes of the buffers before it.
pub record Session : Type 0 where
  pub client : Mp3Client
  pub buffer : Buffer
  pub past : Bytes

-- A client that has just come to its first buffer.
abbrev pub first : ℕ → Buffer → Session
first interval buffer = record {
  client = record {
    interval = interval;
    since_meta_block = 0;
    in_metadata = false;
    metadata_offset = 0;
    associated = none;
    pos = 0;
    net = [];
    sent = [];
  };
  buffer = buffer;
  past = [];
}

-- The network takes what it will; the next buffer follows the last byte. Its metadata is another one only
-- where no part of a block was sent.
pub data Moves : Session → Session → Type 0 where
  write :
      (s : Session) (net : List (Option ℕ))
      → Moves s (record s {
        client = (format_mp3_write_buf_to_client (record s.client { net = net }) s.buffer).0;
      })
  next :
      (s : Session) (buffer : Buffer)
      → s.client.pos ≡ length s.buffer.bytes
      → IsAssociated buffer.associated
      → (s.client.metadata_offset ≡ 0) ⊎ (buffer.associated ≡ s.buffer.associated)
      → Moves s (record {
        client = record s.client { pos = 0 };
        buffer = buffer;
        past = s.past ++ s.buffer.bytes;
      })

pub data Reached (from : Session) : Session → Type 0 where
  here : Reached from from
  step : {s t : Session} → Reached from s → Moves s t → Reached from t

record IsSession (interval : ℕ) (s : Session) : Type 0 where
  heard : IsHeard s.buffer.associated s.past s.buffer.bytes interval s.client
  assoc : IsAssociated s.buffer.associated

with_net :
    (s : Session) (interval : ℕ) (net : List (Option ℕ))
    → IsSession interval s
    → IsSession interval (record s { client = record s.client { net = net } })
with_net s interval net g = record {
  heard = record {
    framed = IsFramed-net s.client s.buffer.associated _ net g.heard.framed;
    pos_le = g.heard.pos_le;
    same = g.heard.same;
  };
  assoc = g.assoc;
}

next_buffer :
    (s : Session) (interval : ℕ) (b : Buffer)
    → s.client.pos ≡ length s.buffer.bytes
    → IsAssociated b.associated
    → (s.client.metadata_offset ≡ 0) ⊎ (b.associated ≡ s.buffer.associated)
    → IsSession interval s
    → IsSession interval (record {
      client = record s.client { pos = 0 };
      buffer = b;
      past = s.past ++ s.buffer.bytes;
    })
next_buffer s interval b e m o g =
    let all : s.past ++ take s.client.pos s.buffer.bytes ≡ (s.past ++ s.buffer.bytes) ++ [] =
      ap (◌++◌ s.past) (take_all s.client.pos s.buffer.bytes (omega arith)) ∙ sym (append-nil _) in
    let moved =
      λ (a : Option Metadata)
          (f : IsFramed s.client a (s.past ++ take s.client.pos s.buffer.bytes)).
        IsFramed-at s.client a ((s.past ++ s.buffer.bytes) ++ []) 0 (rw (← all) f) in
    let framed : IsFramed s.client b.associated (s.past ++ take s.client.pos s.buffer.bytes) =
      elim o [
        | inl z ↦ IsFramed-other s.client s.buffer.associated b.associated _ m z g.heard.framed
        | inr t ↦ rw t g.heard.framed
      ] in
    record {
      heard = record {
        framed = moved b.associated framed;
        pos_le = omega arith;
        same = g.heard.same;
      };
      assoc = m;
    }

Moves-IsSession :
    {s t : Session} (interval : ℕ)
    → 0 < interval
    → Moves s t
    → IsSession interval s
    → IsSession interval t
Moves-IsSession interval p (write s net) g =
    let w = with_net s interval net g in
    record {
      heard =
          (write_buf-Wrote s.buffer.associated w.assoc s.past s.buffer.bytes interval
            (record s.client { net = net }) p w.heard).0;
      assoc = g.assoc;
    }
Moves-IsSession interval p (next s b e m o) g = next_buffer s interval b e m o g

first-IsSession :
    (interval : ℕ) (b : Buffer)
    → interval < 2 ^ 31
    → IsAssociated b.associated
    → IsSession interval (first interval b)
unfolding AllBlocks interleaved audio_of
first-IsSession interval b h m =
    let block = block_for-IsMetadata none b.associated m in
    record {
      heard = record {
        framed = record {
          blocks = [];
          tail = [];
          all_blocks = tt;
          tail_length = refl;
          sent_is = refl;
          heard_is = refl;
          within = omega arith;
          is_int = omega arith;
          whole = λ e. refl;
          full = λ e. cc;
          part = omega (arith, ap (length {A = ℕ}) block.bytes_are);
        };
        pos_le = omega arith;
        same = refl;
      };
      assoc = m;
    }

Reached-IsSession :
    (interval : ℕ) (b : Buffer) {s : Session}
    → 0 < interval
    → interval < 2 ^ 31
    → IsAssociated b.associated
    → Reached (first interval b) s
    → IsSession interval s
Reached-IsSession interval b p h m here = first-IsSession interval b h m
Reached-IsSession interval b p h m (step r mv) =
    Moves-IsSession interval p mv (Reached-IsSession interval b p h m r)

-- A listener with an interval between 1 and 2^31 - 1 goes through the buffers of a stream, whose metadata is well
-- formed, however little the network takes at a time, and no buffer with other metadata follows one at whose end
-- a part of a block was sent. Whenever no part of a block was sent, a relay that reads with the same interval gets,
-- of what was sent, exactly the audio up to the position of the listener, and its source goes on.
pub Reached-relayed :
    {s : Session} (interval : ℕ) (b : Buffer) (f : Filter)
    → 0 < interval
    → interval < 2 ^ 31
    → IsAssociated b.associated
    → Reached (first interval b) s
    → s.client.metadata_offset ≡ 0
    → f.interval ≡ interval
    → f.offset ≡ 0
    → f.build_len ≡ 0
    → (t : Filter) × (t.running ≡ f.running)
      × (filter_bytes f s.client.sent ≡ kept t (s.past ++ take s.client.pos s.buffer.bytes))
Reached-relayed {s} interval b f p h m r z i o l =
    let g = Reached-IsSession interval b p h m r in
    let f' = g.heard.framed in
    let same : s.client.interval ≡ f.interval = g.heard.same ∙ sym i in
    let all : AllBlocks f.interval f'.blocks = rw (← same) f'.all_blocks in
    let sent : s.client.sent ≡ interleaved f'.blocks f'.tail =
      f'.sent_is
      ∙ ap
          (λ n.
            interleaved f'.blocks
              (f'.tail ++ take n (block_for s.client.associated s.buffer.associated)))
          z
      ∙ ap (interleaved f'.blocks) (append-nil f'.tail) in
    let x =
      filter-interleaved f f'.blocks f'.tail o l (omega arith)
        (omega (arith, f'.within, f'.tail_length, same)) all in
    (x.0, x.1, ap (filter_bytes f) sent ∙ x.2 ∙ ap (kept x.0) f'.heard_is)
