-- ===== src/Stats/Streams.antt =====
-- src/stats.c: stats_get_streams writes the names of the sources, a line each, into blocks of 4096 bytes. The sources
-- are those of the tree in its order, each with its `hidden`. `none` stands for a line that is longer than its block.
use checkedc_icecast.Base.{
  ℕ, zero, suc, ◌+◌, ◌-◌, ◌<◌, ◌≡◌, refl, sym, ap, ◌∙◌, inl, inr, List, [], ◌∷◌, ◌++◌, Option, none,
  some, ltb, leb, lt→ltb, if◌then◌else◌, Bytes, codes, length, length-append, append_assoc,
  append-nil, concat, concat-snoc, All, All-append, arith, Bool-cases,
}

abbrev pub block_size : ℕ
block_size = 4096

-- The blocks that are full, the text of the last one, and what remains of it.
pub record Blocks : Type 0 where
  pub full : List Bytes
  pub last : Bytes
  pub remaining : ℕ

abbrev pub line_of : Bytes → Bytes
line_of source = source ++ codes "\r\n"

unfoldable pub next_block : Bytes → Blocks → Blocks
next_block source b =
    if leb b.remaining (length source + 3)
    then record { full = b.full ++ b.last ∷ []; last = []; remaining = block_size }
    else b

-- The snprintf of a line; a result that is not below `remaining` would lead beyond the block.
unfoldable pub put_line : Bytes → Blocks → Option Blocks
put_line source b =
    if ltb (length (line_of source)) b.remaining
    then some (record b {
      last = b.last ++ line_of source;
      remaining = b.remaining - length (line_of source);
    })
    else none

unfoldable pub add_source : Bytes → ℕ → Blocks → Option Blocks
add_source source zero b = put_line source (next_block source b)
add_source source (suc hidden) b = some b

unfoldable pub stream_loop : List (Bytes × ℕ) → Blocks → Option Blocks
stream_loop [] b = some b
stream_loop ((source, hidden) ∷ sources) b =
    elim (add_source source hidden b) as (λ _. Option Blocks) [
      | none ↦ none
      | some next ↦ stream_loop sources next
    ]

abbrev pub blocks_of : Blocks → List Bytes
blocks_of b = b.full ++ b.last ∷ []

unfoldable pub stats_get_streams : List (Bytes × ℕ) → Option Blocks
stats_get_streams sources =
    stream_loop sources (record { full = []; last = []; remaining = block_size })

-- A line for each source that is not hidden.
unfoldable pub stream_lines : List (Bytes × ℕ) → Bytes
stream_lines [] = []
stream_lines ((source, zero) ∷ sources) = line_of source ++ stream_lines sources
stream_lines ((source, suc hidden) ∷ sources) = stream_lines sources

-- Every block keeps to its size.
pub record AreBlocks (b : Blocks) : Type 0 where
  pub room : b.remaining + length b.last ≡ block_size
  pub some_room : 0 < b.remaining
  pub full_size : All (λ (t : Bytes). length t < block_size) b.full

-- The names that a block can hold.
abbrev pub AllShort : List (Bytes × ℕ) → Type 0
AllShort sources = All (λ (s : Bytes × ℕ). length s.0 < 4093) sources

-- A block has room for the line, and the text is as before.
next_block-room :
    (source : Bytes) (b : Blocks)
    → length source < 4093
    → AreBlocks b
    → AreBlocks (next_block source b)
      × (length (line_of source) < (next_block source b).remaining)
      × (concat (blocks_of (next_block source b)) ≡ concat (blocks_of b))
unfolding next_block
next_block-room source b h a = elim (Bool-cases (leb b.remaining (length source + 3))) [
  | inl e ↦
      let lasts : length b.last < block_size = omega (arith, a.room, a.some_room) in
      rw e (
        record {
          room = refl;
          some_room = omega arith;
          full_size =
              All-append (λ (t : Bytes). length t < block_size) b.full (b.last ∷ []) a.full_size
                (lasts, tt);
        },
        omega (arith, length-append source (codes "\r\n")),
        concat-snoc (b.full ++ b.last ∷ []) [] ∙ append-nil _,
      )
  | inr e ↦
      let long : length source + 3 < b.remaining = ground (arith, e) in
      rw e (a, omega (arith, length-append source (codes "\r\n"), long), refl)
]

put_line-Blocks :
    (source : Bytes) (b : Blocks)
    → AreBlocks b
    → length (line_of source) < b.remaining
    → (c : Blocks) × (put_line source b ≡ some c)
      × AreBlocks c
      × (concat (blocks_of c) ≡ concat (blocks_of b) ++ line_of source)
unfolding put_line
put_line-Blocks source b a h = (
  record b { last = b.last ++ line_of source; remaining = b.remaining - length (line_of source) },
  rw (lt→ltb (length (line_of source)) b.remaining h) refl,
  record {
    room = omega (arith, a.room, h, length-append b.last (line_of source));
    some_room = omega (arith, h);
    full_size = a.full_size;
  },
  concat-snoc b.full (b.last ++ line_of source)
      ∙ sym (append_assoc (concat b.full) b.last (line_of source))
      ∙ ap (λ t. t ++ line_of source) (sym (concat-snoc b.full b.last)),
)

add_source-Blocks :
    (source : Bytes) (hidden : ℕ) (b : Blocks)
    → length source < 4093
    → AreBlocks b
    → (c : Blocks) × (add_source source hidden b ≡ some c)
      × AreBlocks c
      × (concat (blocks_of c) ≡ concat (blocks_of b) ++ stream_lines ((source, hidden) ∷ []))
unfolding add_source stream_lines
add_source-Blocks source zero b h a =
    let n = next_block-room source b h a in
    let p = put_line-Blocks source (next_block source b) n.0 n.1 in
    (
      p.0,
      p.1,
      p.2,
      p.3
          ∙ ap (λ t. t ++ line_of source) n.2
          ∙ ap (λ t. concat (blocks_of b) ++ t) (sym (append-nil (line_of source))),
    )
add_source-Blocks source (suc hidden) b h a = (b, refl, a, sym (append-nil (concat (blocks_of b))))

stream_lines-cons :
    (source : Bytes) (hidden : ℕ) (sources : List (Bytes × ℕ))
    → stream_lines ((source, hidden) ∷ sources)
      ≡ stream_lines ((source, hidden) ∷ []) ++ stream_lines sources
unfolding stream_lines
stream_lines-cons source zero sources =
    sym (append_assoc (line_of source) [] (stream_lines sources))
stream_lines-cons source (suc hidden) sources = refl

stream_loop-Blocks :
    (sources : List (Bytes × ℕ)) (b : Blocks)
    → AllShort sources
    → AreBlocks b
    → (c : Blocks) × (stream_loop sources b ≡ some c)
      × AreBlocks c
      × (concat (blocks_of c) ≡ concat (blocks_of b) ++ stream_lines sources)
unfolding stream_loop stream_lines
stream_loop-Blocks [] b h a = (b, refl, a, sym (append-nil (concat (blocks_of b))))
stream_loop-Blocks ((source, hidden) ∷ sources) b h a =
    let p = add_source-Blocks source hidden b h.0 a in
    let q = stream_loop-Blocks sources p.0 h.1 p.2 in
    (
      q.0,
      ap
            (λ o. elim o as (λ _. Option Blocks) [
              | none ↦ none
              | some next ↦ stream_loop sources next
            ])
            p.1
          ∙ q.1,
      q.2,
      q.3
          ∙ ap (λ t. t ++ stream_lines sources) p.3
          ∙ append_assoc (concat (blocks_of b)) (stream_lines ((source, hidden) ∷ []))
              (stream_lines sources)
          ∙ ap (λ t. concat (blocks_of b) ++ t) (sym (stream_lines-cons source hidden sources)),
    )

-- Where each source's name is shorter than 4093 bytes, no line leads beyond its block, every block that is
-- passed on keeps to its size, and the blocks together are a line for each source that is not hidden, in order.
pub get_streams-lines :
    (sources : List (Bytes × ℕ))
    → AllShort sources
    → (c : Blocks) × (stats_get_streams sources ≡ some c)
      × AreBlocks c
      × (concat (blocks_of c) ≡ stream_lines sources)
unfolding stats_get_streams
get_streams-lines sources h =
    stream_loop-Blocks sources (record { full = []; last = []; remaining = block_size }) h
      (record { room = refl; some_room = omega arith; full_size = tt })
