-- ===== src/Source/Queue.antt =====
-- src/source.c, src/format.c and src/refbuf.c: the queue of a source's stream and the listeners that read it. The
-- chain of buffers from stream_data on is a list; a pointer is an address. A count is that of a buffer on the queue:
-- memory that is given back, and a buffer that only a client holds, are left out.
pub mod Chain
pub mod Counts
pub mod Burst
pub mod Trim
pub mod Recount
pub mod Clients
pub mod Steps
use checkedc_icecast.Base.{
  ℕ, zero, suc, ◌+◌, ◌-◌, ◌%◌, ◌^◌, Bool, true, false, ◌&&◌, ◌||◌, List, [], ◌∷◌, ◌++◌, Option,
  none, some, ◌==◌, ltb, if◌then◌else◌,
}
use checkedc_icecast.Base.Number.{ℤ, pos, negsuc, eqb_ℤ}
use checkedc_icecast.Source.Mounts.{Client, check_other}
use checkedc_icecast.Source.Listeners.{client_set_queue}

-- refbuf_t, with the address where it stands.
pub record Refbuf : Type 0 where
  pub address : ℕ
  pub len : ℕ
  pub count : ℕ
  pub sync_point : Bool

-- The fields of source_t that belong to the queue.
pub record Stream : Type 0 where
  pub stream_data : List Refbuf
  pub burst_point : Option ℕ
  pub burst_offset : ℕ
  pub burst_size : ℕ
  pub queue_size : ℕ
  pub queue_size_limit : ℕ
  pub running : Bool

unfoldable pub at_address : ℕ → (ℕ → ℕ) → Refbuf → Refbuf
at_address a f r = if r.address == a then record r { count = f r.count } else r

unfoldable pub update : ℕ → (ℕ → ℕ) → List Refbuf → List Refbuf
update a f [] = []
update a f (r ∷ chain) = at_address a f r ∷ update a f chain

unfoldable pub refbuf_addref : ℕ → List Refbuf → List Refbuf
refbuf_addref a chain = update a (λ n. (n + 1) % 2 ^ 32) chain

unfoldable pub refbuf_release : ℕ → List Refbuf → List Refbuf
refbuf_release a chain = update a (λ n. (2 ^ 32 + n - 1) % 2 ^ 32) chain

-- The chain that a pointer begins.
unfoldable pub from : ℕ → List Refbuf → List Refbuf
from a [] = []
from a (r ∷ chain) = let rest = from a chain in if r.address == a then r ∷ chain else rest

unfoldable pub sub_uint : ℕ → ℕ → ℕ
sub_uint m n = (2 ^ 32 + m - n % 2 ^ 32) % 2 ^ 32

-- The first buffer is where the queue and the burst begin.
unfoldable pub first_point : Stream → Refbuf → Option ℕ
first_point s r = elim s.stream_data as (λ _. Option ℕ) [
  | [] ↦ some r.address
  | (x ∷ chain) ↦ s.burst_point
]

-- A buffer from the source goes on the queue, with a reference for the burst.
unfoldable pub append_buffer : Stream → Refbuf → Stream
append_buffer s r = record s {
  stream_data = refbuf_addref r.address (s.stream_data ++ r ∷ []);
  burst_point = first_point s r;
  burst_offset = (s.burst_offset + r.len) % 2 ^ 32;
  queue_size = (s.queue_size + r.len) % 2 ^ 32;
}

-- The burst point goes on while more than burst_size bytes follow it; the chain is the one it begins.
unfoldable pub move_burst : List Refbuf → Stream → Stream
move_burst [] s = s
move_burst (r ∷ []) s = s
move_burst (r ∷ n ∷ rest) s =
    let moved = move_burst (n ∷ rest) (record s {
      burst_point = some n.address;
      burst_offset = sub_uint s.burst_offset r.len;
      stream_data = refbuf_release r.address s.stream_data;
    }) in
    if ltb s.burst_size s.burst_offset then moved else s

unfoldable pub check_burst : Stream → Stream
check_burst s = elim s.burst_point as (λ _. Stream) [
  | none ↦ s
  | some a ↦ move_burst (from a s.stream_data) s
]

unfoldable pub take_buffer : Stream → Refbuf → Stream
take_buffer s r = check_burst (append_buffer s r)

unfoldable pub too_much : Stream → Bool
too_much s = ltb s.queue_size_limit s.queue_size

unfoldable pub points_to : Option ℕ → ℕ → Bool
points_to none a = false
points_to (some b) a = b == a

unfoldable pub is_empty : List Refbuf → Bool
is_empty [] = true
is_empty (r ∷ chain) = false

-- The buffers that nobody refers to go, from the first on.
unfoldable pub reduce_from : List Refbuf → Stream → Stream
reduce_from [] s = s
reduce_from (to_go ∷ rest) s =
    let reduced =
      reduce_from rest
        (record s { stream_data = rest; queue_size = sub_uint s.queue_size to_go.len }) in
    if to_go.count == 1
    then (if is_empty rest || points_to s.burst_point to_go.address
        then record s { running = false }
        else reduced)
    else s

unfoldable pub reduce_queue : Stream → Stream
reduce_queue s = reduce_from s.stream_data s

unfoldable pub add_to : Option ℕ → List Refbuf → List Refbuf
add_to none chain = chain
add_to (some a) chain = refbuf_addref a chain

unfoldable pub release_from : Option ℕ → List Refbuf → List Refbuf
release_from none chain = chain
release_from (some a) chain = refbuf_release a chain

-- What client_set_queue does to the counts.
unfoldable pub set_queue : Stream → Client → Option ℕ → Stream × Client
set_queue s client refbuf = (
  record s { stream_data = release_from client.refbuf (add_to refbuf s.stream_data) },
  client_set_queue client refbuf,
)

-- The move of a client whose buffer begins the chain.
unfoldable pub advance_in : List Refbuf → Stream → Client → Stream × Client
advance_in [] s client = (s, client)
advance_in (r ∷ []) s client = (s, client)
advance_in (r ∷ n ∷ rest) s client =
    if client.pos == r.len then set_queue s client (some n.address) else (s, client)

-- The result, whether there is something to send, is left out.
unfoldable pub format_advance_queue : Stream → Client → Stream × Client
format_advance_queue s client = elim client.refbuf as (λ _. Stream × Client) [
  | none ↦ (s, client)
  | some a ↦ advance_in (from a s.stream_data) s client
]

unfoldable pub to_size : ℤ → ℕ
to_size (pos n) = n % 2 ^ 64
to_size (negsuc n) = 2 ^ 64 - suc n % 2 ^ 64

-- The loop that passes over `size` bytes, a size_t, of the burst.
unfoldable pub skip : ℕ → List Refbuf → List Refbuf
skip size [] = []
skip size (r ∷ []) = r ∷ []
skip size (r ∷ n ∷ rest) =
    let skipped = skip ((2 ^ 64 + size - r.len % 2 ^ 64) % 2 ^ 64) (n ∷ rest) in
    if ltb 0 size then skipped else r ∷ n ∷ rest

unfoldable pub first_sync : List Refbuf → Option ℕ
first_sync [] = none
first_sync (r ∷ chain) =
    let rest = first_sync chain in if r.sync_point then some r.address else rest

-- The last buffer, where it is a sync point.
unfoldable pub sync_tail : List Refbuf → Option ℕ
sync_tail [] = none
sync_tail (r ∷ []) = if r.sync_point then some r.address else none
sync_tail (r ∷ n ∷ chain) = sync_tail (n ∷ chain)

unfoldable pub burst_chain : Stream → List Refbuf
burst_chain s = elim s.burst_point as (λ _. List Refbuf) [
  | none ↦ []
  | some a ↦ from a s.stream_data
]

unfoldable pub start_in_burst : Stream → Client → Option ℕ
start_in_burst s client = first_sync (skip (to_size client.intro_offset) (burst_chain s))

unfoldable pub start_at : Stream → Client → Option ℕ
start_at s client =
    if eqb_ℤ client.intro_offset (negsuc 0)
    then elim (sync_tail s.stream_data) as (λ _. Option ℕ) [
      | some a ↦ some a
      | none ↦ start_in_burst s client
    ]
    else start_in_burst s client

unfoldable pub find_client_start : Stream → Client → Stream × Client
find_client_start s client = elim (start_at s client) as (λ _. Stream × Client) [
  | none ↦ (s, client)
  | some a ↦
      let set = set_queue s client (some a) in
      (set.0, record set.1 { check_buffer = check_other; intro_offset = negsuc 0 })
]

-- The test behind the writing: the client still refers to the first buffer, which is about to go.
unfoldable pub points_head : List Refbuf → Option ℕ → Bool
points_head [] p = false
points_head (r ∷ chain) p = points_to p r.address

unfoldable pub falls_behind : Bool → Stream → Client → Bool
falls_behind deletion_expected s client =
    deletion_expected && points_head s.stream_data client.refbuf

-- The loop over the clients: those that are deleted let go of their buffers. What a client writes before, and one
-- that has an error already, are steps of their own.
unfoldable pub drop_behind : Bool → Stream → List Client → Stream × List Client
drop_behind deletion_expected s [] = (s, [])
drop_behind deletion_expected s (client ∷ clients) =
    elim (falls_behind deletion_expected s client) as (λ _. Stream × List Client) [
      | true ↦
          drop_behind deletion_expected
            (record s { stream_data = release_from client.refbuf s.stream_data }) clients
      | false ↦ let left = drop_behind deletion_expected s clients in (left.0, client ∷ left.1)
    ]
