-- ===== src/Source/Queue/Burst.antt =====
-- src/source.c: a buffer goes on the queue, and the burst point moves.
use checkedc_icecast.Base.{
  ℕ, ◌+◌, ◌-◌, ◌%◌, ◌^◌, ◌≤◌, ◌≡◌, ◌⊎◌, refl, sym, ap, ◌∙◌, inl, inr, List, [], ◌∷◌, ◌++◌, Option,
  none, some, ltb, arith, length, length-append, Bool-cases, append_assoc,
}
use checkedc_icecast.Source.Mounts.{Client}
use checkedc_icecast.Source.Queue.{
  Refbuf, Stream, from, refbuf_addref, refbuf_release, sub_uint, first_point, append_buffer,
  move_burst, check_burst, take_buffer,
}
use checkedc_icecast.Source.Queue.Chain.{
  Absent, Distinct, Distinct-snoc, Distinct-middle, Distinct-update, total, total-append,
  update-middle, from-here,
}
use checkedc_icecast.Source.Queue.Counts.{refs, Counted, Counted-burst, Counted-snoc}

abbrev pub head_address : List Refbuf → Option ℕ
head_address [] = none
head_address (r ∷ chain) = some r.address

-- The queue is `old`, which the source refers to once, and then `burst`, which it refers to twice.
pub record IsParts (old burst : List Refbuf) (s : Stream) (clients : List Client) : Type 0 where
  pub chain : s.stream_data ≡ old ++ burst
  pub point : s.burst_point ≡ head_address burst
  pub old_counts : Counted 1 clients old
  pub burst_counts : Counted 2 clients burst
  pub distinct : Distinct (old ++ burst)
  pub queue_total : s.queue_size ≡ total (old ++ burst) % 2 ^ 32
  pub burst_total : s.burst_offset ≡ total burst % 2 ^ 32
  pub kept : (burst ≡ []) → old ≡ []

-- What holds between two rounds of source_main.
pub record IsQueue (s : Stream) (clients : List Client) : Type 0 where
  pub old : List Refbuf
  pub burst : List Refbuf
  pub parts : IsParts old burst s clients

-- Not more than the burst size follows the burst point, or it is the last buffer.
abbrev pub IsShort : Stream → List Refbuf → Type 0
IsShort s burst = (s.burst_offset ≤ s.burst_size) ⊎ (length burst ≤ 1)

released : Refbuf → Refbuf
released r = record r { count = (2 ^ 32 + r.count - 1) % 2 ^ 32 }

-- The state after one round of the loop.
past_first : Stream → Refbuf → Refbuf → Stream
past_first s r n = record s {
  burst_point = some n.address;
  burst_offset = sub_uint s.burst_offset r.len;
  stream_data = refbuf_release r.address s.stream_data;
}

snoc-append : (old burst : List Refbuf) (r : Refbuf) → (old ++ r ∷ []) ++ burst ≡ old ++ r ∷ burst
snoc-append old burst r = append_assoc old (r ∷ []) burst

total-middle :
    (old burst : List Refbuf) (r : Refbuf)
    → total (old ++ r ∷ burst) ≡ total old + (r.len + total burst)
total-middle old burst r = total-append old (r ∷ burst)

release-middle :
    (old burst : List Refbuf) (r : Refbuf)
    → Distinct (old ++ r ∷ burst)
    → refbuf_release r.address (old ++ r ∷ burst) ≡ old ++ released r ∷ burst
unfolding refbuf_release released
release-middle old burst r h = update-middle (λ n. (2 ^ 32 + n - 1) % 2 ^ 32) old r burst h

released-Distinct :
    (old burst : List Refbuf) (r : Refbuf)
    → Distinct (old ++ r ∷ burst)
    → Distinct (old ++ released r ∷ burst)
unfolding refbuf_release
released-Distinct old burst r h =
    rw (sym (release-middle old burst r h)) (Distinct-update r.address _ (old ++ r ∷ burst) h)

past_first-IsParts :
    (old : List Refbuf) (r n : Refbuf) (rest : List Refbuf) (s : Stream) (clients : List Client)
    → IsParts old (r ∷ n ∷ rest) s clients
    → IsParts (old ++ released r ∷ []) (n ∷ rest) (past_first s r n) clients
unfolding past_first released sub_uint
past_first-IsParts old r n rest s clients h =
    let b = n ∷ rest in
    let flat = snoc-append old b (released r) in
    record {
      chain = ap (refbuf_release r.address) h.chain ∙ release-middle old b r h.distinct ∙ sym flat;
      point = refl;
      old_counts =
          Counted-snoc 1 clients old (released r) h.old_counts
            (Counted-burst clients r h.burst_counts.0);
      burst_counts = h.burst_counts.1;
      distinct = rw flat (released-Distinct old b r h.distinct);
      queue_total = omega (
        arith,
        h.queue_total,
        ap total flat,
        total-middle old b (released r),
        total-middle old b r,
      );
      burst_total = omega (arith, h.burst_total);
      kept = λ e. absurd (omega (arith, ap length e));
    }

move_burst-IsParts :
    (burst old : List Refbuf) (s : Stream) (clients : List Client)
    → IsParts old burst s clients
    → (q : IsQueue (move_burst burst s) clients) × IsShort (move_burst burst s) q.burst
unfolding move_burst past_first
move_burst-IsParts [] old s clients h =
    (record { old = old; burst = []; parts = h }, inr (omega arith))
move_burst-IsParts (r ∷ []) old s clients h =
    (record { old = old; burst = r ∷ []; parts = h }, inr (omega arith))
move_burst-IsParts (r ∷ n ∷ rest) old s clients h =
    elim (Bool-cases (ltb s.burst_size s.burst_offset)) [
      | inr e ↦ rw e (record { old = old; burst = r ∷ n ∷ rest; parts = h }, inl (ground arith))
      | inl e ↦ rw e (
          move_burst-IsParts (n ∷ rest) (old ++ released r ∷ []) (past_first s r n) clients
            (past_first-IsParts old r n rest s clients h))
    ]

check_burst-here :
    (old burst : List Refbuf) (s : Stream) (clients : List Client)
    → IsParts old burst s clients
    → check_burst s ≡ move_burst burst s
unfolding check_burst move_burst
check_burst-here old [] s clients h =
    ap (λ p. elim p as (λ _. Stream) [ none ↦ s | some a ↦ move_burst (from a s.stream_data) s ])
      h.point
check_burst-here old (r ∷ rest) s clients h =
    ap (λ p. elim p as (λ _. Stream) [ none ↦ s | some a ↦ move_burst (from a s.stream_data) s ])
      h.point
    ∙ ap (λ c. move_burst (from r.address c) s) h.chain
    ∙ ap (λ c. move_burst c s) (from-here old r rest (Distinct-middle old r rest h.distinct).0)

-- The buffer that comes in, referred to once.
pub record IsNew (s : Stream) (clients : List Client) (r : Refbuf) : Type 0 where
  pub once : r.count ≡ 1
  pub unknown : Absent r.address s.stream_data
  pub unread : refs r.address clients ≡ 0

point_of : Option ℕ → ℕ → List Refbuf → Option ℕ
point_of p a [] = some a
point_of p a (r ∷ chain) = p

first_point-chain :
    (s : Stream) (r : Refbuf) → first_point s r ≡ point_of s.burst_point r.address s.stream_data
unfolding first_point point_of
first_point-chain s r = go s.stream_data
  where
    go :
        (chain : List Refbuf)
        → (elim chain as (λ _. Option ℕ) [ [] ↦ some r.address | (x ∷ rest) ↦ s.burst_point ])
          ≡ point_of s.burst_point r.address chain
    go [] = refl
    go (x ∷ rest) = refl

-- The burst point is the first buffer of a queue that was empty, and else where it was.
point_of-head :
    (old burst : List Refbuf) (r : Refbuf)
    → ((burst ≡ []) → old ≡ [])
    → point_of (head_address burst) r.address (old ++ burst)
      ≡ head_address (burst ++ record r { count = 2 } ∷ [])
unfolding point_of
point_of-head [] [] r h = refl
point_of-head (o ∷ old) [] r h = absurd (omega (arith, ap length (h refl)))
point_of-head [] (b ∷ burst) r h = refl
point_of-head (o ∷ old) (b ∷ burst) r h = refl

addref-snoc :
    (chain : List Refbuf) (r : Refbuf)
    → Distinct chain
    → Absent r.address chain
    → r.count ≡ 1
    → refbuf_addref r.address (chain ++ r ∷ []) ≡ chain ++ record r { count = 2 } ∷ []
unfolding refbuf_addref
addref-snoc chain r h k e =
    update-middle (λ n. (n + 1) % 2 ^ 32) chain r [] (Distinct-snoc chain r h k)
    ∙ ap (λ n. chain ++ record r { count = n } ∷ []) (omega (arith, e))

append_buffer-IsParts :
    (old burst : List Refbuf) (s : Stream) (r : Refbuf) (clients : List Client)
    → IsParts old burst s clients
    → IsNew s clients r
    → IsParts old (burst ++ record r { count = 2 } ∷ []) (append_buffer s r) clients
unfolding append_buffer
append_buffer-IsParts old burst s r clients h i =
    let flat = append_assoc old burst (record r { count = 2 } ∷ []) in
    let unknown : Absent r.address (old ++ burst) = rw (sym h.chain) i.unknown in
    record {
      chain =
          ap (λ c. refbuf_addref r.address (c ++ r ∷ [])) h.chain
          ∙ addref-snoc (old ++ burst) r h.distinct unknown i.once
          ∙ flat;
      point =
          first_point-chain s r
          ∙ ap (λ p. point_of p r.address s.stream_data) h.point
          ∙ ap (point_of (head_address burst) r.address) h.chain
          ∙ point_of-head old burst r h.kept;
      old_counts = h.old_counts;
      burst_counts = Counted-snoc 2 clients burst _ h.burst_counts (omega (arith, i.unread));
      distinct =
          rw (sym flat) (Distinct-snoc (old ++ burst) (record r { count = 2 }) h.distinct unknown);
      queue_total = omega (
        arith,
        h.queue_total,
        ap total flat,
        total-append (old ++ burst) (record r { count = 2 } ∷ []),
      );
      burst_total = omega (arith, h.burst_total, total-append burst (record r { count = 2 } ∷ []));
      kept = λ e.
          absurd (omega (arith, ap length e, length-append burst (record r { count = 2 } ∷ [])));
    }

-- A new buffer, referred to once, leaves a well-formed queue well formed, and afterwards the burst is
-- one buffer or has not more bytes than the burst size.
pub take_buffer-IsQueue :
    (s : Stream) (r : Refbuf) (clients : List Client)
    → IsQueue s clients
    → IsNew s clients r
    → (q : IsQueue (take_buffer s r) clients) × IsShort (take_buffer s r) q.burst
unfolding take_buffer
take_buffer-IsQueue s r clients h i =
    let p = append_buffer-IsParts h.old h.burst s r clients h.parts i in
    rw (check_burst-here h.old _ (append_buffer s r) clients p) (
      move_burst-IsParts (h.burst ++ record r { count = 2 } ∷ []) h.old (append_buffer s r) clients
        p)
