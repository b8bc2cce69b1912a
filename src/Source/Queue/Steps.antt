-- ===== src/Source/Queue/Steps.antt =====
-- src/source.c and src/format.c: what can happen to the queue of a stream and its listeners.
use mathlib.Core.Path.{subst}
use checkedc_icecast.Base.{
  ℕ, ◌^◌, ◌<◌, ◌≤◌, ◌≡◌, ◌≢◌, refl, sym, ap, ◌∙◌, inl, inr, Bool, true, false, List, [], ◌∷◌, ◌++◌,
  Option, none, some, arith, length, append_assoc, Bool-cases,
}
use checkedc_icecast.Source.Mounts.{Client}
use checkedc_icecast.Source.Queue.{
  Refbuf, Stream, points_to, points_head, take_buffer, reduce_queue, release_from, set_queue,
  format_advance_queue, find_client_start, refbuf_release, falls_behind, drop_behind,
}
use checkedc_icecast.Source.Queue.Chain.{Absent}
use checkedc_icecast.Source.Queue.Counts.{bit, refs}
use checkedc_icecast.Source.Queue.Burst.{head_address, IsQueue, IsNew, take_buffer-IsQueue}
use checkedc_icecast.Source.Queue.Trim.{reduce_queue-IsReduced}
use checkedc_icecast.Source.Queue.Clients.{
  IsOwn, changed-IsQueue, leaves-IsQueue, joins-IsQueue, set_queue-IsQueue, advance-IsQueue,
  start-IsQueue,
}
use checkedc_icecast.Source.Queue.Recount.{head_address-update}

drop_from-IsQueue :
    (flag : Bool) (cs : List Client) (s : Stream) (xs : List Client)
    → IsQueue s (xs ++ cs)
    → IsQueue (drop_behind flag s cs).0 (xs ++ (drop_behind flag s cs).1)
unfolding drop_behind
drop_from-IsQueue flag [] s xs q = q
drop_from-IsQueue flag (c ∷ cs) s xs q = elim (Bool-cases (falls_behind flag s c)) [
  | inl e ↦ rw (drop_behind, e) (drop_from-IsQueue flag cs _ xs (leaves-IsQueue s xs c cs q))
  | inr e ↦
      rw (drop_behind, e)
        (subst (IsQueue _) (append_assoc xs (c ∷ []) _) (
          drop_from-IsQueue flag cs s (xs ++ c ∷ [])
            (subst (IsQueue s) (sym (append_assoc xs (c ∷ []) cs)) q)))
]

-- What happens to a stream and its listeners, in any order.
pub data Step : Stream → List Client → Stream → List Client → Type 0 where
  arrives :
      {s : Stream} {cs : List Client} (r : Refbuf) → IsNew s cs r → Step s cs (take_buffer s r) cs
  reduces : {s : Stream} {cs : List Client} → length cs < 2 ^ 31 → Step s cs (reduce_queue s) cs
  lags :
      {s : Stream} {cs : List Client} (flag : Bool)
      → Step s cs (drop_behind flag s cs).0 (drop_behind flag s cs).1
  joins :
      {s : Stream} (xs : List Client) (c : Client) (ys : List Client)
      → IsOwn c.refbuf s.stream_data
      → Step s (xs ++ ys) s (xs ++ c ∷ ys)
  writes :
      {s : Stream} (xs : List Client) (c : Client) (ys : List Client) (n : ℕ)
      → Step s (xs ++ c ∷ ys) s (xs ++ record c { pos = n } ∷ ys)
  advances :
      {s : Stream} (xs : List Client) (c : Client) (ys : List Client)
      → Step s (xs ++ c ∷ ys) (format_advance_queue s c).0 (xs ++ (format_advance_queue s c).1 ∷ ys)
  starts :
      {s : Stream} (xs : List Client) (c : Client) (ys : List Client)
      → Step s (xs ++ c ∷ ys) (find_client_start s c).0 (xs ++ (find_client_start s c).1 ∷ ys)
  lets_go :
      {s : Stream} (xs : List Client) (c : Client) (ys : List Client)
      → Step s (xs ++ c ∷ ys) (set_queue s c none).0 (xs ++ (set_queue s c none).1 ∷ ys)
  leaves :
      {s : Stream} (xs : List Client) (c : Client) (ys : List Client)
      → Step s
          (xs ++ c ∷ ys)
          (record s { stream_data = release_from c.refbuf s.stream_data })
          (xs ++ ys)

pub data Reached : Stream → List Client → Type 0 where
  begun :
      {s : Stream}
      → s.stream_data ≡ []
      → s.burst_point ≡ none
      → s.queue_size ≡ 0
      → s.burst_offset ≡ 0
      → Reached s []
  next : {s t : Stream} {cs ds : List Client} → Reached s cs → Step s cs t ds → Reached t ds

Step-IsQueue :
    (s : Stream) (cs : List Client) (t : Stream) (ds : List Client)
    → Step s cs t ds
    → IsQueue s cs
    → IsQueue t ds
Step-IsQueue _ _ _ _ (arrives r i) q = (take_buffer-IsQueue _ r _ q i).0
Step-IsQueue _ _ _ _ (reduces l) q = (reduce_queue-IsReduced _ _ l q).queue
Step-IsQueue _ _ _ _ (lags flag) q = drop_from-IsQueue flag _ _ [] q
Step-IsQueue _ _ _ _ (joins xs c ys o) q = joins-IsQueue _ xs c ys o q
Step-IsQueue _ _ _ _ (writes xs c ys n) q = changed-IsQueue _ xs c _ ys refl q
Step-IsQueue _ _ _ _ (advances xs c ys) q = advance-IsQueue _ xs c ys q
Step-IsQueue _ _ _ _ (starts xs c ys) q = start-IsQueue _ xs c ys q
Step-IsQueue _ _ _ _ (lets_go xs c ys) q = set_queue-IsQueue _ xs c ys none q
Step-IsQueue _ _ _ _ (leaves xs c ys) q = leaves-IsQueue _ xs c ys q

-- From an empty queue without listeners on, the queue is well formed after any sequence of steps: its
-- buffers stand at distinct addresses and are counted right modulo 2^32, its sizes are the sums of the
-- lengths modulo 2^32, and the burst point is on it. A buffer that arrives is new and referred to
-- once, a listener that joins brings a buffer of its own or none, and the queue is reduced while fewer
-- than 2^31 listen.
pub Reached-IsQueue : (s : Stream) (clients : List Client) → Reached s clients → IsQueue s clients
Reached-IsQueue s _ (begun a b c d) = record {
  old = [];
  burst = [];
  parts = record {
    chain = a;
    point = b;
    old_counts = tt;
    burst_counts = tt;
    distinct = tt;
    queue_total = c;
    burst_total = d;
    kept = λ e. refl;
  };
}
Reached-IsQueue s clients (next before step) =
    Step-IsQueue _ _ s clients step (Reached-IsQueue _ _ before)

points_head-here :
    (chain : List Refbuf) (a : ℕ) (p : Option ℕ)
    → head_address chain ≡ some a
    → points_head chain p ≡ points_to p a
unfolding points_head
points_head-here [] a p h = absurd (option_clash h)
  where
    option_clash : ¬ (none ≡ some a)
    option_clash e =
        omega (arith, ap (λ (o : Option ℕ). elim o as (λ _. ℕ) [ none ↦ 0 | some x ↦ 1 ]) e)
points_head-here (r ∷ chain) a p h = ap (points_or p) h
  where
    points_or : Option ℕ → Option ℕ → Bool
    points_or q none = false
    points_or q (some x) = points_to q x

release-head :
    (p : Option ℕ) (chain : List Refbuf) → head_address (release_from p chain) ≡ head_address chain
unfolding release_from refbuf_release
release-head none chain = refl
release-head (some a) chain = head_address-update a _ chain

-- After the clients that fell behind are dropped, nobody refers to the first buffer.
drop_behind-refs :
    (cs : List Client) (s : Stream) (a : ℕ)
    → head_address s.stream_data ≡ some a
    → (refs a (drop_behind true s cs).1 ≡ 0)
      × (head_address (drop_behind true s cs).0.stream_data ≡ some a)
      × ((drop_behind true s cs).0.burst_point ≡ s.burst_point)
      × (length (drop_behind true s cs).1 ≤ length cs)
unfolding drop_behind falls_behind
drop_behind-refs [] s a h = (refl, h, refl, omega arith)
drop_behind-refs (c ∷ cs) s a h =
    let here = points_head-here s.stream_data a c.refbuf h in
    elim (Bool-cases (falls_behind true s c)) [
      | inl e ↦
          let rest =
            drop_behind-refs cs (record s { stream_data = release_from c.refbuf s.stream_data }) a
              (release-head c.refbuf s.stream_data ∙ h) in
          rw (drop_behind, e) (rest.0, rest.1, rest.2, omega (arith, rest.3))
      | inr e ↦
          let rest = drop_behind-refs cs s a h in
          rw (drop_behind, e)
            (omega (arith, ap bit (sym here ∙ e), rest.0), rest.1, rest.2, omega (arith, rest.3))
    ]

-- With fewer than 2^31 listeners and a well-formed queue whose first buffer is not the burst point, a
-- round that deletes the clients that still refer to that buffer takes it off the queue.
pub round-frees :
    (s : Stream) (clients : List Client) (a : ℕ)
    → length clients < 2 ^ 31
    → IsQueue s clients
    → head_address s.stream_data ≡ some a
    → s.burst_point ≢ some a
    → Absent a (reduce_queue (drop_behind true s clients).0).stream_data
round-frees s clients a l q h n =
    let d = drop_behind-refs clients s a h in
    (reduce_queue-IsReduced (drop_behind true s clients).0 (drop_behind true s clients).1
        (omega (arith, d.3)) (drop_from-IsQueue true clients s [] q)).freed
      a d.0 d.1 (λ e. n (sym d.2 ∙ e))
