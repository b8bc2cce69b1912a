-- ===== src/Source/Queue/Trim.antt =====
-- src/source.c: the buffers at the front of the queue that nobody refers to are given back.
use mathlib.Core.Path.{subst}
use checkedc_icecast.Base.{
  ℕ, ◌^◌, ◌<◌, ◌≡◌, ◌≢◌, refl, sym, ap, ◌∙◌, inl, inr, false, ◌||◌, List, [], ◌∷◌, ◌++◌, Option,
  none, some, ◌==◌, ==_iff, arith, length, Bool-cases,
}
use checkedc_icecast.Source.Mounts.{Client}
use checkedc_icecast.Source.Queue.{
  Refbuf, Stream, sub_uint, points_to, is_empty, reduce_from, reduce_queue,
}
use checkedc_icecast.Source.Queue.Chain.{Absent, Distinct, Distinct-middle}
use checkedc_icecast.Source.Queue.Counts.{refs, refs_le}
use checkedc_icecast.Source.Queue.Burst.{head_address, IsParts, IsQueue}

-- The first buffer is in use.
abbrev pub IsDone : List Refbuf → Type 0
IsDone [] = Unit
IsDone (r ∷ chain) = r.count ≢ 1

-- The queue `t` is `s` without the buffers that nobody uses.
pub record IsReduced (s t : Stream) (clients : List Client) : Type 0 where
  pub queue : IsQueue t clients
  pub running : t.running ≡ s.running
  pub in_use : (a : ℕ) → 0 < refs a clients → ¬ Absent a s.stream_data → ¬ Absent a t.stream_data
  pub done : IsDone t.stream_data
  pub no_more : (a : ℕ) → Absent a s.stream_data → Absent a t.stream_data
  pub freed :
      (a : ℕ)
      → refs a clients ≡ 0
      → head_address s.stream_data ≡ some a
      → s.burst_point ≢ some a
      → Absent a t.stream_data

-- A first buffer that is in use is referred to by a client, or is the burst point.
first_used :
    (old burst : List Refbuf) (s : Stream) (clients : List Client) (a : ℕ)
    → IsParts old burst s clients
    → IsDone (old ++ burst)
    → refs a clients ≡ 0
    → head_address (old ++ burst) ≡ some a
    → ¬ (s.burst_point ≢ some a)
first_used [] burst s clients a h d u e n = n (h.point ∙ e)
first_used (r ∷ old) burst s clients a h d u e n =
    d (omega (arith, h.old_counts.0, u, ap (λ p. refs (some_or p) clients) e))
  where
    some_or : Option ℕ → ℕ
    some_or none = 0
    some_or (some x) = x

unchanged :
    (old burst : List Refbuf) (s : Stream) (clients : List Client)
    → IsParts old burst s clients
    → IsDone s.stream_data
    → IsReduced s s clients
unchanged old burst s clients h d = record {
  queue = record { old = old; burst = burst; parts = h };
  running = refl;
  in_use = λ a u p. p;
  done = d;
  no_more = λ a absent. absent;
  freed = λ a u e n.
      absurd (first_used old burst s clients a h (rw (sym h.chain) d) u (rw (sym h.chain) e) n);
}

reduced : Stream → Refbuf → List Refbuf → Stream
reduced s r rest = record s { stream_data = rest; queue_size = sub_uint s.queue_size r.len }

reduced-IsParts :
    (r : Refbuf) (old burst : List Refbuf) (s : Stream) (clients : List Client)
    → IsParts (r ∷ old) burst s clients
    → IsParts old burst (reduced s r (old ++ burst)) clients
unfolding reduced sub_uint
reduced-IsParts r old burst s clients h = record {
  chain = refl;
  point = h.point;
  old_counts = h.old_counts.1;
  burst_counts = h.burst_counts;
  distinct = h.distinct.1;
  queue_total = omega (arith, h.queue_total);
  burst_total = h.burst_total;
  kept = λ e. absurd (omega (arith, ap length (h.kept e)));
}

is_empty-middle :
    (xs : List Refbuf) (b : Refbuf) (ys : List Refbuf) → is_empty (xs ++ b ∷ ys) || false ≡ false
unfolding is_empty
is_empty-middle [] b ys = refl
is_empty-middle (x ∷ xs) b ys = refl

points-other : (a b : ℕ) → a ≢ b → points_to (some a) b ≡ false
unfolding points_to
points-other a b h = ground arith

first_gone :
    (r : Refbuf) (rest : List Refbuf) (a : ℕ)
    → Distinct (r ∷ rest)
    → some r.address ≡ some a
    → Absent a rest
first_gone r rest a h e = subst (λ p. AbsentAt p rest) e h.0
  where
    AbsentAt : Option ℕ → List Refbuf → Type 0
    AbsentAt none chain = Unit
    AbsentAt (some x) chain = Absent x chain

-- The guard of the loop fails for a buffer before the burst point.
guard_fails :
    (r : Refbuf) (old burst : List Refbuf) (s : Stream) (clients : List Client)
    → IsParts (r ∷ old) burst s clients
    → (is_empty (old ++ burst) || points_to s.burst_point r.address) ≡ false
guard_fails r old [] s clients h = absurd (omega (arith, ap length (h.kept refl)))
guard_fails r old (b ∷ burst) s clients h =
    let apart = (Distinct-middle (r ∷ old) b burst h.distinct).0.0 in
    rw (h.point, points-other b.address r.address (λ e. apart (sym e)))
      (is_empty-middle old b burst)

not_one : (n : ℕ) → n ≢ 1 → (n == 1) ≡ false
not_one n h = ground arith

other_address : (a b : ℕ) (clients : List Client) → 0 < refs a clients → refs b clients ≡ 0 → b ≢ a
other_address a b clients u e p = omega (arith, u, e, ap (λ x. refs x clients) p)

reduce_from-IsReduced :
    (old burst : List Refbuf) (s : Stream) (clients : List Client)
    → length clients < 2 ^ 31
    → IsParts old burst s clients
    → IsReduced s (reduce_from (old ++ burst) s) clients
unfolding reduce_from reduced
reduce_from-IsReduced [] [] s clients l h = unchanged [] [] s clients h (rw h.chain tt)
reduce_from-IsReduced [] (b ∷ burst) s clients l h =
    let used : b.count ≢ 1 = omega (arith, h.burst_counts.0, l, refs_le b.address clients) in
    rw (not_one b.count used) (unchanged [] (b ∷ burst) s clients h (rw h.chain used))
reduce_from-IsReduced (r ∷ old) burst s clients l h = elim (Bool-cases (r.count == 1)) [
  | inr e ↦ rw e (unchanged (r ∷ old) burst s clients h (rw h.chain (ground (arith, e))))
  | inl e ↦
      let rest =
        reduce_from-IsReduced old burst (reduced s r (old ++ burst)) clients l
          (reduced-IsParts r old burst s clients h) in
      let unread : refs r.address clients ≡ 0 =
        omega (arith, (==_iff r.count 1).0 e, h.old_counts.0, l, refs_le r.address clients) in
      rw (e, guard_fails r old burst s clients h)
        (record {
          queue = rest.queue;
          running = rest.running;
          in_use = λ a u p.
              rest.in_use a u
                (λ absent. p (rw h.chain (other_address a r.address clients u unread, absent)));
          done = rest.done;
          no_more = λ a absent. rest.no_more a (subst (Absent a) h.chain absent).1;
          freed = λ a u first n.
              rest.no_more a
                (first_gone r (old ++ burst) a h.distinct (ap head_address (sym h.chain) ∙ first));
        })
]

-- With fewer than 2^31 listeners and a well-formed queue, the loop keeps the queue well formed, never
-- meets the state that it calls unexpected, keeps every buffer that a listener refers to, stops at one
-- in use, and gives the first buffer back when no listener refers to it and the burst does not begin
-- there.
pub reduce_queue-IsReduced :
    (s : Stream) (clients : List Client)
    → length clients < 2 ^ 31
    → IsQueue s clients
    → IsReduced s (reduce_queue s) clients
unfolding reduce_queue
reduce_queue-IsReduced s clients l h =
    subst (λ c. IsReduced s (reduce_from c s) clients) (sym h.parts.chain)
      (reduce_from-IsReduced h.old h.burst s clients l h.parts)
