-- ===== src/Source/Queue/Recount.antt =====
-- src/refbuf.c: the counts of the buffers on a queue after a reference more or less.
use checkedc_icecast.Base.{
  ℕ, ◌+◌, ◌-◌, ◌%◌, ◌^◌, ◌≡◌, refl, sym, ap, ◌∙◌, List, [], ◌∷◌, ◌++◌, Option, none, some, arith,
  All, length,
}
use checkedc_icecast.Source.Mounts.{Client}
use checkedc_icecast.Source.Queue.{
  Refbuf, Stream, update, points_to, refbuf_addref, refbuf_release, add_to, release_from,
}
use checkedc_icecast.Source.Queue.Chain.{
  Distinct-update, total, total-update, update-append, at_address-address,
}
use checkedc_icecast.Source.Queue.Counts.{bit, refs, Counted, Counted-addref, Counted-release}
use checkedc_icecast.Source.Queue.Burst.{head_address, IsParts, IsQueue}

pub head_address-update :
    (a : ℕ) (f : ℕ → ℕ) (chain : List Refbuf) → head_address (update a f chain) ≡ head_address chain
unfolding update
head_address-update a f [] = refl
head_address-update a f (r ∷ chain) = ap some (at_address-address a f r)

update-nil : (a : ℕ) (f : ℕ → ℕ) (chain : List Refbuf) → update a f chain ≡ [] → chain ≡ []
unfolding update
update-nil a f [] e = refl
update-nil a f (r ∷ chain) e = absurd (omega (arith, ap length e))

-- Only counts change.
recount :
    (a : ℕ) (f : ℕ → ℕ) (old burst : List Refbuf) (s : Stream) (cs ds : List Client)
    → IsParts old burst s cs
    → Counted 1 ds (update a f old)
    → Counted 2 ds (update a f burst)
    → IsParts
        (update a f old)
        (update a f burst)
        (record s { stream_data = update a f s.stream_data })
        ds
unfolding update
recount a f old burst s cs ds h c d =
    let parts = update-append a f old burst in
    record {
      chain = ap (update a f) h.chain ∙ parts;
      point = h.point ∙ sym (head_address-update a f burst);
      old_counts = c;
      burst_counts = d;
      distinct = rw (sym parts) (Distinct-update a f (old ++ burst) h.distinct);
      queue_total =
          h.queue_total
          ∙ ap (λ n. n % 2 ^ 32) (sym (total-update a f (old ++ burst)) ∙ ap total parts);
      burst_total = h.burst_total ∙ ap (λ n. n % 2 ^ 32) (sym (total-update a f burst));
      kept = λ e. ap (update a f) (h.kept (update-nil a f burst e));
    }

pub Counted-same :
    (k : ℕ) (cs ds : List Client) (chain : List Refbuf)
    → All (λ r. refs r.address ds ≡ refs r.address cs) chain
    → Counted k cs chain
    → Counted k ds chain
Counted-same k cs ds [] h c = tt
Counted-same k cs ds (r ∷ chain) h c =
    (c.0 ∙ ap (λ n. (k + n) % 2 ^ 32) (sym h.0), Counted-same k cs ds chain h.1 c.1)

for_all :
    (cs ds : List Client) (chain : List Refbuf)
    → ((x : ℕ) → refs x ds ≡ refs x cs)
    → All (λ r. refs r.address ds ≡ refs r.address cs) chain
for_all cs ds [] h = tt
for_all cs ds (r ∷ chain) h = (h r.address, for_all cs ds chain h)

pub same_refs :
    (s : Stream) (cs ds : List Client)
    → ((x : ℕ) → refs x ds ≡ refs x cs)
    → IsQueue s cs
    → IsQueue s ds
same_refs s cs ds h q = record {
  old = q.old;
  burst = q.burst;
  parts = record {
    chain = q.parts.chain;
    point = q.parts.point;
    old_counts = Counted-same 1 cs ds q.old (for_all cs ds q.old h) q.parts.old_counts;
    burst_counts = Counted-same 2 cs ds q.burst (for_all cs ds q.burst h) q.parts.burst_counts;
    distinct = q.parts.distinct;
    queue_total = q.parts.queue_total;
    burst_total = q.parts.burst_total;
    kept = q.parts.kept;
  };
}

pub add_to-IsQueue :
    (s : Stream) (p : Option ℕ) (cs ds : List Client)
    → ((x : ℕ) → refs x ds ≡ bit (points_to p x) + refs x cs)
    → IsQueue s cs
    → IsQueue (record s { stream_data = add_to p s.stream_data }) ds
unfolding add_to refbuf_addref points_to
add_to-IsQueue s none cs ds h q = same_refs s cs ds (λ x. omega (arith, h x)) q
add_to-IsQueue s (some a) cs ds h q =
    let f : ℕ → ℕ = λ n. (n + 1) % 2 ^ 32 in
    record {
      old = update a f q.old;
      burst = update a f q.burst;
      parts =
          recount a f q.old q.burst s cs ds q.parts
            (Counted-addref 1 a cs ds q.old h q.parts.old_counts)
            (Counted-addref 2 a cs ds q.burst h q.parts.burst_counts);
    }

pub release_from-IsQueue :
    (s : Stream) (p : Option ℕ) (cs ds : List Client)
    → ((x : ℕ) → refs x cs ≡ bit (points_to p x) + refs x ds)
    → IsQueue s cs
    → IsQueue (record s { stream_data = release_from p s.stream_data }) ds
unfolding release_from refbuf_release points_to
release_from-IsQueue s none cs ds h q = same_refs s cs ds (λ x. omega (arith, h x)) q
release_from-IsQueue s (some a) cs ds h q =
    let f : ℕ → ℕ = λ n. (2 ^ 32 + n - 1) % 2 ^ 32 in
    record {
      old = update a f q.old;
      burst = update a f q.burst;
      parts =
          recount a f q.old q.burst s cs ds q.parts
            (Counted-release 1 a cs ds q.old h q.parts.old_counts)
            (Counted-release 2 a cs ds q.burst h q.parts.burst_counts);
    }
