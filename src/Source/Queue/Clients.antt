-- ===== src/Source/Queue/Clients.antt =====
-- src/format.c and src/client.c: a listener takes hold of a buffer of the queue and lets go of it.
use mathlib.Core.Path.{subst}
use checkedc_icecast.Base.Number.{negsuc}
use checkedc_icecast.Base.{
  ℕ, ◌+◌, ◌≡◌, ◌⊎◌, refl, sym, ap, ◌∙◌, inl, inr, List, [], ◌∷◌, ◌++◌, Option, none, some, ◌==◌,
  if◌then◌else◌, arith, All, Bool-cases, Option-cases,
}
use checkedc_icecast.Source.Mounts.{Client, check_other}
use checkedc_icecast.Source.Listeners.{client_set_queue}
use checkedc_icecast.Source.Queue.{
  Refbuf, Stream, from, points_to, add_to, release_from, set_queue, advance_in,
  format_advance_queue, find_client_start, start_at,
}
use checkedc_icecast.Source.Queue.Chain.{Absent, Absent-append}
use checkedc_icecast.Source.Queue.Counts.{bit, refs, refs-middle}
use checkedc_icecast.Source.Queue.Burst.{IsQueue}
use checkedc_icecast.Source.Queue.Recount.{
  Counted-same, same_refs, add_to-IsQueue, release_from-IsQueue,
}

-- A client that takes another buffer leaves the queue well formed.
pub set_queue-IsQueue :
    (s : Stream) (xs : List Client) (c : Client) (ys : List Client) (p : Option ℕ)
    → IsQueue s (xs ++ c ∷ ys)
    → IsQueue (set_queue s c p).0 (xs ++ (set_queue s c p).1 ∷ ys)
unfolding set_queue client_set_queue
set_queue-IsQueue s xs c ys p q =
    let d = client_set_queue c p in
    let cs = xs ++ c ∷ ys in
    let added = add_to-IsQueue s p cs (d ∷ cs) (λ x. refl) q in
    release_from-IsQueue (record s { stream_data = add_to p s.stream_data }) c.refbuf (d ∷ cs)
      (xs ++ d ∷ ys) (λ x. omega (arith, refs-middle x xs c ys, refs-middle x xs d ys)) added

pub changed-IsQueue :
    (s : Stream) (xs : List Client) (c d : Client) (ys : List Client)
    → c.refbuf ≡ d.refbuf
    → IsQueue s (xs ++ c ∷ ys)
    → IsQueue s (xs ++ d ∷ ys)
changed-IsQueue s xs c d ys e q =
    same_refs s (xs ++ c ∷ ys) (xs ++ d ∷ ys)
      (λ x.
        omega
          (arith, refs-middle x xs c ys, refs-middle x xs d ys, ap (λ o. bit (points_to o x)) e))
      q

pub leaves-IsQueue :
    (s : Stream) (xs : List Client) (c : Client) (ys : List Client)
    → IsQueue s (xs ++ c ∷ ys)
    → IsQueue (record s { stream_data = release_from c.refbuf s.stream_data }) (xs ++ ys)
leaves-IsQueue s xs c ys q =
    release_from-IsQueue s c.refbuf (xs ++ c ∷ ys) (xs ++ ys) (λ x. refs-middle x xs c ys) q

-- The client refers to nothing, or to a buffer of its own.
abbrev pub IsOwn : Option ℕ → List Refbuf → Type 0
IsOwn none chain = Unit
IsOwn (some a) chain = Absent a chain

own-refs :
    (p : Option ℕ) (chain : List Refbuf) (cs ds : List Client)
    → ((x : ℕ) → refs x ds ≡ bit (points_to p x) + refs x cs)
    → IsOwn p chain
    → All (λ r. refs r.address ds ≡ refs r.address cs) chain
unfolding points_to
own-refs p [] cs ds h o = tt
own-refs none (r ∷ chain) cs ds h o = (omega (arith, h r.address), own-refs none chain cs ds h tt)
own-refs (some a) (r ∷ chain) cs ds h o =
    (ground (arith, h r.address, o.0), own-refs (some a) chain cs ds h o.1)

IsOwn-append : (p : Option ℕ) (xs ys : List Refbuf) → IsOwn p (xs ++ ys) → IsOwn p xs × IsOwn p ys
IsOwn-append none xs ys o = (tt, tt)
IsOwn-append (some a) xs ys o = Absent-append a xs ys o

pub joins-IsQueue :
    (s : Stream) (xs : List Client) (c : Client) (ys : List Client)
    → IsOwn c.refbuf s.stream_data
    → IsQueue s (xs ++ ys)
    → IsQueue s (xs ++ c ∷ ys)
joins-IsQueue s xs c ys o q =
    let more = λ (x : ℕ). refs-middle x xs c ys in
    let own = IsOwn-append c.refbuf q.old q.burst (subst (IsOwn c.refbuf) q.parts.chain o) in
    record {
      old = q.old;
      burst = q.burst;
      parts = record {
        chain = q.parts.chain;
        point = q.parts.point;
        old_counts =
            Counted-same 1 (xs ++ ys) (xs ++ c ∷ ys) q.old
              (own-refs c.refbuf q.old (xs ++ ys) (xs ++ c ∷ ys) more own.0) q.parts.old_counts;
        burst_counts =
            Counted-same 2 (xs ++ ys) (xs ++ c ∷ ys) q.burst
              (own-refs c.refbuf q.burst (xs ++ ys) (xs ++ c ∷ ys) more own.1) q.parts.burst_counts;
        distinct = q.parts.distinct;
        queue_total = q.parts.queue_total;
        burst_total = q.parts.burst_total;
        kept = q.parts.kept;
      };
    }

advance_in_cases :
    (chain : List Refbuf) (s : Stream) (c : Client)
    → (advance_in chain s c ≡ (s, c)) ⊎ ((p : Option ℕ) × (advance_in chain s c ≡ set_queue s c p))
unfolding advance_in
advance_in_cases [] s c = inl refl
advance_in_cases (r ∷ []) s c = inl refl
advance_in_cases (r ∷ n ∷ rest) s c = elim (Bool-cases (c.pos == r.len)) [
  | inl e ↦ inr (some n.address, ap (λ b. if b then set_queue s c (some n.address) else (s, c)) e)
  | inr e ↦ inl (ap (λ b. if b then set_queue s c (some n.address) else (s, c)) e)
]

advance_cases :
    (s : Stream) (c : Client)
    → (format_advance_queue s c ≡ (s, c))
      ⊎ ((p : Option ℕ) × (format_advance_queue s c ≡ set_queue s c p))
unfolding format_advance_queue
advance_cases s c = elim (Option-cases c.refbuf) [
  | inl e ↦ inl (
      ap
        (λ o. elim o as (λ _. Stream × Client) [
          | none ↦ (s, c)
          | some a ↦ advance_in (from a s.stream_data) s c
        ])
        e)
  | inr e ↦
      let on : format_advance_queue s c ≡ advance_in (from e.0 s.stream_data) s c =
        ap
          (λ o. elim o as (λ _. Stream × Client) [
            | none ↦ (s, c)
            | some a ↦ advance_in (from a s.stream_data) s c
          ])
          e.1 in
      elim (advance_in_cases (from e.0 s.stream_data) s c) [
        | inl same ↦ inl (on ∙ same)
        | inr moves ↦ inr (moves.0, on ∙ moves.1)
      ]
]

pub advance-IsQueue :
    (s : Stream) (xs : List Client) (c : Client) (ys : List Client)
    → IsQueue s (xs ++ c ∷ ys)
    → IsQueue (format_advance_queue s c).0 (xs ++ (format_advance_queue s c).1 ∷ ys)
advance-IsQueue s xs c ys q = elim (advance_cases s c) [
  | inl same ↦ subst (λ r. IsQueue r.0 (xs ++ r.1 ∷ ys)) (sym same) q
  | inr moves ↦
      subst (λ r. IsQueue r.0 (xs ++ r.1 ∷ ys)) (sym moves.1)
        (set_queue-IsQueue s xs c ys moves.0 q)
]

started : Stream → Client → Option ℕ → Stream × Client
started s c none = (s, c)
started s c (some a) =
    let set = set_queue s c (some a) in
    (set.0, record set.1 { check_buffer = check_other; intro_offset = negsuc 0 })

start-started : (s : Stream) (c : Client) → find_client_start s c ≡ started s c (start_at s c)
unfolding find_client_start started
start-started s c = go (start_at s c)
  where
    go :
        (o : Option ℕ)
        → (elim o as (λ _. Stream × Client) [
          | none ↦ (s, c)
          | some a ↦
              let set = set_queue s c (some a) in
              (set.0, record set.1 { check_buffer = check_other; intro_offset = negsuc 0 })
        ])
          ≡ started s c o
    go none = refl
    go (some a) = refl

started-IsQueue :
    (s : Stream) (xs : List Client) (c : Client) (ys : List Client) (o : Option ℕ)
    → IsQueue s (xs ++ c ∷ ys)
    → IsQueue (started s c o).0 (xs ++ (started s c o).1 ∷ ys)
unfolding started
started-IsQueue s xs c ys none q = q
started-IsQueue s xs c ys (some a) q =
    let set = set_queue s c (some a) in
    changed-IsQueue set.0 xs set.1 _ ys refl (set_queue-IsQueue s xs c ys (some a) q)

pub start-IsQueue :
    (s : Stream) (xs : List Client) (c : Client) (ys : List Client)
    → IsQueue s (xs ++ c ∷ ys)
    → IsQueue (find_client_start s c).0 (xs ++ (find_client_start s c).1 ∷ ys)
start-IsQueue s xs c ys q =
    subst (λ r. IsQueue r.0 (xs ++ r.1 ∷ ys)) (sym (start-started s c))
      (started-IsQueue s xs c ys (start_at s c) q)
