-- ===== src/Source/Queue/Counts.antt =====
-- src/source.c and src/refbuf.c: what the counts of the buffers on the queue say.
use checkedc_icecast.Base.{
  ℕ, ◌+◌, ◌-◌, ◌%◌, ◌^◌, ◌≤◌, ◌≡◌, Bool, true, false, List, [], ◌∷◌, ◌++◌, some, arith, All, length,
}
use checkedc_icecast.Source.Mounts.{Client}
use checkedc_icecast.Source.Queue.{
  Refbuf, at_address, update, points_to, refbuf_addref, refbuf_release,
}
use checkedc_icecast.Source.Queue.Chain.{at_address-address}

abbrev pub bit : Bool → ℕ
bit true = 1
bit false = 0

-- How many clients refer to the buffer.
abbrev pub refs : ℕ → List Client → ℕ
refs a [] = 0
refs a (client ∷ clients) = bit (points_to client.refbuf a) + refs a clients

pub refs_le : (a : ℕ) (clients : List Client) → refs a clients ≤ length clients
refs_le a [] = omega arith
refs_le a (client ∷ clients) = omega (arith, refs_le a clients, bit_le (points_to client.refbuf a))
  where
    bit_le : (b : Bool) → bit b ≤ 1
    bit_le true = omega arith
    bit_le false = omega arith

pub refs-append : (a : ℕ) (xs ys : List Client) → refs a (xs ++ ys) ≡ refs a xs + refs a ys
refs-append a [] ys = omega arith
refs-append a (x ∷ xs) ys = omega (arith, refs-append a xs ys)

-- One more client, wherever it stands.
pub refs-middle :
    (a : ℕ) (xs : List Client) (c : Client) (ys : List Client)
    → refs a (xs ++ c ∷ ys) ≡ bit (points_to c.refbuf a) + refs a (xs ++ ys)
refs-middle a xs c ys = omega (arith, refs-append a xs (c ∷ ys), refs-append a xs ys)

-- Every buffer has `k` references of the source's own, and those of the clients.
abbrev pub Counted : ℕ → List Client → List Refbuf → Type 0
Counted k clients chain = All (λ r. r.count ≡ (k + refs r.address clients) % 2 ^ 32) chain

addref_count :
    (k a : ℕ) (r : Refbuf) (cs ds : List Client)
    → refs r.address ds ≡ bit (points_to (some a) r.address) + refs r.address cs
    → r.count ≡ (k + refs r.address cs) % 2 ^ 32
    → (at_address a (λ n. (n + 1) % 2 ^ 32) r).count ≡ (k + refs r.address ds) % 2 ^ 32
unfolding at_address points_to
addref_count k a r cs ds h c = ground arith

release_count :
    (k a : ℕ) (r : Refbuf) (cs ds : List Client)
    → refs r.address cs ≡ bit (points_to (some a) r.address) + refs r.address ds
    → r.count ≡ (k + refs r.address cs) % 2 ^ 32
    → (at_address a (λ n. (2 ^ 32 + n - 1) % 2 ^ 32) r).count ≡ (k + refs r.address ds) % 2 ^ 32
unfolding at_address points_to
release_count k a r cs ds h c = ground arith

pub Counted-addref :
    (k a : ℕ) (cs ds : List Client) (chain : List Refbuf)
    → ((x : ℕ) → refs x ds ≡ bit (points_to (some a) x) + refs x cs)
    → Counted k cs chain
    → Counted k ds (refbuf_addref a chain)
unfolding refbuf_addref update
Counted-addref k a cs ds [] h c = tt
Counted-addref k a cs ds (r ∷ chain) h c = (
  rw (at_address-address a (λ n. (n + 1) % 2 ^ 32) r) (addref_count k a r cs ds (h r.address) c.0),
  Counted-addref k a cs ds chain h c.1,
)

pub Counted-release :
    (k a : ℕ) (cs ds : List Client) (chain : List Refbuf)
    → ((x : ℕ) → refs x cs ≡ bit (points_to (some a) x) + refs x ds)
    → Counted k cs chain
    → Counted k ds (refbuf_release a chain)
unfolding refbuf_release update
Counted-release k a cs ds [] h c = tt
Counted-release k a cs ds (r ∷ chain) h c = (
  rw (at_address-address a (λ n. (2 ^ 32 + n - 1) % 2 ^ 32) r)
      (release_count k a r cs ds (h r.address) c.0),
  Counted-release k a cs ds chain h c.1,
)

-- The source lets go of its second reference.
pub Counted-burst :
    (clients : List Client) (r : Refbuf)
    → r.count ≡ (2 + refs r.address clients) % 2 ^ 32
    → (2 ^ 32 + r.count - 1) % 2 ^ 32 ≡ (1 + refs r.address clients) % 2 ^ 32
Counted-burst clients r h = omega arith

pub Counted-snoc :
    (k : ℕ) (clients : List Client) (xs : List Refbuf) (r : Refbuf)
    → Counted k clients xs
    → r.count ≡ (k + refs r.address clients) % 2 ^ 32
    → Counted k clients (xs ++ r ∷ [])
Counted-snoc k clients [] r h c = (c, tt)
Counted-snoc k clients (x ∷ xs) r h c = (h.0, Counted-snoc k clients xs r h.1 c)
