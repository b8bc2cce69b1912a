-- ===== src/Source/Queue/Chain.antt =====
-- src/source.c and src/refbuf.c: a chain of buffers with distinct addresses.
use checkedc_icecast.Base.{ℕ, ◌+◌, ◌≡◌, ◌≢◌, refl, sym, ap, ◌∙◌, List, [], ◌∷◌, ◌++◌, arith, All}
use checkedc_icecast.Source.Queue.{Refbuf, at_address, update, from}

abbrev pub Absent : ℕ → List Refbuf → Type 0
Absent a chain = All (λ r. r.address ≢ a) chain

abbrev pub Distinct : List Refbuf → Type 0
Distinct [] = Unit
Distinct (r ∷ chain) = Absent r.address chain × Distinct chain

-- The bytes on the chain.
abbrev pub total : List Refbuf → ℕ
total [] = 0
total (r ∷ chain) = r.len + total chain

pub total-append : (xs ys : List Refbuf) → total (xs ++ ys) ≡ total xs + total ys
total-append [] ys = omega arith
total-append (x ∷ xs) ys = omega (arith, total-append xs ys)

pub at_address-address : (a : ℕ) (f : ℕ → ℕ) (r : Refbuf) → (at_address a f r).address ≡ r.address
unfolding at_address
at_address-address a f r = ground arith

pub at_address-len : (a : ℕ) (f : ℕ → ℕ) (r : Refbuf) → (at_address a f r).len ≡ r.len
unfolding at_address
at_address-len a f r = ground arith

pub at_address-here :
    (f : ℕ → ℕ) (r : Refbuf) → at_address r.address f r ≡ record r { count = f r.count }
unfolding at_address
at_address-here f r = ground arith

pub at_address-other : (a : ℕ) (f : ℕ → ℕ) (r : Refbuf) → r.address ≢ a → at_address a f r ≡ r
unfolding at_address
at_address-other a f r h = ground arith

pub total-update :
    (a : ℕ) (f : ℕ → ℕ) (chain : List Refbuf) → total (update a f chain) ≡ total chain
unfolding update
total-update a f [] = refl
total-update a f (r ∷ chain) = omega (arith, at_address-len a f r, total-update a f chain)

pub update-append :
    (a : ℕ) (f : ℕ → ℕ) (xs ys : List Refbuf)
    → update a f (xs ++ ys) ≡ update a f xs ++ update a f ys
unfolding update
update-append a f [] ys = refl
update-append a f (x ∷ xs) ys = ap (◌∷◌ (at_address a f x)) (update-append a f xs ys)

pub update-Absent :
    (a : ℕ) (f : ℕ → ℕ) (chain : List Refbuf) → Absent a chain → update a f chain ≡ chain
unfolding update
update-Absent a f [] h = refl
update-Absent a f (r ∷ chain) h =
    ap (λ x. x ∷ update a f chain) (at_address-other a f r h.0)
    ∙ ap (◌∷◌ r) (update-Absent a f chain h.1)

pub Absent-update :
    (a b : ℕ) (f : ℕ → ℕ) (chain : List Refbuf) → Absent b chain → Absent b (update a f chain)
unfolding update
Absent-update a b f [] h = tt
Absent-update a b f (r ∷ chain) h =
    ((λ e. h.0 (sym (at_address-address a f r) ∙ e)), Absent-update a b f chain h.1)

pub Distinct-update :
    (a : ℕ) (f : ℕ → ℕ) (chain : List Refbuf) → Distinct chain → Distinct (update a f chain)
unfolding update
Distinct-update a f [] h = tt
Distinct-update a f (r ∷ chain) h = (
  rw (at_address-address a f r) (Absent-update a r.address f chain h.0),
  Distinct-update a f chain h.1,
)

pub Absent-append : (a : ℕ) (xs ys : List Refbuf) → Absent a (xs ++ ys) → Absent a xs × Absent a ys
Absent-append a [] ys h = (tt, h)
Absent-append a (x ∷ xs) ys h = let rest = Absent-append a xs ys h.1 in ((h.0, rest.0), rest.1)

pub Distinct-middle :
    (xs : List Refbuf) (b : Refbuf) (ys : List Refbuf)
    → Distinct (xs ++ b ∷ ys)
    → Absent b.address xs × Absent b.address ys
Distinct-middle [] b ys h = (tt, h.0)
Distinct-middle (x ∷ xs) b ys h =
    let rest = Distinct-middle xs b ys h.1 in
    let apart = (Absent-append x.address xs (b ∷ ys) h.0).1.0 in
    (((λ e. apart (sym e)), rest.0), rest.1)

pub Distinct-snoc :
    (xs : List Refbuf) (b : Refbuf) → Distinct xs → Absent b.address xs → Distinct (xs ++ b ∷ [])
Distinct-snoc [] b h k = (tt, tt)
Distinct-snoc (x ∷ xs) b h k =
    (Absent-snoc x.address xs b h.0 (λ e. k.0 (sym e)), Distinct-snoc xs b h.1 k.1)
  where
    Absent-snoc :
        (a : ℕ) (xs : List Refbuf) (b : Refbuf)
        → Absent a xs
        → b.address ≢ a
        → Absent a (xs ++ b ∷ [])
    Absent-snoc a [] b h k = (k, tt)
    Absent-snoc a (x ∷ xs) b h k = (h.0, Absent-snoc a xs b h.1 k)

-- A pointer to a buffer begins the chain from it on.
pub from-here :
    (xs : List Refbuf) (b : Refbuf) (ys : List Refbuf)
    → Absent b.address xs
    → from b.address (xs ++ b ∷ ys) ≡ b ∷ ys
unfolding from
from-here [] b ys h = ground arith
from-here (x ∷ xs) b ys h = ground (arith, from-here xs b ys h.1, h.0)

-- A buffer in the middle is the only one that an update reaches.
pub update-middle :
    (f : ℕ → ℕ) (xs : List Refbuf) (b : Refbuf) (ys : List Refbuf)
    → Distinct (xs ++ b ∷ ys)
    → update b.address f (xs ++ b ∷ ys) ≡ xs ++ record b { count = f b.count } ∷ ys
unfolding update
update-middle f xs b ys h =
    let apart = Distinct-middle xs b ys h in
    update-append b.address f xs (b ∷ ys)
    ∙ ap (λ l. l ++ update b.address f (b ∷ ys)) (update-Absent b.address f xs apart.0)
    ∙ ap (λ r. xs ++ r ∷ update b.address f ys) (at_address-here f b)
    ∙ ap (λ l. xs ++ record b { count = f b.count } ∷ l) (update-Absent b.address f ys apart.1)
