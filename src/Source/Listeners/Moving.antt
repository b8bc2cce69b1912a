-- ===== src/Source/Listeners/Moving.antt =====
-- src/source.c: source_move_clients loses no listener.
use checkedc_icecast.Base.{
  ℕ, ◌+◌, ◌≡◌, refl, ap, ◌∙◌, Bool, true, false, not, ◌&&◌, List, [], ◌∷◌, arith, ◌==◌,
  if◌then◌else◌, bytes_eq,
}
use checkedc_icecast.Source.Mounts.{Client, Source}
use checkedc_icecast.Source.Listeners.{
  client_set_queue, switch_queue, differ, is_none, emptied, wake, move_all, moved,
  source_move_clients,
}

-- How many clients of a list have the id `a`.
pub clients_with : ℕ → List Client → ℕ
clients_with a [] = 0
clients_with a (c ∷ cs) = (if c.id == a then 1 else 0) + clients_with a cs

-- How many of a source's listeners, sending or waiting, have the id.
pub at_source : ℕ → Source → ℕ
at_source a s = clients_with a s.client_tree + clients_with a s.pending_tree

switch_queue-id : (s : Source) (c : Client) → (switch_queue s c).id ≡ c.id
unfolding switch_queue client_set_queue
switch_queue-id s c = ground arith

wake-listeners : (a : ℕ) (d : Source) (n : ℕ) → at_source a (wake d n) ≡ at_source a d
unfolding wake at_source
wake-listeners a d n = ground arith

module _ (avl_insert : Client → List Client → List Client)
    (insert_adds : (a : ℕ) (c : Client) (cs : List Client)
      → clients_with a (avl_insert c cs) ≡ clients_with a (c ∷ cs)) where
  move_all-clients :
      (a : ℕ) (s : Source) (cs : List Client) (pending : List Client) (count : ℕ)
      → clients_with a (move_all avl_insert s cs (pending, count)).0
        ≡ clients_with a cs + clients_with a pending
  unfolding move_all clients_with
  move_all-clients a s [] pending count = omega arith
  move_all-clients a s (c ∷ cs) pending count =
      move_all-clients a s cs (avl_insert (switch_queue s c) pending) (count + 1)
      ∙ omega (
        arith,
        insert_adds a (switch_queue s c) pending,
        ap {B = ℕ} (λ i. if i == a then 1 else 0) (switch_queue-id s c),
      )

  later :
      (a : ℕ) (s : Source) (r : List Client × ℕ)
      → clients_with a (move_all avl_insert s s.client_tree r).0
        ≡ clients_with a s.client_tree + clients_with a r.0
  later a s r = move_all-clients a s s.client_tree r.0 r.1

  moved-clients :
      (a : ℕ) (source dest : Source)
      → clients_with a (moved avl_insert source dest).0
        ≡ at_source a source + clients_with a dest.pending_tree
  unfolding moved at_source
  moved-clients a source dest = omega (
    arith,
    move_all-clients a source source.pending_tree dest.pending_tree 0,
    later a source (move_all avl_insert source source.pending_tree (dest.pending_tree, 0)),
  )

  -- The listeners of the two sources, counted before and after.
  abbrev Kept : ℕ → Source → Source → Source × Source → Type 0
  Kept a source dest r = at_source a r.0 + at_source a r.1 ≡ at_source a source + at_source a dest

  Kept-if :
      (a : ℕ) (source dest : Source) (b : Bool) (r t : Source × Source)
      → Kept a source dest r
      → Kept a source dest t
      → Kept a source dest (if b then r else t)
  Kept-if a source dest true r t h k = h
  Kept-if a source dest false r t h k = k

  handed_over :
      (a : ℕ) (source dest : Source)
      → Kept a source dest (
        emptied source,
        wake
            (record dest { pending_tree = (moved avl_insert source dest).0 })
            (moved avl_insert source dest).1,
      )
  unfolding emptied at_source clients_with
  handed_over a source dest = omega (
    arith,
    moved-clients a source dest,
    wake-listeners a (record dest { pending_tree = (moved avl_insert source dest).0 })
        (moved avl_insert source dest).1,
  )

  -- Where an insertion into a tree adds the client once, whatever source_move_clients does, every
  -- listener of the two sources stays a listener of one of them, as often as before.
  pub move_clients_conserves :
      (source dest : Source) (a : ℕ)
      → at_source a (source_move_clients avl_insert source dest).0
          + at_source a (source_move_clients avl_insert source dest).1
        ≡ at_source a source + at_source a dest
  unfolding source_move_clients
  move_clients_conserves source dest a =
      let asleep : Kept a source dest (source, wake dest 0) =
        ap (λ n. at_source a source + n) (wake-listeners a dest 0) in
      Kept-if a source dest (bytes_eq source.mount dest.mount) _ _ refl (
        Kept-if a source dest (not dest.running && not dest.on_demand) _ _ refl (
          Kept-if a source dest (not source.on_demand && is_none source.format) _ _ asleep (
            Kept-if a source dest (differ source.format dest.format) _ _ asleep
              (handed_over a source dest))))
