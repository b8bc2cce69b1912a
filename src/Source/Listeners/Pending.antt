-- ===== src/Source/Listeners/Pending.antt =====
-- src/source.c: source_main takes the pending clients in, as far as max_listeners lets it.
use checkedc_icecast.Base.{
  ℕ, ◌+◌, ◌≤◌, ◌≡◌, ◌⊎◌, refl, sym, ap, ◌∙◌, inl, inr, Bool, true, false, ◌||◌, List, [], ◌∷◌,
  length, arith, Bool-cases, if◌then◌else◌,
}
use checkedc_icecast.Base.Number.{ℤ, pos, negsuc, ltb_ℤ, eqb_ℤ}
use checkedc_icecast.Source.Mounts.{Client, Source}
use checkedc_icecast.Source.Listeners.{has_room}

-- How many clients of a list are of a kind.
unfoldable pub clients_where : (Client → Bool) → List Client → ℕ
clients_where p [] = 0
clients_where p (c ∷ cs) = (if p c then 1 else 0) + clients_where p cs

clients_where-length : (cs : List Client) → clients_where (λ c. true) cs ≡ length cs
unfolding clients_where
clients_where-length [] = refl
clients_where-length (c ∷ cs) = omega (arith, clients_where-length cs)

module _ (avl_insert : Client → List Client → List Client) where
  -- The loop over the pending tree, and the clients that it deletes.
  unfoldable pub accept_pending : List Client → Source → Source × List Client
  accept_pending [] source = (source, [])
  accept_pending (client ∷ clients) source = elim (has_room source) as (λ _. Source × List Client) [
    | true ↦ accept_pending clients (record source {
      client_tree = avl_insert client source.client_tree;
      listeners = source.listeners + 1;
    })
    | false ↦ let rest = accept_pending clients source in (rest.0, client ∷ rest.1)
  ]

  -- The tree is cleared afterwards.
  unfoldable pub add_pending : Source → Source × List Client
  add_pending source =
      let accepted = accept_pending source.pending_tree source in
      (record accepted.0 { pending_tree = [] }, accepted.1)

  -- What the loop makes of the source, and of the clients that waited.
  pub record IsAccepted (before after : Source) (waited deleted : List Client) : Type 0 where
    pub counted : after.listeners ≡ length after.client_tree
    pub no_other :
        (p : Client → Bool)
        → clients_where p after.client_tree + clients_where p deleted
          ≡ clients_where p before.client_tree + clients_where p waited
    pub same_max : after.max_listeners ≡ before.max_listeners
    pub bounded :
        (m : ℕ) → before.max_listeners ≡ pos m → before.listeners ≤ m → after.listeners ≤ m
    pub full : (deleted ≡ []) ⊎ (has_room after ≡ false)

  module _
      (inserted : (p : Client → Bool) (c : Client) (cs : List Client)
        → clients_where p (avl_insert c cs) ≡ clients_where p (c ∷ cs)) where
    longer : (c : Client) (cs : List Client) → length (avl_insert c cs) ≡ length cs + 1
    unfolding clients_where
    longer c cs = omega (
      arith,
      inserted (λ c. true) c cs,
      clients_where-length (avl_insert c cs),
      clients_where-length cs,
    )

    room_below :
        (source : Source) (m : ℕ)
        → has_room source ≡ true
        → source.max_listeners ≡ pos m
        → source.listeners + 1 ≤ m
    unfolding has_room
    room_below source m h e = below source.listeners m (sym (ap (room_of source.listeners) e) ∙ h)
      where
        room_of : ℕ → ℤ → Bool
        room_of n max = eqb_ℤ max (negsuc 0) || ltb_ℤ max (pos 0) || ltb_ℤ (pos n) max

        below : (n m : ℕ) → room_of n (pos m) ≡ true → n + 1 ≤ m
        below n m h = ground arith

    -- A full source stays as it is.
    stays_full :
        (clients : List Client) (source : Source)
        → has_room source ≡ false
        → (accept_pending clients source).0 ≡ source
    unfolding accept_pending
    stays_full [] source h = refl
    stays_full (client ∷ clients) source h = rw (accept_pending, h) (stays_full clients source h)

    accept_pending-IsAccepted :
        (clients : List Client) (source : Source)
        → source.listeners ≡ length source.client_tree
        → IsAccepted source
            (accept_pending clients source).0
            clients
            (accept_pending clients source).1
    unfolding accept_pending clients_where
    accept_pending-IsAccepted [] source h = record {
      counted = h;
      no_other = λ p. refl;
      same_max = refl;
      bounded = λ m e l. l;
      full = inl refl;
    }
    accept_pending-IsAccepted (client ∷ clients) source h = elim (Bool-cases (has_room source)) [
      | inl e ↦
          let next : Source = record source {
            client_tree = avl_insert client source.client_tree;
            listeners = source.listeners + 1;
          } in
          let rest =
            accept_pending-IsAccepted clients next
              (omega (arith, h, longer client source.client_tree)) in
          rw (accept_pending, e)
            (record {
              counted = rest.counted;
              no_other = λ p. omega (arith, rest.no_other p, inserted p client source.client_tree);
              same_max = rest.same_max;
              bounded = λ m f l. rest.bounded m f (room_below source m e f);
              full = rest.full;
            })
      | inr e ↦
          let rest = accept_pending-IsAccepted clients source h in
          rw (accept_pending, e)
            (record {
              counted = rest.counted;
              no_other = λ p. omega (arith, rest.no_other p);
              same_max = rest.same_max;
              bounded = rest.bounded;
              full = inr (ap has_room (stays_full clients source e) ∙ e);
            })
    ]

    -- Where an insertion into the tree adds its client and leaves the others, and the count of listeners is
    -- that of the client tree, the count stays so. Of every kind of client, the tree and the deleted clients
    -- together hold as many afterwards as the tree and the pending clients did before. A limit that is kept to
    -- stays kept to, and a pending client is deleted only where the source is full.
    pub add_pending-IsAccepted :
        (source : Source)
        → source.listeners ≡ length source.client_tree
        → IsAccepted source (add_pending source).0 source.pending_tree (add_pending source).1
    unfolding add_pending has_room
    add_pending-IsAccepted source h =
        let a = accept_pending-IsAccepted source.pending_tree source h in
        record {
          counted = a.counted;
          no_other = a.no_other;
          same_max = a.same_max;
          bounded = a.bounded;
          full = a.full;
        }
