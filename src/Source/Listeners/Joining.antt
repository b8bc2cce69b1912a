-- ===== src/Source/Listeners/Joining.antt =====
-- src/auth.c: which source a new listener joins.
use checkedc_icecast.Base.{
  ℕ, zero, suc, ◌≡◌, refl, ap, ◌∙◌, ◌↔◌, inl, inr, true, false, List, Option, some, arith, Bytes,
  Bool-cases, Option-cases,
}
use checkedc_icecast.Source.Mounts.{Client, Source}
use checkedc_icecast.Source.Listeners.{
  has_room, enter, spill_mount, add_from, add_listener_to_source,
}
use checkedc_icecast.Source.Listeners.Entering.{
  HasRoom, IsFull, has_room-HasRoom, HasRoom-has_room, has_room-IsFull, IsFull-has_room,
}
use checkedc_icecast.Base.{Bytes, if_true, if_false, sym}

spills_sound :
    (s : Source) (mount : Bytes)
    → spill_mount s ≡ some mount
    → (s.fallback_when_full ≡ true) × (s.fallback_mount ≡ some mount)
unfolding spill_mount
spills_sound s mount h = elim (Bool-cases s.fallback_when_full) [
  | inl e ↦ (e, sym (if_true _ _ _ e) ∙ h)
  | inr e ↦ absurd (cc (sym (if_false _ _ _ e) ∙ h))
]

spills_complete :
    (s : Source) (mount : Bytes)
    → s.fallback_when_full ≡ true
    → s.fallback_mount ≡ some mount
    → spill_mount s ≡ some mount
unfolding spill_mount
spills_complete s mount w k = if_true _ _ _ w ∙ k

module _ (avl_insert : Client → List Client → List Client)
    (find : Option Bytes → Option Source) where
  -- From a full source along its fallbacks to a source with room, in at most so many hops.
  pub data Spills : ℕ → Source → Source → Type 0 where
    room : {n : ℕ} {s : Source} → HasRoom s → Spills n s s
    full :
        {n : ℕ} {s next t : Source} {mount : Bytes}
        → IsFull s
        → s.fallback_when_full ≡ true
        → s.fallback_mount ≡ some mount
        → find (some mount) ≡ some next
        → Spills n next t
        → Spills (suc n) s t

  -- What the loop may answer.
  Joined : ℕ → Source → Client → Source × Client → Type 0
  Joined n s client r = (t : Source) × Spills n s t × (enter avl_insert t client ≡ r)

  behind :
      (n : ℕ) (s : Source) (client : Client) (r : Source × Client) {next : Source} {mount : Bytes}
      → has_room s ≡ false
      → spill_mount s ≡ some mount
      → find (some mount) ≡ some next
      → Joined n next client r
      → Joined (suc n) s client r
  unfolding Joined
  behind n s client r e m f (t, l, h) =
      let (w, k) = spills_sound s _ m in (t, full (has_room-IsFull s e) w k f l, h)

  add_from-Joined :
      (n : ℕ) (s : Source) (client : Client) (r : Source × Client)
      → add_from avl_insert find n s client ≡ some r
      → Joined n s client r
  unfolding add_from Joined
  add_from-Joined zero s client r h = elim (Bool-cases (has_room s)) [
    | inl e ↦ (s, room (has_room-HasRoom s e), ground arith)
    | inr e ↦ ground arith
  ]
  add_from-Joined (suc n) s client r h = elim (Bool-cases (has_room s)) [
    | inl e ↦ (s, room (has_room-HasRoom s e), ground arith)
    | inr e ↦ elim (Option-cases (spill_mount s)) [
      | inl m ↦ ground arith
      | inr (mount, m) ↦ elim (Option-cases (find (some mount))) [
        | inl f ↦ ground arith
        | inr (next, f) ↦ behind n s client r e m f (add_from-Joined n next client r (ground arith))
      ]
    ]
  ]

  let_in :
      (n : ℕ) (s : Source) (client : Client)
      → has_room s ≡ true
      → add_from avl_insert find n s client ≡ some (enter avl_insert s client)
  unfolding add_from
  let_in zero s client e = rw (e, add_from) refl
  let_in (suc n) s client e = rw (e, add_from) refl

  Spills-add_from :
      {n : ℕ} {s t : Source}
      → (client : Client) → Spills n s t
      → add_from avl_insert find n s client ≡ some (enter avl_insert t client)
  unfolding add_from
  Spills-add_from client (room {n} {s} e) = let_in n s client (HasRoom-has_room s e)
  Spills-add_from client (full {n} {s} {next} {t} {mount} e w k f l) =
      rw (IsFull-has_room s e, spills_complete s mount w k, f, add_from) (Spills-add_from client l)

  -- A listener is let in exactly when the source it asks for, or one behind at most ten fallbacks
  -- of full sources, has room; it then waits at that source.
  pub add_listener-Spills :
      (source : Source) (client : Client) (joined : Source × Client)
      → (add_listener_to_source avl_insert find source client ≡ some joined)
        ↔ ((t : Source) × Spills 10 source t × (enter avl_insert t client ≡ joined))
  unfolding add_listener_to_source Joined
  add_listener-Spills source client joined =
      (add_from-Joined 10 source client joined, λ (t, l, h). Spills-add_from client l ∙ ap some h)
