-- ===== src/Relay/Update.antt =====
-- src/slave.c: update_relays follows the configuration and loses no running relay.
use checkedc_icecast.Base.{
  ℕ, ◌+◌, ◌&&◌, ◌≡◌, refl, ap, inl, inr, true, false, not, List, [], ◌∷◌, Option, none, some, arith,
  ◌==◌, if◌then◌else◌, Bool-cases, bytes_eq, bytes_eq_sound,
}
use checkedc_icecast.Relay.{
  Relay, relay_copy, relay_has_changed, pass_over, take_existing, insert_relay, update_from,
  update_relay_set, update_relays,
}

-- How many relays of a list hold the source `a`.
holds : ℕ → Option ℕ → ℕ
holds a none = 0
holds a (some s) = if s == a then 1 else 0

pub holders : ℕ → List Relay → ℕ
holders a [] = 0
holders a (r ∷ relays) = holds a r.source + holders a relays

-- The relay as the configuration describes it, apart from its credentials.
abbrev pub Same : Relay → Relay → Type 0
Same r s =
    (r.localmount ≡ s.localmount)
    × (r.mount ≡ s.mount)
    × (r.server ≡ s.server)
    × (r.port ≡ s.port)
    × (r.mp3metadata ≡ s.mp3metadata)
    × (r.on_demand ≡ s.on_demand)

-- The two lists describe the same relays, one by one.
abbrev pub SameAll : List Relay → List Relay → Type 0
SameAll [] [] = Unit
SameAll [] (s ∷ ss) = ⊥
SameAll (r ∷ rs) [] = ⊥
SameAll (r ∷ rs) (s ∷ ss) = Same r s × SameAll rs ss

unchanged :
    (new old : Relay)
    → bytes_eq new.localmount old.localmount ≡ true
    → (relay_has_changed new old).0 ≡ false
    → Same (relay_has_changed new old).1 new × ((relay_has_changed new old).1.source ≡ old.source)
unfolding relay_has_changed
unchanged new old l h = ground (
  arith,
  bytes_eq_sound new.localmount old.localmount,
  bytes_eq_sound new.mount old.mount,
  bytes_eq_sound new.server old.server,
)

-- What the inner loop finds: a relay that the configuration describes, with its source, and the rest.
abbrev Taken : Relay → List Relay → Option (Relay × List Relay) → Type 0
Taken relay current none = Unit
Taken relay current (some (kept, left)) =
    Same kept relay × ((a : ℕ) → holds a kept.source + holders a left ≡ holders a current)

pass_over-Taken :
    (relay existing : Relay) (current : List Relay) (o : Option (Relay × List Relay))
    → Taken relay current o
    → Taken relay (existing ∷ current) (pass_over existing o)
unfolding pass_over holders
pass_over-Taken relay existing current none t = tt
pass_over-Taken relay existing current (some (kept, left)) t = (t.0, λ a. omega (arith, t.1 a))

Taken-here :
    (relay existing : Relay) (current : List Relay)
    → (bytes_eq relay.localmount existing.localmount && not (relay_has_changed relay existing).0)
      ≡ true
    → Taken relay (existing ∷ current) (some ((relay_has_changed relay existing).1, current))
unfolding holders
Taken-here relay existing current e =
    let l : bytes_eq relay.localmount existing.localmount ≡ true = ground arith in
    let c : (relay_has_changed relay existing).0 ≡ false = ground arith in
    let u = unchanged relay existing l c in (u.0, λ a. ap (λ s. holds a s + holders a current) u.1)

take_existing-Taken :
    (relay : Relay) (current : List Relay) → Taken relay current (take_existing relay current)
unfolding take_existing
take_existing-Taken relay [] = tt
take_existing-Taken relay (existing ∷ current) =
    elim (Bool-cases
      (bytes_eq relay.localmount existing.localmount && not (relay_has_changed relay existing).0)) [
        | inl e ↦ rw (e, take_existing) (Taken-here relay existing current e)
        | inr e ↦
            rw (e, take_existing)
              (pass_over-Taken relay existing current _ (take_existing-Taken relay current))
      ]

-- The relays of the first list, the last one first, in front of the second.
pub rev_onto : List Relay → List Relay → List Relay
rev_onto [] acc = acc
rev_onto (r ∷ relays) acc = rev_onto relays (r ∷ acc)

copy-Same : (r : Relay) → Same (relay_copy r) r
unfolding relay_copy
copy-Same r = (refl, refl, refl, refl, refl, refl)

copy-source : (a : ℕ) (r : Relay) → holds a (relay_copy r).source ≡ 0
unfolding relay_copy holds
copy-source a r = refl

-- The new list describes the relays of `described`, and no source was lost: `old` holds those.
record Follows (described old : List Relay) (st : List Relay × List Relay) : Type 0 where
  same : SameAll st.0 described
  kept : (a : ℕ) → holders a st.0 + holders a st.1 ≡ holders a old

insert_relay-Follows :
    (described old new_list current : List Relay) (relay : Relay) (o : Option (Relay × List Relay))
    → Follows described old (new_list, current)
    → Taken relay current o
    → Follows (relay ∷ described) old (insert_relay relay new_list current o)
unfolding insert_relay holders
insert_relay-Follows described old new_list current relay none f t = record {
  same = (copy-Same relay, f.same);
  kept = λ a. omega (arith, f.kept a, copy-source a relay);
}
insert_relay-Follows described old new_list current relay (some (k, left)) f t = record {
  same = (t.0, f.same);
  kept = λ a. omega (arith, f.kept a, t.1 a);
}

update_from-Follows :
    (st : List Relay × List Relay) (described old updated : List Relay)
    → Follows described old st
    → Follows (rev_onto updated described) old (update_from st updated)
unfolding update_from rev_onto
update_from-Follows (new_list, current) described old [] f = f
update_from-Follows (new_list, current) described old (relay ∷ updated) f =
    update_from-Follows (insert_relay relay new_list current (take_existing relay current))
      (relay ∷ described) old updated
      (insert_relay-Follows described old new_list current relay _ f
        (take_existing-Taken relay current))

-- After update_relays the active relays are, one by one and in reverse order, those of the new
-- configuration in their local mount, mount, server, port, metadata and demand; nothing is said of the
-- user name and the password, which a relay that is kept has from before. Every source that a relay of the
-- old list held is held as often by an active relay or by one to clean up.
pub update_relays-Follows :
    (relay_list new_relay_list : List Relay)
    → SameAll (update_relays relay_list new_relay_list).0 (rev_onto new_relay_list [])
      × ((a : ℕ)
          → holders a (update_relays relay_list new_relay_list).0
              + holders a (update_relays relay_list new_relay_list).1
            ≡ holders a relay_list)
unfolding update_relays update_relay_set
update_relays-Follows relay_list new_relay_list =
    let f =
      update_from-Follows ([], relay_list) [] relay_list new_relay_list
        (record { same = tt; kept = λ a. nothing_held a relay_list }) in
    (f.same, f.kept)
  where
    nothing_held : (a : ℕ) (old : List Relay) → holders a [] + holders a old ≡ holders a old
    nothing_held a old = unfold holders in omega arith
