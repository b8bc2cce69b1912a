-- ===== src/Relay.antt =====
-- src/slave.c: the relay lists after a change of the configuration. A relay's source is a pointer, NULL in
-- a copy; the lists are the source's linked lists, and an allocation succeeds. The bookkeeping fields that
-- these functions do not touch are left out.
pub mod Update
pub mod Connect
use checkedc_icecast.Base.{
  ℕ, Bool, true, false, not, ◌&&◌, ◌||◌, List, [], ◌∷◌, Option, none, some, ◌==◌, if◌then◌else◌,
  Bytes, bytes_eq,
}

pub record Relay : Type 0 where
  pub server : Bytes
  pub port : ℕ
  pub mount : Bytes
  pub username : Option Bytes
  pub password : Option Bytes
  pub localmount : Bytes
  pub source : Option ℕ
  pub mp3metadata : ℕ
  pub on_demand : ℕ
  pub running : ℕ

unfoldable pub relay_copy : Relay → Relay
relay_copy r = record r { source = none; running = 0 }

-- The code, and the old relay, whose on_demand is brought up to date when nothing else has changed.
unfoldable pub relay_has_changed : Relay → Relay → Bool × Relay
relay_has_changed new old =
    if not (bytes_eq new.mount old.mount)
    then (true, old)
    else if not (bytes_eq new.server old.server)
    then (true, old)
    else if not (new.port == old.port)
    then (true, old)
    else if not (new.mp3metadata == old.mp3metadata)
    then (true, old)
    else (false, record old { on_demand = new.on_demand })

-- A relay of the current list that is not taken stays in it.
unfoldable pub pass_over : Relay → Option (Relay × List Relay) → Option (Relay × List Relay)
pass_over existing none = none
pass_over existing (some (kept, left)) = some (kept, existing ∷ left)

-- The inner loop: the relay that is kept, and the list without it; NULL if there is none.
unfoldable pub take_existing : Relay → List Relay → Option (Relay × List Relay)
take_existing relay [] = none
take_existing relay (existing ∷ current) =
    let rest = pass_over existing (take_existing relay current) in
    if bytes_eq relay.localmount existing.localmount && not (relay_has_changed relay existing).0
    then some ((relay_has_changed relay existing).1, current)
    else rest

-- One round of the outer loop, on the new list and what is left of the current one.
unfoldable pub insert_relay :
    Relay → List Relay → List Relay → Option (Relay × List Relay) → List Relay × List Relay
insert_relay relay new_list current none = (relay_copy relay ∷ new_list, current)
insert_relay relay new_list current (some (kept, left)) = (kept ∷ new_list, left)

-- The outer loop over the relays to come.
unfoldable pub update_from : List Relay × List Relay → List Relay → List Relay × List Relay
update_from (new_list, current) [] = (new_list, current)
update_from (new_list, current) (relay ∷ updated) =
    update_from (insert_relay relay new_list current (take_existing relay current)) updated

-- The list to keep running, and what is left of the current one.
unfoldable pub update_relay_set : List Relay → List Relay → List Relay × List Relay
update_relay_set current updated = update_from ([], current) updated

-- The new relay list, and the relays to clean up.
unfoldable pub update_relays : List Relay → List Relay → List Relay × List Relay
update_relays relay_list new_relay_list = update_relay_set relay_list new_relay_list
