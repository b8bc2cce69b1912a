-- ===== src/Tests/Server.antt =====
-- src/cfgfile.c, src/slave.c, src/source.c and src/auth.c at concrete mounts, relays, sources and clients.
use Prim.Native.Nat.{Ordering}
use checkedc_icecast.Base.{
  ℕ, ◌+◌, ◌≡◌, refl, ◌↔◌, true, false, List, [], ◌∷◌, Option, none, some, Bytes, codes, bytes_eq,
}
use checkedc_icecast.Base.Number.{pos, negsuc}
use checkedc_icecast.Config.{MountType, normal, default, MountProxy}
use checkedc_icecast.Relay.{Relay, update_relays}
use checkedc_icecast.Relay.Update.{holders, SameAll, rev_onto, update_relays-Follows}
use checkedc_icecast.Source.Mounts.{
  check_file, Client, Source, SourceTree, leaf, node, str_cmp, source_find_mount_raw,
  source_find_mount, find_node,
}
use checkedc_icecast.Source.Mounts.Ordered.{
  InTree, at_root, at_left, at_right, IsOrdered, leaf_ordered, node_ordered,
}
use checkedc_icecast.Source.Mounts.Fallback.{Leads, source_find_mount-Leads}
use checkedc_icecast.Source.Listeners.{
  check_duplicate_logins, source_move_clients, enter, add_listener_to_source, add_from, has_room,
  spill_mount, check_login, find_login,
}
use checkedc_icecast.Auth.Admission.{
  Admitted, Limits, add_authenticated-Admitted, add_authenticated_listener, joins, Until,
}
use checkedc_icecast.Source.Listeners.Pending.{
  add_pending, IsAccepted, add_pending-IsAccepted, accept_pending,
}
use checkedc_icecast.Source.Listeners.Moving.{at_source, move_clients_conserves}

-- A mount with the name and the fallback, and nothing else set.
mount_named : MountType → Option Bytes → Option Bytes → MountProxy
mount_named type name fallback = record {
  mountname = name;
  mounttype = type;
  username = none;
  password = none;
  dumpfile = none;
  intro_filename = none;
  fallback_when_full = 0;
  max_listeners = negsuc 0;
  fallback_mount = fallback;
  fallback_override = 0;
  no_mount = 0;
  burst_size = negsuc 0;
  queue_size_limit = 0;
  hidden = 0;
  source_timeout = 0;
  charset = none;
  mp3_meta_interval = negsuc 0;
  http_headers = [];
  auth_type = none;
  cluster_password = none;
  on_connect = none;
  on_disconnect = none;
  max_listener_duration = 0;
  stream_name = none;
  stream_description = none;
  stream_url = none;
  stream_genre = none;
  bitrate = none;
  mime_type = none;
  subtype = none;
  yp_public = negsuc 0;
}

abbrev mounts : List MountProxy
mounts =
    mount_named default none (some (codes "/b")) ∷ mount_named normal (some (codes "/a")) none ∷ []

-- A relay of the mount, with the number of its source.
relay_of : Bytes → Option ℕ → Relay
relay_of mount source = record {
  server = codes "host";
  port = 8000;
  mount = mount;
  username = none;
  password = none;
  localmount = mount;
  source = source;
  mp3metadata = 0;
  on_demand = 0;
  running = 1;
}

abbrev old_relays : List Relay
old_relays = relay_of (codes "/a") (some 1) ∷ relay_of (codes "/b") (some 2) ∷ []

abbrev new_relays : List Relay
new_relays = relay_of (codes "/b") none ∷ relay_of (codes "/c") none ∷ []

update_relays-Follows_example :
    SameAll (update_relays old_relays new_relays).0 (rev_onto new_relays [])
    × ((a : ℕ)
        → holders a (update_relays old_relays new_relays).0
            + holders a (update_relays old_relays new_relays).1
          ≡ holders a old_relays)
update_relays-Follows_example = update_relays-Follows old_relays new_relays

client_of : ℕ → Client
client_of id = record {
  id = id;
  username = some (codes "ann");
  check_buffer = check_file;
  refbuf = none;
  pos = 0;
  intro_offset = pos 0;
}

-- A running source at the mount, with one listener, room for that one only, and the fallback.
source_at : Bytes → Bytes → ℕ → Source
source_at mount fallback id = record {
  mount = mount;
  has_con = true;
  running = true;
  on_demand = false;
  on_demand_req = false;
  format = some 1;
  client_tree = client_of id ∷ [];
  pending_tree = [];
  listeners = 1;
  max_listeners = pos 1;
  fallback_when_full = true;
  fallback_mount = some fallback;
}

abbrev low : Source
low = source_at (codes "/a") (codes "/b") 1

abbrev high : Source
high = record (source_at (codes "/b") (codes "/a") 2) { max_listeners = negsuc 0 }

abbrev tree : SourceTree
tree = node leaf low (node leaf high leaf)

no_source : {P : Type 0} (s : Source) → InTree s leaf → P
no_source s i = elim i [ ]

only_high : (s : Source) → InTree s (node leaf high leaf) → str_cmp s.mount low.mount ≡ Ordering.gt
unfolding str_cmp source_at
only_high s at_root = refl
only_high s (at_left i) = no_source s i
only_high s (at_right i) = no_source s i

tree-IsOrdered : IsOrdered tree
tree-IsOrdered =
    node_ordered leaf_ordered
      (node_ordered leaf_ordered leaf_ordered (λ s i. no_source s i) (λ s i. no_source s i))
      (λ s i. no_source s i) only_high

source_find_mount-Leads_example :
    (source_find_mount bytes_eq mounts tree (some (codes "/b")) ≡ some high)
    ↔ Leads bytes_eq mounts tree 10 (some (codes "/b")) high
source_find_mount-Leads_example =
    source_find_mount-Leads bytes_eq mounts tree tree-IsOrdered (some (codes "/b")) high

-- An insertion at the front.
abbrev push : Client → List Client → List Client
push client clients = client ∷ clients

move_clients_conserves_example :
    at_source 1 (source_move_clients push low high).0
      + at_source 1 (source_move_clients push low high).1
    ≡ at_source 1 low + at_source 1 high
move_clients_conserves_example = move_clients_conserves push (λ a c cs. refl) low high 1

-- A listener of another name than those of the source.
abbrev guest : Client
guest = record (client_of 4) { username = some (codes "sue") }

-- The listener that is there already may not come again.
second_refused : check_duplicate_logins low (client_of 5) (some 0) ≡ false
unfolding check_duplicate_logins check_login client_of find_login source_at bytes_eq
second_refused = refl

-- The sources by their mounts.
found : Option Bytes → Option Source
found mount = source_find_mount_raw tree mount

abbrev an_hour : Limits
an_hour = record { auth = some 0; max_listener_duration = 3600 }

-- What the tree of sources has at the mount of the source that has room.
abbrev arrived : Source × Client
arrived = enter push high guest

add_authenticated-Admitted_example :
    (add_authenticated_listener bytes_eq mounts tree push (codes "/b") (some an_hour) 1000 0 guest
      ≡ joins arrived.0 arrived.1 4600)
    ↔ (Admitted bytes_eq mounts tree push (codes "/b") (some an_hour) guest arrived.0 arrived.1
        × Until bytes_eq mounts tree push (some an_hour) 1000 0 4600)
add_authenticated-Admitted_example =
    add_authenticated-Admitted bytes_eq mounts tree push tree-IsOrdered (codes "/b") (some an_hour)
      1000 0 4600 guest arrived.1 arrived.0

spilled : add_listener_to_source push found low (client_of 3) ≡ some (enter push high (client_of 3))
unfolding add_listener_to_source add_from has_room source_at spill_mount found source_find_mount_raw
    find_node str_cmp
spilled = refl

-- A source with room for two, a listener and two pending clients.
abbrev nearly_full : Source
nearly_full = record low {
  client_tree = client_of 1 ∷ [];
  listeners = 1;
  max_listeners = pos 2;
  pending_tree = client_of 2 ∷ client_of 3 ∷ [];
}

one_let_in : (add_pending push nearly_full).1 ≡ client_of 3 ∷ []
unfolding add_pending accept_pending has_room
one_let_in = refl

add_pending-IsAccepted_example :
    IsAccepted push nearly_full
      (add_pending push nearly_full).0
      nearly_full.pending_tree
      (add_pending push nearly_full).1
add_pending-IsAccepted_example = add_pending-IsAccepted push (λ p c cs. refl) nearly_full refl
