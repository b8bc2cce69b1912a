-- ===== src/Source/Listeners.antt =====
-- src/source.c, src/auth.c and src/client.c: listeners join a source and move between sources. The trees of
-- clients are lists in the order of the avl tree; avl_insert is that library's, a parameter. Locks, log and
-- stats lines are left out, and the reference count of a queue buffer that a client lets go of.
pub mod Moving
pub mod Entering
pub mod Joining
pub mod Logins
pub mod Pending
use checkedc_icecast.Base.{
  ℕ, zero, suc, ◌+◌, ◌-◌, Bool, true, false, not, ◌&&◌, ◌||◌, List, [], ◌∷◌, Option, none, some,
  ◌==◌, ltb, if◌then◌else◌, Bytes, bytes_eq,
}
use checkedc_icecast.Base.Number.{ℤ, pos, negsuc, eqb_ℤ, ltb_ℤ}
use checkedc_icecast.Source.Mounts.{
  Client, Source, CheckBuffer, check_http, check_file, check_other,
}

unfoldable pub client_set_queue : Client → Option ℕ → Client
client_set_queue client refbuf = record client { refbuf = refbuf; pos = 0 }

unfoldable pub sends_headers : CheckBuffer → Bool
sends_headers check_http = true
sends_headers check_file = false
sends_headers check_other = false

-- `existing_client->username && strcmp (existing_client->username, client->username) == 0`
unfoldable pub is_login : Option Bytes → Bytes → Bool
is_login none username = false
is_login (some existing) username = bytes_eq existing username

-- The loop over one of the two trees.
unfoldable pub find_login : List Client → Bytes → Bool
unfolding is_login
find_login [] username = false
find_login (existing ∷ clients) username =
    let rest = find_login clients username in
    if is_login existing.username username then true else rest

-- The tests on the user's name and on `auth`, which is NULL or has its `allow_duplicate_users`.
unfoldable pub check_login : Source → Option Bytes → Option ℕ → Bool
check_login source none allow = true
check_login source (some username) none = true
check_login source (some username) (some (suc allow)) = true
check_login source (some username) (some zero) =
    if find_login source.client_tree username
    then false
    else not (find_login source.pending_tree username)

-- Whether the client may be added.
unfoldable pub check_duplicate_logins : Source → Client → Option ℕ → Bool
check_duplicate_logins source client allow = check_login source client.username allow

-- What moving does to a client, unless it is still sending its headers.
unfoldable pub switch_queue : Source → Client → Client
switch_queue source client =
    if sends_headers client.check_buffer
    then client
    else (let switched = record (client_set_queue client none) { check_buffer = check_file } in
        if source.has_con then switched else record switched { intro_offset = negsuc 0 })

-- `source->format && dest->format && source->format->type != dest->format->type`
unfoldable pub differ : Option ℕ → Option ℕ → Bool
differ none dest = false
differ (some a) none = false
differ (some a) (some b) = not (a == b)

unfoldable pub is_none : Option ℕ → Bool
is_none none = true
is_none (some a) = false

-- The source after its listeners are gone, and the destination woken up for `count` of them.
unfoldable pub emptied : Source → Source
emptied s = record s { client_tree = []; pending_tree = []; listeners = 0 }

unfoldable pub wake : Source → ℕ → Source
wake dest count =
    if not dest.running && dest.on_demand && ltb 0 count
    then record dest { on_demand_req = true }
    else dest

-- `source->max_listeners == -1`, or room below the limit; a negative limit is cast to unsigned long,
-- where it is above every count.
unfoldable pub has_room : Source → Bool
has_room s =
    eqb_ℤ s.max_listeners (negsuc 0)
    || ltb_ℤ s.max_listeners (pos 0)
    || ltb_ℤ (pos s.listeners) s.max_listeners

-- The mount of the source to try when this one is full.
unfoldable pub spill_mount : Source → Option Bytes
spill_mount s = if s.fallback_when_full then s.fallback_mount else none

module _ (avl_insert : Client → List Client → List Client) where
  -- One loop over a tree: the destination's pending tree and the count.
  unfoldable pub move_all : Source → List Client → List Client × ℕ → List Client × ℕ
  move_all source [] (pending, count) = (pending, count)
  move_all source (client ∷ clients) (pending, count) =
      move_all source clients (avl_insert (switch_queue source client) pending, count + 1)

  -- Both loops, the pending clients first.
  unfoldable pub moved : Source → Source → List Client × ℕ
  moved source dest =
      move_all source source.client_tree
        (move_all source source.pending_tree (dest.pending_tree, 0))

  unfoldable pub source_move_clients : Source → Source → Source × Source
  source_move_clients source dest =
      if bytes_eq source.mount dest.mount
      then (source, dest)
      else if not dest.running && not dest.on_demand
      then (source, dest)
      else if not source.on_demand && is_none source.format
      then (source, wake dest 0)
      else if differ source.format dest.format
      then (source, wake dest 0)
      else (
        emptied source,
        wake (record dest { pending_tree = (moved source dest).0 }) (moved source dest).1,
      )

  -- The client in the source's pending tree, and an on-demand relay asked to start.
  unfoldable pub enter : Source → Client → Source × Client
  enter source client =
      let waiting = record client { check_buffer = check_http } in
      let joined = record source { pending_tree = avl_insert waiting source.pending_tree } in
      (
        if not source.running && source.on_demand
            then record joined { on_demand_req = true }
            else joined,
        waiting,
      )

  module _ (source_find_mount : Option Bytes → Option Source) where
    -- The loop, with the value of `loop`: the source joined and the client, or NULL for a return of -1.
    unfoldable pub add_from : ℕ → Source → Client → Option (Source × Client)
    add_from zero source client = if has_room source then some (enter source client) else none
    add_from (suc loop) source client =
        let other = elim (spill_mount source) as (λ _. Option (Source × Client)) [
          | none ↦ none
          | some fallback ↦
              elim (source_find_mount (some fallback)) as (λ _. Option (Source × Client)) [
                | none ↦ none
                | some next ↦ add_from loop next client
              ]
        ] in
        if has_room source then some (enter source client) else other

    unfoldable pub add_listener_to_source : Source → Client → Option (Source × Client)
    add_listener_to_source source client = add_from 10 source client
