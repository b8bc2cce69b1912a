-- ===== src/Auth.antt =====
-- src/auth.c and src/client.c: an authenticator, the queue of its thread and its reference count. What its functions and the
-- network answer is an argument. The counts are int in the source and stay far below its bound; the locks are left out.
pub mod Counted
pub mod Steps
pub mod Sound
pub mod Freed
pub mod Admission
use checkedc_icecast.Base.{
  ℕ, zero, suc, Bool, true, false, not, ◌&&◌, ◌||◌, List, [], ◌∷◌, ◌++◌, Option, none, some,
  if◌then◌else◌, Bytes,
}
use checkedc_icecast.Base.Number.{ℤ, pos, ◌+ℤ◌, ◌-ℤ◌, eqb_ℤ, ltb_ℤ}

-- The fields of client_t that are read here; `has_auth` stands for a pointer to this authenticator.
pub record AuthedClient : Type 0 where
  pub uri : Option Bytes
  pub authenticated : Bool
  pub has_auth : Bool

-- auth_client with its mount and its client, one constructor for each function that processes it.
pub data AuthUser : Type 0 where
  new_listener : Bytes → AuthedClient → AuthUser
  remove_listener : Bytes → AuthedClient → AuthUser
  stream_auth : Bytes → AuthedClient → AuthUser
  stream_start : Bytes → AuthUser
  stream_end : Bytes → AuthUser

-- auth_t: which of its functions are there, its count, its thread and queue, and whether it was freed.
pub record Auth : Type 0 where
  pub has_authenticate : Bool
  pub has_release_listener : Bool
  pub has_stream_auth : Bool
  pub has_stream_start : Bool
  pub has_stream_end : Bool
  pub refcount : ℤ
  pub running : Bool
  pub head : List AuthUser
  pub pending_count : ℤ
  pub freed : Bool

-- What a turn of the thread is told: the socket is active, authenticate returns AUTH_OK, what
-- add_authenticated_listener returns, stream_auth accepts the source.
pub record Answers : Type 0 where
  pub sock_active : Bool
  pub auth_ok : Bool
  pub ret : ℤ
  pub accepted : Bool

-- `auth_user->client->auth = auth`
unfoldable pub set_auth : AuthUser → AuthUser
set_auth (new_listener mount c) = new_listener mount (record c { has_auth = true })
set_auth (remove_listener mount c) = remove_listener mount (record c { has_auth = true })
set_auth (stream_auth mount c) = stream_auth mount (record c { has_auth = true })
set_auth (stream_start mount) = stream_start mount
set_auth (stream_end mount) = stream_end mount

-- `auth_user->client == NULL || auth_user->client->auth == NULL`
unfoldable pub lacks_auth : AuthUser → Bool
lacks_auth (new_listener mount c) = not c.has_auth
lacks_auth (remove_listener mount c) = not c.has_auth
lacks_auth (stream_auth mount c) = not c.has_auth
lacks_auth (stream_start mount) = true
lacks_auth (stream_end mount) = true

unfoldable pub put_last : Auth → AuthUser → Auth
put_last auth user = record auth {
  head = auth.head ++ user ∷ [];
  pending_count = auth.pending_count +ℤ pos 1;
}

-- With a mount's configuration, or for a client that already refers to the authenticator.
unfoldable pub queue_auth_client : Auth → AuthUser → Bool → Auth
queue_auth_client auth user true =
    put_last (record auth { refcount = auth.refcount +ℤ pos 1 }) (set_auth user)
queue_auth_client auth user false = if lacks_auth user then auth else put_last auth user

unfoldable pub auth_release : Auth → Auth
auth_release auth =
    let n = auth.refcount -ℤ pos 1 in
    if eqb_ℤ n (pos 0)
    then record auth { refcount = n; running = false; freed = true }
    else record auth { refcount = n }

-- auth_release (client->auth), and NULL in its place.
unfoldable pub without_auth : Auth → AuthedClient → Auth × AuthedClient
without_auth auth c = (auth_release auth, record c { has_auth = false })

unfoldable pub auth_new_listener : Answers → Auth → AuthedClient → Auth × AuthedClient
auth_new_listener answers auth c =
    if not answers.sock_active
    then without_auth auth c
    else if auth.has_authenticate && not answers.auth_ok
    then without_auth auth c
    else if ltb_ℤ answers.ret (pos 0)
    then without_auth auth (record c { authenticated = true })
    else (auth, record c { authenticated = true })

unfoldable pub auth_remove_listener : Auth → AuthedClient → Auth × AuthedClient
auth_remove_listener auth c = without_auth auth (record c { authenticated = false })

unfoldable pub stream_auth_callback : Answers → Auth → AuthedClient → Auth × AuthedClient
stream_auth_callback answers auth c =
    without_auth auth
      (record c { authenticated = c.authenticated || (auth.has_stream_auth && answers.accepted) })

-- The clients that refer to the authenticator, with one more if it does.
unfoldable pub and_client : List AuthedClient → Auth × AuthedClient → Auth × List AuthedClient
and_client clients (auth, c) = (auth, if c.has_auth then c ∷ clients else clients)

unfoldable pub process : Answers → Auth → List AuthedClient → AuthUser → Auth × List AuthedClient
process answers auth clients (new_listener mount c) =
    and_client clients (auth_new_listener answers auth c)
process answers auth clients (remove_listener mount c) =
    and_client clients (auth_remove_listener auth c)
process answers auth clients (stream_auth mount c) =
    and_client clients (stream_auth_callback answers auth c)
process answers auth clients (stream_start mount) = (auth_release auth, clients)
process answers auth clients (stream_end mount) = (auth_release auth, clients)

-- The head of the queue is taken and processed.
unfoldable pub take_head :
    Answers → Auth → List AuthedClient → List AuthUser → Auth × List AuthedClient
take_head answers auth clients [] = (auth, clients)
take_head answers auth clients (user ∷ users) =
    process answers (record auth { head = users; pending_count = auth.pending_count -ℤ pos 1 })
      clients user

-- A round of the thread.
unfoldable pub auth_run_round : Answers → Auth → List AuthedClient → Auth × List AuthedClient
auth_run_round answers auth clients =
    if auth.running then take_head answers auth clients auth.head else (auth, clients)

-- The listener of a mount with an authenticator: none for the answer 403.
unfoldable pub auth_add_listener : Auth → Bytes → AuthedClient → Option Auth
auth_add_listener auth mount c =
    if ltb_ℤ (pos 100) auth.pending_count
    then none
    else some (queue_auth_client auth (new_listener mount c) true)

-- The second part is the answer: whether the client is still to be processed.
unfoldable pub auth_release_listener : Auth → AuthedClient → Auth × Bool
auth_release_listener auth c =
    if c.authenticated
    then (elim c.uri as (λ _. Auth × Bool) [
      | none ↦ (auth, false)
      | some mount ↦
          if c.has_auth && auth.has_release_listener
          then (queue_auth_client auth (remove_listener mount c) false, true)
          else (auth, false)
    ])
    else (auth, false)

unfoldable pub auth_stream_authenticate : Auth → Bytes → AuthedClient → Auth × Bool
auth_stream_authenticate auth mount c =
    if auth.has_stream_auth
    then (queue_auth_client auth (stream_auth mount c) true, true)
    else (auth, false)

unfoldable pub auth_stream_start : Auth → Bytes → Auth
auth_stream_start auth mount =
    if auth.has_stream_start then queue_auth_client auth (stream_start mount) true else auth

unfoldable pub auth_stream_end : Auth → Bytes → Auth
auth_stream_end auth mount =
    if auth.has_stream_end then queue_auth_client auth (stream_end mount) true else auth
