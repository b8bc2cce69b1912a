-- ===== src/Tests/Auth.antt =====
-- src/auth.c: an authenticator without release_listener, with a listener that comes and goes.
use checkedc_icecast.Base.{◌≡◌, ◌↔◌, refl, true, false, [], ◌∷◌, ◌++◌, some, codes, length}
use checkedc_icecast.Base.Number.{pos, ◌+ℤ◌, ◌-ℤ◌}
use checkedc_icecast.Auth.{
  AuthedClient, Auth, Answers, new_listener, queue_auth_client, auth_run_round, auth_add_listener,
  put_last, set_auth, auth_release, auth_release_listener, take_head, process, auth_new_listener,
  and_client,
}
use checkedc_icecast.Auth.Steps.{
  Site, Reached, adds, begun, destroys, next, reconfigures, runs, IsNew, lost,
}
use checkedc_icecast.Auth.Freed.{Unreferred, Reached-freed}

abbrev client : AuthedClient
client = record { uri = some (codes "/a"); authenticated = false; has_auth = false }

abbrev htpasswd : Auth
htpasswd = record {
  has_authenticate = true;
  has_release_listener = false;
  has_stream_auth = false;
  has_stream_start = false;
  has_stream_end = false;
  refcount = pos 1;
  running = true;
  head = [];
  pending_count = pos 0;
  freed = false;
}

abbrev fine : Answers
fine = record { sock_active = true; auth_ok = true; ret = pos 0; accepted = false }

abbrev configured : Site
configured = record { auth = htpasswd; clients = []; configured = true }

abbrev asked : Site
asked = record configured {
  auth = queue_auth_client htpasswd (new_listener (codes "/a") client) true;
}

abbrev admitted : Site
admitted = record asked {
  auth = (auth_run_round fine asked.auth asked.clients).0;
  clients = (auth_run_round fine asked.auth asked.clients).1;
}

abbrev listener : AuthedClient
listener = record client { authenticated = true; has_auth = true }

abbrev gone : Site
gone = record admitted {
  auth = (auth_release_listener admitted.auth listener).0;
  clients = [] ++ [];
}

abbrev reconfigured : Site
reconfigured = record gone { auth = auth_release gone.auth; configured = false }

IsNew-configured : IsNew configured
unfolding IsNew
IsNew-configured = (refl, refl, refl, refl, refl, refl, refl)

added : auth_add_listener htpasswd (codes "/a") client ≡ some asked.auth
unfolding auth_add_listener
added = refl

let_in : admitted.clients ≡ [] ++ listener ∷ []
unfolding auth_run_round queue_auth_client put_last take_head process set_auth and_client
    auth_new_listener
let_in = refl

still_there : reconfigured.auth.freed ≡ false
unfolding auth_release ◌-ℤ◌ auth_release_listener auth_run_round queue_auth_client put_last
    take_head process set_auth and_client auth_new_listener ◌+ℤ◌
still_there = refl

reached : Reached reconfigured (lost (auth_release_listener admitted.auth listener))
unfolding auth_release_listener auth_run_round queue_auth_client put_last take_head process set_auth
    and_client auth_new_listener
reached =
    next
      (next
        (next (next (begun IsNew-configured) (adds (codes "/a") client asked.auth refl added))
          (runs fine))
        (destroys [] listener [] let_in))
      (reconfigures refl)

Reached-freed_example :
    ((reconfigured.auth.freed ≡ true)
      ↔ Unreferred reconfigured (lost (auth_release_listener admitted.auth listener)))
    × (reconfigured.auth.pending_count ≡ pos (length reconfigured.auth.head))
Reached-freed_example =
    Reached-freed reconfigured (lost (auth_release_listener admitted.auth listener)) reached
