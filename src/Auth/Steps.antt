-- ===== src/Auth/Steps.antt =====
-- src/auth.c, src/client.c and src/cfgfile.c: what can happen to an authenticator, and who refers to it.
use checkedc_icecast.Base.{
  ℕ, ◌+◌, ◌≡◌, Bool, true, false, List, [], ◌∷◌, ◌++◌, some, if◌then◌else◌, Bytes, All, length,
}
use checkedc_icecast.Base.Number.{pos}
use checkedc_icecast.Auth.{
  AuthedClient, AuthUser, new_listener, remove_listener, stream_auth, stream_start, stream_end,
  Auth, Answers, auth_release, auth_run_round, auth_add_listener, auth_release_listener,
  auth_stream_authenticate, auth_stream_start, auth_stream_end,
}
use checkedc_icecast.Auth.Counted.{Counted}

-- The authenticator with the clients that refer to it, and whether the configuration does.
pub record Site : Type 0 where
  pub auth : Auth
  pub clients : List AuthedClient
  pub configured : Bool

abbrev pub bit : Bool → ℕ
bit b = if b then 1 else 0

-- A client that was destroyed without a release keeps its reference.
abbrev pub lost : Auth × Bool → ℕ
lost r = if r.1 then 0 else 1

-- The configuration, each request in the queue and each client, and the clients that were lost.
abbrev pub references : Site → ℕ → ℕ
references s n = bit s.configured + (length s.auth.head + (length s.clients + n))

-- A step, with the counts of the clients that were lost before and after it.
pub data Step : Site → ℕ → Site → ℕ → Type 0 where
  adds :
      {s : Site} {n : ℕ} (mount : Bytes) (c : AuthedClient) (auth : Auth)
      → s.configured ≡ true
      → auth_add_listener s.auth mount c ≡ some auth
      → Step s n (record s { auth = auth }) n
  authenticates :
      {s : Site} {n : ℕ} (mount : Bytes) (c : AuthedClient)
      → s.configured ≡ true
      → Step s n (record s { auth = (auth_stream_authenticate s.auth mount c).0 }) n
  starts :
      {s : Site} {n : ℕ} (mount : Bytes)
      → s.configured ≡ true
      → Step s n (record s { auth = auth_stream_start s.auth mount }) n
  stops :
      {s : Site} {n : ℕ} (mount : Bytes)
      → s.configured ≡ true
      → Step s n (record s { auth = auth_stream_end s.auth mount }) n
  runs :
      {s : Site} {n : ℕ} (answers : Answers)
      → Step s n
          (record s {
            auth = (auth_run_round answers s.auth s.clients).0;
            clients = (auth_run_round answers s.auth s.clients).1;
          })
          n
  destroys :
      {s : Site} {n : ℕ} (xs : List AuthedClient) (c : AuthedClient) (ys : List AuthedClient)
      → s.clients ≡ xs ++ c ∷ ys
      → Step s n
          (record s { auth = (auth_release_listener s.auth c).0; clients = xs ++ ys })
          (lost (auth_release_listener s.auth c) + n)
  reconfigures :
      {s : Site} {n : ℕ}
      → s.configured ≡ true
      → Step s n (record s { auth = auth_release s.auth; configured = false }) n

-- An authenticator of the configuration that was just read.
unfoldable pub IsNew : Site → Type 0
IsNew s =
    (s.auth.refcount ≡ pos 1)
    × (s.auth.running ≡ true)
    × (s.auth.freed ≡ false)
    × (s.auth.pending_count ≡ pos 0)
    × (s.auth.head ≡ [])
    × (s.clients ≡ [])
    × (s.configured ≡ true)

pub data Reached : Site → ℕ → Type 0 where
  begun : {s : Site} → IsNew s → Reached s 0
  next : {s t : Site} {n k : ℕ} → Reached s n → Step s n t k → Reached t k

-- A listener in the queue refers to the authenticator.
unfoldable pub Linked : AuthUser → Type 0
Linked (new_listener mount c) = c.has_auth ≡ true
Linked (remove_listener mount c) = Unit
Linked (stream_auth mount c) = Unit
Linked (stream_start mount) = Unit
Linked (stream_end mount) = Unit

unfoldable pub HasAuth : AuthedClient → Type 0
HasAuth c = c.has_auth ≡ true

unfoldable pub IsSound : Site → ℕ → Type 0
IsSound s n = Counted s.auth (references s n) × All Linked s.auth.head × All HasAuth s.clients
