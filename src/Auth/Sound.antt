-- ===== src/Auth/Sound.antt =====
-- src/auth.c: what a request, a round of the thread and a client that goes do to the references.
use mathlib.Core.Path.{subst}
use checkedc_icecast.Base.{
  ℕ, suc, ◌+◌, ◌≡◌, refl, sym, ap, Bool, true, false, not, ◌&&◌, List, [], ◌∷◌, ◌++◌, none, some,
  if◌then◌else◌, Bytes, All, All-append, length, length-append, if_false, arith,
}
use checkedc_icecast.Base.Number.{pos, ◌-ℤ◌, ltb_ℤ}
use checkedc_icecast.Auth.{
  AuthedClient, AuthUser, new_listener, remove_listener, stream_auth, stream_start, stream_end,
  Auth, Answers, set_auth, lacks_auth, put_last, queue_auth_client, auth_release, without_auth,
  auth_new_listener, auth_remove_listener, stream_auth_callback, and_client, process, take_head,
  auth_release_listener,
}
use checkedc_icecast.Auth.Counted.{
  Counted, put_last-Counted, take-Counted, queue-Counted, release-Counted, release-head, if_both,
  Counted-as,
}
use checkedc_icecast.Auth.Steps.{Site, bit, lost, references, Linked, HasAuth, IsSound}

set_auth-Linked : (user : AuthUser) → Linked (set_auth user)
unfolding set_auth Linked
set_auth-Linked (new_listener mount c) = refl
set_auth-Linked (remove_listener mount c) = tt
set_auth-Linked (stream_auth mount c) = tt
set_auth-Linked (stream_start mount) = tt
set_auth-Linked (stream_end mount) = tt

pub queue-IsSound :
    (s : Site) (n : ℕ) (user : AuthUser)
    → s.configured ≡ true
    → IsSound s n
    → IsSound (record s { auth = queue_auth_client s.auth user true }) n
unfolding IsSound queue_auth_client put_last
queue-IsSound s n user e h =
    let k = length s.auth.head + (length s.clients + n) in
    let longer : suc (suc k)
        ≡ bit s.configured + (length (s.auth.head ++ set_auth user ∷ []) + (length s.clients + n)) =
      rw e (omega (arith, length-append s.auth.head (set_auth user ∷ []))) in
    (
      Counted-as _ _ _ longer
          (queue-Counted s.auth user k (Counted-as s.auth _ (suc k) (rw e (omega arith)) h.0)),
      All-append Linked s.auth.head (set_auth user ∷ []) h.1 (set_auth-Linked user, tt),
      h.2,
    )

-- A processed request: its reference is gone, or went to one more client.
Processed : Auth → List AuthedClient → ℕ → Auth × List AuthedClient → Type 0
Processed a clients k (b, rest) =
    (j : ℕ) × Counted b (j + k)
    × (length rest ≡ j + length clients)
    × (b.head ≡ a.head)
    × All HasAuth rest

release-Processed :
    (a : Auth) (clients : List AuthedClient) (k : ℕ)
    → Counted a (suc k)
    → All HasAuth clients
    → Processed a clients k (auth_release a, clients)
unfolding Processed
release-Processed a clients k h q = (
  0,
  Counted-as _ k (0 + k) (omega arith) (release-Counted a k h),
  omega arith,
  release-head a,
  q,
)

listener-Processed :
    (answers : Answers) (a : Auth) (clients : List AuthedClient) (c : AuthedClient) (k : ℕ)
    → c.has_auth ≡ true
    → Counted a (suc k)
    → All HasAuth clients
    → Processed a clients k (and_client clients (auth_new_listener answers a c))
unfolding and_client auth_new_listener without_auth HasAuth Processed
listener-Processed answers a clients c k e h q =
    let P : Auth × AuthedClient → Type 0 = λ r. Processed a clients k (and_client clients r) in
    let gone = release-Processed a clients k h q in
    let stays : P (a, record c { authenticated = true }) =
      subst
        (λ b.
          Processed a clients k
            (a, if b then record c { authenticated = true } ∷ clients else clients))
        (sym e) (1, Counted-as a (suc k) (1 + k) (omega arith) h, omega arith, refl, (e, q)) in
    if_both P (not answers.sock_active) _ _ gone (
      if_both P (a.has_authenticate && not answers.auth_ok) _ _ gone
        (if_both P (ltb_ℤ answers.ret (pos 0)) _ _ gone stays))

process-Processed :
    (answers : Answers) (a : Auth) (clients : List AuthedClient) (user : AuthUser) (k : ℕ)
    → Linked user
    → Counted a (suc k)
    → All HasAuth clients
    → Processed a clients k (process answers a clients user)
unfolding process Linked and_client auth_remove_listener stream_auth_callback without_auth
process-Processed answers a clients (new_listener mount c) k l h q =
    listener-Processed answers a clients c k l h q
process-Processed answers a clients (remove_listener mount c) k l h q =
    release-Processed a clients k h q
process-Processed answers a clients (stream_auth mount c) k l h q =
    release-Processed a clients k h q
process-Processed answers a clients (stream_start mount) k l h q = release-Processed a clients k h q
process-Processed answers a clients (stream_end mount) k l h q = release-Processed a clients k h q

-- A round of the thread.
pub round-IsSound :
    (answers : Answers) (s : Site) (n : ℕ) (queue : List AuthUser)
    → s.auth.head ≡ queue
    → IsSound s n
    → IsSound
        (record s {
          auth = (take_head answers s.auth s.clients queue).0;
          clients = (take_head answers s.auth s.clients queue).1;
        })
        n
unfolding IsSound take_head Processed
round-IsSound answers s n [] e h = h
round-IsSound answers s n (user ∷ users) e h =
    let k = bit s.configured + (length users + (length s.clients + n)) in
    let linked = subst (All Linked) e h.1 in
    let taken : Auth = record s.auth {
      head = users;
      pending_count = s.auth.pending_count -ℤ pos 1;
    } in
    let r =
      process-Processed answers taken s.clients user k linked.0
        (take-Counted s.auth user users (suc k) e
          (Counted-as s.auth (references s n) (suc k) (rw e (omega arith)) h.0))
        h.2 in
    (
      Counted-as _ (r.0 + k) _ (omega (arith, r.2, ap (length {A = AuthUser}) r.3)) r.1,
      subst (All Linked) (sym r.3) linked.1,
      r.4,
    )

-- What is left without one of the clients.
without_one :
    (xs : List AuthedClient) (c : AuthedClient) (ys : List AuthedClient)
    → All HasAuth (xs ++ c ∷ ys)
    → (c.has_auth ≡ true)
      × All HasAuth (xs ++ ys)
      × (length (xs ++ c ∷ ys) ≡ suc (length (xs ++ ys)))
unfolding HasAuth
without_one [] c ys h = (h.0, h.1, refl)
without_one (x ∷ xs) c ys h = let r = without_one xs c ys h.1 in (r.0, (h.0, r.1), ap suc r.2)

-- A client that is destroyed: released by the queue, or lost.
destroyed-Counted :
    (a : Auth) (c : AuthedClient) (b n m : ℕ)
    → c.has_auth ≡ true
    → Counted a (b + (length a.head + (suc m + n)))
    → All Linked a.head
    → let r = auth_release_listener a c in
      Counted r.0 (b + (length r.0.head + (m + (lost r + n)))) × All Linked r.0.head
unfolding auth_release_listener queue_auth_client lacks_auth put_last Linked
destroyed-Counted a c b n m e h l =
    let P : Auth × Bool → Type 0 =
      λ r. Counted r.0 (b + (length r.0.head + (m + (lost r + n)))) × All Linked r.0.head in
    let stays : P (a, false) = (Counted-as a _ _ (omega arith) h, l) in
    let queued : (mount : Bytes) → P (queue_auth_client a (remove_listener mount c) false, true) =
      λ mount.
        subst (λ q. P (q, true)) (sym (if_false _ _ _ (ap not e)))
          (
            Counted-as _ _ _ (omega (arith, length-append a.head (remove_listener mount c ∷ [])))
                (put_last-Counted a (remove_listener mount c) _ h),
            All-append Linked a.head (remove_listener mount c ∷ []) l (tt, tt),
          ) in
    if_both P c.authenticated _ _
      (elim c.uri
        as (λ u. P (elim u as (λ _. Auth × Bool) [
          | none ↦ (a, false)
          | some mount ↦
              if c.has_auth && a.has_release_listener
              then (queue_auth_client a (remove_listener mount c) false, true)
              else (a, false)
        ])) [
          | none ↦ stays
          | some mount ↦ if_both P (c.has_auth && a.has_release_listener) _ _ (queued mount) stays
        ])
      stays

pub release_listener-IsSound :
    (s : Site) (n : ℕ) (xs : List AuthedClient) (c : AuthedClient) (ys : List AuthedClient)
    → s.clients ≡ xs ++ c ∷ ys
    → IsSound s n
    → IsSound
        (record s { auth = (auth_release_listener s.auth c).0; clients = xs ++ ys })
        (lost (auth_release_listener s.auth c) + n)
unfolding IsSound
release_listener-IsSound s n xs c ys e h =
    let w = without_one xs c ys (subst (All HasAuth) e h.2) in
    let r =
      destroyed-Counted s.auth c (bit s.configured) n (length (xs ++ ys)) w.0
        (Counted-as s.auth (references s n) _ (omega (arith, ap (length {A = AuthedClient}) e, w.2))
          h.0)
        h.1 in
    (r.0, r.1, w.1)
