-- ===== src/Auth/Freed.antt =====
-- src/auth.c: when an authenticator is freed.
use mathlib.Core.Path.{subst}
use checkedc_icecast.Base.{
  ℕ, suc, ◌+◌, ◌≡◌, ◌↔◌, refl, sym, ap, ◌∙◌, inl, inr, Bool, true, false, List, [], ◌∷◌, All,
  length, Bool-cases, if_true, if_false, ==_iff, arith,
}
use checkedc_icecast.Base.Number.{pos, ltb_ℤ}
use checkedc_icecast.Auth.{
  AuthedClient, AuthUser, new_listener, stream_auth, stream_start, stream_end, Auth, auth_release,
  auth_run_round, auth_add_listener, auth_stream_authenticate, auth_stream_start, auth_stream_end,
}
use checkedc_icecast.Auth.Counted.{
  release-Counted, new-Counted, Counted-freed, Counted-pending, release-head, if_both, Counted-as,
}
use checkedc_icecast.Auth.Steps.{
  Site, bit, references, Step, adds, authenticates, starts, stops, runs, destroys, reconfigures,
  IsNew, Reached, begun, next, Linked, HasAuth, IsSound,
}
use checkedc_icecast.Auth.Sound.{queue-IsSound, round-IsSound, release_listener-IsSound}

config_gone :
    (s : Site) (n : ℕ)
    → s.configured ≡ true
    → IsSound s n
    → IsSound (record s { auth = auth_release s.auth; configured = false }) n
unfolding IsSound
config_gone s n e h =
    let k = length s.auth.head + (length s.clients + n) in
    let head = release-head s.auth in
    (
      Counted-as _ k _ (omega (arith, ap (length {A = AuthUser}) head))
          (release-Counted s.auth k (Counted-as s.auth _ (suc k) (rw e (omega arith)) h.0)),
      subst (All Linked) (sym head) h.1,
      h.2,
    )

next-IsSound : (s t : Site) (n k : ℕ) → IsSound s n → Step s n t k → IsSound t k
unfolding auth_add_listener auth_stream_authenticate auth_stream_start auth_stream_end
    auth_run_round
next-IsSound s t n k h (adds mount c auth e q) =
    elim (Bool-cases (ltb_ℤ (pos 100) s.auth.pending_count)) [
      | inl b ↦ absurd (cc (sym (if_true _ _ _ b) ∙ q))
      | inr b ↦
          subst (λ a. IsSound (record s { auth = a }) n) (cc (sym (if_false _ _ _ b) ∙ q))
            (queue-IsSound s n (new_listener mount c) e h)
    ]
next-IsSound s t n k h (authenticates mount c e) =
    if_both {A = Auth × Bool} (λ r. IsSound (record s { auth = r.0 }) n) s.auth.has_stream_auth _ _
      (queue-IsSound s n (stream_auth mount c) e h) h
next-IsSound s t n k h (starts mount e) =
    if_both (λ a. IsSound (record s { auth = a }) n) s.auth.has_stream_start _ _
      (queue-IsSound s n (stream_start mount) e h) h
next-IsSound s t n k h (stops mount e) =
    if_both (λ a. IsSound (record s { auth = a }) n) s.auth.has_stream_end _ _
      (queue-IsSound s n (stream_end mount) e h) h
next-IsSound s t n k h (runs answers) =
    if_both {A = Auth × List AuthedClient} (λ r. IsSound (record s { auth = r.0; clients = r.1 }) n)
      s.auth.running _ _ (round-IsSound answers s n s.auth.head refl h) h
next-IsSound s t n k h (destroys xs c ys e) = release_listener-IsSound s n xs c ys e h
next-IsSound s t n k h (reconfigures e) = config_gone s n e h

begun-IsSound : (s : Site) → IsNew s → IsSound s 0
unfolding IsNew IsSound
begun-IsSound s h =
    let none_waiting = ap (length {A = AuthUser}) h.4 in
    (
      Counted-as s.auth 1 _
          (rw h.6 (omega (arith, none_waiting, ap (length {A = AuthedClient}) h.5)))
          (new-Counted s.auth h.0 h.2 h.1 (h.3 ∙ ap pos (sym none_waiting))),
      subst (All Linked) (sym h.4) tt,
      subst (All HasAuth) (sym h.5) tt,
    )

Reached-IsSound : (s : Site) (n : ℕ) → Reached s n → IsSound s n
Reached-IsSound s n (begun h) = begun-IsSound s h
Reached-IsSound s n (next r step) = next-IsSound _ _ _ _ (Reached-IsSound _ _ r) step

-- Nobody refers to the authenticator, and no client was lost.
pub Unreferred : Site → ℕ → Type 0
Unreferred s n = (s.configured ≡ false) × (s.auth.head ≡ []) × (s.clients ≡ []) × (n ≡ 0)

empty : {A : Type 0} (xs : List A) → length xs ≡ 0 → xs ≡ []
empty [] e = refl
empty (x ∷ xs) e = absurd (omega arith)

unreferred : (s : Site) (n : ℕ) → references s n ≡ 0 → Unreferred s n
unfolding Unreferred
unreferred s n e = (
  elim (Bool-cases s.configured) [ inl b ↦ absurd (omega (arith, ap bit b)) | inr b ↦ b ],
  empty s.auth.head (omega arith),
  empty s.clients (omega arith),
  omega arith,
)

no_references : (s : Site) (n : ℕ) → Unreferred s n → references s n ≡ 0
unfolding Unreferred
no_references s n u =
    omega (arith, ap bit u.0, ap (length {A = AuthUser}) u.1, ap (length {A = AuthedClient}) u.2)

-- After any steps, with the count of the clients that were destroyed without a release: an authenticator is freed exactly when
-- the configuration, its queue and the clients do not refer to it and no client was lost; the count of pending requests is
-- the length of the queue.
pub Reached-freed :
    (s : Site) (n : ℕ)
    → Reached s n
    → ((s.auth.freed ≡ true) ↔ Unreferred s n) × (s.auth.pending_count ≡ pos (length s.auth.head))
unfolding IsSound
Reached-freed s n r =
    let c = (Reached-IsSound s n r).0 in
    (
      (
        λ f. unreferred s n ((==_iff _ 0).0 (sym (Counted-freed s.auth (references s n) c) ∙ f)),
        λ u. Counted-freed s.auth (references s n) c ∙ (==_iff _ 0).1 (no_references s n u),
      ),
      Counted-pending s.auth (references s n) c,
    )
