-- ===== src/Auth/Counted.antt =====
-- src/auth.c: the references to an authenticator.
use mathlib.Core.Path.{subst}
use checkedc_icecast.Base.{
  ℕ, suc, ◌≡◌, refl, sym, ap, ◌∙◌, inl, inr, Bool, true, false, not, List, [], ◌∷◌, ◌==◌,
  if◌then◌else◌, length, length-append, Bool-cases, arith,
}
use checkedc_icecast.Base.Number.{ℤ, pos, ◌+ℤ◌, ◌-ℤ◌, eqb_ℤ}
use checkedc_icecast.Auth.{AuthUser, Auth, set_auth, put_last, queue_auth_client, auth_release}

-- `k` references: the count says so, and the authenticator is freed and its thread stopped without any. The length of
-- the queue is counted as well.
pub Counted : Auth → ℕ → Type 0
Counted a k =
    (a.refcount ≡ pos k)
    × (a.freed ≡ (k == 0))
    × (a.running ≡ not (k == 0))
    × (a.pending_count ≡ pos (length a.head))

-- What holds of both branches.
pub if_both {ℓ κ} :
    {A : Type ℓ} (P : A → Type κ) (b : Bool) (x y : A) → P x → P y → P (if b then x else y)
if_both P true x y h k = h
if_both P false x y h k = k

pub plus_one : (z : ℤ) (k : ℕ) → z ≡ pos k → z +ℤ pos 1 ≡ pos (suc k)
unfolding ◌+ℤ◌
plus_one z k e = rw e (ground arith)

pub minus_one : (z : ℤ) (k : ℕ) → z ≡ pos (suc k) → z -ℤ pos 1 ≡ pos k
unfolding ◌-ℤ◌
minus_one z k e = rw e (ground arith)

pub put_last-Counted :
    (a : Auth) (user : AuthUser) (k : ℕ) → Counted a k → Counted (put_last a user) k
unfolding Counted put_last
put_last-Counted a user k h = (
  h.0,
  h.1,
  h.2,
  plus_one a.pending_count (length a.head) h.3
      ∙ ap pos (sym (length-append a.head (user ∷ []) ∙ omega arith)),
)

still : (k : ℕ) → (suc k == 0) ≡ (suc (suc k) == 0)
still k = ground arith

pub queue-Counted :
    (a : Auth) (user : AuthUser) (k : ℕ)
    → Counted a (suc k)
    → Counted (queue_auth_client a user true) (suc (suc k))
unfolding queue_auth_client Counted
queue-Counted a user k h =
    put_last-Counted (record a { refcount = a.refcount +ℤ pos 1 }) (set_auth user) (suc (suc k))
      (plus_one a.refcount (suc k) h.0, h.1 ∙ still k, h.2 ∙ ap not (still k), h.3)

-- Where the last reference is released, the authenticator goes.
pub release-Counted : (a : Auth) (k : ℕ) → Counted a (suc k) → Counted (auth_release a) k
unfolding auth_release Counted
release-Counted a k h =
    let less = minus_one a.refcount k h.0 in
    let same : eqb_ℤ (a.refcount -ℤ pos 1) (pos 0) ≡ (k == 0) = rw less (ground arith) in
    elim (Bool-cases (k == 0)) [
      | inl e ↦ rw (same, e) (less, refl, refl, h.3)
      | inr e ↦ rw (same, e) (less, h.1 ∙ kept k, h.2 ∙ ap not (kept k), h.3)
    ]
  where
    kept : (k : ℕ) → (suc k == 0) ≡ false
    kept k = ground arith

pub release-head : (a : Auth) → (auth_release a).head ≡ a.head
unfolding auth_release
release-head a = if_both {A = Auth} (λ b. b.head ≡ a.head) _ _ _ refl refl

pub Counted-as : (a : Auth) (k m : ℕ) → k ≡ m → Counted a k → Counted a m
Counted-as a k m e h = subst (Counted a) e h

pub take-Counted :
    (a : Auth) (user : AuthUser) (users : List AuthUser) (k : ℕ)
    → a.head ≡ user ∷ users
    → Counted a k
    → Counted (record a { head = users; pending_count = a.pending_count -ℤ pos 1 }) k
unfolding Counted
take-Counted a user users k e h =
    (h.0, h.1, h.2, minus_one a.pending_count (length users) (h.3 ∙ ap (λ l. pos (length l)) e))

pub new-Counted :
    (a : Auth)
    → a.refcount ≡ pos 1
    → a.freed ≡ false
    → a.running ≡ true
    → a.pending_count ≡ pos (length a.head)
    → Counted a 1
unfolding Counted
new-Counted a e f r p = (e, f, r, p)

pub Counted-freed : (a : Auth) (k : ℕ) → Counted a k → a.freed ≡ (k == 0)
unfolding Counted
Counted-freed a k h = h.1

pub Counted-pending : (a : Auth) (k : ℕ) → Counted a k → a.pending_count ≡ pos (length a.head)
unfolding Counted
Counted-pending a k h = h.3
