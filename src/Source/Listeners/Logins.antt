-- ===== src/Source/Listeners/Logins.antt =====
-- src/auth.c: a mount without duplicate users has at most one listener of each.
use checkedc_icecast.Base.{
  ℕ, suc, ◌+◌, ◌≡◌, refl, inl, inr, true, false, not, ◌&&◌, List, [], ◌∷◌, Option, some, arith,
  if◌then◌else◌, Bytes, bytes_eq_refl, Bool-cases, ◌∙◌, ap, sym,
}
use checkedc_icecast.Source.Mounts.{Client, Source, check_http}
use checkedc_icecast.Source.Listeners.{
  is_login, find_login, check_login, check_duplicate_logins, enter,
}

-- How many clients of a list, or of a source, are logged in under the name.
unfoldable pub logins : Bytes → List Client → ℕ
logins username [] = 0
logins username (c ∷ cs) = (if is_login c.username username then 1 else 0) + logins username cs

unfoldable pub logins_at : Bytes → Source → ℕ
logins_at username s = logins username s.client_tree + logins username s.pending_tree

find_login-logins :
    (cs : List Client) (username : Bytes) → find_login cs username ≡ false → logins username cs ≡ 0
unfolding find_login logins
find_login-logins [] username h = refl
find_login-logins (c ∷ cs) username h = ground (arith, find_login-logins cs username)

pub none_at :
    (s : Source) (username : Bytes)
    → check_login s (some username) (some 0) ≡ true
    → logins_at username s ≡ 0
unfolding check_login logins_at
none_at s username h = elim (Bool-cases (find_login s.client_tree username)) [
  | inl a ↦ absurd (ground arith)
  | inr a ↦ elim (Bool-cases (find_login s.pending_tree username)) [
    | inl b ↦ absurd (ground arith)
    | inr b ↦ omega (
      arith,
      find_login-logins s.client_tree username a,
      find_login-logins s.pending_tree username b,
    )
  ]
]

check_login-logins :
    (s : Source) (o : Option Bytes) (username : Bytes)
    → o ≡ some username
    → check_login s o (some 0) ≡ true
    → logins_at username s ≡ 0
check_login-logins s o username e h =
    none_at s username (ap (λ p. check_login s p (some 0)) (sym e) ∙ h)

module _ (avl_insert : Client → List Client → List Client)
    (insert_adds : (username : Bytes) (c : Client) (cs : List Client)
      → logins username (avl_insert c cs) ≡ logins username (c ∷ cs)) where
  entered :
      (c : Client) (username : Bytes) (cs : List Client)
      → c.username ≡ some username
      → logins username (avl_insert (record c { check_buffer = check_http }) cs)
        ≡ suc (logins username cs)
  unfolding logins is_login
  entered c username cs e =
      insert_adds username (record c { check_buffer = check_http }) cs
      ∙ ap (λ o. (if is_login o username then 1 else 0) + logins username cs) e
      ∙ rw (bytes_eq_refl username) (omega arith)

  enter-logins :
      (s : Source) (c : Client) (username : Bytes)
      → c.username ≡ some username
      → logins_at username (enter avl_insert s c).0 ≡ suc (logins_at username s)
  unfolding enter logins_at
  enter-logins s c username e = elim (Bool-cases (not s.running && s.on_demand)) [
    | inl b ↦ rw b (omega (arith, entered c username s.pending_tree e))
    | inr b ↦ rw b (omega (arith, entered c username s.pending_tree e))
  ]

  -- Where an insertion into a tree adds the client once, and check_duplicate_logins lets a named
  -- client pass on a mount that allows no duplicate users, nobody is logged in under the name at
  -- the source, and once the client has entered it, exactly one.
  pub check_duplicate_logins-logins :
      (s : Source) (c : Client) (username : Bytes)
      → c.username ≡ some username
      → check_duplicate_logins s c (some 0) ≡ true
      → (logins_at username s ≡ 0) × (logins_at username (enter avl_insert s c).0 ≡ 1)
  unfolding check_duplicate_logins
  check_duplicate_logins-logins s c username e h =
      let alone = check_login-logins s c.username username e h in
      (alone, enter-logins s c username e ∙ ap suc alone)
