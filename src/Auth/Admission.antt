-- ===== src/Auth/Admission.antt =====
-- src/auth.c: where a listener goes that is let in. Its source is searched with fnmatch of libc, and the trees of clients are
-- avl trees, both parameters.
use checkedc_icecast.Base.{
  ℕ, ◌+◌, ◌≡◌, ◌↔◌, refl, sym, ap, ◌∙◌, inl, inr, Bool, true, false, ◌&&◌, List, Option, none, some,
  ◌==◌, ltb, if◌then◌else◌, Bytes, Bool-cases, if_true, if_false,
}
use checkedc_icecast.Config.{MountProxy}
use checkedc_icecast.Util.Path.{
  util_check_valid_extension, ContentKind, xslt_content, html_content, unknown_content,
}
use checkedc_icecast.Source.Mounts.{Client, Source, SourceTree, source_find_mount}
use checkedc_icecast.Source.Mounts.Fallback.{Leads, source_find_mount-Leads}
use checkedc_icecast.Source.Listeners.{check_duplicate_logins, add_listener_to_source}
use checkedc_icecast.Source.Listeners.Joining.{Spills, room, full, add_listener-Spills}
use checkedc_icecast.Source.Mounts.Ordered.{IsOrdered}
use checkedc_icecast.Source.Listeners.Entering.{
  HasRoom, IsFull, IsAlone, check_duplicate-IsAlone, IsAlone-check_duplicate, Enters, enter-Enters,
}
use mathlib.Core.Path.{subst}
use checkedc_icecast.Base.{suc, ◌<◌, ◌≢◌, ◌⊎◌, arith}

-- Of a mount's configuration: `auth`, NULL or with its allow_duplicate_users, and the limit in seconds.
pub record Limits : Type 0 where
  pub auth : Option ℕ
  pub max_listener_duration : ℕ

-- Statistics by XSLT, a return of -1, the source that was joined with the client and its time of disconnection, or a file.
pub data Added : Type 0 where
  transforms : Added
  refused : Added
  joins : Source → Client → ℕ → Added
  asks_file : Added

unfoldable pub is_xslt : ContentKind → Bool
is_xslt xslt_content = true
is_xslt html_content = false
is_xslt unknown_content = false

unfoldable pub is_alone : Source → Client → Option Limits → Bool
is_alone source client none = true
is_alone source client (some limits) = check_duplicate_logins source client limits.auth

-- The time of disconnection, 0 for none. It is set unless authentication has set one.
unfoldable pub limited : Option Limits → ℕ → ℕ → ℕ
limited none now discon_time = discon_time
limited (some limits) now discon_time =
    if ltb 0 limits.max_listener_duration && discon_time == 0
    then now + limits.max_listener_duration
    else discon_time

unfoldable pub added : Option (Source × Client) → ℕ → Added
added none discon_time = refused
added (some (source, client)) discon_time = joins source client discon_time

module _ (fnmatch : Bytes → Bytes → Bool) (mounts : List MountProxy) (tree : SourceTree)
    (avl_insert : Client → List Client → List Client) where
  abbrev find : Option Bytes → Option Source
  find = source_find_mount fnmatch mounts tree

  unfoldable pub add_to : Option Source → Option Limits → ℕ → ℕ → Client → Added
  add_to none limits now discon_time client = asks_file
  add_to (some source) limits now discon_time client =
      if is_alone source client limits
      then added (add_listener_to_source avl_insert find source client)
          (limited limits now discon_time)
      else refused

  unfoldable pub add_authenticated_listener : Bytes → Option Limits → ℕ → ℕ → Client → Added
  add_authenticated_listener mount limits now discon_time client =
      if is_xslt (util_check_valid_extension (some mount))
      then transforms
      else add_to (find (some mount)) limits now discon_time client

  -- From a full source along its fallbacks, each to the active source that its mount leads to, to a source with room, in at
  -- most so many steps.
  pub data Reaches : ℕ → Source → Source → Type 0 where
    arrives : {n : ℕ} {s : Source} → HasRoom s → Reaches n s s
    passes_on :
        {n : ℕ} {s next t : Source} {mount : Bytes}
        → IsFull s
        → s.fallback_when_full ≡ true
        → s.fallback_mount ≡ some mount
        → Leads fnmatch mounts tree 10 (some mount) next
        → Reaches n next t
        → Reaches (suc n) s t

  -- The mount lets the client in beside those that are at the source.
  abbrev pub Allows : Option Limits → Source → Client → Type 0
  Allows none source client = Unit
  Allows (some limits) source client = IsAlone source client limits.auth

  -- The client is to be disconnected then, or never for 0: after the time of the mount where it has one and nothing was
  -- set before.
  abbrev pub Until : Option Limits → ℕ → ℕ → ℕ → Type 0
  Until none now before after = after ≡ before
  Until (some limits) now before after =
      ((0 < limits.max_listener_duration)
        × (before ≡ 0)
        × (after ≡ now + limits.max_listener_duration))
      ⊎ (((limits.max_listener_duration ≡ 0) ⊎ (0 < before)) × (after ≡ before))

  -- The way of a listener to the source that it joins, and the source and the listener then.
  pub Admitted : Bytes → Option Limits → Client → Source → Client → Type 0
  Admitted mount limits client joined c =
      (util_check_valid_extension (some mount) ≢ xslt_content)
      × (source : Source) × (t : Source) × Leads fnmatch mounts tree 10 (some mount) source
      × Allows limits source client
      × Reaches 10 source t
      × Enters avl_insert t client joined c

  no_xslt : (k : ContentKind) → (is_xslt k ≡ false) ↔ (k ≢ xslt_content)
  unfolding is_xslt
  no_xslt xslt_content = (λ h. absurd cc, λ n. absurd (n refl))
  no_xslt html_content = (λ h e. absurd cc, λ n. refl)
  no_xslt unknown_content = (λ h e. absurd cc, λ n. refl)

  allows :
      (limits : Option Limits) (source : Source) (client : Client)
      → (is_alone source client limits ≡ true) ↔ Allows limits source client
  unfolding is_alone
  allows none source client = (λ h. tt, λ u. refl)
  allows (some l) source client =
      (check_duplicate-IsAlone source client l.auth, IsAlone-check_duplicate source client l.auth)

  limited-Until :
      (limits : Option Limits) (now before : ℕ)
      → Until limits now before (limited limits now before)
  unfolding limited
  limited-Until none now before = refl
  limited-Until (some l) now before =
      elim (Bool-cases (ltb 0 l.max_listener_duration && before == 0)) [
        | inl h ↦ inl (ground arith, ground arith, if_true _ _ _ h)
        | inr h ↦ inr (
          elim (Bool-cases (ltb 0 l.max_listener_duration)) [
            | inl a ↦ inr (ground arith)
            | inr a ↦ inl (ground arith)
          ],
          if_false _ _ _ h,
        )
      ]

  until_once :
      (limits : Option Limits) (now before a b : ℕ)
      → Until limits now before a
      → Until limits now before b
      → a ≡ b
  until_once none now before a b u v = u ∙ sym v
  until_once (some l) now before a b (inl (p, q, e)) (inl (p', q', e')) = e ∙ sym e'
  until_once (some l) now before a b (inl (p, q, e)) (inr (inl p', e')) = omega arith
  until_once (some l) now before a b (inl (p, q, e)) (inr (inr q', e')) = omega arith
  until_once (some l) now before a b (inr (inl p', e')) (inl (p, q, e)) = omega arith
  until_once (some l) now before a b (inr (inr q', e')) (inl (p, q, e)) = omega arith
  until_once (some l) now before a b (inr (o, e)) (inr (o', e')) = e ∙ sym e'

  until :
      (limits : Option Limits) (now before a : ℕ)
      → (limited limits now before ≡ a) ↔ Until limits now before a
  until limits now before a = (
    λ e. subst (Until limits now before) e (limited-Until limits now before),
    until_once limits now before _ a (limited-Until limits now before),
  )

  added-joins :
      (r : Option (Source × Client)) (d e : ℕ) (s : Source) (c : Client)
      → added r d ≡ joins s c e
      → (r ≡ some (s, c)) × (d ≡ e)
  unfolding added
  added-joins none d e s c h = absurd cc
  added-joins (some (t, b)) d e s c h = (cc, cc)

  module _ (ordered : IsOrdered tree) where
    spills-Reaches : {n : ℕ} {s t : Source} → Spills avl_insert find n s t → Reaches n s t
    spills-Reaches (room r) = arrives r
    spills-Reaches (full {n} {s} {next} {t} {mount} r w k f l) =
        passes_on r w k
          ((source_find_mount-Leads fnmatch mounts tree ordered (some mount) next).0 f)
          (spills-Reaches l)

    reaches-Spills : {n : ℕ} {s t : Source} → Reaches n s t → Spills avl_insert find n s t
    reaches-Spills (arrives r) = room r
    reaches-Spills (passes_on {n} {s} {next} {t} {mount} r w k f l) =
        full r w k ((source_find_mount-Leads fnmatch mounts tree ordered (some mount) next).1 f)
          (reaches-Spills l)

    admitted :
        (source : Option Source) (mount : Bytes) (limits : Option Limits) (now d e : ℕ)
        (client c : Client) (s : Source)
        → find (some mount) ≡ source
        → is_xslt (util_check_valid_extension (some mount)) ≡ false
        → add_to source limits now d client ≡ joins s c e
        → Admitted mount limits client s c × Until limits now d e
    unfolding add_to Admitted
    admitted none mount limits now d e client c s f x h = absurd cc
    admitted (some source) mount limits now d e client c s f x h =
        elim (Bool-cases (is_alone source client limits)) [
          | inl b ↦
              let a = added-joins _ _ _ _ _ (sym (if_true _ _ _ b) ∙ h) in
              let l = (add_listener-Spills avl_insert find source client (s, c)).0 a.0 in
              (
                (
                  (no_xslt (util_check_valid_extension (some mount))).0 x,
                  source,
                  l.0,
                  (source_find_mount-Leads fnmatch mounts tree ordered (some mount) source).0 f,
                  (allows limits source client).0 b,
                  spills-Reaches l.1,
                  (enter-Enters avl_insert l.0 client s c).0 l.2,
                ),
                (until limits now d e).0 a.1,
              )
          | inr b ↦ absurd (cc (sym (if_false _ _ _ b) ∙ h))
        ]

    -- In an ordered tree of sources, a listener joins a source exactly when: its mount has no name of a style
    -- sheet and leads to an active source; the mount has no configuration, or one that asks for no
    -- authentication or allows a user twice, or the listener has no name, or nobody is logged in under it at
    -- that source; and that source has room, or it is full and so on along the mounts that full sources name
    -- as their fallback for this, each leading to an active source, ten at most, to one that has room. It then
    -- waits there, to be sent its headers, and the source is asked to start if it does not run and may be
    -- started so. It is to be disconnected after the duration that the configuration has, if any, unless a
    -- time was set before, which stays.
    pub add_authenticated-Admitted :
        (mount : Bytes) (limits : Option Limits) (now discon_time e : ℕ) (client c : Client)
        (s : Source)
        → (add_authenticated_listener mount limits now discon_time client ≡ joins s c e)
          ↔ (Admitted mount limits client s c × Until limits now discon_time e)
    unfolding add_authenticated_listener add_to added Admitted
    add_authenticated-Admitted mount limits now d e client c s = (
      λ h. elim (Bool-cases (is_xslt (util_check_valid_extension (some mount)))) [
        | inl x ↦ absurd (cc (sym (if_true _ _ _ x) ∙ h))
        | inr x ↦
            admitted (find (some mount)) mount limits now d e client c s refl x
              (sym (if_false _ _ _ x) ∙ h)
      ],
      λ ((x, source, t, l, a, p, q), u).
          if_false _ _ _ ((no_xslt (util_check_valid_extension (some mount))).1 x)
          ∙ ap (λ o. add_to o limits now d client)
              ((source_find_mount-Leads fnmatch mounts tree ordered (some mount) source).1 l)
          ∙ if_true _ _ _ ((allows limits source client).1 a)
          ∙ ap (λ r. added r (limited limits now d))
              ((add_listener-Spills avl_insert find source client (s, c)).1
                (t, reaches-Spills p, (enter-Enters avl_insert t client s c).1 q))
          ∙ ap (joins s c) ((until limits now d e).1 u),
    )
