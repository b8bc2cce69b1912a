-- ===== src/Source/Mounts/Fallback.antt =====
-- src/source.c: source_find_mount follows the fallbacks, ten mounts at most.
use checkedc_icecast.Base.{
  ℕ, zero, suc, ◌≡◌, refl, sym, ap, ◌∙◌, ◌⊎◌, inl, inr, ◌↔◌, Bool, true, false, List, Option, none,
  some, arith, Bytes, Option-cases, Bool-cases, if_false,
}
use checkedc_icecast.Config.{MountProxy, normal, config_find_mount}
use checkedc_icecast.Source.Mounts.{
  Source, SourceTree, source_find_mount_raw, is_active, active_only, fallback_of, next_mount,
  find_from, source_find_mount,
}
use checkedc_icecast.Source.Mounts.Ordered.{InTree, IsOrdered, find_mount_raw-InTree}

-- A source that runs or may be started by a listener.
pub IsActive : Source → Type 0
IsActive s = (s.running ≡ true) ⊎ (s.on_demand ≡ true)

-- The tree has no source of this mount that is active.
pub HasNone : SourceTree → Bytes → Type 0
HasNone tree mount =
    (s : Source) → InTree s tree → mount ≡ s.mount → (s.running ≡ false) × (s.on_demand ≡ false)

is_active-IsActive : (s : Source) → is_active s ≡ true → IsActive s
unfolding is_active IsActive
is_active-IsActive s h = elim (Bool-cases s.running) [ inl r ↦ inl r | inr r ↦ inr (ground arith) ]

IsActive-is_active : (s : Source) → IsActive s → is_active s ≡ true
unfolding is_active IsActive
IsActive-is_active s (inl r) = ground arith
IsActive-is_active s (inr d) = ground arith

idle_sound : (s : Source) → is_active s ≡ false → (s.running ≡ false) × (s.on_demand ≡ false)
unfolding is_active
idle_sound s h = (ground arith, ground arith)

idle_complete : (s : Source) → (s.running ≡ false) × (s.on_demand ≡ false) → is_active s ≡ false
unfolding is_active
idle_complete s h = ground arith

-- What the search of one mount may find.
active-some :
    (o : Option Source) (s : Source) → active_only o ≡ some s → (o ≡ some s) × (is_active s ≡ true)
unfolding active_only
active-some none s h = cc
active-some (some t) s h = ground arith

active-none :
    (o : Option Source) (s : Source) → active_only o ≡ none → o ≡ some s → is_active s ≡ false
unfolding active_only
active-none none s h e = cc
active-none (some t) s h e = ground arith

some-active :
    (o : Option Source) (s : Source) → o ≡ some s → is_active s ≡ true → active_only o ≡ some s
unfolding active_only
some-active none s e a = cc
some-active (some t) s e a = ground arith

none-active :
    (o : Option Source) → ((s : Source) → o ≡ some s → is_active s ≡ false) → active_only o ≡ none
unfolding active_only
none-active none h = refl
none-active (some t) h = if_false _ _ _ (h t refl)

module _ (fnmatch : Bytes → Bytes → Bool) (mounts : List MountProxy) (tree : SourceTree) where
  -- From a mount, along the fallbacks of the configuration of mounts that have no active source, to an active source,
  -- in fewer than the given number of hops.
  pub data Leads : ℕ → Option Bytes → Source → Type 0 where
    stop :
        {n : ℕ} {mount : Bytes} {s : Source}
        → InTree s tree
        → mount ≡ s.mount
        → IsActive s
        → Leads (suc n) (some mount) s
    hop :
        {n : ℕ} {mount : Bytes} {m : MountProxy} {s : Source}
        → HasNone tree mount
        → config_find_mount fnmatch mounts (some mount) normal ≡ some m
        → Leads n m.fallback_mount s
        → Leads (suc n) (some mount) s

  nowhere : (n : ℕ) → find_from fnmatch mounts tree n none ≡ none
  unfolding find_from
  nowhere zero = refl
  nowhere (suc n) = refl

  module _ (ordered : IsOrdered tree) where
    none_active :
        (mount : Bytes)
        → active_only (source_find_mount_raw tree (some mount)) ≡ none
        → HasNone tree mount
    unfolding HasNone
    none_active mount e s i m =
        idle_sound s (active-none _ s e ((find_mount_raw-InTree tree mount s ordered).1 (i, m)))

    passes :
        (mount : Bytes)
        → HasNone tree mount
        → active_only (source_find_mount_raw tree (some mount)) ≡ none
    unfolding HasNone
    passes mount h = none-active _ (λ s e.
        let i = (find_mount_raw-InTree tree mount s ordered).0 e in idle_complete s (h s i.0 i.1))

    find-Leads :
        (n : ℕ) (mount : Option Bytes) (s : Source)
        → find_from fnmatch mounts tree n mount ≡ some s
        → Leads n mount s
    unfolding find_from next_mount fallback_of
    find-Leads zero mount s h = cc
    find-Leads (suc n) none s h = cc
    find-Leads (suc n) (some mount) s h =
        elim (Option-cases (active_only (source_find_mount_raw tree (some mount)))) [
          | inl e ↦ elim (Option-cases (config_find_mount fnmatch mounts (some mount) normal)) [
            | inl c ↦ absurd (cc (sym (nowhere n) ∙ sym (rw (e, c, find_from) refl) ∙ h))
            | inr (m, c) ↦
                hop (none_active mount e) c
                  (find-Leads n m.fallback_mount s (sym (rw (e, c, find_from) refl) ∙ h))
          ]
          | inr (t, e) ↦
              let same : t ≡ s = ground arith in
              let a = active-some _ s (e ∙ ap some same) in
              let i = (find_mount_raw-InTree tree mount s ordered).0 a.0 in
              stop i.0 i.1 (is_active-IsActive s a.1)
        ]

    Leads-find :
        {n : ℕ} {mount : Option Bytes} {s : Source}
        → Leads n mount s
        → find_from fnmatch mounts tree n mount ≡ some s
    unfolding find_from next_mount fallback_of
    Leads-find (stop {n} {mount} {s} i m a) =
        let found = (find_mount_raw-InTree tree mount s ordered).1 (i, m) in
        rw (some-active _ s found (IsActive-is_active s a), find_from)
    Leads-find (hop {n} {mount} {m} {s} h c l) = rw (passes mount h, c, find_from) (Leads-find l)

    -- In an ordered tree of sources, source_find_mount answers a source exactly when the mount leads to it: past mounts of
    -- which the tree has no source that runs or may be started by a listener, each time to the fallback mount that the
    -- configuration gives, to the tree's source of such a mount that runs or may be started, in fewer than ten hops.
    pub source_find_mount-Leads :
        (mount : Option Bytes) (s : Source)
        → (source_find_mount fnmatch mounts tree mount ≡ some s) ↔ Leads 10 mount s
    unfolding source_find_mount
    source_find_mount-Leads mount s = (find-Leads 10 mount s, Leads-find)
