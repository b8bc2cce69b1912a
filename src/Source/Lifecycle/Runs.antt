-- ===== src/Source/Lifecycle/Runs.antt =====
-- src/source.c, src/connection.c and src/slave.c: the tree of sources in every run.
use checkedc_icecast.Base.{
  ℕ, zero, suc, ◌+◌, ◌≤◌, ◌≡◌, refl, sym, ap, ◌∙◌, inl, inr, true, false, List, [], ◌∷◌, none, some,
  Bytes, bytes_eq, if◌then◌else◌, Bool-cases, if_true, if_false, All, arith,
}
use checkedc_icecast.Base.Number.{ℤ, pos}
use checkedc_icecast.Httpp.Tree.{VarTree}
use checkedc_icecast.Source.Lifecycle.{
  Owner, of_client, of_file, of_relay, SourceEntry, Global, has_mount, first_place, source_reserve,
  Act, After, put_back, keep_before, act_at, LifeEvent, reserves, acts, step, run,
}
use checkedc_icecast.Source.Lifecycle.Places.{
  is_counted, one_if, active_sources, IsRight, IsDistinct, Keeps, left_active, IsFine,
}
use checkedc_icecast.Source.Lifecycle.Counting.{act-IsFine}

-- The count beside `k` other sources that run.
IsCounted : ℕ → ℕ → Global → Type 0
IsCounted source_limit k global =
    (global.sources ≡ pos (k + active_sources global.source_tree))
    × (k + active_sources global.source_tree ≤ source_limit)
    × All IsRight global.source_tree
    × IsDistinct global.source_tree

put_back-IsCounted :
    (source_limit k : ℕ) (mount : Bytes) (tree : List SourceEntry) (after : After)
    → IsFine source_limit (k + active_sources tree) mount after
    → has_mount mount tree ≡ false
    → All IsRight tree
    → IsDistinct tree
    → IsCounted source_limit k (put_back tree after)
unfolding IsCounted IsFine Keeps left_active put_back active_sources IsDistinct
put_back-IsCounted source_limit k mount tree (sources, none) f h r d =
    (f.1 ∙ ap pos (omega arith), (omega arith), r, d)
put_back-IsCounted source_limit k mount tree (sources, some source) f h r d = (
  f.1 ∙ ap pos (omega arith),
  (omega arith),
  (f.0.1, r),
  (ap (λ m. has_mount m tree) f.0.0 ∙ h, d),
)

-- No mount comes to the tree.
put_back-mounts :
    (source_limit k : ℕ) (mount m : Bytes) (tree : List SourceEntry) (after : After)
    → IsFine source_limit k mount after
    → (if bytes_eq m mount then true else has_mount m tree) ≡ false
    → has_mount m (put_back tree after).source_tree ≡ false
unfolding IsFine Keeps put_back has_mount
put_back-mounts source_limit k mount m tree (sources, none) f h =
    elim (Bool-cases (bytes_eq m mount)) [
      | inl b ↦ absurd (cc (sym (if_true _ _ _ b) ∙ h))
      | inr b ↦ sym (if_false _ _ _ b) ∙ h
    ]
put_back-mounts source_limit k mount m tree (sources, some source) f h =
    ap (λ x. if bytes_eq m x then true else has_mount m tree) f.0.0 ∙ h

first_inactive : (owner : Owner) → is_counted (first_place owner) ≡ false
unfolding is_counted first_place
first_inactive of_client = refl
first_inactive of_file = refl
first_inactive of_relay = refl

module _ (T : VarTree) (source_limit : ℕ) where
  act_at-IsCounted :
      (n : ℕ) (act : Act T) (k : ℕ) (sources : ℤ) (tree : List SourceEntry)
      → IsCounted source_limit k (record { sources = sources; source_tree = tree })
      → IsCounted source_limit k (act_at T source_limit n act sources tree)
        × ((m : Bytes)
            → has_mount m tree ≡ false
            → has_mount m (act_at T source_limit n act sources tree).source_tree ≡ false)
  unfolding IsCounted act_at active_sources IsDistinct keep_before has_mount
  act_at-IsCounted n act k sources [] c = (c, λ m h. h)
  act_at-IsCounted zero act k sources (source ∷ tree) (s, l, r, d) =
      let f =
        act-IsFine T source_limit source.place act (k + active_sources tree) sources source refl r.0
          (s ∙ ap pos (omega arith)) (omega arith) in
      (
        put_back-IsCounted source_limit k source.mount tree _ f d.0 r.1 d.1,
        λ m h. put_back-mounts source_limit (k + active_sources tree) source.mount m tree _ f h,
      )
  act_at-IsCounted (suc n) act k sources (source ∷ tree) (s, l, r, d) =
      let i =
        act_at-IsCounted n act (k + one_if (is_counted source.place)) sources tree
          (s ∙ ap pos (omega arith), (omega arith), r.1, d.1) in
      (
        (i.0.0 ∙ ap pos (omega arith), (omega arith), (r.0, i.0.2), (i.1 source.mount d.0, i.0.3)),
        λ m h. elim (Bool-cases (bytes_eq m source.mount)) [
          | inl b ↦ absurd (cc (sym (if_true _ _ _ b) ∙ h))
          | inr b ↦ if_false _ _ _ b ∙ i.1 m (sym (if_false _ _ _ b) ∙ h)
        ],
      )

  reserve-IsCounted :
      (owner : Owner) (mount : Bytes) (global : Global)
      → IsCounted source_limit 0 global
      → IsCounted source_limit 0 (source_reserve owner mount global)
  unfolding IsCounted source_reserve active_sources IsDistinct IsRight one_if
  reserve-IsCounted owner mount global c = elim (Bool-cases (has_mount mount global.source_tree)) [
    | inl b ↦ rw b c
    | inr b ↦
        let off : one_if (is_counted (first_place owner)) ≡ 0 = ap one_if (first_inactive owner) in
        rw b (c.0 ∙ ap pos (omega arith), (omega arith), ((λ e. refl), c.2), (b, c.3))
  ]

  run_from-IsCounted :
      (events : List (LifeEvent T)) (global : Global)
      → IsCounted source_limit 0 global
      → IsCounted source_limit 0 (run T source_limit events global)
  unfolding run step
  run_from-IsCounted [] global c = c
  run_from-IsCounted (reserves owner mount ∷ events) global c =
      run_from-IsCounted events _ (reserve-IsCounted owner mount global c)
  run_from-IsCounted (acts n act ∷ events) global c =
      run_from-IsCounted events _ (act_at-IsCounted n act 0 global.sources global.source_tree c).0

  -- In every run from the start of the server with one source limit, with any outcome of each step: global.sources is the number of sources
  -- in the tree that are between their completion and their shutdown (or the error that source_client_callback finds),
  -- and it is the source limit or less; no other source has `running` set; and no two sources have one mount.
  pub run-IsCounted :
      (events : List (LifeEvent T))
      → let global = run T source_limit events (record { sources = pos 0; source_tree = [] }) in
        (global.sources ≡ pos (active_sources global.source_tree))
        × (active_sources global.source_tree ≤ source_limit)
        × All IsRight global.source_tree
        × IsDistinct global.source_tree
  unfolding IsCounted active_sources IsDistinct
  run-IsCounted events =
      let c =
        run_from-IsCounted events (record { sources = pos 0; source_tree = [] })
          (refl, (omega arith), tt, tt) in
      (c.0 ∙ ap pos (omega arith), (omega arith), c.2, c.3)
