-- ===== src/Source/Lifecycle/Leftover.antt =====
-- src/source.c, src/connection.c and src/slave.c: a mount that a fallback file keeps.
use mathlib.Core.Path.{subst}
use checkedc_icecast.Base.{
  get_elem?, some_path, ◌⊎◌, bytes_eq_refl, ℕ, zero, suc, ◌≡◌, refl, sym, ap, ◌∙◌, inl, inr, Bool,
  true, false, List, [], ◌∷◌, none, some, Bytes, bytes_eq, if◌then◌else◌, Bool-cases, if_true,
}
use checkedc_icecast.Base.Number.{ℤ}
use checkedc_icecast.Httpp.Vars.{HttpParser}
use checkedc_icecast.Httpp.Tree.{VarTree}
use checkedc_icecast.Source.Lifecycle.{
  FormatType, reserved, completes, refused, connection_complete_source, complete, refuse, Owner,
  of_file, SourceEntry, Global, has_mount, source_reserve, Act, After, act_in, put_back,
  keep_before, act_at, LifeEvent, reserves, acts, step, run, idle, starts, killed, cleaned_up,
  start_relay, relay_cleanup,
}

if_same : (b : Bool) → (if b then true else true) ≡ true
if_same true = refl
if_same false = refl

-- A source that the thread of a fallback file left behind.
unfoldable pub IsLeft : Bytes → List SourceEntry → Type 0
IsLeft mount [] = ⊥
IsLeft mount (source ∷ tree) =
    ((source.mount ≡ mount) × (source.owner ≡ of_file) × (source.place ≡ idle)) ⊎ IsLeft mount tree

put_back-IsLeft :
    (mount : Bytes) (tree : List SourceEntry) (after : After)
    → IsLeft mount tree
    → IsLeft mount (put_back tree after).source_tree
unfolding IsLeft put_back
put_back-IsLeft mount tree (sources, none) h = h
put_back-IsLeft mount tree (sources, some source) h = inr h

reserve-IsLeft :
    (mount : Bytes) (owner : Owner) (other : Bytes) (global : Global)
    → IsLeft mount global.source_tree
    → IsLeft mount (source_reserve owner other global).source_tree
unfolding IsLeft source_reserve
reserve-IsLeft mount owner other global h = elim (Bool-cases (has_mount other global.source_tree)) [
  | inl b ↦ rw b h
  | inr b ↦ rw b (inr h)
]

left-has_mount :
    (mount : Bytes) (tree : List SourceEntry) → IsLeft mount tree → has_mount mount tree ≡ true
unfolding IsLeft has_mount
left-has_mount mount [] h = absurd h
left-has_mount mount (source ∷ tree) (inl h) =
    ap (λ m. if bytes_eq mount m then true else has_mount mount tree) h.0
    ∙ if_true _ _ _ (bytes_eq_refl mount)
left-has_mount mount (source ∷ tree) (inr h) =
    ap (λ b. if bytes_eq mount source.mount then true else b) (left-has_mount mount tree h)
    ∙ if_same _

module _ (T : VarTree) (source_limit : ℕ) where
  idle-IsLeft :
      (mount : Bytes) (act : Act T) (sources : ℤ) (source : SourceEntry) (tree : List SourceEntry)
      → (source.mount ≡ mount) × (source.owner ≡ of_file) × (source.place ≡ idle)
      → IsLeft mount (put_back tree (act_in T source_limit idle act sources source)).source_tree
  unfolding IsLeft put_back act_in start_relay relay_cleanup
  idle-IsLeft mount killed sources source tree h = inl h
  idle-IsLeft mount starts sources source tree h =
      subst (λ w. IsLeft mount (start_relay w source ∷ tree)) (sym h.1) (inl h)
  idle-IsLeft mount cleaned_up sources source tree h =
      subst (λ w. IsLeft mount (put_back tree (sources, relay_cleanup w source)).source_tree)
        (sym h.1) (inl h)
  idle-IsLeft mount other sources source tree h = inl h

  act_at-IsLeft :
      (mount : Bytes) (n : ℕ) (act : Act T) (sources : ℤ) (tree : List SourceEntry)
      → IsLeft mount tree
      → IsLeft mount (act_at T source_limit n act sources tree).source_tree
  unfolding IsLeft act_at keep_before
  act_at-IsLeft mount n act sources [] h = absurd h
  act_at-IsLeft mount zero act sources (source ∷ tree) (inl h) =
      subst
        (λ p. IsLeft mount (put_back tree (act_in T source_limit p act sources source)).source_tree)
        (sym h.2) (idle-IsLeft mount act sources source tree h)
  act_at-IsLeft mount zero act sources (source ∷ tree) (inr h) = put_back-IsLeft mount tree _ h
  act_at-IsLeft mount (suc n) act sources (source ∷ tree) (inl h) = inl h
  act_at-IsLeft mount (suc n) act sources (source ∷ tree) (inr h) =
      inr (act_at-IsLeft mount n act sources tree h)

  run-IsLeft :
      (mount : Bytes) (events : List (LifeEvent T)) (global : Global) (owner : Owner)
      → IsLeft mount global.source_tree
      → let later = run T source_limit events global in
        IsLeft mount later.source_tree × (source_reserve owner mount later ≡ later)
  unfolding run step source_reserve
  run-IsLeft mount [] global owner h =
      (h, if_true _ _ _ (left-has_mount mount global.source_tree h))
  run-IsLeft mount (reserves by other ∷ events) global owner h =
      run-IsLeft mount events _ owner (reserve-IsLeft mount by other global h)
  run-IsLeft mount (acts n act ∷ events) global owner h =
      run-IsLeft mount events _ owner
        (act_at-IsLeft mount n act global.sources global.source_tree h)

  refused-IsLeft :
      (mount : Bytes) (sources : ℤ) (source : SourceEntry) (tree : List SourceEntry)
      (plugin : FormatType → Bool) (parser : HttpParser T.Tree) (message : Bytes)
      → source.mount ≡ mount
      → source.owner ≡ of_file
      → source.place ≡ reserved
      → connection_complete_source T source_limit sources plugin parser ≡ refused message
      → IsLeft mount
          (put_back tree (
            act_in T source_limit source.place
              (completes plugin parser)
              sources
              source)).source_tree
  unfolding IsLeft put_back act_in complete refuse
  refused-IsLeft mount sources source tree plugin parser message m o p e =
      let after : act_in T source_limit source.place (completes plugin parser) sources source
          ≡ (sources, some (record source { place = idle })) =
        ap (λ w. act_in T source_limit w (completes plugin parser) sources source) p
        ∙ ap (complete sources source) e
        ∙ ap (λ w. (sources, refuse w source)) o in
      subst (λ a. IsLeft mount (put_back tree a).source_tree) (sym after) (inl (m, o, refl))

  act_at-refused :
      (n : ℕ) (source : SourceEntry) (sources : ℤ) (tree : List SourceEntry)
      (plugin : FormatType → Bool) (parser : HttpParser T.Tree) (message : Bytes)
      → get_elem? tree n ≡ some source
      → source.owner ≡ of_file
      → source.place ≡ reserved
      → connection_complete_source T source_limit sources plugin parser ≡ refused message
      → IsLeft source.mount
          (act_at T source_limit n (completes plugin parser) sources tree).source_tree
  unfolding act_at IsLeft keep_before
  act_at-refused n source sources [] plugin parser message g o p e = absurd cc
  act_at-refused zero source sources (first ∷ tree) plugin parser message g o p e =
      let same : first ≡ source = some_path first source g in
      refused-IsLeft source.mount sources first tree plugin parser message (ap (λ s. s.mount) same)
        (ap (λ s. s.owner) same ∙ o) (ap (λ s. s.place) same ∙ p) e
  act_at-refused (suc n) source sources (first ∷ tree) plugin parser message g o p e =
      inr (act_at-refused n source sources tree plugin parser message g o p e)

  -- source_fallback_file has reserved a mount, and connection_complete_source refuses its source, for
  -- example at the source limit. Then, whatever happens to the sources of the server afterwards, the mount
  -- stays in the tree of sources, and nobody can reserve it any more.
  pub run-refused :
      (n : ℕ) (source : SourceEntry) (global : Global) (plugin : FormatType → Bool)
      (parser : HttpParser T.Tree) (message : Bytes) (events : List (LifeEvent T)) (owner : Owner)
      → get_elem? global.source_tree n ≡ some source
      → source.owner ≡ of_file
      → source.place ≡ reserved
      → connection_complete_source T source_limit global.sources plugin parser ≡ refused message
      → let later = run T source_limit (acts n (completes plugin parser) ∷ events) global in
        (has_mount source.mount later.source_tree ≡ true)
        × (source_reserve owner source.mount later ≡ later)
  unfolding run step
  run-refused n source global plugin parser message events owner g o p e =
      let left =
        run-IsLeft source.mount events
          (act_at T source_limit n (completes plugin parser) global.sources global.source_tree)
          owner
          (act_at-refused n source global.sources global.source_tree plugin parser message g o p
            e) in
      (left-has_mount source.mount _ left.0, left.1)
