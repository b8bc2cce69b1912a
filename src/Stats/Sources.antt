-- ===== src/Stats/Sources.antt =====
-- src/stats.c: what an event does to the values of the sources.
use mathlib.Core.Path.{subst}
use mathlib.Core.Option.{map, map-eq-some_iff}
use checkedc_icecast.Base.{
  some_path, if_true, if_false, ◌≡◌, ◌⊎◌, refl, sym, ap, ◌∙◌, inl, inr, true, false, Option, none,
  some, Bytes, bytes_eq, bytes_eq_sound, Bool-cases, arith,
}
use checkedc_icecast.Stats.Tree.{NodeTree}
use checkedc_icecast.Stats.{
  Event, StatsNode, StatsSource, is_remove, source_found, node_value, put_tree, new_source,
  in_source, with_source, in_found, process_whole,
}
use checkedc_icecast.Stats.Values.{outcome, Changes, source_found-Changes}
use checkedc_icecast.Stats.Only.{insert-Only, alter-Only}

name_differs :
    (source other name j : Bytes)
    → bytes_eq source other ≡ true
    → (bytes_eq source other ≡ false) ⊎ (bytes_eq name j ≡ false)
    → bytes_eq name j ≡ false
name_differs source other name j e (inl n) = absurd (ground (arith, e, n))
name_differs source other name j e (inr n) = n

module _ (N : NodeTree StatsNode) (S : NodeTree (StatsSource N.Tree)) where
  abbrev pub AllUnique : S.Tree → Type 0
  AllUnique sources =
      S.IsUnique sources
      × ((source : Bytes) (snode : StatsSource N.Tree)
          → S.find source sources ≡ some snode
          → N.IsUnique snode.stats_tree)

  -- An event for a value of a source changes that value, as its action says, and no other.
  abbrev pub SourceChanges : Bytes → Bytes → Event → S.Tree → S.Tree → Type 0
  SourceChanges source name event before after =
      (in_found N S (S.find source after) name
        ≡ outcome event.action event.value (in_found N S (S.find source before) name))
      × ((other j : Bytes)
          → (bytes_eq source other ≡ false) ⊎ (bytes_eq name j ≡ false)
          → in_found N S (S.find other after) j ≡ in_found N S (S.find other before) j)
      × AllUnique after

  -- A tree in which the source has another tree of values.
  put-Changes :
      (source name : Bytes) (event : Event) (sources : S.Tree) (snode : StatsSource N.Tree)
      (tree : N.Tree)
      → AllUnique sources
      → S.find source sources ≡ some snode
      → Changes N name event snode.stats_tree tree
      → SourceChanges source name event sources (put_tree N S source tree sources)
  unfolding put_tree in_found
  put-Changes source name event sources snode tree u f c =
      let f2 : StatsSource N.Tree → StatsSource N.Tree = λ x. record x { stats_tree = tree } in
      let o = alter-Only (StatsSource N.Tree) S source f2 sources u.0 in
      let after = put_tree N S source tree sources in
      let here : S.find source after ≡ some (f2 snode) = o.0 ∙ ap (map f2) f in
      (
        ap (λ x. in_found N S x name) here
            ∙ c.0
            ∙ ap (λ x. outcome event.action event.value (in_found N S x name)) (sym f),
        λ other j n. elim (Bool-cases (bytes_eq source other)) [
          | inr e ↦ ap (λ x. in_found N S x j) (o.1 other e)
          | inl e ↦
              subst (λ x. in_found N S (S.find x after) j ≡ in_found N S (S.find x sources) j)
                (bytes_eq_sound source other e)
                (ap (λ x. in_found N S x j) here
                  ∙ c.1 j (name_differs source other name j e n)
                  ∙ ap (λ x. in_found N S x j) (sym f))
        ],
        (
          S.alter-IsUnique source f2 sources u.0,
          λ other sn e. elim (Bool-cases (bytes_eq source other)) [
            | inr n ↦ u.1 other sn (sym (o.1 other n) ∙ e)
            | inl n ↦
                let same : S.find source after ≡ some sn =
                  ap (λ x. S.find x after) (bytes_eq_sound source other n) ∙ e in
                subst (λ x. N.IsUnique x.stats_tree) (some_path (f2 snode) sn (sym here ∙ same)) c.2
          ],
        ),
      )

  in_source-Changes :
      (source name : Bytes) (event : Event) (sources : S.Tree) (snode : StatsSource N.Tree)
      (r : S.Tree × Event)
      → event.name ≡ some name
      → AllUnique sources
      → S.find source sources ≡ some snode
      → in_source N S source event sources snode ≡ some r
      → SourceChanges source name event sources r.0
  unfolding in_source
  in_source-Changes source name event sources snode r n u f e =
      let named = λ (o : Option Bytes). elim o as (λ _. Option (S.Tree × Event)) [
        | none ↦ some (process_whole N S source event sources, event)
        | some x ↦
            map (λ r. (put_tree N S source r.0 sources, r.1))
              (source_found N x event snode (N.find x snode.stats_tree))
      ] in
      let p =
        (map-eq-some_iff (λ r. (put_tree N S source r.0 sources, r.1))
            (source_found N name event snode (N.find name snode.stats_tree)) {b = r}).0
          (ap named (sym n) ∙ e) in
      subst (λ q. SourceChanges source name event sources q.0) p.2
        (put-Changes source name event sources snode p.0.0 u f (
          source_found-Changes N name event snode p.0 (N.find name snode.stats_tree)
            (u.1 source snode f) refl p.1))

  AllSame : S.Tree → S.Tree → Type 0
  AllSame before after =
      (other j : Bytes) → in_found N S (S.find other after) j ≡ in_found N S (S.find other before) j

  -- A new source has no values.
  insert-AllSame :
      (source : Bytes) (event : Event) (sources : S.Tree)
      → S.IsUnique sources
      → S.find source sources ≡ none
      → AllSame sources (S.avl_insert source (new_source N event) sources)
  unfolding AllSame in_found new_source node_value
  insert-AllSame source event sources u f other j =
      let o = insert-Only (StatsSource N.Tree) S source (new_source N event) sources u f in
      elim (Bool-cases (bytes_eq source other)) [
        | inr e ↦ ap (λ x. in_found N S x j) (o.1 other e)
        | inl e ↦
            subst
              (λ x.
                in_found N S (S.find x (S.avl_insert source (new_source N event) sources)) j
                ≡ in_found N S (S.find x sources) j)
              (bytes_eq_sound source other e)
              (ap (λ x. in_found N S x j) o.0
                ∙ ap node_value (N.find-new j)
                ∙ ap (λ x. in_found N S x j) (sym f))
      ]

  insert-AllUnique :
      (source : Bytes) (event : Event) (sources : S.Tree)
      → AllUnique sources
      → S.find source sources ≡ none
      → AllUnique (S.avl_insert source (new_source N event) sources)
  unfolding new_source
  insert-AllUnique source event sources u f =
      let o = insert-Only (StatsSource N.Tree) S source (new_source N event) sources u.0 f in
      let after = S.avl_insert source (new_source N event) sources in
      (
        S.insert-IsUnique source (new_source N event) sources u.0 f,
        λ other sn e. elim (Bool-cases (bytes_eq source other)) [
          | inr n ↦ u.1 other sn (sym (o.1 other n) ∙ e)
          | inl n ↦
              let same : S.find source after ≡ some sn =
                ap (λ x. S.find x after) (bytes_eq_sound source other n) ∙ e in
              subst (λ x. N.IsUnique x.stats_tree)
                (some_path (new_source N event) sn (sym o.0 ∙ same)) N.new-IsUnique
        ],
      )

  after_same :
      (source name : Bytes) (event : Event) (before between after : S.Tree)
      → AllSame before between
      → SourceChanges source name event between after
      → SourceChanges source name event before after
  unfolding AllSame
  after_same source name event before between after h c = (
    c.0 ∙ ap (outcome event.action event.value) (h source name),
    (λ other j n. c.1 other j n ∙ h other j),
    c.2,
  )

  removed_none :
      (event : Event) (o : Option Bytes)
      → o ≡ none
      → is_remove event.action ≡ true
      → o ≡ outcome event.action event.value o
  unfolding outcome
  removed_none event o e n = rw (e, n) refl

  pub with_source-Changes :
      (source name : Bytes) (event : Event) (sources : S.Tree) (r : S.Tree × Event)
      (o : Option (StatsSource N.Tree))
      → event.name ≡ some name
      → AllUnique sources
      → S.find source sources ≡ o
      → with_source N S source event sources o ≡ some r
      → SourceChanges source name event sources r.0
  unfolding with_source in_found
  with_source-Changes source name event sources r none n u f e =
      elim (Bool-cases (is_remove event.action)) [
        | inl m ↦
            subst (λ q. SourceChanges source name event sources q.0)
              (some_path (sources, event) r (sym (if_true _ _ _ m) ∙ e))
              (removed_none event _ (ap (λ x. in_found N S x name) f) m, (λ other j d. refl), u)
        | inr m ↦
            let between = S.avl_insert source (new_source N event) sources in
            after_same source name event sources between r.0
              (insert-AllSame source event sources u.0 f)
              (in_source-Changes source name event between (new_source N event) r n
                (insert-AllUnique source event sources u f)
                (insert-Only (StatsSource N.Tree) S source (new_source N event) sources u.0 f).0
                (sym (if_false _ _ _ m) ∙ e))
      ]
  with_source-Changes source name event sources r (some snode) n u f e =
      in_source-Changes source name event sources snode r n u f e
