-- ===== src/Stats/Values.antt =====
-- src/stats.c: what an event makes of the values that _get_stats finds.
use mathlib.Core.Path.{subst}
use mathlib.Core.Option.{map, map-eq-some_iff}
use checkedc_icecast.Base.{
  some_path, if_true, if_false, ℕ, ◌≡◌, refl, sym, ap, ◌∙◌, inl, inr, true, false, Option, none,
  some, if◌then◌else◌, Bytes, bytes_eq, Bool-cases, Option-cases, arith,
}
use checkedc_icecast.Base.Number.{pos, negsuc, ◌+ℤ◌, ◌-ℤ◌}
use checkedc_icecast.Stats.Words.{to_int, to_int64, atoll, int-inc, int-dec, int-add}
use checkedc_icecast.Stats.Tree.{NodeTree}
use checkedc_icecast.Stats.{
  Action, event_set, event_inc, event_dec, event_add, event_sub, event_remove, event_hidden, Event,
  StatsNode, StatsSource, print_16, renumber, modify_by, modify_node_event, is_remove, change_node,
  global_found, process_global_event, add_value, source_found, node_value,
}
use checkedc_icecast.Stats.Only.{Only, insert-Only, delete-Only, alter-Only}

-- The value that an action leaves where there was one.
unfoldable pub new_value : Action → Option Bytes → Bytes → Option Bytes
new_value event_set given old = given
new_value event_inc given old = some (print_16 (to_int (atoll old +ℤ pos 1)))
new_value event_dec given old = some (print_16 (to_int (atoll old +ℤ negsuc 0)))
new_value event_add given old = map (λ v. print_16 (to_int (atoll old +ℤ atoll v))) given
new_value event_sub given old = map (λ v. print_16 (to_int64 (atoll old -ℤ atoll v))) given
new_value event_remove given old = none
new_value event_hidden given old = some old

-- The value after an action, whether there was one or not.
unfoldable pub outcome : Action → Option Bytes → Option Bytes → Option Bytes
outcome action given none = if is_remove action then none else given
outcome action given (some old) = if is_remove action then none else new_value action given old

map-map :
    {A B C : Type 0} (f : A → B) (g : B → C) (o : Option A) → map g (map f o) ≡ map (λ a. g (f a)) o
map-map f g none = refl
map-map f g (some a) = refl

map-congr :
    {A B : Type 0} {f g : A → B} → ((a : A) → f a ≡ g a) → (o : Option A) → map f o ≡ map g o
map-congr h none = refl
map-congr h (some a) = ap some (h a)

map_same : {A : Type 0} (o : Option A) → map (λ (a : A). a) o ≡ o
map_same none = refl
map_same (some a) = refl

value_of : StatsNode × Event → Bytes
value_of r = r.0.value

modify-value :
    (action : Action) (node : StatsNode) (event : Event) (r : StatsNode × Event)
    → is_remove action ≡ false
    → modify_by action node event ≡ some r
    → some r.0.value ≡ new_value action event.value node.value
unfolding modify_by renumber new_value is_remove value_of
modify-value event_set node event r n e =
    sym (ap (map value_of) e) ∙ map-map _ value_of event.value ∙ map_same event.value
modify-value event_inc node event r n e =
    sym (ap (map value_of) e) ∙ ap (λ z. some (print_16 z)) (int-inc node.value)
modify-value event_dec node event r n e =
    sym (ap (map value_of) e) ∙ ap (λ z. some (print_16 z)) (int-dec node.value)
modify-value event_add node event r n e =
    sym (ap (map value_of) e)
    ∙ map-map _ value_of event.value
    ∙ map-congr (λ v. ap print_16 (int-add node.value v)) event.value
modify-value event_sub node event r n e = sym (ap (map value_of) e) ∙ map-map _ value_of event.value
modify-value event_remove node event r n e = absurd (ground arith)
modify-value event_hidden node event r n e = sym (ap (map value_of) e)

module _ (N : NodeTree StatsNode) where
  -- An event for `name` changes that value, as its action says, and no other.
  abbrev pub Changes : Bytes → Event → N.Tree → N.Tree → Type 0
  Changes name event before after =
      (node_value (N.find name after)
        ≡ outcome event.action event.value (node_value (N.find name before)))
      × ((j : Bytes)
          → bytes_eq name j ≡ false
          → node_value (N.find j after) ≡ node_value (N.find j before))
      × N.IsUnique after

  only :
      (name : Bytes) (event : Event) (f : Option StatsNode → Option StatsNode) (t after : N.Tree)
      → Only StatsNode N name f t after
      → node_value (f (N.find name t))
        ≡ outcome event.action event.value (node_value (N.find name t))
      → N.IsUnique after
      → Changes name event t after
  only name event f t after o e u = (ap node_value o.0 ∙ e, (λ j n. ap node_value (o.1 j n)), u)

  unchanged :
      (name : Bytes) (event : Event) (t : N.Tree)
      → node_value (N.find name t) ≡ outcome event.action event.value (node_value (N.find name t))
      → N.IsUnique t
      → Changes name event t t
  unchanged name event t e u = (e, (λ j n. refl), u)

  inserted :
      (name : Bytes) (event : Event) (t : N.Tree) (v : Bytes) (h : ℕ)
      → N.IsUnique t
      → N.find name t ≡ none
      → is_remove event.action ≡ false
      → event.value ≡ some v
      → Changes name event t (N.avl_insert name (record { value = v; hidden = h }) t)
  unfolding node_value outcome
  inserted name event t v h u f n e =
      only name event (λ o. some (record { value = v; hidden = h })) t
        (N.avl_insert name (record { value = v; hidden = h }) t)
        (insert-Only StatsNode N name (record { value = v; hidden = h }) t u f) (rw (f, n, e) refl)
        (N.insert-IsUnique name (record { value = v; hidden = h }) t u f)

  removed_value :
      (action : Action) (given old : Option Bytes)
      → is_remove action ≡ true
      → none ≡ outcome action given old
  unfolding outcome is_remove new_value
  removed_value action given none h = rw h refl
  removed_value action given (some old) h = rw h refl

  deleted :
      (name : Bytes) (event : Event) (t : N.Tree)
      → N.IsUnique t
      → is_remove event.action ≡ true
      → Changes name event t (N.avl_delete name t)
  unfolding node_value
  deleted name event t u n =
      only name event (λ o. none) t (N.avl_delete name t) (delete-Only StatsNode N name t u)
        (removed_value event.action event.value (node_value (N.find name t)) n)
        (N.delete-IsUnique name t u)

  altered :
      (name : Bytes) (node : StatsNode) (event : Event) (t : N.Tree) (r : N.Tree × Event)
      → N.IsUnique t
      → N.find name t ≡ some node
      → is_remove event.action ≡ false
      → change_node N name node event t ≡ some r
      → Changes name event t r.0
  unfolding change_node modify_node_event node_value outcome
  altered name node event t r u f n e =
      let m =
        map-eq-some_iff (λ p. (N.alter name (λ x. p.0) t, p.1)) (modify_by event.action node event)
          {b = r} in
      let p = m.0 e in
      subst (λ q. Changes name event t q.0) p.2
        (only name event (map (λ x. p.0.0)) t _ (alter-Only StatsNode N name (λ x. p.0.0) t u)
          (rw (f, n) (modify-value event.action node event p.0 n p.1))
          (N.alter-IsUnique name (λ x. p.0.0) t u))

  same_at :
      (name : Bytes) (event : Event) (t : N.Tree) (r : N.Tree × Event)
      → N.IsUnique t
      → some (t, event) ≡ some r
      → node_value (N.find name t) ≡ outcome event.action event.value (node_value (N.find name t))
      → Changes name event t r.0
  same_at name event t r u e h =
      subst (λ q. Changes name event t q.0) (some_path (t, event) r e) (unchanged name event t h u)

  removed_at :
      (name : Bytes) (event : Event) (t : N.Tree) (r : N.Tree × Event)
      → N.IsUnique t
      → is_remove event.action ≡ true
      → some (N.avl_delete name t, event) ≡ some r
      → Changes name event t r.0
  removed_at name event t r u n e =
      subst (λ q. Changes name event t q.0) (some_path (N.avl_delete name t, event) r e)
        (deleted name event t u n)

  global_found-Changes :
      (name : Bytes) (event : Event) (t : N.Tree) (r : N.Tree × Event) (o : Option StatsNode)
      → N.IsUnique t
      → N.find name t ≡ o
      → global_found N name event t o ≡ some r
      → Changes name event t r.0
  unfolding global_found node_value outcome
  global_found-Changes name event t r none u f e = elim (Bool-cases (is_remove event.action)) [
    | inl n ↦ same_at name event t r u (sym (if_true _ _ _ n) ∙ e) (rw (f, n) refl)
    | inr n ↦
        let p =
          (map-eq-some_iff (λ v. (N.avl_insert name (record { value = v; hidden = 0 }) t, event))
              event.value {b = r}).0
            (sym (if_false _ _ _ n) ∙ e) in
        subst (λ q. Changes name event t q.0) p.2 (inserted name event t p.0 0 u f n p.1)
  ]
  global_found-Changes name event t r (some node) u f e =
      elim (Bool-cases (is_remove event.action)) [
        | inl n ↦ removed_at name event t r u n (sym (if_true _ _ _ n) ∙ e)
        | inr n ↦ altered name node event t r u f n (sym (if_false _ _ _ n) ∙ e)
      ]

  -- An event that the statistics thread processes without a NULL string sets the global value that it names
  -- as its action says, and no other.
  pub global_event-Changes :
      (name : Bytes) (event : Event) (t : N.Tree) (r : N.Tree × Event)
      → N.IsUnique t
      → process_global_event N name event t ≡ some r
      → Changes name event t r.0
  unfolding process_global_event
  global_event-Changes name event t r u e =
      global_found-Changes name event t r (N.find name t) u refl e

  pub source_found-Changes :
      (name : Bytes) (event : Event) (snode : StatsSource N.Tree) (r : N.Tree × Event)
      (o : Option StatsNode)
      → N.IsUnique snode.stats_tree
      → N.find name snode.stats_tree ≡ o
      → source_found N name event snode o ≡ some r
      → Changes name event snode.stats_tree r.0
  unfolding source_found node_value outcome add_value
  source_found-Changes name event snode r none u f e = elim (Bool-cases (is_remove event.action)) [
    | inl n ↦ same_at name event snode.stats_tree r u (sym (if_true _ _ _ n) ∙ e) (rw (f, n) refl)
    | inr n ↦ elim (Option-cases event.value) [
      | inl v ↦
          same_at name event snode.stats_tree r u
            (ap (λ o. some (add_value N name snode event o, event)) (sym v)
              ∙ sym (if_false _ _ _ n)
              ∙ e)
            (rw (f, n, v) refl)
      | inr v ↦
          subst (λ q. Changes name event snode.stats_tree q.0)
            (some_path _ r (
              ap (λ o. some (add_value N name snode event o, event)) (sym v.1)
              ∙ sym (if_false _ _ _ n)
              ∙ e))
            (inserted name event snode.stats_tree v.0 snode.hidden u f n v.1)
    ]
  ]
  source_found-Changes name event snode r (some node) u f e =
      elim (Bool-cases (is_remove event.action)) [
        | inl n ↦ removed_at name event snode.stats_tree r u n (sym (if_true _ _ _ n) ∙ e)
        | inr n ↦ altered name node event snode.stats_tree r u f n (sym (if_false _ _ _ n) ∙ e)
      ]
