-- ===== src/Stats/Failing.antt =====
-- src/stats.c: the events that make the statistics thread hand NULL to a function of strings.
use mathlib.Core.Option.{map}
use checkedc_icecast.Base.{
  if_true, if_false, ◌≡◌, refl, sym, ap, ◌∙◌, Bool, true, false, not, Option, none, some, Bytes,
  Bool-cases, inl, inr,
}
use checkedc_icecast.Stats.Tree.{NodeTree}
use checkedc_icecast.Stats.{
  Action, event_set, event_inc, event_dec, event_add, event_sub, event_remove, event_hidden, Event,
  StatsNode, StatsSource, Stats, is_remove, modify_by, modify_node_event, change_node, global_found,
  process_global_event, source_found, new_source, in_source, with_source, process_source_event,
  process_event, node_value, in_found, get_stats,
}

-- The actions that read the value of the event.
unfoldable pub needs_value : Action → Bool
needs_value event_set = true
needs_value event_inc = false
needs_value event_dec = false
needs_value event_add = true
needs_value event_sub = true
needs_value event_remove = false
needs_value event_hidden = false

-- Whether NULL is handed on: for a source or not, the action, the event's value and the one that was there.
unfoldable pub meets_null : Option Bytes → Action → Option Bytes → Option Bytes → Bool
meets_null source action (some value) old = false
meets_null none action none none = not (is_remove action)
meets_null (some source) action none none = false
meets_null none action none (some old) = needs_value action
meets_null (some source) action none (some old) = needs_value action

abbrev pub is_failed {ℓ} : {A : Type ℓ} → Option A → Bool
is_failed none = true
is_failed (some a) = false

is_failed-map : {A B : Type 0} (f : A → B) (o : Option A) → is_failed (map f o) ≡ is_failed o
is_failed-map f none = refl
is_failed-map f (some a) = refl

never :
    {A : Type 0} (o : Option A) → false ≡ elim o as (λ _. Bool) [ none ↦ false | some v ↦ false ]
never none = refl
never (some v) = refl

failed_none :
    {A : Type 0} (o : Option A)
    → is_failed o ≡ elim o as (λ _. Bool) [ none ↦ true | some v ↦ false ]
failed_none none = refl
failed_none (some v) = refl

-- The actions without a value, on a value that is there.
modify-failed :
    (action : Action) (node : StatsNode) (event : Event)
    → is_failed (modify_by action node event)
      ≡ elim event.value as (λ _. Bool) [ none ↦ needs_value action | some v ↦ false ]
unfolding modify_by needs_value
modify-failed event_set node event = is_failed-map _ event.value ∙ failed_none event.value
modify-failed event_inc node event = never event.value
modify-failed event_dec node event = never event.value
modify-failed event_add node event = is_failed-map _ event.value ∙ failed_none event.value
modify-failed event_sub node event = is_failed-map _ event.value ∙ failed_none event.value
modify-failed event_remove node event = never event.value
modify-failed event_hidden node event = never event.value

remove_reads : (action : Action) → is_remove action ≡ true → needs_value action ≡ false
unfolding is_remove needs_value
remove_reads event_set e = sym e
remove_reads event_inc e = refl
remove_reads event_dec e = refl
remove_reads event_add e = sym e
remove_reads event_sub e = sym e
remove_reads event_remove e = refl
remove_reads event_hidden e = refl

removes :
    (source value : Option Bytes) (action : Action) (old : Bytes)
    → is_remove action ≡ true
    → false ≡ meets_null source action value (some old)
unfolding meets_null
removes none none action old e = sym (remove_reads action e)
removes (some source) none action old e = sym (remove_reads action e)
removes none (some v) action old e = refl
removes (some source) (some v) action old e = refl

no_value :
    (source : Bytes) (action : Action) (value : Option Bytes)
    → meets_null (some source) action value none ≡ false
unfolding meets_null
no_value source action none = refl
no_value source action (some v) = refl

nothing : node_value none ≡ none
unfolding node_value
nothing = refl

module _ (N : NodeTree StatsNode) (S : NodeTree (StatsSource N.Tree)) where
  changed :
      (source : Option Bytes) (name : Bytes) (value : Option Bytes) (action : Action)
      (node : StatsNode) (t : N.Tree)
      → is_failed (
          change_node N name node
            (record { source = source; name = some name; value = value; action = action })
            t)
        ≡ meets_null source action value (some node.value)
  unfolding change_node modify_node_event meets_null
  changed source name value action node t =
      let event : Event = record {
        source = source;
        name = some name;
        value = value;
        action = action;
      } in
      is_failed-map _ (modify_by action node event)
      ∙ modify-failed action node event
      ∙ go source value
    where
      go :
          (s v : Option Bytes)
          → (elim v as (λ _. Bool) [ none ↦ needs_value action | some x ↦ false ])
            ≡ meets_null s action v (some node.value)
      go none none = refl
      go (some s) none = refl
      go none (some v) = refl
      go (some s) (some v) = refl

  found_failed :
      (name : Bytes) (value : Option Bytes) (action : Action) (t : N.Tree) (o : Option StatsNode)
      → is_failed (
          global_found N name
            (record { source = none; name = some name; value = value; action = action })
            t
            o)
        ≡ meets_null none action value (node_value o)
  unfolding global_found node_value meets_null
  found_failed name none action t none = elim (Bool-cases (is_remove action)) [
    | inl e ↦ rw e refl
    | inr e ↦ rw e refl
  ]
  found_failed name (some v) action t none = elim (Bool-cases (is_remove action)) [
    | inl e ↦ rw e refl
    | inr e ↦ rw e refl
  ]
  found_failed name value action t (some node) = elim (Bool-cases (is_remove action)) [
    | inl e ↦ ap is_failed (if_true _ _ _ e) ∙ removes none value action node.value e
    | inr e ↦ ap is_failed (if_false _ _ _ e) ∙ changed none name value action node t
  ]

  in_found_failed :
      (source name : Bytes) (value : Option Bytes) (action : Action) (snode : StatsSource N.Tree)
      (o : Option StatsNode)
      → is_failed (
          source_found N name
            (record { source = some source; name = some name; value = value; action = action })
            snode
            o)
        ≡ meets_null (some source) action value (node_value o)
  unfolding source_found node_value meets_null
  in_found_failed source name none action snode none = elim (Bool-cases (is_remove action)) [
    | inl e ↦ rw e refl
    | inr e ↦ rw e refl
  ]
  in_found_failed source name (some v) action snode none = elim (Bool-cases (is_remove action)) [
    | inl e ↦ rw e refl
    | inr e ↦ rw e refl
  ]
  in_found_failed source name value action snode (some node) =
      elim (Bool-cases (is_remove action)) [
        | inl e ↦ ap is_failed (if_true _ _ _ e) ∙ removes (some source) value action node.value e
        | inr e ↦
            ap is_failed (if_false _ _ _ e)
            ∙ changed (some source) name value action node snode.stats_tree
      ]

  with_failed :
      (source name : Bytes) (value : Option Bytes) (action : Action) (t : S.Tree)
      (o : Option (StatsSource N.Tree))
      → is_failed (
          with_source N S source
            (record { source = some source; name = some name; value = value; action = action })
            t
            o)
        ≡ meets_null (some source) action value (in_found N S o name)
  unfolding with_source in_source in_found new_source
  with_failed source name value action t none = elim (Bool-cases (is_remove action)) [
    | inl e ↦ ap is_failed (if_true _ _ _ e) ∙ sym (no_value source action value)
    | inr e ↦
        ap is_failed (if_false _ _ _ e)
        ∙ is_failed-map _ _
        ∙ in_found_failed source name value action _ (N.find name N.avl_tree_new)
        ∙ ap (λ o. meets_null (some source) action value (node_value o)) (N.find-new name)
        ∙ ap (meets_null (some source) action value) nothing
  ]
  with_failed source name value action t (some snode) =
      is_failed-map _ _
      ∙ in_found_failed source name value action snode (N.find name snode.stats_tree)

  -- An event that names a value makes the thread hand NULL to a function of strings just where it has no value
  -- itself and either names a global value that is not there, other than to remove it, or is to be read.
  pub process_event-failed :
      (source : Option Bytes) (name : Bytes) (value : Option Bytes) (action : Action)
      (stats : Stats N S)
      → is_failed (
          process_event N S
            (record { source = source; name = some name; value = value; action = action })
            stats)
        ≡ meets_null source action value (get_stats N S source name stats)
  unfolding process_event process_global_event process_source_event get_stats
  process_event-failed none name value action stats =
      is_failed-map _ _
      ∙ found_failed name value action stats.global_tree (N.find name stats.global_tree)
  process_event-failed (some source) name value action stats =
      is_failed-map _ _
      ∙ with_failed source name value action stats.source_tree (S.find source stats.source_tree)
