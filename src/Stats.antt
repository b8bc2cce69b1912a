-- ===== src/Stats.antt =====
-- src/stats.c: the statistics of the server and of its sources, and the events that change them. Locks, the thread
-- and log lines are left out; a name or value is a C string or NULL. `none` stands for a run that hands NULL to a
-- function of strings.
pub mod Words
pub mod Tree
pub mod Only
pub mod Values
pub mod Sources
pub mod Processing
pub mod Failing
pub mod Listening
pub mod Streams
use mathlib.Core.Option.{map}
use checkedc_icecast.Base.{
  ℕ, ◌+◌, ◌%◌, ◌^◌, ltb, Bool, true, false, List, [], ◌∷◌, ◌++◌, Option, none, some, if◌then◌else◌,
  Bytes, take,
}
use checkedc_icecast.Base.Number.{ℤ, pos, sub_ℕ, ◌+ℤ◌, ◌-ℤ◌, print_int}
use checkedc_icecast.Stats.Words.{to_int, to_int64, int_of, atoll}
use checkedc_icecast.Stats.Tree.{NodeTree}

pub data Action : Type 0 where
  event_set event_inc event_dec event_add event_sub event_remove event_hidden : Action

-- stats_event_t.
pub record Event : Type 0 where
  pub source : Option Bytes
  pub name : Option Bytes
  pub value : Option Bytes
  pub action : Action

-- stats_node_t without its name, which is the tree's.
pub record StatsNode : Type 0 where
  pub value : Bytes
  pub hidden : ℕ

unfoldable pub value_action : Option Bytes → Action
value_action none = event_remove
value_action (some value) = event_set

unfoldable pub build_event : Option Bytes → Option Bytes → Option Bytes → Event
build_event source name value = record {
  source = source;
  name = name;
  value = value;
  action = value_action value;
}

-- `snprintf (str, 16, "%ld", value)`
unfoldable pub print_16 : ℤ → Bytes
print_16 z = take 15 (print_int z)

-- An unsigned long, as `%ld` reads it.
unfoldable pub as_long : ℕ → ℤ
as_long n = sub_ℕ (n % 2 ^ 64) (if ltb (n % 2 ^ 64) (2 ^ 63) then 0 else 2 ^ 64)

unfoldable pub stats_event_inc : Option Bytes → Option Bytes → Event
stats_event_inc source name = record (build_event source name none) { action = event_inc }

unfoldable pub stats_event_dec : Option Bytes → Option Bytes → Event
stats_event_dec source name = record (build_event source name none) { action = event_dec }

unfoldable pub stats_event_add : Option Bytes → Option Bytes → ℕ → Event
stats_event_add source name value = record (build_event source name none) {
  value = some (print_16 (as_long value));
  action = event_add;
}

unfoldable pub stats_event_sub : Option Bytes → Option Bytes → ℕ → Event
stats_event_sub source name value = record (build_event source name none) {
  value = some (print_16 (as_long value));
  action = event_sub;
}

unfoldable pub hidden_text : Bool → Option Bytes
hidden_text hidden = if hidden then some [] else none

unfoldable pub stats_event_hidden : Option Bytes → Option Bytes → Bool → Event
stats_event_hidden source name hidden = record (build_event source name (hidden_text hidden)) {
  action = event_hidden;
}

unfoldable pub flag : Option Bytes → ℕ
flag none = 0
flag (some value) = 1

unfoldable pub or_text : Option Bytes → Bytes → Option Bytes
or_text none text = some text
or_text (some value) text = some value

-- The node with its new number, and the event, which gets the text if it has none.
unfoldable pub renumber : StatsNode → Event → ℤ → StatsNode × Event
renumber node event z =
    (record node { value = print_16 z }, record event { value = or_text event.value (print_16 z) })

-- INC, DEC and ADD add in int, SUB subtracts in int64_t.
unfoldable pub modify_by : Action → StatsNode → Event → Option (StatsNode × Event)
modify_by event_set node event = map (λ v. (record node { value = v }, event)) event.value
modify_by event_inc node event = some (renumber node event (to_int (int_of node.value +ℤ pos 1)))
modify_by event_dec node event = some (renumber node event (to_int (int_of node.value -ℤ pos 1)))
modify_by event_add node event =
    map (λ v. renumber node event (to_int (int_of node.value +ℤ int_of v))) event.value
modify_by event_sub node event =
    map (λ v. renumber node event (to_int64 (atoll node.value -ℤ atoll v))) event.value
modify_by event_remove node event = some (renumber node event (pos 0))
modify_by event_hidden node event = some (record node { hidden = flag event.value }, event)

unfoldable pub modify_node_event : StatsNode → Event → Option (StatsNode × Event)
modify_node_event node event = modify_by event.action node event

unfoldable pub is_remove : Action → Bool
is_remove event_set = false
is_remove event_inc = false
is_remove event_dec = false
is_remove event_add = false
is_remove event_sub = false
is_remove event_remove = true
is_remove event_hidden = false

unfoldable pub is_hidden : Action → Bool
is_hidden event_set = false
is_hidden event_inc = false
is_hidden event_dec = false
is_hidden event_add = false
is_hidden event_sub = false
is_hidden event_remove = false
is_hidden event_hidden = true

-- stats_source_t without its name, over the tree of its values.
pub record StatsSource (Tree : Type 0) : Type 0 where
  pub hidden : ℕ
  pub stats_tree : Tree

unfoldable pub node_value : Option StatsNode → Option Bytes
node_value none = none
node_value (some node) = some node.value

module _ (N : NodeTree StatsNode) where
  unfoldable pub change_node : Bytes → StatsNode → Event → N.Tree → Option (N.Tree × Event)
  change_node name node event tree =
      map (λ r. (N.alter name (λ n. r.0) tree, r.1)) (modify_node_event node event)

  unfoldable pub global_found : Bytes → Event → N.Tree → Option StatsNode → Option (N.Tree × Event)
  global_found name event tree none =
      if is_remove event.action
      then some (tree, event)
      else map (λ v. (N.avl_insert name (record { value = v; hidden = 0 }) tree, event)) event.value
  global_found name event tree (some node) =
      if is_remove event.action
      then some (N.avl_delete name tree, event)
      else change_node name node event tree

  unfoldable pub process_global_event : Bytes → Event → N.Tree → Option (N.Tree × Event)
  process_global_event name event tree = global_found name event tree (N.find name tree)

  unfoldable pub add_value : Bytes → StatsSource N.Tree → Event → Option Bytes → N.Tree
  add_value name snode event none = snode.stats_tree
  add_value name snode event (some v) =
      N.avl_insert name (record { value = v; hidden = snode.hidden }) snode.stats_tree

  -- The tree of a source after an event that names one of its values.
  unfoldable pub source_found :
      Bytes → Event → StatsSource N.Tree → Option StatsNode → Option (N.Tree × Event)
  source_found name event snode none =
      if is_remove event.action
      then some (snode.stats_tree, event)
      else some (add_value name snode event event.value, event)
  source_found name event snode (some node) =
      if is_remove event.action
      then some (N.avl_delete name snode.stats_tree, event)
      else change_node name node event snode.stats_tree

  unfoldable pub hide_source : ℕ → StatsSource N.Tree → StatsSource N.Tree
  hide_source h snode = record {
    hidden = h;
    stats_tree = N.each (λ node. record node { hidden = h }) snode.stats_tree;
  }

  unfoldable pub new_source : Event → StatsSource N.Tree
  new_source event = record {
    hidden = if is_hidden event.action then 1 else 0;
    stats_tree = N.avl_tree_new;
  }

module _ (N : NodeTree StatsNode) (S : NodeTree (StatsSource N.Tree)) where
  -- stats_t.
  pub record Stats : Type 0 where
    pub global_tree : N.Tree
    pub source_tree : S.Tree

  unfoldable pub put_tree : Bytes → N.Tree → S.Tree → S.Tree
  put_tree source tree sources =
      S.alter source (λ snode. record snode { stats_tree = tree }) sources

  -- An event for the whole source.
  unfoldable pub process_whole : Bytes → Event → S.Tree → S.Tree
  process_whole source event sources =
      if is_hidden event.action
      then S.alter source (hide_source N (flag event.value)) sources
      else if is_remove event.action
      then S.avl_delete source sources
      else sources

  unfoldable pub in_source : Bytes → Event → S.Tree → StatsSource N.Tree → Option (S.Tree × Event)
  in_source source event sources snode = elim event.name as (λ _. Option (S.Tree × Event)) [
    | none ↦ some (process_whole source event sources, event)
    | some name ↦
        map (λ r. (put_tree source r.0 sources, r.1))
          (source_found N name event snode (N.find name snode.stats_tree))
  ]

  unfoldable pub with_source :
      Bytes → Event → S.Tree → Option (StatsSource N.Tree) → Option (S.Tree × Event)
  with_source source event sources none =
      if is_remove event.action
      then some (sources, event)
      else in_source source event (S.avl_insert source (new_source N event) sources)
          (new_source N event)
  with_source source event sources (some snode) = in_source source event sources snode

  unfoldable pub process_source_event : Bytes → Event → S.Tree → Option (S.Tree × Event)
  process_source_event source event sources =
      with_source source event sources (S.find source sources)

  -- What the statistics thread does with an event: the new statistics, and the event that the listeners get.
  unfoldable pub process_event : Event → Stats → Option (Stats × Event)
  process_event event stats = elim event.source as (λ _. Option (Stats × Event)) [
    | none ↦ elim event.name as (λ _. Option (Stats × Event)) [
      | none ↦ none
      | some name ↦
          map (λ r. (record stats { global_tree = r.0 }, r.1))
            (process_global_event N name event stats.global_tree)
    ]
    | some source ↦
        map (λ r. (record stats { source_tree = r.0 }, r.1))
          (process_source_event source event stats.source_tree)
  ]

  unfoldable pub in_found : Option (StatsSource N.Tree) → Bytes → Option Bytes
  in_found none name = none
  in_found (some snode) name = node_value (N.find name snode.stats_tree)

  unfoldable pub get_stats : Option Bytes → Bytes → Stats → Option Bytes
  get_stats none name stats = node_value (N.find name stats.global_tree)
  get_stats (some source) name stats = in_found (S.find source stats.source_tree) name
