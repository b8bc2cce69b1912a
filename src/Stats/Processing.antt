-- ===== src/Stats/Processing.antt =====
-- src/stats.c: what processing an event does to every value of the statistics.
use mathlib.Core.Path.{subst}
use mathlib.Core.Option.{map-eq-some_iff}
use checkedc_icecast.Base.{◌≡◌, ◌⊎◌, refl, false, Option, none, some, Bytes, bytes_eq}
use checkedc_icecast.Stats.Tree.{NodeTree}
use checkedc_icecast.Stats.{
  Action, Event, StatsNode, StatsSource, Stats, process_source_event, process_global_event,
  process_event, get_stats,
}
use checkedc_icecast.Stats.Values.{outcome, Changes, global_event-Changes}
use checkedc_icecast.Stats.Sources.{AllUnique, SourceChanges, with_source-Changes}

-- Another value than the one named.
abbrev pub IsOther : Option Bytes → Bytes → Option Bytes → Bytes → Type 0
IsOther none name none other_name = bytes_eq name other_name ≡ false
IsOther none name (some other) other_name = Unit
IsOther (some source) name none other_name = Unit
IsOther (some source) name (some other) other_name =
    (bytes_eq source other ≡ false) ⊎ (bytes_eq name other_name ≡ false)

module _ (N : NodeTree StatsNode) (S : NodeTree (StatsSource N.Tree)) where
  -- No two entries of a tree have one name.
  pub record IsStats (stats : Stats N S) : Type 0 where
    pub globals : N.IsUnique stats.global_tree
    pub sources : AllUnique N S stats.source_tree

  -- What an event makes of the statistics.
  pub record IsProcessed (source : Option Bytes) (name : Bytes) (event : Event)
      (before after : Stats N S) : Type 0 where
    pub here :
        get_stats N S source name after
        ≡ outcome event.action event.value (get_stats N S source name before)
    pub elsewhere :
        (other : Option Bytes) (j : Bytes)
        → IsOther source name other j
        → get_stats N S other j after ≡ get_stats N S other j before
    pub unique : IsStats after

  global_elsewhere :
      (name : Bytes) (event : Event) (stats : Stats N S) (tree : N.Tree)
      → Changes N name event stats.global_tree tree
      → (other : Option Bytes) (j : Bytes) → IsOther none name other j
      → get_stats N S other j (record stats { global_tree = tree }) ≡ get_stats N S other j stats
  unfolding get_stats
  global_elsewhere name event stats tree c none j d = c.1 j d
  global_elsewhere name event stats tree c (some other) j d = refl

  source_elsewhere :
      (source name : Bytes) (event : Event) (stats : Stats N S) (tree : S.Tree)
      → SourceChanges N S source name event stats.source_tree tree
      → (other : Option Bytes) (j : Bytes) → IsOther (some source) name other j
      → get_stats N S other j (record stats { source_tree = tree }) ≡ get_stats N S other j stats
  unfolding get_stats
  source_elsewhere source name event stats tree c none j d = refl
  source_elsewhere source name event stats tree c (some other) j d = c.1 other j d

  -- An event that names a value: once the statistics thread is through with it, _get_stats finds that value
  -- as the action says, and every other as before, and no name stands twice. To count up or down and to add
  -- leave the sum of the two numbers, as atoll reads them, wrapped once to an int; to subtract leaves their
  -- difference in an int64_t; each is cut to 15 characters. No two entries of a tree have one name before
  -- it, and it hands no NULL to a function of strings.
  pub process_event-IsProcessed :
      (source : Option Bytes) (name : Bytes) (value : Option Bytes) (action : Action)
      (stats : Stats N S) (r : Stats N S × Event)
      → IsStats stats
      → process_event N S
          (record { source = source; name = some name; value = value; action = action })
          stats
        ≡ some r
      → IsProcessed source name
          (record { source = source; name = some name; value = value; action = action })
          stats
          r.0
  unfolding process_event get_stats process_source_event
  process_event-IsProcessed none name value action stats r i e =
      let event : Event = record {
        source = none;
        name = some name;
        value = value;
        action = action;
      } in
      let p =
        (map-eq-some_iff (λ q. (record stats { global_tree = q.0 }, q.1))
            (process_global_event N name event stats.global_tree) {b = r}).0
          e in
      let c = global_event-Changes N name event stats.global_tree p.0 i.globals p.1 in
      subst (λ q. IsProcessed none name event stats q.0) p.2
        (record {
          here = c.0;
          elsewhere = global_elsewhere name event stats p.0.0 c;
          unique = record { globals = c.2; sources = i.sources };
        })
  process_event-IsProcessed (some source) name value action stats r i e =
      let event : Event = record {
        source = some source;
        name = some name;
        value = value;
        action = action;
      } in
      let p =
        (map-eq-some_iff (λ q. (record stats { source_tree = q.0 }, q.1))
            (process_source_event N S source event stats.source_tree) {b = r}).0
          e in
      let c =
        with_source-Changes N S source name event stats.source_tree p.0
          (S.find source stats.source_tree) refl i.sources refl p.1 in
      subst (λ q. IsProcessed (some source) name event stats q.0) p.2
        (record {
          here = c.0;
          elsewhere = source_elsewhere source name event stats p.0.0 c;
          unique = record { globals = i.globals; sources = c.2 };
        })
