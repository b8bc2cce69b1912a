-- ===== src/Tests/Stats.antt =====
-- src/stats.c: statistics with one global value and one source.
use checkedc_icecast.Base.Number.{
  print_int, decimal, digits_from, atoi, signed_value, digits_value, is_digit, is_blank, ◌+ℤ◌, ◌-ℤ◌,
  pos, negsuc,
}
use checkedc_icecast.Stats.Words.{to_int, to_int64, signed, residue, int_of, atoll, to_range}
use checkedc_icecast.Base.{
  ℕ, ◌≡◌, refl, true, List, [], ◌∷◌, ◌++◌, none, some, Bytes, codes, arith, concat, bytes_eq,
}
use checkedc_icecast.Stats.Tree.{NodeTree, list_nodes, find_in, alter_in}
use checkedc_icecast.Stats.{
  process_global_event, global_found, change_node, modify_node_event, modify_by, renumber, or_text,
  print_16, is_remove, event_inc, event_set, Event, StatsNode, StatsSource, Stats, process_event,
  get_stats, stats_event_sub, node_value, is_remove, print_16, as_long,
}
use checkedc_icecast.Stats.Listening.{
  Listener, Act, processes, registers, unregisters, takes, queue_of, run, taken, sent, run-taken,
  taken_in, take_event, act, register_listener, deliver, get_event_from_queue, add_event_to_queue,
  copy_event,
}
use checkedc_icecast.Stats.Processing.{IsStats, IsProcessed, process_event-IsProcessed}
use checkedc_icecast.Stats.Failing.{is_failed, meets_null, process_event-failed}
use checkedc_icecast.Stats.Streams.{
  Blocks, AreBlocks, blocks_of, stats_get_streams, stream_lines, get_streams-lines,
}

abbrev nodes : NodeTree StatsNode
nodes = list_nodes

abbrev sources : NodeTree (StatsSource (List (Bytes × StatsNode)))
sources = list_nodes

abbrev counters : Stats nodes sources
counters = record {
  global_tree = (codes "listeners", record { value = codes "41"; hidden = 0 }) ∷ [];
  source_tree =
      (
        codes "/a",
        record {
          hidden = 0;
          stats_tree = (codes "title", record { value = codes "x"; hidden = 0 }) ∷ [];
        },
      )
      ∷ [];
}

counters-IsStats : IsStats nodes sources counters
counters-IsStats = record { globals = tt; sources = (tt, (λ source snode e. tt)) }

abbrev joined : Event
joined = record { source = none; name = some (codes "listeners"); value = none; action = event_inc }

abbrev counted : Stats nodes sources × Event
counted = (
  record counters {
    global_tree = (codes "listeners", record { value = codes "42"; hidden = 0 }) ∷ [];
  },
  record joined { value = some (codes "42") },
)

counted_up : process_event nodes sources joined counters ≡ some counted
unfolding process_event process_global_event global_found change_node modify_node_event modify_by
    renumber or_text print_16 is_remove print_int decimal digits_from atoi signed_value digits_value
    is_digit is_blank find_in alter_in bytes_eq ◌+ℤ◌ to_int signed residue int_of atoll to_range
counted_up = refl

-- An int that is counted up at its end, and the same number in an int64_t.
wrapped : to_int (int_of (codes "2147483647") +ℤ pos 1) ≡ negsuc 2147483647
unfolding to_int signed residue int_of atoll to_range atoi signed_value digits_value is_digit
    is_blank ◌+ℤ◌
wrapped = refl

not_wrapped : to_int64 (atoll (codes "2147483647") -ℤ negsuc 0) ≡ pos 2147483648
unfolding to_int64 atoll to_range atoi signed_value digits_value is_digit is_blank ◌-ℤ◌
not_wrapped = refl

process_event-IsProcessed_example :
    IsProcessed nodes sources none (codes "listeners") joined counters counted.0
process_event-IsProcessed_example =
    process_event-IsProcessed nodes sources none (codes "listeners") none event_inc counters counted
      counters-IsStats counted_up

process_event-failed_example :
    is_failed (
      process_event nodes sources
        (record { source = none; name = some (codes "peak"); value = none; action = event_inc })
        counters)
    ≡ meets_null none event_inc none (get_stats nodes sources none (codes "peak") counters)
process_event-failed_example =
    process_event-failed nodes sources none (codes "peak") none event_inc counters

meets : meets_null none event_inc none (get_stats nodes sources none (codes "peak") counters) ≡ true
unfolding meets_null get_stats node_value find_in bytes_eq is_remove
meets = refl

subtracted : (stats_event_sub none (some (codes "listeners")) 7).value ≡ some (codes "7")
unfolding stats_event_sub print_16 print_int decimal as_long
subtracted = refl

abbrev mounts : List (Bytes × ℕ)
mounts = (codes "/a", 0) ∷ (codes "/hidden", 1) ∷ (codes "/b", 0) ∷ []

get_streams-lines_example :
    (c : Blocks) × (stats_get_streams mounts ≡ some c)
    × AreBlocks c
    × (concat (blocks_of c) ≡ stream_lines mounts)
get_streams-lines_example = get_streams-lines mounts (omega arith, (omega arith, (omega arith, tt)))

mounts_listed : stream_lines mounts ≡ codes "/a\r\n/b\r\n"
unfolding stream_lines
mounts_listed = refl

abbrev told : Event
told = record {
  source = none;
  name = some (codes "listeners");
  value = some (codes "42");
  action = event_set;
}

abbrev listeners : List Listener
listeners = record { id = 7; queue = [] } ∷ []

-- Another client comes and goes while client 7 is told twice and takes one event.
abbrev acts : List Act
acts = processes told ∷ registers 9 [] ∷ takes 7 ∷ unregisters 9 ∷ processes joined ∷ []

run-taken_example :
    (p : List Event) × (queue_of 7 (run acts listeners) ≡ some p)
    × (taken 7 acts listeners ++ p ≡ [] ++ sent acts)
unfolding queue_of
run-taken_example =
    run-taken 7 acts listeners []
      (tt, ((λ e. omega (arith, e)), (tt, ((λ e. omega (arith, e)), (tt, tt))))) refl

one_taken : taken 7 acts listeners ≡ told ∷ []
unfolding taken taken_in take_event act register_listener deliver get_event_from_queue
    add_event_to_queue copy_event
one_taken = refl
