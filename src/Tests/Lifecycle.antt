-- ===== src/Tests/Lifecycle.antt =====
-- src/source.c where sources come and go.
use checkedc_icecast.Base.{
  bytes_eq, ◌≡◌, refl, ◌≤◌, none, Bool, true, false, List, [], ◌∷◌, some, codes, All,
}
use checkedc_icecast.Base.Number.{◌+ℤ◌, ◌-ℤ◌, pos}
use checkedc_icecast.Httpp.Tree.{find_entry, list_tree, Entries}
use checkedc_icecast.Httpp.Vars.{httpp_getvar, value_of, HttpParser, req_source}
use checkedc_icecast.Source.Lifecycle.{
  step, act_at, has_mount, put_back, act_in, first_place, complete, connection_complete_source,
  with_type, with_plugin, after_shutdown, keep_before, completed_place, format_get_type, is_put,
  not_opened, refuse, relay_cleanup, source_client_callback, source_shutdown, start_relay, reserved,
  FormatType, of_client, of_file, Global, source_reserve, LifeEvent, reserves, acts, completes,
  called_back, run,
}
use checkedc_icecast.Source.Lifecycle.Places.{active_sources, IsRight, IsDistinct}
use checkedc_icecast.Source.Lifecycle.Runs.{run-IsCounted}
use checkedc_icecast.Source.Lifecycle.Leftover.{run-refused}

abbrev parser : HttpParser Entries
parser = record {
  req_type = req_source;
  uri = none;
  vars = (codes "content-type", some (codes "audio/mpeg")) ∷ [];
  queryvars = [];
}

abbrev any_plugin : FormatType → Bool
any_plugin type = true

-- A source that takes the only place, and a fallback file that is refused.
abbrev events : List (LifeEvent list_tree)
events =
    reserves of_client (codes "/a")
    ∷ acts 0 (completes any_plugin parser)
    ∷ reserves of_file (codes "/b")
    ∷ acts 0 (completes any_plugin parser)
    ∷ acts 1 (called_back false)
    ∷ []

abbrev start : Global
start = record { sources = pos 0; source_tree = [] }

run-IsCounted_example :
    ((run list_tree 1 events start).sources
      ≡ pos (active_sources (run list_tree 1 events start).source_tree))
    × (active_sources (run list_tree 1 events start).source_tree ≤ 1)
    × All IsRight (run list_tree 1 events start).source_tree
    × IsDistinct (run list_tree 1 events start).source_tree
run-IsCounted_example = run-IsCounted list_tree 1 events

one_streams : (run list_tree 1 events start).sources ≡ pos 1
unfolding run step act_at source_reserve has_mount put_back act_in first_place complete
    connection_complete_source with_type httpp_getvar value_of find_entry bytes_eq with_plugin ◌+ℤ◌
    ◌-ℤ◌ after_shutdown keep_before completed_place format_get_type is_put not_opened refuse
    relay_cleanup source_client_callback source_shutdown start_relay
one_streams = refl

-- A fallback file whose source is to be completed, at the limit.
abbrev full : Global
full = record {
  sources = pos 1;
  source_tree =
      record { mount = codes "/b"; owner = of_file; place = reserved; running = false } ∷ [];
}

run-refused_example :
    (has_mount
        (codes "/b")
        (run list_tree 1 (acts 0 (completes any_plugin parser) ∷ events) full).source_tree
      ≡ true)
    × (source_reserve of_client
          (codes "/b")
          (run list_tree 1 (acts 0 (completes any_plugin parser) ∷ events) full)
        ≡ run list_tree 1 (acts 0 (completes any_plugin parser) ∷ events) full)
unfolding connection_complete_source
run-refused_example =
    run-refused list_tree 1 0
      (record { mount = codes "/b"; owner = of_file; place = reserved; running = false }) full
      any_plugin parser (codes "too many sources connected") events of_client refl refl refl refl
