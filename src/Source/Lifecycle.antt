-- ===== src/Source/Lifecycle.antt =====
-- src/connection.c, src/source.c and src/slave.c: how sources come and go, and their count against the limit. The tree of
-- sources is the list of what is in it. A thread is the place that its source is at.
-- What the clients are sent, the 100 of a PUT included, is left out.
pub mod Places
pub mod Counting
pub mod Runs
pub mod Leftover
use checkedc_icecast.Base.{
  ℕ, zero, suc, Bool, true, false, List, [], ◌∷◌, Option, none, some, ◌==◌, if◌then◌else◌, Bytes,
  bytes_eq, codes,
}
use checkedc_icecast.Base.Number.{ℤ, pos, ltb_ℤ, ◌+ℤ◌, ◌-ℤ◌}
use checkedc_icecast.Httpp.Tree.{VarTree}
use checkedc_icecast.Httpp.Vars.{
  HttpParser, RequestType, httpp_getvar, req_none, req_get, req_post, req_put, req_head, req_source,
  req_play, req_stats, req_unknown,
}

pub data FormatType : Type 0 where
  format_type_ogg : FormatType
  format_type_ebml : FormatType
  format_type_generic : FormatType

unfoldable pub format_get_type : Bytes → FormatType
format_get_type contenttype =
    if bytes_eq contenttype (codes "application/x-ogg")
    then format_type_ogg
    else if bytes_eq contenttype (codes "application/ogg")
    then format_type_ogg
    else if bytes_eq contenttype (codes "audio/ogg")
    then format_type_ogg
    else if bytes_eq contenttype (codes "video/ogg")
    then format_type_ogg
    else if bytes_eq contenttype (codes "audio/webm")
    then format_type_ebml
    else if bytes_eq contenttype (codes "video/webm")
    then format_type_ebml
    else if bytes_eq contenttype (codes "audio/x-matroska")
    then format_type_ebml
    else if bytes_eq contenttype (codes "video/x-matroska")
    then format_type_ebml
    else if bytes_eq contenttype (codes "video/x-matroska-3d")
    then format_type_ebml
    else format_type_generic

-- Who reserves a mount: a client that is a source, the thread of a fallback file, or a relay.
pub data Owner : Type 0 where
  of_client : Owner
  of_file : Owner
  of_relay : Owner

-- Where the source's thread is: about to complete the source, before source_client_callback, in source_main, behind
-- source_shutdown; or there is no thread.
pub data Place : Type 0 where
  reserved : Place
  waiting : Place
  streaming : Place
  shut_down : Place
  idle : Place

pub record SourceEntry : Type 0 where
  pub mount : Bytes
  pub owner : Owner
  pub place : Place
  pub running : Bool

-- global.sources, and the tree of sources.
pub record Global : Type 0 where
  pub sources : ℤ
  pub source_tree : List SourceEntry

unfoldable pub has_mount : Bytes → List SourceEntry → Bool
has_mount mount [] = false
has_mount mount (source ∷ tree) =
    let rest = has_mount mount tree in if bytes_eq mount source.mount then true else rest

-- A client or a fallback file goes on with the source; a relay's thread is started later.
unfoldable pub first_place : Owner → Place
first_place of_client = reserved
first_place of_file = reserved
first_place of_relay = idle

unfoldable pub source_reserve : Owner → Bytes → Global → Global
source_reserve owner mount global =
    if has_mount mount global.source_tree then global else record global {
      source_tree =
          record { mount = mount; owner = owner; place = first_place owner; running = false }
          ∷ global.source_tree;
    }

-- What connection_complete_source comes to: 0, or -1 with the message of the 403.
pub data Completion : Type 0 where
  completed : Completion
  refused : Bytes → Completion

unfoldable pub with_plugin : (FormatType → Bool) → FormatType → Completion
with_plugin format_get_plugin type =
    if format_get_plugin type
    then completed
    else refused (codes "internal format allocation problem")

unfoldable pub with_type : (FormatType → Bool) → Option Bytes → Bool → Completion
with_type format_get_plugin (some contenttype) put =
    with_plugin format_get_plugin (format_get_type contenttype)
with_type format_get_plugin none put =
    if put
    then refused (codes "No Content-type given")
    else with_plugin format_get_plugin format_type_generic

unfoldable pub is_put : RequestType → Bool
is_put req_put = true
is_put req_none = false
is_put req_get = false
is_put req_post = false
is_put req_head = false
is_put req_source = false
is_put req_play = false
is_put req_stats = false
is_put req_unknown = false

abbrev pub After : Type 0
After = ℤ × Option SourceEntry

unfoldable pub completed_place : Owner → Place
completed_place of_client = waiting
completed_place of_file = streaming
completed_place of_relay = streaming

-- Of a source that is refused, a client's is freed. A relay keeps its own; source_fallback_file leaves it.
unfoldable pub refuse : Owner → SourceEntry → Option SourceEntry
refuse of_client source = none
refuse of_file source = some (record source { place = idle })
refuse of_relay source = some (record source { place = idle })

unfoldable pub complete : ℤ → SourceEntry → Completion → After
complete sources source completed = (
  sources +ℤ pos 1,
  some (record source { place = completed_place source.owner; running = true }),
)
complete sources source (refused message) = (sources, refuse source.owner source)

unfoldable pub source_client_callback : ℤ → SourceEntry → Bool → After
source_client_callback sources source true = (sources -ℤ pos 1, none)
source_client_callback sources source false = (sources, some (record source { place = streaming }))

unfoldable pub source_shutdown : ℤ → SourceEntry → After
source_shutdown sources source =
    (sources -ℤ pos 1, some (record source { running = false; place = shut_down }))

-- source_client_thread frees the source; that of a relay stays.
unfoldable pub after_shutdown : Owner → SourceEntry → Option SourceEntry
after_shutdown of_client source = none
after_shutdown of_file source = none
after_shutdown of_relay source = some (record source { place = idle })

unfoldable pub start_relay : Owner → SourceEntry → SourceEntry
start_relay of_client source = source
start_relay of_file source = source
start_relay of_relay source = record source { place = reserved }

-- A relay that the configuration does not have any more.
unfoldable pub relay_cleanup : Owner → SourceEntry → Option SourceEntry
relay_cleanup of_client source = some source
relay_cleanup of_file source = some source
relay_cleanup of_relay source = none

unfoldable pub not_opened : Owner → SourceEntry → SourceEntry
not_opened of_client source = source
not_opened of_file source = source
not_opened of_relay source = record source { place = idle }

unfoldable pub put_back : List SourceEntry → After → Global
put_back tree (sources, none) = record { sources = sources; source_tree = tree }
put_back tree (sources, some source) = record { sources = sources; source_tree = source ∷ tree }

unfoldable pub keep_before : SourceEntry → Global → Global
keep_before source global = record global { source_tree = source ∷ global.source_tree }

module _ (T : VarTree) where
  open T use {Tree}

  unfoldable pub connection_complete_source :
      ℕ → ℤ → (FormatType → Bool) → HttpParser Tree → Completion
  connection_complete_source source_limit sources format_get_plugin parser =
      if ltb_ℤ sources (pos source_limit)
      then with_type format_get_plugin (httpp_getvar T parser (codes "content-type"))
          (is_put parser.req_type)
      else refused (codes "too many sources connected")

  -- What happens to a source: check_relay_stream starts its thread, open_relay_connection gives NULL, the source is
  -- completed, source_client_callback is called (with or without an error of the connection), somebody sets running to 0,
  -- source_main ends, and the source is cleaned up.
  pub data Act : Type 0 where
    starts : Act
    not_connected : Act
    completes : (FormatType → Bool) → HttpParser Tree → Act
    called_back : Bool → Act
    killed : Act
    ends : Act
    cleaned_up : Act

  pub data LifeEvent : Type 0 where
    reserves : Owner → Bytes → LifeEvent
    acts : ℕ → Act → LifeEvent

  module _ (source_limit : ℕ) where
    -- What does not fit the place of the thread does not happen.
    unfoldable pub act_in : Place → Act → ℤ → SourceEntry → After
    act_in place killed sources source = (sources, some (record source { running = false }))
    act_in idle starts sources source = (sources, some (start_relay source.owner source))
    act_in idle cleaned_up sources source = (sources, relay_cleanup source.owner source)
    act_in idle other sources source = (sources, some source)
    act_in reserved not_connected sources source = (sources, some (not_opened source.owner source))
    act_in reserved (completes format_get_plugin parser) sources source =
        complete sources source
          (connection_complete_source source_limit sources format_get_plugin parser)
    act_in reserved other sources source = (sources, some source)
    act_in waiting (called_back error) sources source = source_client_callback sources source error
    act_in waiting other sources source = (sources, some source)
    act_in streaming ends sources source = source_shutdown sources source
    act_in streaming other sources source = (sources, some source)
    act_in shut_down cleaned_up sources source = (sources, after_shutdown source.owner source)
    act_in shut_down other sources source = (sources, some source)

    -- The source that the act is about stands behind so many others.
    unfoldable pub act_at : ℕ → Act → ℤ → List SourceEntry → Global
    act_at n act sources [] = record { sources = sources; source_tree = [] }
    act_at zero act sources (source ∷ tree) = put_back tree (act_in source.place act sources source)
    act_at (suc n) act sources (source ∷ tree) = keep_before source (act_at n act sources tree)

    unfoldable pub step : LifeEvent → Global → Global
    step (reserves owner mount) global = source_reserve owner mount global
    step (acts n act) global = act_at n act global.sources global.source_tree

    unfoldable pub run : List LifeEvent → Global → Global
    run [] global = global
    run (event ∷ events) global = run events (step event global)
