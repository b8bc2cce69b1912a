-- ===== src/Lib.antt =====
-- The core of the Icecast streaming server in Checked C: what it does with a request, how a stream gets
-- from its source to the listeners, what it counts, and how it keeps listeners, relays and mounts in order.
--
-- A client's bytes are cut into lines and read as a request (src/httpp/httpp.c). The URI of the request
-- becomes a path below the web root or the name of a mount (src/util.c). A mount leads to a source, its
-- own or a fallback's, as the configuration says (src/cfgfile.c, src/source.c); the listener joins that
-- source or one behind it (src/auth.c) and moves on when the source ends (src/source.c). Relays that feed
-- sources follow the configuration and connect to other servers (src/slave.c). Addresses and the number
-- of sources are limited (src/connection.c). What happens is counted by a thread (src/stats.c). A
-- source shows its password (src/connection.c). It puts what it reads, without the metadata in it
-- (src/format_mp3.c), on a queue of counted buffers (src/refbuf.c, src/source.c), and each listener has a
-- place in it (src/format.c) and gets the buffers with the metadata put in again (src/format_mp3.c). A
-- mount may ask for a user of a file (src/auth_htpasswd.c). A file is sent in turns (src/fserve.c). The
-- answer's header is put together from the configuration's header lists (src/util.c).
--
-- Files:
--   Base and its children: Booleans, lists, C strings as lists of bytes, integers, the numbers in texts.
--   Util.Url: util_url_escape, util_url_unescape, util_bin_to_hex. Util.Path: util_get_extension,
--     util_check_valid_extension, verify_path, util_normalise_uri, util_get_path_from_uri. Util.Base64:
--     util_base64_encode, util_base64_decode. Util.Dict: util_dict_new, util_dict_get, util_dict_set,
--     util_dict_urlencode. Util.Headers: _build_headers and util_http_build_header. These
--     stand in src/util.c.
--   Httpp.Tree: the avl library as an interface. Httpp.Vars: http_parser_t, httpp_initialize,
--     httpp_getvar, httpp_setvar, httpp_deletevar. Httpp.Query: parse_query and url_escape. Httpp.Lines:
--     split_headers and parse_headers. Httpp.Request: httpp_parse and httpp_parse_response. These
--     stand in src/httpp/httpp.c.
--   Config: config_copy_http_header, merge_mounts, _merge_mounts_all and config_find_mount of src/cfgfile.c.
--     Defaults says what a mount takes from a default mount, Found which one is found, Merge about the walk.
--   Htpasswd.Entries: get_line of src/util.c, and the entries of a file of users. Htpasswd:
--     htpasswd_recheckfile, htpasswd_auth, htpasswd_adduser and htpasswd_deleteuser of
--     src/auth_htpasswd.c. Htpasswd.Tree: the avl library as its interface.
--   Source.Lifecycle: source_reserve, source_client_callback, source_shutdown and source_client_thread of src/source.c,
--     connection_complete_source of src/connection.c, with what source_startup, source_fallback_file and
--     start_relay_stream make of its answer; Places, Counting and Runs are about the count, Leftover about a fallback file.
--   Util.ReadHeader: util_read_header of src/util.c; Shortest is about what it finds.
--   Relay: relay_copy, relay_has_changed, update_relay_set and update_relays of src/slave.c.
--   Relay.Connect: open_relay_connection of src/slave.c, client_create of src/client.c; Request writes a request
--     as lines, Asks is about the server that reads it, Accepted and Answered are about the answers.
--   Source.Mounts: source_find_mount_raw and source_find_mount of src/source.c. Source.Listeners:
--     source_move_clients of src/source.c, client_set_queue of src/client.c, check_duplicate_logins and
--     add_listener_to_source of src/auth.c. Source.Listeners.Pending: the pending clients in source_main.
--     Entering is about room, logins and the pending tree, Joining about the fallbacks of full sources.
--   Source.Queue: refbuf_addref and refbuf_release of src/refbuf.c, format_advance_queue and
--     find_client_start of src/format.c, and the queue in source_main and send_to_listener of src/source.c:
--     Chain and Counts are about buffers, Burst about a buffer that comes in, Trim about buffers that go,
--     Recount and Clients about listeners, Steps about all of these in any order.
--   Auth: queue_auth_client, auth_release, auth_run_thread with what it calls, auth_add_listener,
--     auth_release_listener and the events of a stream of src/auth.c. Counted is about the reference count,
--     Steps says what can happen, Sound is about one step, Freed about all.
--     Auth.Admission: add_authenticated_listener of src/auth.c.
--   Mp3.Filter: filter_shoutcast_metadata and mp3_get_filter_meta of src/format_mp3.c; Runs reads the
--     stream byte by byte, Bytewise compares the two, Chunks cuts it into buffers, Encoded puts metadata into it.
--   Mp3.Listener: format_mp3_write_buf_to_client and send_stream_metadata of src/format_mp3.c, with
--     client_send_bytes of src/client.c: Framed says what a listener gets, Writes is about one buffer, Steps
--     about buffers in any order, Relayed reads it with Mp3.Filter, Mixed is about a block in two parts.
--   Mp3.Title: mp3_set_tag and mp3_set_title of src/format_mp3.c. Blocks is about the block of metadata.
--   Stats.Tree: the avl library as an interface. Stats: build_event and the functions that make events,
--     modify_node_event, process_global_event, process_source_event and _get_stats of src/stats.c; Stats.Words: its
--     int and int64_t. Values and
--     Sources are about one tree and about the sources, Processing about an event, Failing about NULL.
--     Stats.Streams: stats_get_streams of src/stats.c. Stats.Listening: the queues of the statistics clients.
--   Connection: connection_check_admin_pass, connection_check_relay_pass and connection_check_pass of
--     src/connection.c, with the tests that they call; Passwords is about who is let in. Connection.Requests:
--     process_request_queue and the queues around it; Arrives is about a request in pieces.
--     Connection.Addresses: recheck_ip_file, avl_box_get_by_key and accept_ip_address; Listed is about the answer.
--     Connection.Dispatch: _handle_connection, _handle_shoutcast_compatible and the handlers of the kinds of
--     request, with client_check_source_auth of src/client.c; Sources and Listeners are about those two.
--   Fserve: fserve_client_create, fserve_content_type and the turn of a client in fserv_thread_function of
--     src/fserve.c, format_generic_write_to_client of src/format.c. Serving is about all turns of a client.
--     Fserve.MimeTypes: fserve_recheck_mime_types; Lines is about a line, Lookup about the type of a path.
--   Tests: runs on small inputs, and the theorems at concrete arguments.
--   The child modules that are not named here hold the proofs about their parent.
--
-- State and errors: a C string is the list of its bytes before the NUL; a NULL pointer is `none`; a struct
-- is a record, and a function that changes one returns the changed record; a return of NULL, 0 or -1 is
-- `none` or `false`. Text is cut in place in the source and read anew here, up to the byte that the source
-- overwrites with NUL. The source's type of a mount is the field mime_type here.
--
-- Bounds: source_find_mount looks at 10 mounts at most (MAX_FALLBACK_DEPTH) and add_listener_to_source
-- follows 10 fallbacks at most, so these counts are the source's own limits; split_headers counts 32 lines
-- at most (MAX_HEADERS). The loop of mp3_get_filter_meta has one more round than there are bytes, which is
-- enough since a round takes one at least. Every other loop runs down a list. size_t has 64 bits, unsigned
-- int 32, and the sizes and counts of the queue wrap around as in the source.
--
-- Parameters: the avl library, fnmatch of libc, md5, the conversion of charsets, the authenticator of a
-- mount's sources, the search for a fallback's source, and whether a format's plugin can be set up. What the network takes or gives is an argument
-- of each send or read, and so is what the file system says of a path and
-- what fgets leaves in its buffer. An allocation succeeds, and the time is an argument. Locks and log lines
-- are left out, and the calls that send an event to the statistics: each function here runs with the locks
-- that its source takes. The file of users stands in a record with what the system lets the server do with it.
--
-- Not modelled: sockets, threads, TLS, libxml2, libcurl and the codec libraries, with the code that only
-- calls them; src/md5.c and the avl, thread, net, log and timing directories, which are copies of other
-- projects' libraries; the lists of the file server's clients, the other stream formats and
-- the administration commands.
pub mod Base
pub mod Util
pub mod Httpp
pub mod Config
pub mod Relay
pub mod Source
pub mod Htpasswd
pub mod Auth
pub mod Fserve
pub mod Mp3
pub mod Stats
pub mod Connection
pub mod Tests
