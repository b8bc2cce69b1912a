-- ===== src/Tests/Relay.antt =====
-- src/slave.c where a relay connects to another server.
use checkedc_icecast.Httpp.Lines.{
  line_at, split_headers, at_newline, header_name, header_texts, lowercase, parse_header_line,
  parse_header_lines, parse_headers, rest_value, scan_value, skip_spaces, split_from,
}
use checkedc_icecast.Util.Base64.{encode_digit, util_base64_encode}
use checkedc_icecast.Base.{
  c_string, has_prefix, str_chr, to_lower, ◌≡◌, refl, false, List, [], ◌∷◌, none, some, Bytes,
  bytes_eq, codes,
}
use checkedc_icecast.Base.Number.{atoi, digits_value, is_blank, is_digit, signed_value, pos}
use checkedc_icecast.Httpp.Tree.{find_entry, list_tree, Entries}
use checkedc_icecast.Httpp.Vars.{
  value_of, httpp_setvar, put, set_defaults, HttpParser, httpp_initialize, httpp_getvar,
}
use checkedc_icecast.Httpp.Request.{
  httpp_parse_response, accept_response, words_from, response_message, word,
}
use checkedc_icecast.Connection.{IceConfig}
use mathlib.Core.List.{map}
use checkedc_icecast.Util.ReadHeader.{
  byte, util_read_header, read_loop, put_char, ended, in_order, result_of, limit_of,
}
use checkedc_icecast.Relay.{Relay}
use checkedc_icecast.Relay.Connect.{
  connect_from, logged, continued, header_next, parsed_next, code_next, auth_header, client_create,
  host_length, icy_header, location_next, message_next, mount_of, port_of, redirect, relay_target,
  Reply, connected, answer_next, Target, opened, relay_request, open_relay_connection,
}

abbrev relay : Relay
relay = record {
  server = codes "a";
  port = 8000;
  mount = codes "/in";
  username = some (codes "bob");
  password = some (codes "pw");
  localmount = codes "/out";
  source = none;
  mp3metadata = 1;
  on_demand = 0;
  running = 0;
}

-- Where the relay was redirected to.
abbrev target : Target
target = record { server = codes "b"; port = pos 81; mount = codes "/new" }

abbrev config : IceConfig
config = record {
  admin_username = none;
  admin_password = none;
  relay_username = some (codes "bob");
  relay_password = some (codes "pw");
  ice_login = false;
}

-- A server that sends a text, a byte at a time.
abbrev gives : Bytes → Reply
gives text = connected 0 (map byte text)

-- A redirect, and then a stream.
abbrev net : List Reply
net =
    gives (codes "HTTP/1.0 302 Found\r\nLocation: http://b:81/new\r\n\r\n")
    ∷ gives (codes "HTTP/1.0 200 OK\r\nContent-Type: audio/mpeg\r\n\r\n")
    ∷ []

-- The second answer opens the relay.
redirected :
    (read : HttpParser Entries) × ((open_relay_connection list_tree relay
        (codes "Icecast 2")
        5
        3
        net).0
      ≡ opened read)
unfolding answer_next util_read_header read_loop put_char ended in_order result_of limit_of
    open_relay_connection connect_from logged continued header_next parsed_next httpp_parse_response
    accept_response words_from line_at c_string split_headers response_message code_next
    httpp_getvar value_of find_entry atoi digits_value is_blank is_digit signed_value bytes_eq
    has_prefix str_chr to_lower at_newline header_name header_texts lowercase parse_header_line
    parse_header_lines parse_headers rest_value scan_value skip_spaces split_from word
    httpp_initialize httpp_setvar put set_defaults auth_header client_create host_length icy_header
    location_next message_next mount_of port_of redirect relay_request relay_target encode_digit
    util_base64_encode
redirected = (_, refl)
