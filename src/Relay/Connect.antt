-- ===== src/Relay/Connect.antt =====
-- src/slave.c: open_relay_connection. What the network answers in each round is an argument; the log holds what was
-- sent, and to whom. A NULL that is handed to a function of strings ends the run with `faults`.
pub mod Request
pub mod Asks
pub mod Accepted
pub mod Answered
use checkedc_icecast.Base.{
  ℕ, zero, suc, ◌+◌, Bool, true, false, not, List, [], ◌∷◌, ◌++◌, Option, none, some, ◌==◌, ltb,
  if◌then◌else◌, Bytes, bytes_eq, c_string, codes, has_prefix, str_chr, length, take, drop,
}
use checkedc_icecast.Base.Number.{ℤ, pos, atoi, print_int}
use checkedc_icecast.Httpp.Tree.{VarTree}
use checkedc_icecast.Httpp.Vars.{
  HttpParser, httpp_initialize, httpp_getvar, var_error_code, var_error_message,
}
use checkedc_icecast.Httpp.Request.{httpp_parse_response}
use checkedc_icecast.Util.Base64.{util_base64_encode}
use checkedc_icecast.Util.ReadHeader.{Recv, util_read_header}
use checkedc_icecast.Relay.{Relay}

-- What a round meets: no connection, or one, with what its socket gives and what stands in the variable of the first
-- character.
pub data Reply : Type 0 where
  no_connection : Reply
  connected : ℕ → List Recv → Reply

-- Where a round connects to, and the mount that it asks for.
pub record Target : Type 0 where
  pub server : Bytes
  pub port : ℤ
  pub mount : Bytes

pub data Opening (P : Type 0) : Type 0 where
  opened : P → Opening P
  gives_up : Opening P
  faults : Opening P

-- The limit of clients, and how many there are: whether client_create returns 0.
unfoldable pub client_create : ℕ → ℕ → Bool
client_create client_limit clients = not (ltb client_limit (clients + 1))

unfoldable pub auth_header : Option Bytes → Option Bytes → Bytes
auth_header none password = []
auth_header (some username) none = []
auth_header (some username) (some password) =
    codes "Authorization: Basic "
    ++ (util_base64_encode (username ++ b':' ∷ password) ++ codes "\r\n")

unfoldable pub icy_header : ℕ → Bytes
icy_header mp3metadata = if mp3metadata == 0 then [] else codes "Icy-MetaData: 1\r\n"

-- The text that sock_write sends.
unfoldable pub relay_request : Relay → Bytes → Target → Bytes
relay_request relay server_id target =
    codes "GET "
    ++ (target.mount
        ++ (codes " HTTP/1.0\r\nUser-Agent: "
            ++ (server_id
                ++ (codes "\r\nHost: "
                    ++ (target.server
                        ++ (codes "\r\n"
                            ++ (icy_header relay.mp3metadata
                                ++ (auth_header relay.username relay.password
                                    ++ codes "\r\n"))))))))

-- `strcspn (uri, ":/")`
unfoldable pub host_length : Bytes → ℕ
host_length [] = 0
host_length (c ∷ uri) =
    let rest = suc (host_length uri) in if c == b':' then 0 else if c == b'/' then 0 else rest

unfoldable pub mount_of : Option Bytes → Bytes
mount_of none = codes "/"
mount_of (some mountpoint) = mountpoint

-- What stands behind the host: a port, or port 80.
unfoldable pub port_of : Bytes → ℤ
port_of [] = pos 80
port_of (c ∷ rest) = if c == b':' then atoi rest else pos 80

-- The text behind `http://`.
unfoldable pub redirect : Bytes → Target
redirect uri = record {
  server = take (host_length uri) uri;
  port = port_of (drop (host_length uri) uri);
  mount = mount_of (str_chr uri b'/');
}

-- Where a header leads that was parsed: to the stream, to another target, or to neither.
pub data Next (P : Type 0) : Type 0 where
  streams : P → Next P
  redirects : Target → Next P
  stops : Next P
  fails : Next P

unfoldable pub location_next : {P : Type 0} → Option Bytes → Next P
location_next none = fails
location_next (some uri) =
    if has_prefix uri (codes "http://") then redirects (redirect (drop 7 uri)) else stops

module _ (T : VarTree) where
  open T use {Tree}

  unfoldable pub message_next : HttpParser Tree → Option Bytes → Next (HttpParser Tree)
  message_next parser none = streams parser
  message_next parser (some message) = stops

  unfoldable pub code_next : HttpParser Tree → Option Bytes → Next (HttpParser Tree)
  code_next parser none = fails
  code_next parser (some code) =
      if bytes_eq code (codes "302")
      then location_next (httpp_getvar T parser (codes "location"))
      else message_next parser (httpp_getvar T parser var_error_message)

  unfoldable pub parsed_next : HttpParser Tree × Bool → Next (HttpParser Tree)
  parsed_next (parser, false) = stops
  parsed_next (parser, true) = code_next parser (httpp_getvar T parser var_error_code)

  unfoldable pub header_next : Relay → Bytes → Next (HttpParser Tree)
  header_next relay text =
      parsed_next (httpp_parse_response T (httpp_initialize T []) text relay.localmount)

  -- The header up to its first NUL, where there is one within the time.
  unfoldable pub answer_next : Relay → Option Bytes → Next (HttpParser Tree)
  answer_next relay none = stops
  answer_next relay (some text) = header_next relay (c_string text)

  module _ (relay : Relay) (server_id : Bytes) (client_limit clients : ℕ) where
    abbrev pub Run : Type 0
    Run = Opening (HttpParser Tree) × List (Target × Bytes)

    unfoldable pub logged : Target → Run → Run
    logged target (result, log) = (result, (target, relay_request relay server_id target) ∷ log)

    -- What is done with a header; `again` is the next round.
    unfoldable pub continued : Next (HttpParser Tree) → (Target → Run) → Run
    continued (streams parser) again =
        (if client_create client_limit clients then opened parser else gives_up, [])
    continued (redirects target) again = again target
    continued stops again = (gives_up, [])
    continued fails again = (faults, [])

    -- The loop, with the rounds that are left.
    unfoldable pub connect_from : ℕ → Target → List Reply → Run
    connect_from zero target net = (gives_up, [])
    connect_from (suc rounds) target [] = (gives_up, [])
    connect_from (suc rounds) target (no_connection ∷ net) = (gives_up, [])
    connect_from (suc rounds) target (connected c events ∷ net) = logged target (
        continued (answer_next relay (util_read_header true 4096 c events))
          (λ next. connect_from rounds next net))

    unfoldable pub relay_target : Target
    relay_target = record { server = relay.server; port = pos relay.port; mount = relay.mount }

    unfoldable pub open_relay_connection : List Reply → Run
    open_relay_connection net = connect_from 10 relay_target net
