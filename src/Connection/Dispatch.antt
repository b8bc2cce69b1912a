-- ===== src/Connection/Dispatch.antt =====
-- src/connection.c and src/client.c: _handle_connection parses a request and hands the client on. What becomes of the
-- client is a value: the call that takes it over, with its arguments. The listen socket of the client and which mounts
-- ask a script about their sources are arguments.
pub mod Sources
pub mod Listeners
use checkedc_icecast.Base.{
  ℕ, ◌+◌, ◌-◌, Bool, true, false, ◌&&◌, ◌||◌, List, [], ◌∷◌, ◌++◌, Option, none, some, ◌==◌,
  if◌then◌else◌, Bytes, bytes_eq, codes, c_string, has_prefix, length, take, drop,
}
use checkedc_icecast.Base.Number.{ℤ, pos, negsuc, eqb_ℤ}
use checkedc_icecast.Config.{MountProxy, normal, config_find_mount}
use checkedc_icecast.Connection.{IceConfig, connection_check_admin_pass, connection_check_pass}
use checkedc_icecast.Connection.Requests.{ClientQueue, or_else, end_of}
use checkedc_icecast.Httpp.Tree.{VarTree}
use checkedc_icecast.Httpp.Vars.{
  HttpParser, RequestType, req_get, req_put, req_source, req_stats, var_protocol, var_uri,
  httpp_getvar, httpp_initialize,
}
use checkedc_icecast.Httpp.Query.{httpp_set_query_param}
use checkedc_icecast.Httpp.Request.{httpp_parse}
use checkedc_icecast.Mp3.Filter.{str_str}
use checkedc_icecast.Util.Path.{util_normalise_uri}

pub record Alias : Type 0 where
  pub source : Bytes
  pub destination : Bytes
  pub port : ℤ
  pub bind_address : Option Bytes

-- The fields of listener_t that are read, 0 and NULL without a listen socket.
pub record ListenSock : Type 0 where
  pub serverport : ℤ
  pub serverhost : Option Bytes

-- The fields of ice_config_t that are read.
pub record ServerConfig : Type 0 where
  pub access : IceConfig
  pub source_password : Option Bytes
  pub mounts : List MountProxy
  pub aliases : List Alias
  pub shoutcast_mount : Bytes

pub data SourceAuth : Type 0 where
  authenticated : SourceAuth
  pending : SourceAuth
  failed : SourceAuth

-- `body` is what was read behind the headers.
pub data Handled (Tree : Type 0) : Type 0 where
  destroyed : Handled Tree
  reads_null : Handled Tree
  sends : ℕ → Handled Tree
  starts_source : HttpParser Tree → Bytes → Bytes → Handled Tree
  waits_for_auth : HttpParser Tree → Bytes → Handled Tree
  sends_stats : HttpParser Tree → Handled Tree
  handles_admin : HttpParser Tree → Bytes → Handled Tree
  adds_listener : HttpParser Tree → Bytes → Handled Tree
  requeues : ClientQueue → Handled Tree

unfoldable pub or_text : Option Bytes → Bytes → Bytes
or_text none t = t
or_text (some s) t = s

unfoldable pub or_some : Option Bytes → Option Bytes → Option Bytes
or_some none t = t
or_some (some s) t = some s

unfoldable pub same_host : Option Bytes → Option Bytes → Bool
same_host none host = true
same_host (some address) none = false
same_host (some address) (some host) = bytes_eq address host

unfoldable pub alias_fits : ListenSock → Bytes → Alias → Bool
alias_fits sock uri alias =
    bytes_eq uri alias.source
    && (eqb_ℤ alias.port (negsuc 0) || eqb_ℤ alias.port sock.serverport)
    && same_host alias.bind_address sock.serverhost

-- The first alias that fits.
unfoldable pub resolve_alias : ListenSock → Bytes → List Alias → Bytes
resolve_alias sock uri [] = uri
resolve_alias sock uri (alias ∷ aliases) =
    if alias_fits sock uri alias then alias.destination else resolve_alias sock uri aliases

unfoldable pub is_admin : Bytes → Bool
is_admin uri = bytes_eq uri (codes "/admin.cgi") || has_prefix uri (codes "/admin/")

unfoldable pub is_protocol : Bytes → Bool
is_protocol protocol = bytes_eq (codes "ICE") protocol || bytes_eq (codes "HTTP") protocol

unfoldable pub body_of : ClientQueue → Bytes
body_of node =
    if node.stream_offset == length node.buffer then [] else drop node.stream_offset node.buffer

-- The user and the password that a source has to show.
unfoldable pub source_user : Option MountProxy → Bytes
source_user none = codes "source"
source_user (some mount) = or_text mount.username (codes "source")

unfoldable pub source_pass : Option MountProxy → Option Bytes → Option Bytes
source_pass none password = password
source_pass (some mount) password = or_some mount.password password

-- The end of a password line, and its length, by the first of three line ends that the text has.
unfoldable pub line_end : Bytes → Option (ℕ × ℕ)
line_end text = elim (str_str text (codes "\r\r\n")) as (λ _. Option (ℕ × ℕ)) [
  | some rest ↦ some (length text - length rest, 3)
  | none ↦ elim (str_str text (codes "\r\n")) as (λ _. Option (ℕ × ℕ)) [
    | some rest ↦ some (length text - length rest, 2)
    | none ↦ elim (str_str text (codes "\n")) as (λ _. Option (ℕ × ℕ)) [
      | some rest ↦ some (length text - length rest, 1)
      | none ↦ none
    ]
  ]
]

unfoldable pub is_password : Bytes → Option Bytes → Bool
is_password line none = false
is_password line (some password) = bytes_eq line password

module _ (T : VarTree) (fnmatch : Bytes → Bytes → Bool) (stream_auth : MountProxy → Bool) where
  open T use {Tree}

  unfoldable pub is_let_in : IceConfig → HttpParser Tree → Bytes → Option Bytes → SourceAuth
  is_let_in access parser user pass =
      if eqb_ℤ (connection_check_pass T access parser user pass) (pos 1)
      then authenticated
      else failed

  unfoldable pub source_auth : ServerConfig → HttpParser Tree → Option MountProxy → SourceAuth
  source_auth config parser none =
      is_let_in config.access parser (source_user none) (source_pass none config.source_password)
  source_auth config parser (some mount) =
      if stream_auth mount
      then pending
      else is_let_in config.access parser (source_user (some mount))
          (source_pass (some mount) config.source_password)

  unfoldable pub client_check_source_auth : ServerConfig → HttpParser Tree → Bytes → SourceAuth
  client_check_source_auth config parser mount =
      source_auth config parser (config_find_mount fnmatch config.mounts (some mount) normal)

  unfoldable pub startup_by : SourceAuth → HttpParser Tree → Bytes → Bytes → Handled Tree
  startup_by authenticated parser uri body = starts_source parser uri body
  startup_by pending parser uri body = waits_for_auth parser uri
  startup_by failed parser uri body = sends 401

  unfoldable pub handle_source_request :
      ServerConfig → HttpParser Tree → Bytes → Bytes → Handled Tree
  handle_source_request config parser uri body =
      if has_prefix uri (codes "/")
      then startup_by (client_check_source_auth config parser uri) parser uri body
      else sends 401

  unfoldable pub handle_stats_request : ServerConfig → HttpParser Tree → Handled Tree
  handle_stats_request config parser =
      if connection_check_admin_pass T config.access parser then sends_stats parser else sends 401

  unfoldable pub get_of : HttpParser Tree → Bytes → Handled Tree
  get_of parser uri = if is_admin uri then handles_admin parser uri else adds_listener parser uri

  unfoldable pub handle_get_request :
      ServerConfig → ListenSock → HttpParser Tree → Bytes → Handled Tree
  handle_get_request config sock parser uri = get_of parser (resolve_alias sock uri config.aliases)

  unfoldable pub by_type :
      RequestType → ServerConfig → ListenSock → HttpParser Tree → Bytes → Bytes → Handled Tree
  by_type req_source config sock parser uri body = handle_source_request config parser uri body
  by_type req_put config sock parser uri body = handle_source_request config parser uri body
  by_type req_stats config sock parser uri body = handle_stats_request config parser
  by_type req_get config sock parser uri body = handle_get_request config sock parser uri
  by_type other config sock parser uri body = sends 400

  unfoldable pub with_normalised :
      ServerConfig → ListenSock → HttpParser Tree → Bytes → Option Bytes → Handled Tree
  with_normalised config sock parser body none = destroyed
  with_normalised config sock parser body (some uri) =
      by_type parser.req_type config sock parser uri body

  unfoldable pub with_protocol :
      ServerConfig → ListenSock → HttpParser Tree → Bytes → Bytes → Option Bytes → Handled Tree
  with_protocol config sock parser raw body none = reads_null
  with_protocol config sock parser raw body (some protocol) =
      if is_protocol protocol
      then with_normalised config sock parser body (util_normalise_uri raw)
      else destroyed

  -- A client at the port of a Shoutcast mount speaks of that mount.
  unfoldable pub set_mount : HttpParser Tree → Bytes → Option Bytes → HttpParser Tree
  set_mount parser raw none = parser
  set_mount parser raw (some mount) =
      if bytes_eq raw (codes "/admin.cgi")
      then httpp_set_query_param T parser (codes "mount") mount
      else parser

  unfoldable pub with_uri :
      ServerConfig → ListenSock → ClientQueue → HttpParser Tree → Option Bytes → Handled Tree
  with_uri config sock node parser none = reads_null
  with_uri config sock node parser (some raw) =
      let named = set_mount parser raw node.shoutcast_mount in
      with_protocol config sock named raw (body_of node) (httpp_getvar T named var_protocol)

  unfoldable pub after_parse :
      ServerConfig → ListenSock → ClientQueue → HttpParser Tree × Bool → Handled Tree
  after_parse config sock node (parser, false) = destroyed
  after_parse config sock node (parser, true) =
      with_uri config sock node parser (httpp_getvar T parser var_uri)

  unfoldable pub handle_http : ServerConfig → ListenSock → ClientQueue → Handled Tree
  handle_http config sock node =
      after_parse config sock node (httpp_parse T (httpp_initialize T []) node.buffer)

  unfoldable pub handle_password_line :
      ServerConfig → ClientQueue → Bytes → Option (ℕ × ℕ) → Handled Tree
  handle_password_line config node mount none = destroyed
  handle_password_line config node mount (some (n, k)) =
      let mountinfo = config_find_mount fnmatch config.mounts (some mount) normal in
      if is_password (take n (c_string node.buffer)) (source_pass mountinfo config.source_password)
      then requeues (record node { buffer = drop (n + k) node.buffer; shoutcast = 2 })
      else destroyed

  unfoldable pub shoutcast_request : Bytes → Bytes → Bytes
  shoutcast_request mount text = codes "SOURCE " ++ (mount ++ (codes " HTTP/1.0\r\n" ++ text))

  unfoldable pub after_headers : ClientQueue → Bytes → HttpParser Tree × Bool → Handled Tree
  after_headers node mount (parser, false) = destroyed
  after_headers node mount (parser, true) = starts_source parser mount (body_of node)

  unfoldable pub handle_shoutcast_compatible : ServerConfig → ClientQueue → Handled Tree
  handle_shoutcast_compatible config node =
      let mount = or_text node.shoutcast_mount config.shoutcast_mount in
      if node.shoutcast == 1
      then handle_password_line config node mount (line_end (c_string node.buffer))
      else after_headers node mount
          (httpp_parse T (httpp_initialize T []) (shoutcast_request mount (c_string node.buffer)))

  unfoldable pub handle_client : ServerConfig → ListenSock → ClientQueue → Handled Tree
  handle_client config sock node =
      if node.shoutcast == 0
      then handle_http config sock node
      else handle_shoutcast_compatible config node

  -- The clients of the connection queue, in order.
  unfoldable pub handle_connection :
      ServerConfig → (ℕ → ListenSock) → List ClientQueue → List (Handled Tree)
  handle_connection config sock_of [] = []
  handle_connection config sock_of (node ∷ con) =
      handle_client config (sock_of node.client) node ∷ handle_connection config sock_of con
