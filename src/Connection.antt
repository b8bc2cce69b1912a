-- ===== src/Connection.antt =====
-- src/connection.c: the tests of a request's password. Log lines and the lock of the configuration are left out.
pub mod Passwords
pub mod Requests
pub mod Addresses
pub mod Dispatch
use checkedc_icecast.Base.{
  ℕ, ◌-◌, Bool, true, false, not, ◌&&◌, List, [], ◌∷◌, Option, none, some, if◌then◌else◌, Bytes,
  codes, bytes_eq, c_string, str_chr, has_prefix, length, take, drop,
}
use checkedc_icecast.Base.Number.{ℤ, pos, negsuc}
use checkedc_icecast.Httpp.Tree.{VarTree}
use checkedc_icecast.Httpp.Vars.{HttpParser, var_protocol, httpp_getvar}
use checkedc_icecast.Util.Base64.{util_base64_decode}

abbrev pub var_icypassword : Bytes
var_icypassword = codes "__icy_password"

-- The fields of ice_config_t that the tests read.
pub record IceConfig : Type 0 where
  pub admin_username : Option Bytes
  pub admin_password : Option Bytes
  pub relay_username : Option Bytes
  pub relay_password : Option Bytes
  pub ice_login : Bool

-- The text before the colon at `tmp` is the name, and the text behind it the password.
unfoldable pub check_userpass : Bytes → Option Bytes → Bytes → Bytes → Bool
check_userpass userpass none user pass = false
check_userpass userpass (some tmp) user pass =
    bytes_eq (take (length userpass - length tmp) userpass) user && bytes_eq (drop 1 tmp) pass

unfoldable pub check_decoded : Option Bytes → Bytes → Bytes → Bool
check_decoded none user pass = false
check_decoded (some userpass) user pass =
    check_userpass (c_string userpass) (str_chr (c_string userpass) b':') user pass

unfoldable pub check_header : Option Bytes → Bytes → Bytes → Bool
check_header none user pass = false
check_header (some header) user pass =
    if has_prefix header (codes "Basic ")
    then check_decoded (util_base64_decode (drop 6 header)) user pass
    else false

unfoldable pub check_icy : Option Bytes → Bytes → Bool
check_icy none pass = false
check_icy (some password) pass = bytes_eq password pass

unfoldable pub check_ice : Option Bytes → Bytes → Bool
check_ice none pass = bytes_eq [] pass
check_ice (some password) pass = bytes_eq password pass

unfoldable pub is_icy : Option Bytes → Bool
is_icy none = false
is_icy (some protocol) = bytes_eq protocol (codes "ICY")

unfoldable pub as_int : Bool → ℤ
as_int true = pos 1
as_int false = pos 0

module _ (T : VarTree) where
  unfoldable pub check_pass_http : HttpParser T.Tree → Bytes → Bytes → Bool
  check_pass_http parser user pass =
      check_header (httpp_getvar T parser (codes "authorization")) user pass

  unfoldable pub check_pass_icy : HttpParser T.Tree → Bytes → Bool
  check_pass_icy parser pass = check_icy (httpp_getvar T parser var_icypassword) pass

  unfoldable pub check_pass_ice : HttpParser T.Tree → Bytes → Bool
  check_pass_ice parser pass = check_ice (httpp_getvar T parser (codes "ice-password")) pass

  unfoldable pub check_admin : HttpParser T.Tree → Option Bytes → Option Bytes → Bool
  check_admin parser none user = false
  check_admin parser (some pass) none = false
  check_admin parser (some pass) (some user) =
      if is_icy (httpp_getvar T parser var_protocol)
      then check_pass_icy parser pass
      else check_pass_http parser user pass

  unfoldable pub connection_check_admin_pass : IceConfig → HttpParser T.Tree → Bool
  connection_check_admin_pass config parser =
      check_admin parser config.admin_password config.admin_username

  unfoldable pub check_relay : HttpParser T.Tree → Option Bytes → Option Bytes → Bool
  check_relay parser none user = false
  check_relay parser (some pass) none = false
  check_relay parser (some pass) (some user) = check_pass_http parser user pass

  unfoldable pub connection_check_relay_pass : IceConfig → HttpParser T.Tree → Bool
  connection_check_relay_pass config parser =
      check_relay parser config.relay_password config.relay_username

  unfoldable pub check_source : Bool → HttpParser T.Tree → Bytes → Bytes → Bool
  check_source ice_login parser user pass =
      if is_icy (httpp_getvar T parser var_protocol)
      then check_pass_icy parser pass
      else if check_pass_http parser user pass
      then true
      else ice_login && check_pass_ice parser pass

  unfoldable pub connection_check_pass : IceConfig → HttpParser T.Tree → Bytes → Option Bytes → ℤ
  connection_check_pass config parser user none = negsuc 0
  connection_check_pass config parser user (some pass) =
      as_int (check_source config.ice_login parser user pass)
