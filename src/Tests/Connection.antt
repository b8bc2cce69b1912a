-- ===== src/Tests/Connection.antt =====
-- src/connection.c at a source that logs in.
use checkedc_icecast.Base.{
  c_string, ◌≡◌, refl, false, [], ◌∷◌, ◌++◌, none, some, Bytes, codes, bytes_eq, IsText, arith,
}
use checkedc_icecast.Base.Number.{pos}
use checkedc_icecast.Httpp.Tree.{list_tree, Entries, find_entry}
use checkedc_icecast.Httpp.Vars.{HttpParser, req_source, httpp_getvar, value_of}
use checkedc_icecast.Connection.{
  IceConfig, is_icy, as_int, connection_check_pass, check_source, check_icy, check_pass_icy,
}
use checkedc_icecast.Htpasswd.Entries.{fgets_all, push_char, get_line, strip_end, file_lines}
use checkedc_icecast.Connection.Addresses.{
  is_accepted, recheck_ip_file, recheck, check_file, load_file, answer_if, avl_box_get_by_key,
  find_address, read_addresses, add_line, is_allowed, ListFile, CacheFileContents, list_addresses,
  accept_ip_address,
}
use checkedc_icecast.Connection.Addresses.Listed.{answers, read_in, unnamed, accept_ip-answers}
use checkedc_icecast.Connection.Passwords.{Shows, IsName, check_pass-Shows}

abbrev config : IceConfig
config = record {
  admin_username = none;
  admin_password = none;
  relay_username = none;
  relay_password = none;
  ice_login = false;
}

abbrev request : Bytes → Bytes → HttpParser Entries
request name value = record {
  req_type = req_source;
  uri = none;
  vars = (codes "__protocol", some (codes "ICY")) ∷ (name, some value) ∷ [];
  queryvars = [];
}

-- A request of the web, with an authorization header.
abbrev web_request : Bytes → HttpParser Entries
web_request header = record {
  req_type = req_source;
  uri = none;
  vars = (codes "authorization", some header) ∷ [];
  queryvars = [];
}

bob-IsName : IsName (codes "bob")
bob-IsName = ((λ e. omega (arith, e)), ((λ e. omega (arith, e)), ((λ e. omega (arith, e)), tt)))

login-IsText : IsText (codes "bob" ++ b':' ∷ codes "pw")
login-IsText = omega arith

let_in :
    connection_check_pass list_tree config
      (request (codes "__icy_password") (codes "pw"))
      (codes "source")
      (some (codes "pw"))
    ≡ pos 1
unfolding connection_check_pass check_source check_pass_icy check_icy is_icy as_int httpp_getvar
    find_entry value_of bytes_eq
let_in = refl

check_pass-Shows_example :
    (p : Bytes) × (some (codes "pw") ≡ some p)
    × Shows list_tree config.ice_login
        (request (codes "__icy_password") (codes "pw"))
        (codes "source")
        p
check_pass-Shows_example =
    check_pass-Shows list_tree config (request (codes "__icy_password") (codes "pw"))
      (codes "source") (some (codes "pw")) let_in

-- A list of banned addresses that was written anew, and no list of allowed ones.
abbrev ban_file : ListFile
ban_file = record { st_mtime = some 7; text = some (codes "# bad\n1.2.3.4\n") }

abbrev no_file : ListFile
no_file = record { st_mtime = none; text = none }

abbrev banned_ip : CacheFileContents list_addresses
banned_ip = record {
  filename = some (codes "ban");
  file_recheck = 0;
  file_mtime = 0;
  contents = none;
}

abbrev allowed_ip : CacheFileContents list_addresses
allowed_ip = record { filename = none; file_recheck = 0; file_mtime = 0; contents = none }

accept_ip-answers_example :
    (accept_ip_address list_addresses 5 ban_file no_file banned_ip allowed_ip (codes "5.6.7.8")).0
    ≡ answers (some (file_lines (codes "# bad\n1.2.3.4\n"))) none (codes "5.6.7.8")
accept_ip-answers_example =
    accept_ip-answers list_addresses 5 ban_file no_file banned_ip allowed_ip
      (some (file_lines (codes "# bad\n1.2.3.4\n"))) none (codes "5.6.7.8")
      (read_in (codes "ban") 7 (codes "# bad\n1.2.3.4\n") refl refl refl refl refl)
      (unnamed refl refl)

crashes :
    (accept_ip_address list_addresses 5 ban_file no_file banned_ip allowed_ip (codes "5.6.7.8")).0
    ≡ none
unfolding accept_ip_address is_accepted recheck_ip_file recheck check_file load_file answer_if
    avl_box_get_by_key find_address read_addresses file_lines fgets_all push_char add_line get_line
    strip_end c_string bytes_eq is_allowed
crashes = refl

is_refused :
    (accept_ip_address list_addresses 5 ban_file no_file banned_ip allowed_ip (codes "1.2.3.4")).0
    ≡ some false
unfolding accept_ip_address is_accepted recheck_ip_file recheck check_file load_file answer_if
    avl_box_get_by_key find_address read_addresses file_lines fgets_all push_char add_line get_line
    strip_end c_string bytes_eq is_allowed
is_refused = refl
