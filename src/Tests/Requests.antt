-- ===== src/Tests/Requests.antt =====
-- src/connection.c at requests.
use checkedc_icecast.Mp3.Filter.{str_str}
use mathlib.Core.List.{map}
use checkedc_icecast.Base.{
  ◌++◌, refl, true, false, [], ◌∷◌, none, some, Bool, List, Bytes, codes, arith, length, has_prefix,
  c_string,
}
use checkedc_icecast.Base.Number.{pos}
use checkedc_icecast.Config.{MountProxy}
use checkedc_icecast.Connection.Requests.{ClientQueue, behind, end_of}
use checkedc_icecast.Connection.Requests.Arrives.{IsHead, IsPassed, arrives}
use checkedc_icecast.Connection.Dispatch.{ServerConfig, ListenSock}
use checkedc_icecast.Httpp.Tree.{list_tree, Entries}
use checkedc_icecast.Httpp.Vars.{HttpParser, httpp_initialize}
use checkedc_icecast.Httpp.Lines.Cut.{render_lines}
use checkedc_icecast.Httpp.Request.{httpp_parse}
use checkedc_icecast.Httpp.Request.Laws.{request_line, header_line}

abbrev server : ServerConfig
server = record {
  access = record {
    admin_username = none;
    admin_password = none;
    relay_username = none;
    relay_password = none;
    ice_login = true;
  };
  source_password = some (codes "pw");
  mounts = [];
  aliases = [];
  shoutcast_mount = codes "/stream";
}

abbrev sock : ListenSock
sock = record { serverport = pos 8000; serverhost = none }

abbrev waiting : ClientQueue
waiting = record {
  client = 1;
  buffer = [];
  stream_offset = 0;
  shoutcast = 0;
  shoutcast_mount = none;
}

abbrev head : Bytes
head = codes "PUT /a HTTP/1.0\r\nice-password: pw\r\n\r\n"

head-IsHead : IsHead head (codes "xyz")
unfolding behind end_of str_str has_prefix c_string
head-IsHead = record { text = omega arith; crlf = refl; lf = refl; nsvcap = refl }

arrives_example :
    IsPassed head
      (codes "xyz")
      waiting
      (codes "PUT /a HTTP/1.0\r\nice-pass" ∷ codes "word: pw\r\n\r" ∷ codes "\nxy" ∷ codes "z" ∷ [])
arrives_example =
    arrives head (codes "xyz") waiting
      (codes "PUT /a HTTP/1.0\r\nice-pass" ∷ codes "word: pw\r\n\r" ∷ codes "\nxy" ∷ codes "z" ∷ [])
      head-IsHead refl (omega arith) refl (omega arith) (omega arith)

abbrev source_client : ClientQueue
source_client = record waiting { buffer = head ++ codes "xyz"; stream_offset = length head }

abbrev source_parser : HttpParser Entries
source_parser = (httpp_parse list_tree (httpp_initialize list_tree []) source_client.buffer).0

abbrev never : MountProxy → Bool
never m = false

abbrev same_text : Bytes → Bytes → Bool
same_text pattern text = false

abbrev headers : List (Bytes × Bytes)
headers = (codes "Host", codes "here") ∷ (codes "Icy-MetaData", codes "1") ∷ []

abbrev listener_client : ClientQueue
listener_client = record waiting {
  buffer = render_lines (
      request_line (codes "GET") (codes "/a%20b") (codes "HTTP") (codes "1.0")
      ∷ map header_line headers);
}
