-- ===== src/Tests/Util.antt =====
-- src/util.c and src/cfgfile.c's header lines at concrete texts.
use checkedc_icecast.Base.{
  some, true, take, length, ◌<◌, ◌≡◌, refl, inr, true, false, [], ◌∷◌, ◌++◌, none, some, arith,
  Bytes, codes, IsText, c_string, bytes_eq, if◌then◌else◌,
}
use checkedc_icecast.Util.ReadHeader.{
  byte, failed, util_read_header, read_loop, limit_of, put_char, ended, in_order, result_of,
}
use checkedc_icecast.Util.ReadHeader.Shortest.{arrived, shortest, read_header-shortest}
use checkedc_icecast.Util.Url.{
  util_url_escape, util_url_unescape, util_bin_to_hex, unescape_char, hex_pair, high_digit,
  low_digit,
}
use checkedc_icecast.Util.Url.RoundTrip.{unescape-escape}
use checkedc_icecast.Util.Path.{
  verify_path, util_normalise_uri, util_get_path_from_uri, verify_from, is_separator,
  util_get_path_from_normalised_uri,
}
use checkedc_icecast.Util.Path.Traversal.{Traverses, verify_path-Traverses, path_from_uri_confined}
use checkedc_icecast.Util.Base64.{
  util_base64_encode, util_base64_decode, encode_digit, decode_group, decode_digit,
}
use checkedc_icecast.Util.Base64.RoundTrip.{base64_decode-encode}
use checkedc_icecast.Util.Dict.{answer, util_dict_new, util_dict_get, util_dict_set}
use checkedc_icecast.Util.Dict.Lookup.{view, get-set}
use checkedc_icecast.Util.Headers.{HttpHeader, Response, Server}

abbrev song : Bytes
song = codes "a b"

song-IsText : IsText song
song-IsText = omega arith

unescape-escape_example : util_url_unescape (util_url_escape song) ≡ some song
unescape-escape_example = unescape-escape song song-IsText

abbrev digest : Bytes
digest = 0 ∷ 255 ∷ []

hex_text : util_bin_to_hex (171 ∷ []) ≡ codes "ab"
unfolding util_bin_to_hex high_digit low_digit
hex_text = refl

refused : verify_path (codes "/a/../b") ≡ false
unfolding verify_path verify_from is_separator
refused = refl

-- A last component of dots has no separator behind it, and is let through.
let_through : verify_path (codes "/a/..") ≡ true
unfolding verify_path verify_from is_separator
let_through = refl

abbrev escaped_uri : Bytes
escaped_uri = codes "/a%20b"

normalised_example : util_normalise_uri escaped_uri ≡ some (codes "/a b")
unfolding util_normalise_uri util_url_unescape c_string verify_path unescape_char hex_pair
    verify_from is_separator
normalised_example = refl

path_example : util_get_path_from_uri (codes "/web") escaped_uri ≡ some (codes "/web/a b")
unfolding util_get_path_from_uri util_normalise_uri util_url_unescape c_string verify_path
    unescape_char hex_pair verify_from is_separator util_get_path_from_normalised_uri
path_example = refl

path_from_uri_confined_example :
    (p : Bytes) × (codes "/web/a b" ≡ codes "/web" ++ b'/' ∷ p) × (¬ Traverses (b'/' ∷ p))
path_from_uri_confined_example =
    path_from_uri_confined (codes "/web") escaped_uri (codes "/web/a b") path_example

song_free : ¬ Traverses (b'/' ∷ song)
unfolding verify_path verify_from is_separator
song_free = (verify_path-Traverses (b'/' ∷ song)).0 refl

base64_decode-encode_example :
    (d : Bytes) × (util_base64_decode (util_base64_encode song) ≡ some d) × (c_string d ≡ song)
base64_decode-encode_example = base64_decode-encode song song-IsText

encoded : util_base64_encode (codes "Ma") ≡ codes "TWE="
unfolding util_base64_encode encode_digit
encoded = refl

decoded : util_base64_decode (codes "TWE=") ≡ some (codes "Ma" ++ 0 ∷ [])
unfolding util_base64_decode decode_group decode_digit
decoded = refl

get-set_example :
    ((util_dict_set util_dict_new (some (codes "k")) song).1 ≡ true)
    × (util_dict_get (util_dict_set util_dict_new (some (codes "k")) song).0 (codes "j")
        ≡ answer (
            if bytes_eq (codes "k") (codes "j") then some song else view util_dict_new (codes "j")))
get-set_example = get-set util_dict_new (codes "k") song (codes "j") (inr refl)

abbrev cors : HttpHeader
cors = record { name = some (codes "Allow"); value = some (codes "all"); status = 0 }

abbrev long_type : Bytes
long_type = codes "application/vnd.a-company.a-product.a-format.version-three.with-more+xml"

abbrev server : Server
server = record {
  server_id = codes "Icecast";
  currenttime_buffer = [];
  config_headers = cors ∷ [];
  mount_headers = [];
}

abbrev response : Response
response = record {
  cache = true;
  status = some 200;
  statusmsg = none;
  contenttype = none;
  charset = none;
  datablock = none;
}

-- An error behind one newline.
read_header-shortest_example :
    (util_read_header true 4096 0 (byte b'a' ∷ byte b'\r' ∷ byte b'\n' ∷ failed ∷ [])
      ≡ shortest true (take 4095 (arrived 0 (byte b'a' ∷ byte b'\r' ∷ byte b'\n' ∷ failed ∷ []))))
    × (length
          (read_loop true
            (limit_of 4096)
            0
            []
            (byte b'a' ∷ byte b'\r' ∷ byte b'\n' ∷ failed ∷ [])).1
        < 4096)
read_header-shortest_example =
    read_header-shortest true 4096 0 (byte b'a' ∷ byte b'\r' ∷ byte b'\n' ∷ failed ∷ [])
      (omega arith)

unfinished :
    util_read_header true 4096 0 (byte b'a' ∷ byte b'\r' ∷ byte b'\n' ∷ failed ∷ [])
    ≡ some (codes "a\n\n")
unfolding util_read_header read_loop put_char ended in_order result_of limit_of
unfinished = refl
