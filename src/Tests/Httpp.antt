-- ===== src/Tests/Httpp.antt =====
-- src/httpp/httpp.c at concrete requests, over trees that are association lists.
use checkedc_icecast.Util.Url.{util_url_escape, is_safe, high_digit, low_digit}
use mathlib.Core.List.{map}
use checkedc_icecast.Base.{◌≡◌, refl, true, List, [], ◌∷◌, some, arith, All, Bytes, codes, case_eq}
use checkedc_icecast.Util.Dict.{util_dict_urlencode, encode_entry}
use checkedc_icecast.Httpp.Tree.{list_tree, Entries}
use checkedc_icecast.Httpp.Vars.{HttpParser, httpp_initialize}
use checkedc_icecast.Httpp.Vars.Laws.{IsClean, initialize-IsClean}
use checkedc_icecast.Httpp.Query.{parse_query, is_cut}
use checkedc_icecast.Httpp.Query.RoundTrip.{parse_query-urlencode, dict_of, set_all}
use checkedc_icecast.Httpp.Lines.Cut.{render_lines}
use checkedc_icecast.Httpp.Request.{httpp_parse, type_name, request_type}
use checkedc_icecast.Httpp.Request.Laws.{
  IsRequest, IsHeader, header_line, request_line, set_headers, parsed, httpp_parse-render,
}

-- As client.c makes one, with one default.
abbrev parser : HttpParser Entries
parser = httpp_initialize list_tree ((codes "a", some (codes "1")) ∷ [])

parser-IsClean : IsClean list_tree parser.vars
parser-IsClean = initialize-IsClean list_tree ((codes "a", some (codes "1")) ∷ [])

abbrev pairs : List (Bytes × Bytes)
pairs = (codes "k", codes "a b") ∷ (codes "j", codes "&") ∷ []

parse_query-urlencode_example :
    parse_query list_tree parser (codes "k=a%20b&j=%26") ≡ set_all list_tree parser pairs
unfolding is_cut util_dict_urlencode dict_of encode_entry util_url_escape is_safe high_digit
    low_digit
parse_query-urlencode_example =
    parse_query-urlencode list_tree parser pairs (codes "k=a%20b&j=%26")
      (((refl, tt), (omega arith)), (((refl, tt), (omega arith)), tt)) refl

abbrev lines : List Bytes
lines = codes "Host: a" ∷ codes "X: b" ∷ []

abbrev headers : List (Bytes × Bytes)
headers = (codes "Host", codes "a") ∷ (codes "User-Agent", codes "b c") ∷ []

live-IsRequest : IsRequest (codes "GET") (codes "/live") (codes "HTTP") (codes "1.0") (codes "GET")
unfolding type_name request_type case_eq
live-IsRequest = record {
  known = refl;
  method_word = omega arith;
  uri_word = (cc, (omega arith), (omega arith), (omega arith));
  protocol_word = (cc, (omega arith), (omega arith), (omega arith));
  version_word = (cc, (omega arith), (omega arith));
}

headers-IsHeader : All IsHeader headers
headers-IsHeader = omega arith

httpp_parse-render_example :
    httpp_parse list_tree parser (
      render_lines (
        request_line (codes "GET") (codes "/live") (codes "HTTP") (codes "1.0")
        ∷ map header_line headers))
    ≡ (
      set_headers list_tree
          (parsed list_tree parser
            (codes "GET")
            (codes "/live")
            (codes "HTTP")
            (codes "1.0")
            (codes "GET"))
          headers,
      true,
    )
httpp_parse-render_example =
    httpp_parse-render list_tree parser (codes "GET") (codes "/live") (codes "HTTP") (codes "1.0")
      (codes "GET") headers live-IsRequest headers-IsHeader (omega arith)
