-- ===== src/Httpp/Request.antt =====
-- src/httpp/httpp.c: httpp_parse and httpp_parse_response. The functions return the parser as they leave
-- it and the return code, false where the source returns 0; the malloc of the copy succeeds.
pub mod Words
pub mod Laws
use checkedc_icecast.Base.Number.{atoi, ltb_ℤ, pos}
use checkedc_icecast.Base.{
  ℕ, ◌+◌, ◌-◌, ◌*◌, Bool, true, false, ◌&&◌, ◌||◌, not, List, [], ◌∷◌, Option, none, some, ◌==◌,
  leb, ltb, if◌then◌else◌, Bytes, codes, case_eq, str_chr, get_elem?,
}
use checkedc_icecast.Httpp.Tree.{VarTree}
use checkedc_icecast.Httpp.Vars.{
  HttpParser, RequestType, req_none, req_get, req_post, req_put, req_head, req_source, req_play,
  req_stats, req_unknown, httpp_setvar, var_protocol, var_version, var_uri, var_rawuri,
  var_queryargs, var_req_type, var_error_message, var_error_code,
}
use checkedc_icecast.Httpp.Lines.{Split, split_headers, line_at, parse_headers}
use checkedc_icecast.Httpp.Query.{parse_query}

-- The C string at the start of a line whose spaces are overwritten.
unfoldable pub word : Bytes → Bytes
word [] = []
word (c ∷ s) = if c == b' ' then [] else c ∷ word s

-- The words that begin behind spaces; the flag is `whitespace`.
unfoldable pub words_from : Bool → Bytes → List Bytes
unfolding word
words_from whitespace [] = []
words_from whitespace (c ∷ s) =
    let rest = words_from (c == b' ') s in
    if c == b' ' then rest else if whitespace then word (c ∷ s) ∷ rest else rest

unfoldable pub request_type : Bytes → RequestType
request_type name =
    if case_eq (codes "GET") name
    then req_get
    else if case_eq (codes "POST") name
    then req_post
    else if case_eq (codes "PUT") name
    then req_put
    else if case_eq (codes "HEAD") name
    then req_head
    else if case_eq (codes "SOURCE") name
    then req_source
    else if case_eq (codes "PLAY") name
    then req_play
    else if case_eq (codes "STATS") name
    then req_stats
    else req_unknown

-- The value of `__req_type`; NULL where the source returns 0.
unfoldable pub type_name : RequestType → Option Bytes
type_name req_none = none
type_name req_unknown = none
type_name req_get = some (codes "GET")
type_name req_post = some (codes "POST")
type_name req_put = some (codes "PUT")
type_name req_head = some (codes "HEAD")
type_name req_source = some (codes "SOURCE")
type_name req_play = some (codes "PLAY")
type_name req_stats = some (codes "STATS")

-- The text in front of the first `c`, which is overwritten.
unfoldable pub before : ℕ → Bytes → Bytes
before c [] = []
before c (d ∷ s) = if d == c then [] else d ∷ before c s

-- The three words of a response line: the third runs on to the end of the line.
unfoldable pub response_message : ℕ → Bool → Bytes → Option Bytes
response_message found whitespace [] = none
response_message found whitespace (c ∷ s) =
    let blank = response_message found true s in
    let other = response_message found false s in
    let first = response_message 1 false s in
    if c == b' '
    then blank
    else if whitespace
    then (if found == 0 then first else some (c ∷ s))
    else other

module _ (T : VarTree) where
  open T use {Tree}

  -- A step that may return 0 from the function.
  abbrev pub Outcome : Type 0
  Outcome = HttpParser Tree × Bool

  abbrev pub and_then : Outcome → (HttpParser Tree → Outcome) → Outcome
  and_then (p, true) f = f p
  and_then (p, false) f = (p, false)

  -- The query string, from its `?` on.
  unfoldable pub take_query : HttpParser Tree → Bytes → Option Bytes → HttpParser Tree
  take_query parser uri none = parser
  take_query parser uri (some []) = parser
  take_query parser uri (some (c ∷ query)) =
      parse_query T
        (httpp_setvar T (httpp_setvar T parser var_rawuri (some uri)) var_queryargs
          (some (c ∷ query)))
        query

  unfoldable pub set_uri : HttpParser Tree → Bytes → HttpParser Tree
  set_uri parser uri = record parser { uri = some uri }

  unfoldable pub take_uri : HttpParser Tree → Option Bytes → Outcome
  take_uri parser none = (parser, false)
  take_uri parser (some []) = (parser, false)
  take_uri parser (some (c ∷ uri)) =
      (set_uri (take_query parser (c ∷ uri) (str_chr (c ∷ uri) b'?')) (before b'?' (c ∷ uri)), true)

  -- The version's two parts, around its first `/`.
  unfoldable pub set_version : HttpParser Tree → Bytes → Option Bytes → Outcome
  set_version parser [] rest = (parser, false)
  set_version parser (c ∷ protocol) none = (parser, false)
  set_version parser (c ∷ protocol) (some []) = (parser, false)
  set_version parser (c ∷ protocol) (some (d ∷ [])) = (parser, false)
  set_version parser (c ∷ protocol) (some (d ∷ e ∷ version)) = (
    httpp_setvar T (httpp_setvar T parser var_protocol (some (c ∷ protocol))) var_version
        (some (e ∷ version)),
    true,
  )

  unfoldable pub take_version : HttpParser Tree → Option Bytes → Outcome
  take_version parser none = (parser, false)
  take_version parser (some version) =
      set_version parser (before b'/' version) (str_chr version b'/')

  unfoldable pub set_type : HttpParser Tree → Option Bytes → Outcome
  set_type parser none = (parser, false)
  set_type parser (some name) = (httpp_setvar T parser var_req_type (some name), true)

  unfoldable pub finish_uri : HttpParser Tree → Option Bytes → Outcome
  finish_uri parser none = (parser, false)
  finish_uri parser (some uri) = (httpp_setvar T parser var_uri (some uri), true)

  unfoldable pub httpp_parse : HttpParser Tree → Bytes → Outcome
  httpp_parse parser content =
      let split = split_headers content in
      let line = line_at split.data_left 0 in
      let words = words_from false line in
      let typed = record parser { req_type = request_type (word line) } in
      and_then (take_uri typed (get_elem? words 0)) λ p₁.
        and_then (take_version p₁ (get_elem? words 1)) λ p₂.
          and_then (set_type p₂ (type_name p₂.req_type))
            λ p₃. and_then (finish_uri p₃ p₃.uri) λ p₄. (parse_headers T p₄ split, true)

  -- Behind the three words: the code and its message, the request's URI, the header lines.
  unfoldable pub accept_response :
      HttpParser Tree → Split → Bytes → Option Bytes → Option Bytes → Outcome
  accept_response parser split uri none message = (parser, false)
  accept_response parser split uri (some resp_code) none = (parser, false)
  accept_response parser split uri (some resp_code) (some message) =
      let coded = httpp_setvar T parser var_error_code (some resp_code) in
      let code = atoi resp_code in
      let told =
        if ltb_ℤ code (pos 200) || not (ltb_ℤ code (pos 300))
        then httpp_setvar T coded var_error_message (some message)
        else coded in
      let named = httpp_setvar T told var_uri (some uri) in
      let none_type = httpp_setvar T named var_req_type (some (codes "NONE")) in
      (parse_headers T none_type split, true)

  unfoldable pub httpp_parse_response : HttpParser Tree → Bytes → Bytes → Outcome
  httpp_parse_response parser content uri =
      let split = split_headers content in
      let line = line_at split.data_left 0 in
      accept_response parser split uri (get_elem? (words_from false line) 0)
        (response_message 0 false line)
