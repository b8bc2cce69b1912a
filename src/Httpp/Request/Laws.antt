-- ===== src/Httpp/Request/Laws.antt =====
-- src/httpp/httpp.c: httpp_parse on a request written out from its parts.
use mathlib.Core.List.{map}
use mathlib.Core.Path.{ap₂}
use checkedc_icecast.Base.{
  ℕ, ◌<◌, ◌≡◌, ◌≢◌, refl, ap, ◌∙◌, true, false, List, [], ◌∷◌, ◌++◌, some, arith, Bytes, All,
  All-append, length, length-map,
}
use checkedc_icecast.Httpp.Tree.{VarTree}
use checkedc_icecast.Httpp.Vars.{
  HttpParser, httpp_setvar, var_protocol, var_version, var_uri, var_req_type,
}
use checkedc_icecast.Httpp.Lines.{
  split_headers, lowercase, parse_header_line, parse_header_lines, parse_headers,
}
use checkedc_icecast.Httpp.Lines.Cut.{IsInner, IsLine, render_lines, split_headers-render}
use checkedc_icecast.Httpp.Request.Words.{
  Lacks, IsValue, word-cut, words-skip, words-next, words-last, before-cut, before-all, str_chr-cut,
  str_chr-none, name-cut, value-cut, value-read,
}
use checkedc_icecast.Httpp.Request.{
  word, words_from, request_type, type_name, take_query, set_uri, take_uri, set_version,
  take_version, set_type, finish_uri, Outcome, and_then, httpp_parse,
}

-- A header's name and value, and its line.
abbrev pub IsHeader : Bytes × Bytes → Type 0
IsHeader x = Lacks b':' x.0 × All IsInner x.0 × IsValue x.1 × All IsInner x.1

unfoldable pub header_line : Bytes × Bytes → Bytes
header_line (name, value) = name ++ b':' ∷ b' ' ∷ value

-- The request line.
unfoldable pub request_line : Bytes → Bytes → Bytes → Bytes → Bytes
request_line method uri protocol version =
    method ++ b' ' ∷ (uri ++ b' ' ∷ (protocol ++ b'/' ∷ version))

cons-ne-nil : (w s : Bytes) (c : ℕ) → w ++ c ∷ s ≢ []
cons-ne-nil [] s c = λ e. cc
cons-ne-nil (d ∷ w) s c = λ e. cc

header_line-IsLine : (x : Bytes × Bytes) → IsHeader x → IsLine (header_line x)
unfolding header_line
header_line-IsLine (name, value) h =
    (cons-ne-nil name _ b':', All-append IsInner name _ h.1 ((omega arith), ((omega arith), h.3)))

header_lines-IsLine :
    (hs : List (Bytes × Bytes)) → All IsHeader hs → All IsLine (map header_line hs)
header_lines-IsLine [] h = tt
header_lines-IsLine (x ∷ hs) h = (header_line-IsLine x h.0, header_lines-IsLine hs h.1)

-- The parts of a request line that httpp_parse accepts: a method that it knows, a URI with no query,
-- and a version in two parts.
pub record IsRequest (method uri protocol version name : Bytes) : Type 0 where
  pub known : type_name (request_type method) ≡ some name
  pub method_word : Lacks b' ' method × All IsInner method
  pub uri_word : (uri ≢ []) × Lacks b' ' uri × Lacks b'?' uri × All IsInner uri
  pub protocol_word :
      (protocol ≢ []) × Lacks b' ' protocol × Lacks b'/' protocol × All IsInner protocol
  pub version_word : (version ≢ []) × Lacks b' ' version × All IsInner version

module _ {method uri protocol version name : Bytes}
    (q : IsRequest method uri protocol version name) where
  request_line-IsLine : IsLine (request_line method uri protocol version)
  unfolding request_line
  request_line-IsLine = (
    cons-ne-nil method _ b' ',
    All-append IsInner method _ q.method_word.1 (
      (omega arith),
      All-append IsInner uri _ q.uri_word.3 (
        (omega arith),
        All-append IsInner protocol _ q.protocol_word.3 ((omega arith), q.version_word.2),
      ),
    ),
  )

  line_words :
      words_from false (request_line method uri protocol version)
      ≡ uri ∷ (protocol ++ b'/' ∷ version) ∷ []
  unfolding request_line
  line_words =
      words-skip method _ q.method_word.0
      ∙ words-next uri _ q.uri_word.0 q.uri_word.1
      ∙ ap (◌∷◌ uri) (
          words-last (protocol ++ b'/' ∷ version) (cons-ne-nil protocol version b'/') (
            All-append (λ d. d ≢ b' ') protocol _ q.protocol_word.1
              ((omega arith), q.version_word.1)))

  line_method : word (request_line method uri protocol version) ≡ method
  unfolding request_line
  line_method = word-cut method _ q.method_word.0

module _ (T : VarTree) where
  open T use {Tree}

  uri_taken :
      (p : HttpParser Tree) (uri : Bytes)
      → uri ≢ []
      → Lacks b'?' uri
      → take_uri T p (some uri) ≡ (set_uri T p uri, true)
  unfolding take_uri take_query
  uri_taken p [] h l = absurd (h refl)
  uri_taken p (c ∷ uri) h l = rw (str_chr-none b'?' (c ∷ uri) l, before-all b'?' (c ∷ uri) l)

  version_set :
      (p : HttpParser Tree) (protocol version : Bytes)
      → protocol ≢ []
      → version ≢ []
      → set_version T p protocol (some (b'/' ∷ version)) ≡ (
        httpp_setvar T (httpp_setvar T p var_protocol (some protocol)) var_version (some version),
        true,
      )
  unfolding set_version
  version_set p [] version h k = absurd (h refl)
  version_set p (c ∷ protocol) [] h k = absurd (k refl)
  version_set p (c ∷ protocol) (d ∷ version) h k = refl

  version_taken :
      (p : HttpParser Tree) (protocol version : Bytes)
      → protocol ≢ []
      → Lacks b'/' protocol
      → version ≢ []
      → take_version T p (some (protocol ++ b'/' ∷ version)) ≡ (
        httpp_setvar T (httpp_setvar T p var_protocol (some protocol)) var_version (some version),
        true,
      )
  unfolding take_version
  version_taken p protocol version h l k =
      rw (before-cut b'/' protocol version l, str_chr-cut b'/' protocol version l)
        (version_set p protocol version h k)

  -- Each header's value under its name in lower case, in order.
  unfoldable pub set_headers : HttpParser Tree → List (Bytes × Bytes) → HttpParser Tree
  set_headers p [] = p
  set_headers p ((name, value) ∷ hs) =
      set_headers (httpp_setvar T p (lowercase name) (some value)) hs

  header_line_set :
      (p : HttpParser Tree) (name value : Bytes)
      → IsHeader (name, value)
      → parse_header_line T p (header_line (name, value))
        ≡ httpp_setvar T p (lowercase name) (some value)
  unfolding parse_header_line header_line
  header_line_set p name value h =
      ap₂ (λ n v. httpp_setvar T p (lowercase n) v) (name-cut name (b' ' ∷ value) h.0)
        (value-cut name (b' ' ∷ value) h.0 ∙ value-read value h.2)

  header_lines_set :
      (p : HttpParser Tree) (hs : List (Bytes × Bytes))
      → All IsHeader hs
      → parse_header_lines T p (map header_line hs) ≡ set_headers p hs
  unfolding parse_header_lines set_headers
  header_lines_set p [] h = refl
  header_lines_set p ((name, value) ∷ hs) h =
      ap (λ q. parse_header_lines T q (map header_line hs)) (header_line_set p name value h.0)
      ∙ header_lines_set (httpp_setvar T p (lowercase name) (some value)) hs h.1

  -- The variables of an accepted request.
  unfoldable pub parsed : HttpParser Tree → Bytes → Bytes → Bytes → Bytes → Bytes → HttpParser Tree
  parsed p method uri protocol version name =
      let typed = record p { req_type = request_type method; uri = some uri } in
      let versioned =
        httpp_setvar T (httpp_setvar T typed var_protocol (some protocol)) var_version
          (some version) in
      httpp_setvar T (httpp_setvar T versioned var_req_type (some name)) var_uri (some uri)

  -- The last steps, from the version on.
  finished :
      (p : HttpParser Tree) (method uri protocol version name : Bytes)
      (next : HttpParser Tree → Outcome T)
      → type_name (request_type method) ≡ some name
      → (let typed = set_uri T (record p { req_type = request_type method }) uri in
          let p₂ =
            httpp_setvar T
              (httpp_setvar T typed var_protocol (some protocol))
              var_version
              (some version) in
          and_then T
            (set_type T p₂ (type_name p₂.req_type))
            (λ p₃. and_then T (finish_uri T p₃ p₃.uri) next))
        ≡ next (parsed p method uri protocol version name)
  unfolding httpp_setvar set_uri set_type finish_uri parsed
  finished p method uri protocol version name next h = rw (h, set_type)

  -- A request line of a known method, a URI without a query and a version in two parts, with at
  -- most 30 header lines of a name without a colon and a nonempty value that begins with no space,
  -- is accepted: the parser has the request type and the URI, the variables of the request line,
  -- and each header's value under its name in lower case, set in this order.
  pub httpp_parse-render :
      (p : HttpParser Tree) (method uri protocol version name : Bytes) (hs : List (Bytes × Bytes))
      → IsRequest method uri protocol version name
      → All IsHeader hs
      → length hs < 31
      → httpp_parse T p
          (render_lines (request_line method uri protocol version ∷ map header_line hs))
        ≡ (set_headers (parsed p method uri protocol version name) hs, true)
  unfolding httpp_parse parse_headers
  httpp_parse-render p method uri protocol version name hs q h k =
      let request = render_lines (request_line method uri protocol version ∷ map header_line hs) in
      let cut =
        split_headers-render (request_line method uri protocol version) (map header_line hs)
          (request_line-IsLine q) (header_lines-IsLine hs h)
          (omega (arith, length-map hs header_line)) in
      rw
        (
          cut.0,
          line_words q,
          line_method q,
          uri_taken _ uri q.uri_word.0 q.uri_word.2,
          version_taken _ protocol version q.protocol_word.0 q.protocol_word.2 q.version_word.0,
        )
        (finished p method uri protocol version name
            (λ p₄. (parse_headers T p₄ (split_headers request), true)) q.known
          ∙ ap (λ p₄. (p₄, true))
              (ap (parse_header_lines T (parsed p method uri protocol version name)) cut.1
                ∙ header_lines_set _ hs h))
