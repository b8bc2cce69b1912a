-- ===== src/Relay/Connect/Request.antt =====
-- src/slave.c: the request of a relay, as lines.
use mathlib.Core.List.{map}
use mathlib.Core.Path.{ap₂}
use checkedc_icecast.Base.{
  ℕ, suc, ◌<◌, ◌≡◌, ◌≢◌, refl, sym, ap, ◌∙◌, inl, inr, Bool, true, List, [], ◌∷◌, ◌++◌, Option,
  none, some, ◌==◌, if◌then◌else◌, Bytes, case_eq, codes, All, All-append, ltb, every_below,
  holds_below, length, append_assoc, IsText, Bool-cases, arith,
}
use checkedc_icecast.Httpp.Lines.Cut.{render_lines, IsInner}
use checkedc_icecast.Httpp.Request.{request_type, type_name}
use checkedc_icecast.Httpp.Request.Words.{Lacks, IsValue}
use checkedc_icecast.Httpp.Request.Laws.{IsHeader, IsRequest, header_line, request_line}
use checkedc_icecast.Util.Base64.{util_base64_encode, encode_digit}
use checkedc_icecast.Connection.Passwords.{IsName, basic}
use checkedc_icecast.Relay.{Relay}
use checkedc_icecast.Relay.Connect.{Target, relay_request, icy_header, auth_header}

unfoldable pub icy_headers : ℕ → List (Bytes × Bytes)
icy_headers mp3metadata = if mp3metadata == 0 then [] else (codes "Icy-MetaData", codes "1") ∷ []

unfoldable pub auth_headers : Option Bytes → Option Bytes → List (Bytes × Bytes)
auth_headers none password = []
auth_headers (some username) none = []
auth_headers (some username) (some password) = (codes "Authorization", basic username password) ∷ []

more_headers : Relay → List (Bytes × Bytes)
more_headers relay = icy_headers relay.mp3metadata ++ auth_headers relay.username relay.password

-- The lines of a relay's request.
relay_headers : Relay → Bytes → Target → List (Bytes × Bytes)
relay_headers relay server_id target =
    (codes "User-Agent", server_id) ∷ (codes "Host", target.server) ∷ more_headers relay

auth-render :
    (username password : Option Bytes)
    → auth_header username password ++ codes "\r\n"
      ≡ render_lines (map header_line (auth_headers username password))
unfolding auth_header auth_headers render_lines header_line
auth-render none password = refl
auth-render (some username) none = refl
auth-render (some username) (some password) =
    ap (λ s. codes "Authorization: Basic " ++ s)
      (append_assoc (util_base64_encode (username ++ b':' ∷ password)) (codes "\r\n")
        (codes "\r\n"))

icy-render :
    (m : ℕ) (username password : Option Bytes)
    → icy_header m ++ (auth_header username password ++ codes "\r\n")
      ≡ render_lines (map header_line (icy_headers m ++ auth_headers username password))
unfolding icy_header icy_headers render_lines header_line
icy-render m username password = elim (Bool-cases (m == 0)) [
  | inl e ↦ rw e (auth-render username password)
  | inr e ↦ rw e (ap (λ s. codes "Icy-MetaData: 1\r\n" ++ s) (auth-render username password))
]

request-render :
    (relay : Relay) (server_id : Bytes) (target : Target)
    → relay_request relay server_id target
      ≡ render_lines (
          request_line (codes "GET") target.mount (codes "HTTP") (codes "1.0")
          ∷ map header_line (relay_headers relay server_id target))
unfolding relay_request relay_headers more_headers request_line render_lines header_line
request-render relay server_id target =
    ap
      (λ s.
        codes "GET "
        ++ (target.mount
            ++ (codes " HTTP/1.0\r\nUser-Agent: "
                ++ (server_id ++ (codes "\r\nHost: " ++ (target.server ++ (codes "\r\n" ++ s)))))))
      (icy-render relay.mp3metadata relay.username relay.password)
    ∙ ap (λ s. codes "GET " ++ s) (sym (append_assoc target.mount (codes " HTTP/1.0") _))

-- The digits of an encoding are no line ends.
is_digit_char : ℕ → Bool
is_digit_char c = ltb b'\r' c

digits : every_below 64 (λ n. is_digit_char (encode_digit n)) ≡ true
unfolding every_below is_digit_char encode_digit
digits = refl

digit-IsInner : (n : ℕ) → n < 64 → IsInner (encode_digit n)
unfolding is_digit_char
digit-IsInner n h =
    let k = holds_below {bound = 64} (λ n. is_digit_char (encode_digit n)) n h digits in
    ground (arith, k)

encode-IsInner : (s : Bytes) → IsText s → All IsInner (util_base64_encode s)
unfolding util_base64_encode
encode-IsInner [] h = tt
encode-IsInner (a ∷ []) h =
    (digit-IsInner _ (omega arith), (digit-IsInner _ (omega arith), omega arith))
encode-IsInner (a ∷ b ∷ []) h = (
  digit-IsInner _ (omega arith),
  (digit-IsInner _ (omega arith), (digit-IsInner _ (omega arith), omega arith)),
)
encode-IsInner (a ∷ b ∷ c ∷ s) h = (
  digit-IsInner _ (omega arith),
  (
    digit-IsInner _ (omega arith),
    (digit-IsInner _ (omega arith), (digit-IsInner _ (omega arith), encode-IsInner s h.1.1.1)),
  ),
)

basic-IsInner :
    (username password : Bytes)
    → IsText (username ++ b':' ∷ password)
    → All IsInner (basic username password)
basic-IsInner username password h =
    All-append IsInner (codes "Basic ") (util_base64_encode (username ++ b':' ∷ password))
      (omega arith) (encode-IsInner _ h)

-- What a relay may be configured with, and redirected to, that the other server can read.
pub record CanAsk (relay : Relay) (server_id : Bytes) (target : Target) (username password : Bytes)
    : Type 0 where
  pub named : relay.username ≡ some username
  pub secret : relay.password ≡ some password
  pub text : IsText (username ++ b':' ∷ password)
  pub name : IsName username
  pub agent : IsValue server_id × All IsInner server_id
  pub host : IsValue target.server × All IsInner target.server
  pub path :
      (target.mount ≢ [])
      × Lacks b' ' target.mount
      × Lacks b'?' target.mount
      × All IsInner target.mount

more-IsHeader :
    (m : ℕ) (username password : Bytes)
    → IsText (username ++ b':' ∷ password)
    → All IsHeader (icy_headers m ++ auth_headers (some username) (some password))
unfolding icy_headers auth_headers
more-IsHeader m username password h =
    let auth : IsHeader (codes "Authorization", basic username password) =
      (omega arith, omega arith, omega arith, basic-IsInner username password h) in
    elim (Bool-cases (m == 0)) [ inl e ↦ rw e (auth, tt) | inr e ↦ rw e (omega arith, (auth, tt)) ]

pub few_headers :
    (m : ℕ) (username password : Bytes)
    → suc (suc (length (icy_headers m ++ auth_headers (some username) (some password)))) < 31
unfolding icy_headers auth_headers
few_headers m username password = elim (Bool-cases (m == 0)) [
  | inl e ↦ rw e (omega arith)
  | inr e ↦ rw e (omega arith)
]

unfoldable pub shown_headers : Relay → Bytes → Target → Bytes → Bytes → List (Bytes × Bytes)
shown_headers relay server_id target username password =
    (codes "User-Agent", server_id)
    ∷ (codes "Host", target.server)
    ∷ (icy_headers relay.mp3metadata ++ auth_headers (some username) (some password))

pub shown-render :
    (relay : Relay) (server_id : Bytes) (target : Target) (username password : Bytes)
    → CanAsk relay server_id target username password
    → relay_request relay server_id target
      ≡ render_lines (
          request_line (codes "GET") target.mount (codes "HTTP") (codes "1.0")
          ∷ map header_line (shown_headers relay server_id target username password))
unfolding relay_headers more_headers shown_headers
shown-render relay server_id target username password q =
    request-render relay server_id target
    ∙ ap₂
        (λ u p. render_lines (
          request_line (codes "GET") target.mount (codes "HTTP") (codes "1.0")
          ∷ map header_line (
              (codes "User-Agent", server_id)
              ∷ (codes "Host", target.server)
              ∷ (icy_headers relay.mp3metadata ++ auth_headers u p))))
        q.named q.secret

pub shown-IsHeader :
    (relay : Relay) (server_id : Bytes) (target : Target) (username password : Bytes)
    → CanAsk relay server_id target username password
    → All IsHeader (shown_headers relay server_id target username password)
unfolding shown_headers
shown-IsHeader relay server_id target username password q = (
  (omega arith, omega arith, q.agent.0, q.agent.1),
  (
    (omega arith, omega arith, q.host.0, q.host.1),
    more-IsHeader relay.mp3metadata username password q.text,
  ),
)

pub asks-IsRequest :
    (relay : Relay) (server_id : Bytes) (target : Target) (username password : Bytes)
    → CanAsk relay server_id target username password
    → IsRequest (codes "GET") target.mount (codes "HTTP") (codes "1.0") (codes "GET")
unfolding request_type case_eq type_name
asks-IsRequest relay server_id target username password q = record {
  known = refl;
  method_word = omega arith;
  uri_word = q.path;
  protocol_word = ((λ e. cc), omega arith, omega arith, omega arith);
  version_word = ((λ e. cc), omega arith, omega arith);
}
