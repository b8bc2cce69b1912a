-- ===== src/Httpp/Query.antt =====
-- src/httpp/httpp.c: the query string. The text is cut in place at each `&` and `=`, so a pointer into it
-- reads the bytes up to the next of these.
pub mod Escape
pub mod Stale
pub mod RoundTrip
use checkedc_icecast.Base.{
  ℕ, Bool, true, false, ◌||◌, [], ◌∷◌, Option, none, some, ◌==◌, if◌then◌else◌, Bytes,
}
use checkedc_icecast.Httpp.Tree.{VarTree}
use checkedc_icecast.Httpp.Vars.{HttpParser, set_query_value}
use checkedc_icecast.Httpp.Query.Escape.{url_escape}

-- Where the text was or will be cut.
unfoldable pub is_cut : ℕ → Bool
is_cut c = c == b'&' || c == b'='

-- The C string at a pointer into the query.
unfoldable pub field_text : Bytes → Bytes
field_text [] = []
field_text (c ∷ s) = if is_cut c then [] else c ∷ field_text s

module _ (T : VarTree) where
  open T use {Tree}

  unfoldable pub httpp_set_query_param : HttpParser Tree → Bytes → Bytes → HttpParser Tree
  httpp_set_query_param parser name value = set_query_value T parser name (url_escape value)

  -- `if (val && key) httpp_set_query_param (parser, key, val)`
  unfoldable pub set_pair : HttpParser Tree → Bytes → Option Bytes → HttpParser Tree
  set_pair parser key none = parser
  set_pair parser key (some val) = httpp_set_query_param parser (field_text key) (field_text val)

  -- The loop: what is left of the query, and the two pointers as the text behind them.
  unfoldable pub query_loop : HttpParser Tree → Bytes → Option Bytes → Bytes → HttpParser Tree
  query_loop parser key val [] = set_pair parser key val
  query_loop parser key val (c ∷ s) =
      let at_amp = query_loop (set_pair parser key val) s val s in
      let at_eq = query_loop parser key (some s) s in
      let other = query_loop parser key val s in
      if c == b'&' then at_amp else if c == b'=' then at_eq else other

  unfoldable pub parse_query : HttpParser Tree → Bytes → HttpParser Tree
  parse_query parser [] = parser
  parse_query parser (c ∷ s) = query_loop parser (c ∷ s) none (c ∷ s)
