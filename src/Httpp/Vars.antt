-- ===== src/Httpp/Vars.antt =====
-- src/httpp/httpp.c: the parser's state and its variables. An allocation succeeds, and the pointers that
-- httpp_getvar and httpp_setvar test for NULL are `none`.
pub mod Laws
use checkedc_icecast.Base.{
  ℕ, Bool, true, false, List, [], ◌∷◌, Option, none, some, if◌then◌else◌, Bytes, codes, str_chr,
}
use checkedc_icecast.Httpp.Tree.{VarTree}
use checkedc_icecast.Util.Url.{hex_pair, emit}

-- httpp_request_type_e
pub data RequestType : Type 0 where
  req_none req_get req_post req_put req_head req_source req_play req_stats req_unknown : RequestType

abbrev pub var_protocol : Bytes
var_protocol = codes "__protocol"

abbrev pub var_version : Bytes
var_version = codes "__version"

abbrev pub var_uri : Bytes
var_uri = codes "__uri"

abbrev pub var_rawuri : Bytes
var_rawuri = codes "__rawuri"

abbrev pub var_queryargs : Bytes
var_queryargs = codes " __queryargs"

abbrev pub var_req_type : Bytes
var_req_type = codes "__req_type"

abbrev pub var_error_message : Bytes
var_error_message = codes "__errormessage"

abbrev pub var_error_code : Bytes
var_error_code = codes "__errorcode"

-- http_parser_t, over the type of its two trees.
pub record HttpParser (Tree : Type 0) : Type 0 where
  pub req_type : RequestType
  pub uri : Option Bytes
  pub vars : Tree
  pub queryvars : Tree

-- The value behind an entry that was found.
unfoldable pub value_of : Option (Option Bytes) → Option Bytes
value_of none = none
value_of (some value) = value

module _ (T : VarTree) where
  open T use {Tree, avl_tree_new, avl_insert, avl_get_by_key, avl_delete}

  unfoldable pub httpp_getvar : HttpParser Tree → Bytes → Option Bytes
  httpp_getvar parser name = value_of (avl_get_by_key name parser.vars)

  unfoldable pub httpp_get_query_param : HttpParser Tree → Bytes → Option Bytes
  httpp_get_query_param parser name = value_of (avl_get_by_key name parser.queryvars)

  -- The two branches behind the lookup: insert, or delete and insert.
  unfoldable pub put : Option Bytes → Bytes → Option Bytes → Tree → Tree
  put none name value tree = avl_insert name value tree
  put (some old) name value tree = avl_insert name value (avl_delete name tree)

  unfoldable pub httpp_setvar : HttpParser Tree → Bytes → Option Bytes → HttpParser Tree
  httpp_setvar parser name none = parser
  httpp_setvar parser name (some value) = record parser {
    vars = put (httpp_getvar parser name) name (some value) parser.vars;
  }

  unfoldable pub httpp_deletevar : HttpParser Tree → Bytes → HttpParser Tree
  httpp_deletevar parser name = record parser { vars = avl_delete name parser.vars }

  -- `decoded` is what url_escape makes of the value, NULL when it is badly escaped.
  unfoldable pub set_query_value : HttpParser Tree → Bytes → Option Bytes → HttpParser Tree
  set_query_value parser name decoded = record parser {
    queryvars = put (httpp_get_query_param parser name) name decoded parser.queryvars;
  }

  unfoldable pub set_defaults : HttpParser Tree → List (Bytes × Option Bytes) → HttpParser Tree
  set_defaults parser [] = parser
  set_defaults parser ((name, value) ∷ list) = set_defaults (httpp_setvar parser name value) list

  -- What the caller passed in is overwritten whole.
  unfoldable pub httpp_initialize : List (Bytes × Option Bytes) → HttpParser Tree
  unfolding set_defaults
  httpp_initialize defaults =
      set_defaults
        (record { req_type = req_none; uri = none; vars = avl_tree_new; queryvars = avl_tree_new })
        defaults
