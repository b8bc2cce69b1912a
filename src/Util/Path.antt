-- ===== src/Util/Path.antt =====
-- src/util.c: the path of a request. URIs, paths and the web root are C strings; the Windows branch
-- of util_normalise_uri is left out, and an allocation succeeds.
pub mod Traversal
use checkedc_icecast.Base.{
  ℕ, Bool, true, false, ◌||◌, [], ◌∷◌, ◌++◌, Option, none, some, ◌==◌, if◌then◌else◌, Bytes, codes,
  c_string, str_rchr, has_prefix,
}
use checkedc_icecast.Util.Url.{util_url_unescape}

-- The return codes 0, XSLT_CONTENT and HTML_CONTENT.
pub data ContentKind : Type 0 where
  unknown_content xslt_content html_content : ContentKind

unfoldable pub util_get_extension : Bytes → Bytes
util_get_extension path = elim (str_rchr path b'.') [
  | none ↦ []
  | some [] ↦ []
  | some (c ∷ ext) ↦ ext
]

-- The three tests on the text behind the last dot, the later ones overriding the earlier.
unfoldable pub extension_kind : Bytes → ContentKind
extension_kind p2 =
    let ret = if has_prefix p2 (codes "xsl") then xslt_content else unknown_content in
    let ret2 = if has_prefix p2 (codes "htm") then html_content else ret in
    if has_prefix p2 (codes "html") then html_content else ret2

unfoldable pub util_check_valid_extension : Option Bytes → ContentKind
util_check_valid_extension none = unknown_content
util_check_valid_extension (some uri) = elim (str_rchr uri b'.') [
  | none ↦ unknown_content
  | some [] ↦ unknown_content
  | some (c ∷ p2) ↦ extension_kind p2
]

unfoldable pub is_separator : ℕ → Bool
is_separator c = c == b'/' || c == b'\\'

-- The loop of verify_path: `dir` just after a separator, `dots` in a run of dots that began there.
unfoldable pub verify_from : Bool → Bool → Bytes → Bool
verify_from dir dots [] = true
verify_from dir dots (c ∷ path) =
    let after_separator = verify_from true dots path in
    let after_char = verify_from false (if dir || dots then c == b'.' else dots) path in
    if is_separator c
    then (if dots then false else if dir then false else after_separator)
    else after_char

unfoldable pub verify_path : Bytes → Bool
verify_path path = verify_from false false path

-- The check of the decoded text, as the C string that its readers see.
unfoldable pub accept_decoded : Option Bytes → Option Bytes
accept_decoded none = none
accept_decoded (some decoded) =
    if verify_path (c_string decoded) then some (c_string decoded) else none

unfoldable pub util_normalise_uri : Bytes → Option Bytes
unfolding accept_decoded
util_normalise_uri [] = none
util_normalise_uri (c ∷ uri) =
    if c == b'/' then accept_decoded (util_url_unescape (c ∷ uri)) else none

unfoldable pub util_get_path_from_normalised_uri : Bytes → Bytes → Bytes
util_get_path_from_normalised_uri webroot uri = webroot ++ uri

unfoldable pub util_get_path_from_uri : Bytes → Bytes → Option Bytes
util_get_path_from_uri webroot uri = elim (util_normalise_uri uri) [
  | none ↦ none
  | some path ↦ some (util_get_path_from_normalised_uri webroot path)
]
