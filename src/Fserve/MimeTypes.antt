-- ===== src/Fserve/MimeTypes.antt =====
-- src/fserve.c: the file of content types. A line is the buffer that it was read into: its text, a NUL and what stands behind.
-- The tree of types by extension is the avl library's.
pub mod Lines
pub mod Lookup
use checkedc_icecast.Base.{
  ℕ, ◌≡◌, ◌≢◌, refl, sym, ap, ◌∙◌, inl, inr, Bool, true, false, ◌||◌, List, [], ◌∷◌, ◌++◌, Option,
  none, some, ◌==◌, if◌then◌else◌, Bytes, bytes_eq, bytes_eq_refl, All, append_assoc, append-nil,
  Bool-cases, Option-cases, if_true, if_false, codes, arith,
}
use checkedc_icecast.Httpp.Tree.{VarTree}
use checkedc_icecast.Httpp.Vars.{value_of}
use checkedc_icecast.Fserve.{fserve_content_type, or_basic}

unfoldable pub is_gap : ℕ → Bool
is_gap c = c == b' ' || c == b'\t'

unfoldable pub ends_type : ℕ → Bool
ends_type c = is_gap c || c == 0

unfoldable pub ends_word : ℕ → Bool
ends_word c = is_gap c || (c == b'\n' || c == 0)

-- The type, and what stands behind the blank that ends it, unless the line ends first.
unfoldable pub cut_type : Bytes → Bytes × Option Bytes
cut_type [] = ([], none)
cut_type (c ∷ s) =
    let r = cut_type s in
    if is_gap c then ([], some s) else if c == 0 then ([], none) else (c ∷ r.0, r.1)

-- The extensions. The byte that ends a word is passed over, also where it is the NUL.
unfoldable pub extensions : Option Bytes → Bytes → List Bytes
extensions none [] = []
extensions (some ext) [] = ext ∷ []
extensions none (c ∷ s) =
    let behind = extensions none s in
    let word = extensions (some (c ∷ [])) s in
    if is_gap c || c == b'\n' then behind else if c == 0 then [] else word
extensions (some ext) (c ∷ s) =
    let behind = extensions none s in
    let word = extensions (some (ext ++ c ∷ [])) s in if ends_word c then ext ∷ behind else word

-- A comment or an empty line has none.
unfoldable pub is_skipped : Bytes → Bool
is_skipped [] = true
is_skipped (c ∷ s) = c == 0 || c == b'#'

unfoldable pub mapped : Bytes × Option Bytes → Bytes × List Bytes
mapped (type, none) = (type, [])
mapped (type, some rest) = (type, extensions none rest)

unfoldable pub mime_line : Bytes → Bytes × List Bytes
mime_line line = if is_skipped line then ([], []) else mapped (cut_type line)

module _ (T : VarTree) where
  open T use {
    Tree, IsUnique, avl_tree_new, avl_insert, avl_delete, avl_get_by_key, get-insert, get-delete,
    insert-IsUnique, delete-IsUnique, get-new, new-IsUnique,
  }

  unfoldable pub insert_mapping : Option (Option Bytes) → Bytes → Bytes → Tree → Tree
  insert_mapping none ext type tree = avl_insert ext (some type) tree
  insert_mapping (some old) ext type tree = avl_insert ext (some type) (avl_delete ext tree)

  unfoldable pub add_mapping : Bytes → Bytes → Tree → Tree
  add_mapping type ext tree = insert_mapping (avl_get_by_key ext tree) ext type tree

  unfoldable pub add_mappings : Bytes → List Bytes → Tree → Tree
  add_mappings type [] tree = tree
  add_mappings type (ext ∷ exts) tree = add_mappings type exts (add_mapping type ext tree)

  unfoldable pub read_lines : List Bytes → Tree → Tree
  read_lines [] tree = tree
  read_lines (line ∷ lines) tree =
      let m = mime_line line in read_lines lines (add_mappings m.0 m.1 tree)

  unfoldable pub fserve_recheck_mime_types : List Bytes → Tree
  fserve_recheck_mime_types lines = read_lines lines avl_tree_new
