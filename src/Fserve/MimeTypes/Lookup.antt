-- ===== src/Fserve/MimeTypes/Lookup.antt =====
-- src/fserve.c: the content type that the file gives an extension.
use checkedc_icecast.Base.{
  ◌≡◌, refl, ap, ◌∙◌, Bool, true, false, ◌||◌, List, [], ◌∷◌, Option, none, some, if◌then◌else◌,
  Bytes, bytes_eq, bytes_eq_refl, All, if_true, if_false,
}
use mathlib.Core.List.{map}
use checkedc_icecast.Httpp.Tree.{VarTree}
use checkedc_icecast.Httpp.Vars.{value_of}
use checkedc_icecast.Util.Path.{util_get_extension}
use checkedc_icecast.Fserve.{fserve_content_type, or_basic}
use checkedc_icecast.Fserve.MimeTypes.{
  insert_mapping, add_mapping, add_mappings, read_lines, fserve_recheck_mime_types,
}
use checkedc_icecast.Fserve.MimeTypes.Lines.{Entry, IsType, AreExts, render, mime_line-render}

unfoldable pub lists : List Bytes → Bytes → Bool
lists [] j = false
lists (ext ∷ exts) j = bytes_eq ext j || lists exts j

-- The type of an extension by the last line that lists it, and else `old`.
unfoldable pub last_type : List Entry → Bytes → Option Bytes → Option Bytes
last_type [] j old = old
last_type (e ∷ es) j old = last_type es j (if lists (e.ext ∷ e.exts) j then some e.type else old)

value_if :
    (b : Bool) (type : Bytes) (o p : Option (Option Bytes))
    → (b ≡ false → o ≡ p)
    → value_of (if b then some (some type) else o) ≡ (if b then some type else value_of p)
unfolding value_of
value_if true type o p h = refl
value_if false type o p h = ap value_of (h refl)

in_either :
    (a b : Bool) (x y : Option Bytes)
    → (if b then x else (if a then x else y)) ≡ (if a || b then x else y)
in_either true true x y = refl
in_either true false x y = refl
in_either false b x y = refl

module _ (T : VarTree) where
  open T use {
    Tree, IsUnique, avl_tree_new, avl_insert, avl_delete, avl_get_by_key, get-insert, get-delete,
    insert-IsUnique, delete-IsUnique, get-new, new-IsUnique,
  }

  -- What a lookup finds behind one more mapping.
  insert_mapping-get :
      (found : Option (Option Bytes)) (ext type : Bytes) (t : Tree) (j : Bytes)
      → avl_get_by_key ext t ≡ found
      → IsUnique t
      → IsUnique (insert_mapping T found ext type t)
        × (value_of (avl_get_by_key j (insert_mapping T found ext type t))
            ≡ (if bytes_eq ext j then some type else value_of (avl_get_by_key j t)))
  unfolding insert_mapping value_of
  insert_mapping-get none ext type t j e u = (
    insert-IsUnique ext (some type) t u e,
    ap value_of (get-insert ext (some type) t j u e)
        ∙ value_if (bytes_eq ext j) type _ _ (λ b. refl),
  )
  insert_mapping-get (some old) ext type t j e u =
      let d = delete-IsUnique ext t u in
      let gone : avl_get_by_key ext (avl_delete ext t) ≡ none =
        get-delete ext t ext u ∙ if_true _ _ _ (bytes_eq_refl ext) in
      (
        insert-IsUnique ext (some type) (avl_delete ext t) d gone,
        ap value_of (get-insert ext (some type) (avl_delete ext t) j d gone)
            ∙ value_if (bytes_eq ext j) type _ _ (λ b. get-delete ext t j u ∙ if_false _ _ _ b),
      )

  add_mappings-get :
      (type : Bytes) (exts : List Bytes) (t : Tree) (j : Bytes)
      → IsUnique t
      → IsUnique (add_mappings T type exts t)
        × (value_of (avl_get_by_key j (add_mappings T type exts t))
            ≡ (if lists exts j then some type else value_of (avl_get_by_key j t)))
  unfolding add_mappings add_mapping lists
  add_mappings-get type [] t j u = (u, refl)
  add_mappings-get type (ext ∷ exts) t j u =
      let m = insert_mapping-get (avl_get_by_key ext t) ext type t j refl u in
      let r = add_mappings-get type exts (add_mapping T type ext t) j m.0 in
      (
        r.0,
        r.1
            ∙ ap (λ v. if lists exts j then some type else v) m.1
            ∙ in_either (bytes_eq ext j) (lists exts j) (some type) (value_of (avl_get_by_key j t)),
      )

  unfoldable pub AreEntries : List Entry → Type 0
  AreEntries = All (λ e. IsType e.type × AreExts (e.ext ∷ e.exts))

  read_lines-get :
      (es : List Entry) (t : Tree) (j : Bytes)
      → AreEntries es
      → IsUnique t
      → value_of (avl_get_by_key j (read_lines T (map render es) t))
        ≡ last_type es j (value_of (avl_get_by_key j t))
  unfolding read_lines last_type AreEntries render
  read_lines-get [] t j h u = refl
  read_lines-get (e ∷ es) t j h u =
      let m = mime_line-render e.type e.ext e.exts e.behind h.0.0 h.0.1 in
      let a = add_mappings-get e.type (e.ext ∷ e.exts) t j u in
      ap
        (λ m. value_of (avl_get_by_key j (read_lines T (map render es) (add_mappings T m.0 m.1 t))))
        m
      ∙ read_lines-get es (add_mappings T e.type (e.ext ∷ e.exts) t) j h.1 a.0
      ∙ ap (last_type es j) a.1

  -- Every line that fgets reads into the buffer is whole: a type, which does not begin with `#`, and
  -- extensions, each behind one space, then a newline and the NUL, whatever stands in the buffer behind the
  -- NUL. The content type of a path is that of the last line that lists the extension of the path, and the
  -- basic one where no line does.
  pub content_type-last_type :
      (es : List Entry) (path : Bytes)
      → AreEntries es
      → fserve_content_type T (some (fserve_recheck_mime_types T (map render es))) path
        ≡ or_basic (last_type es (util_get_extension path) none) (util_get_extension path)
  unfolding fserve_content_type fserve_recheck_mime_types value_of
  content_type-last_type es path h =
      let ext = util_get_extension path in
      ap (λ type. or_basic type ext)
        (read_lines-get es avl_tree_new ext h new-IsUnique
          ∙ ap (λ found. last_type es ext (value_of found)) (get-new ext))
