-- ===== src/Httpp/Tree.antt =====
-- src/avl/avl.h as httpp.c uses it: a tree of variables ordered by name. The avl library is another
-- project's, so it is a parameter: its operations and what its callers rely on. An entry's value may be a
-- NULL pointer. `IsUnique` says that no two entries of a tree have one name.
use checkedc_icecast.Base.{
  ◌≡◌, refl, List, [], ◌∷◌, Option, none, some, arith, if◌then◌else◌, Bytes, bytes_eq,
  bytes_eq_sound, bytes_eq_refl,
}

pub record VarTree : Type 1 where
  pub Tree : Type 0
  pub avl_tree_new : Tree
  pub avl_insert : Bytes → Option Bytes → Tree → Tree
  pub avl_get_by_key : Bytes → Tree → Option (Option Bytes)
  pub avl_delete : Bytes → Tree → Tree
  pub IsUnique : Tree → Type 0
  pub new-IsUnique : IsUnique avl_tree_new
  pub insert-IsUnique :
      (k : Bytes) (v : Option Bytes) (t : Tree)
      → IsUnique t
      → avl_get_by_key k t ≡ none
      → IsUnique (avl_insert k v t)
  pub delete-IsUnique : (k : Bytes) (t : Tree) → IsUnique t → IsUnique (avl_delete k t)
  pub get-new : (k : Bytes) → avl_get_by_key k avl_tree_new ≡ none
  pub get-insert :
      (k : Bytes) (v : Option Bytes) (t : Tree) (j : Bytes)
      → IsUnique t
      → avl_get_by_key k t ≡ none
      → avl_get_by_key j (avl_insert k v t) ≡ (if bytes_eq k j then some v else avl_get_by_key j t)
  pub get-delete :
      (k : Bytes) (t : Tree) (j : Bytes)
      → IsUnique t
      → avl_get_by_key j (avl_delete k t) ≡ (if bytes_eq k j then none else avl_get_by_key j t)

-- An association list meets the interface.
abbrev pub Entries : Type 0
Entries = List (Bytes × Option Bytes)

unfoldable pub find_entry : Bytes → Entries → Option (Option Bytes)
find_entry k [] = none
find_entry k ((j, v) ∷ t) = if bytes_eq j k then some v else find_entry k t

unfoldable pub drop_entries : Bytes → Entries → Entries
drop_entries k [] = []
drop_entries k ((j, v) ∷ t) =
    let rest = drop_entries k t in if bytes_eq j k then rest else (j, v) ∷ rest

pub find-drop :
    (k : Bytes) (t : Entries) (j : Bytes)
    → find_entry j (drop_entries k t) ≡ (if bytes_eq k j then none else find_entry j t)
unfolding find_entry drop_entries
find-drop k [] j = ground arith
find-drop k ((i, v) ∷ t) j = ground (
  arith,
  find-drop k t j,
  bytes_eq_sound i k,
  bytes_eq_sound k j,
  bytes_eq_sound i j,
  bytes_eq_refl j,
)

pub find-new : (k : Bytes) → find_entry k [] ≡ none
unfolding find_entry
find-new k = refl

pub find-insert :
    (k : Bytes) (v : Option Bytes) (t : Entries) (j : Bytes)
    → find_entry j ((k, v) ∷ t) ≡ (if bytes_eq k j then some v else find_entry j t)
unfolding find_entry
find-insert k v t j = refl

abbrev pub list_tree : VarTree
list_tree = record {
  Tree = Entries;
  avl_tree_new = [];
  avl_insert = λ k v t. (k, v) ∷ t;
  avl_get_by_key = find_entry;
  avl_delete = drop_entries;
  IsUnique = λ t. Unit {0};
  new-IsUnique = tt;
  insert-IsUnique = λ k v t u e. tt;
  delete-IsUnique = λ k t u. tt;
  get-new = find-new;
  get-insert = λ k v t j u e. find-insert k v t j;
  get-delete = λ k t j u. find-drop k t j;
}
