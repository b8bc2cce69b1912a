-- ===== src/Stats/Tree.antt =====
-- src/avl/avl.h as stats.c uses it: a tree of entries ordered by name. The avl library is another project's, so it
-- is a parameter: its operations and what its callers rely on. `find` is the walk down its links, `alter` a write
-- through the pointer to an entry, `each` a write to every entry. `IsUnique` says that no two entries have one name.
use mathlib.Core.Option.{map}
use checkedc_icecast.Base.{
  ◌≡◌, refl, List, [], ◌∷◌, Option, none, some, arith, if◌then◌else◌, Bytes, bytes_eq,
  bytes_eq_sound, bytes_eq_refl,
}

pub record NodeTree (V : Type 0) : Type 1 where
  pub Tree : Type 0
  pub avl_tree_new : Tree
  pub avl_insert : Bytes → V → Tree → Tree
  pub avl_delete : Bytes → Tree → Tree
  pub find : Bytes → Tree → Option V
  pub alter : Bytes → (V → V) → Tree → Tree
  pub each : (V → V) → Tree → Tree
  pub IsUnique : Tree → Type 0
  pub new-IsUnique : IsUnique avl_tree_new
  pub insert-IsUnique :
      (k : Bytes) (v : V) (t : Tree) → IsUnique t → find k t ≡ none → IsUnique (avl_insert k v t)
  pub delete-IsUnique : (k : Bytes) (t : Tree) → IsUnique t → IsUnique (avl_delete k t)
  pub alter-IsUnique : (k : Bytes) (f : V → V) (t : Tree) → IsUnique t → IsUnique (alter k f t)
  pub each-IsUnique : (f : V → V) (t : Tree) → IsUnique t → IsUnique (each f t)
  pub find-new : (k : Bytes) → find k avl_tree_new ≡ none
  pub find-insert :
      (k : Bytes) (v : V) (t : Tree) (j : Bytes)
      → IsUnique t
      → find k t ≡ none
      → find j (avl_insert k v t) ≡ (if bytes_eq k j then some v else find j t)
  pub find-delete :
      (k : Bytes) (t : Tree) (j : Bytes)
      → IsUnique t
      → find j (avl_delete k t) ≡ (if bytes_eq k j then none else find j t)
  pub find-alter :
      (k : Bytes) (f : V → V) (t : Tree) (j : Bytes)
      → IsUnique t
      → find j (alter k f t) ≡ (if bytes_eq k j then map f (find j t) else find j t)
  pub find-each : (f : V → V) (t : Tree) (j : Bytes) → find j (each f t) ≡ map f (find j t)

-- An association list meets the interface.
module _ {V : Type 0} where
  unfoldable pub find_in : Bytes → List (Bytes × V) → Option V
  find_in k [] = none
  find_in k ((j, v) ∷ t) = let rest = find_in k t in if bytes_eq j k then some v else rest

  unfoldable pub drop_in : Bytes → List (Bytes × V) → List (Bytes × V)
  drop_in k [] = []
  drop_in k ((j, v) ∷ t) = let rest = drop_in k t in if bytes_eq j k then rest else (j, v) ∷ rest

  unfoldable pub alter_in : Bytes → (V → V) → List (Bytes × V) → List (Bytes × V)
  alter_in k f [] = []
  alter_in k f ((j, v) ∷ t) = (j, if bytes_eq j k then f v else v) ∷ alter_in k f t

  unfoldable pub each_in : (V → V) → List (Bytes × V) → List (Bytes × V)
  each_in f [] = []
  each_in f ((j, v) ∷ t) = (j, f v) ∷ each_in f t

  pub find-drop :
      (k : Bytes) (t : List (Bytes × V)) (j : Bytes)
      → find_in j (drop_in k t) ≡ (if bytes_eq k j then none else find_in j t)
  unfolding find_in drop_in
  find-drop k [] j = ground arith
  find-drop k ((i, v) ∷ t) j = ground (
    arith,
    find-drop k t j,
    bytes_eq_sound i k,
    bytes_eq_sound k j,
    bytes_eq_sound i j,
    bytes_eq_refl j,
  )

  pub find-altered :
      (k : Bytes) (f : V → V) (t : List (Bytes × V)) (j : Bytes)
      → find_in j (alter_in k f t) ≡ (if bytes_eq k j then map f (find_in j t) else find_in j t)
  unfolding find_in alter_in
  find-altered k f [] j = ground arith
  find-altered k f ((i, v) ∷ t) j = ground (
    arith,
    find-altered k f t j,
    bytes_eq_sound i k,
    bytes_eq_sound k j,
    bytes_eq_sound i j,
    bytes_eq_refl j,
  )

  pub find-eached :
      (f : V → V) (t : List (Bytes × V)) (j : Bytes) → find_in j (each_in f t) ≡ map f (find_in j t)
  unfolding find_in each_in
  find-eached f [] j = refl
  find-eached f ((i, v) ∷ t) j = ground (arith, find-eached f t j)

  pub find-nothing : (k : Bytes) → find_in k [] ≡ none
  unfolding find_in
  find-nothing k = refl

  pub find-here :
      (k : Bytes) (v : V) (t : List (Bytes × V)) (j : Bytes)
      → find_in j ((k, v) ∷ t) ≡ (if bytes_eq k j then some v else find_in j t)
  unfolding find_in
  find-here k v t j = refl

  abbrev pub list_nodes : NodeTree V
  list_nodes = record {
    Tree = List (Bytes × V);
    avl_tree_new = [];
    avl_insert = λ k v t. (k, v) ∷ t;
    avl_delete = drop_in;
    find = find_in;
    alter = alter_in;
    each = each_in;
    IsUnique = λ t. Unit {0};
    new-IsUnique = tt;
    insert-IsUnique = λ k v t u e. tt;
    delete-IsUnique = λ k t u. tt;
    alter-IsUnique = λ k f t u. tt;
    each-IsUnique = λ f t u. tt;
    find-new = find-nothing;
    find-insert = λ k v t j u e. find-here k v t j;
    find-delete = λ k t j u. find-drop k t j;
    find-alter = λ k f t j u. find-altered k f t j;
    find-each = λ f t j. find-eached f t j;
  }
