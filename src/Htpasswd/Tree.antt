-- ===== src/Htpasswd/Tree.antt =====
-- src/avl/avl.h as auth_htpasswd.c uses it: a tree of users ordered by name. The avl library is another
-- project's, so it is a parameter: its operations and what its callers rely on.
use checkedc_icecast.Base.{
  ◌≡◌, refl, false, List, [], ◌∷◌, Option, none, some, if◌then◌else◌, Bytes, bytes_eq,
  bytes_eq_refl,
}

pub record UserTree : Type 1 where
  pub Tree : Type 0
  pub avl_tree_new : Tree
  pub avl_insert : Bytes → Bytes → Tree → Tree
  pub avl_get_by_key : Bytes → Tree → Option Bytes
  pub get-new : (name : Bytes) → avl_get_by_key name avl_tree_new ≡ none
  pub get-insert :
      (name pass : Bytes) (t : Tree)
      → avl_get_by_key name t ≡ none
      → avl_get_by_key name (avl_insert name pass t) ≡ some pass
  pub insert_other :
      (name pass : Bytes) (t : Tree) (other : Bytes)
      → bytes_eq name other ≡ false
      → avl_get_by_key other t ≡ none
      → avl_get_by_key other (avl_insert name pass t) ≡ none

-- An association list meets the interface.
abbrev pub Users : Type 0
Users = List (Bytes × Bytes)

unfoldable pub find_user : Bytes → Users → Option Bytes
find_user name [] = none
find_user name ((user, pass) ∷ t) = if bytes_eq user name then some pass else find_user name t

pub find-new : (name : Bytes) → find_user name [] ≡ none
unfolding find_user
find-new name = refl

pub find-insert : (name pass : Bytes) (t : Users) → find_user name ((name, pass) ∷ t) ≡ some pass
unfolding find_user
find-insert name pass t = rw (bytes_eq_refl name) refl

pub find_other :
    (name pass : Bytes) (t : Users) (other : Bytes)
    → bytes_eq name other ≡ false
    → find_user other t ≡ none
    → find_user other ((name, pass) ∷ t) ≡ none
unfolding find_user
find_other name pass t other e h = rw e h

abbrev pub list_users : UserTree
list_users = record {
  Tree = Users;
  avl_tree_new = [];
  avl_insert = λ name pass t. (name, pass) ∷ t;
  avl_get_by_key = find_user;
  get-new = find-new;
  get-insert = λ name pass t h. find-insert name pass t;
  insert_other = find_other;
}
