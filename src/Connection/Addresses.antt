-- ===== src/Connection/Addresses.antt =====
-- src/connection.c: the lists of banned and of allowed addresses. The avl library is another project's, so it is a
-- parameter. What the system says of a list's file is an argument.
pub mod Listed
use checkedc_icecast.Base.{
  ℕ, ◌+◌, ◌≡◌, refl, Bool, true, false, List, [], ◌∷◌, Option, none, some, ◌==◌, ltb, if◌then◌else◌,
  Bytes, bytes_eq,
}
use checkedc_icecast.Htpasswd.Entries.{file_lines}

-- A tree of addresses; the walk gives the address that it found.
pub record AddressTree : Type 1 where
  pub Tree : Type 0
  pub avl_tree_new : Tree
  pub avl_insert : Bytes → Tree → Tree
  pub avl_get_by_key : Bytes → Tree → Option Bytes
  pub get-new : (ip : Bytes) → avl_get_by_key ip avl_tree_new ≡ none
  pub get-insert :
      (ip : Bytes) (t : Tree) (other : Bytes)
      → avl_get_by_key other (avl_insert ip t)
        ≡ (if bytes_eq ip other then some ip else avl_get_by_key other t)

-- A list meets the interface.
unfoldable pub find_address : Bytes → List Bytes → Option Bytes
find_address ip [] = none
find_address ip (other ∷ t) = if bytes_eq other ip then some other else find_address ip t

pub find-new : (ip : Bytes) → find_address ip [] ≡ none
unfolding find_address
find-new ip = refl

pub find-insert :
    (ip : Bytes) (t : List Bytes) (other : Bytes)
    → find_address other (ip ∷ t) ≡ (if bytes_eq ip other then some ip else find_address other t)
unfolding find_address
find-insert ip t other = refl

abbrev pub list_addresses : AddressTree
list_addresses = record {
  Tree = List Bytes;
  avl_tree_new = [];
  avl_insert = λ ip t. ip ∷ t;
  avl_get_by_key = find_address;
  get-new = find-new;
  get-insert = find-insert;
}

-- What stat and fopen give of the file of a list: its time and its text.
pub record ListFile : Type 0 where
  pub st_mtime : Option ℕ
  pub text : Option Bytes

unfoldable pub answer_if : Bool → Option Bytes → Option Bool
answer_if answer none = none
answer_if answer (some found) = some answer

module _ (T : AddressTree) where
  open T use {Tree, avl_tree_new, avl_insert, avl_get_by_key}

  pub record CacheFileContents : Type 0 where
    pub filename : Option Bytes
    pub file_recheck : ℕ
    pub file_mtime : ℕ
    pub contents : Option Tree

  unfoldable pub add_line : Bytes → Tree → Tree
  add_line [] t = t
  add_line (c ∷ line) t = if c == b'#' then t else avl_insert (c ∷ line) t

  unfoldable pub read_addresses : List Bytes → Tree → Tree
  read_addresses [] t = t
  read_addresses (line ∷ lines) t = read_addresses lines (add_line line t)

  unfoldable pub load_file : CacheFileContents → Option Bytes → CacheFileContents
  load_file cache none = cache
  load_file cache (some text) = record cache {
    contents = some (read_addresses (file_lines text) avl_tree_new);
  }

  unfoldable pub check_file : CacheFileContents → Option ℕ → Option Bytes → CacheFileContents
  check_file cache none text = cache
  check_file cache (some st_mtime) text =
      if st_mtime == cache.file_mtime
      then cache
      else load_file (record cache { file_mtime = st_mtime }) text

  unfoldable pub recheck : CacheFileContents → Option Bytes → ListFile → CacheFileContents
  recheck cache none file = record cache { contents = none }
  recheck cache (some filename) file = check_file cache file.st_mtime file.text

  unfoldable pub recheck_ip_file : ℕ → ListFile → CacheFileContents → CacheFileContents
  recheck_ip_file now file cache =
      if ltb now cache.file_recheck
      then cache
      else recheck (record cache { file_recheck = now + 10 }) cache.filename file

  -- It reads the result's box also where there is none; then there is no answer, here and below.
  unfoldable pub avl_box_get_by_key : Tree → Bytes → Option Bytes
  avl_box_get_by_key t key = avl_get_by_key key t

  unfoldable pub is_allowed : Option Tree → Bytes → Option Bool
  is_allowed none ip = some true
  is_allowed (some t) ip = answer_if true (avl_box_get_by_key t ip)

  unfoldable pub is_accepted : Option Tree → Option Tree → Bytes → Option Bool
  is_accepted none allowed ip = is_allowed allowed ip
  is_accepted (some t) allowed ip = answer_if false (avl_box_get_by_key t ip)

  unfoldable pub accept_ip_address :
      ℕ
      → ListFile
      → ListFile
      → CacheFileContents
      → CacheFileContents
      → Bytes
      → Option Bool × CacheFileContents × CacheFileContents
  accept_ip_address now ban_file allow_file banned_ip allowed_ip ip =
      let banned = recheck_ip_file now ban_file banned_ip in
      let allowed = recheck_ip_file now allow_file allowed_ip in
      (is_accepted banned.contents allowed.contents ip, banned, allowed)
