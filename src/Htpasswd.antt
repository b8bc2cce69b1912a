-- ===== src/Htpasswd.antt =====
-- src/auth_htpasswd.c: authentication against a file of users. The file system
-- around the file is a record, with `now` for the time at which a file is written; md5 is a parameter; an
-- allocation succeeds; the listing, which writes an XML tree, is left out.
pub mod Tree
pub mod Entries
pub mod Lines
pub mod Users
pub mod Deleting
use checkedc_icecast.Base.{
  ℕ, zero, suc, ◌-◌, Bool, true, false, ◌&&◌, List, [], ◌∷◌, ◌++◌, Option, none, some, ◌==◌,
  if◌then◌else◌, Bytes, bytes_eq, c_string, str_chr,
}
use mathlib.Core.List.{map}
use checkedc_icecast.Util.Url.{util_bin_to_hex}
use checkedc_icecast.Htpasswd.Entries.{file_lines, read_user, copy_others}
use checkedc_icecast.Htpasswd.Tree.{UserTree}

-- auth_result, the values used here; `auth_fault` stands for a read through a NULL tree.
pub data AuthResult : Type 0 where
  auth_ok auth_failed auth_user_added auth_user_exists auth_user_deleted auth_fault : AuthResult

-- htpasswd_auth_state, over the type of the tree.
pub record HtpasswdState (Tree : Type 0) : Type 0 where
  pub filename : Option Bytes
  pub users : Option Tree
  pub mtime : ℕ

-- The file behind the name, NULL where there is none, and what the system lets the server do with it.
pub record Disk : Type 0 where
  pub file : Option Bytes
  pub file_mtime : ℕ
  pub readable : Bool
  pub appendable : Bool
  pub tmp_exists : Bool
  pub tmp_writable : Bool
  pub removable : Bool
  pub renamable : Bool

-- The file after a write at its end, which makes it where there is none.
unfoldable pub append_text : Option Bytes → Bytes → Bytes
append_text none text = text
append_text (some content) text = content ++ text

-- The files after remove and rename, where the new content stands in the temporary file.
unfoldable pub move_tmp : ℕ → Disk → Bytes → Disk
move_tmp now d content =
    if d.removable
    then (if d.renamable
        then record d { file = some content; file_mtime = now }
        else record d { file = none; tmp_exists = true })
    else record d { tmp_exists = true }

module _ (T : UserTree) (md5 : Bytes → Bytes) where
  open T use {Tree, avl_tree_new, avl_insert, avl_get_by_key}

  unfoldable pub get_hash : Bytes → Bytes
  get_hash password = util_bin_to_hex (md5 password)

  unfoldable pub add_entry : Option (Bytes × Bytes) → Tree → Tree
  add_entry none users = users
  add_entry (some (name, pass)) users = avl_insert name pass users

  unfoldable pub load_users : List Bytes → Tree → Tree
  load_users [] users = users
  load_users (line ∷ lines) users = load_users lines (add_entry (read_user line) users)

  unfoldable pub keep_or_new : Option Tree → Option Tree
  keep_or_new none = some avl_tree_new
  keep_or_new (some users) = some users

  -- The tests behind stat.
  unfoldable pub reread : Disk → HtpasswdState Tree → Option Bytes → HtpasswdState Tree
  reread d htpasswd none = record htpasswd { users = keep_or_new htpasswd.users }
  reread d htpasswd (some content) =
      if d.file_mtime == htpasswd.mtime
      then htpasswd
      else if d.readable
      then record htpasswd {
        users = some (load_users (file_lines content) avl_tree_new);
        mtime = d.file_mtime;
      }
      else htpasswd

  unfoldable pub recheck_named : Disk → HtpasswdState Tree → Option Bytes → HtpasswdState Tree
  unfolding reread
  recheck_named d htpasswd none = htpasswd
  recheck_named d htpasswd (some filename) = reread d htpasswd d.file

  unfoldable pub htpasswd_recheckfile : Disk → HtpasswdState Tree → HtpasswdState Tree
  htpasswd_recheckfile d htpasswd = recheck_named d htpasswd htpasswd.filename

  unfoldable pub check_pass : Option Bytes → Bytes → AuthResult
  check_pass none password = auth_failed
  check_pass (some pass) password =
      if bytes_eq pass (get_hash password) then auth_ok else auth_failed

  unfoldable pub check_user : Option Tree → Bytes → Bytes → AuthResult
  check_user none username password = auth_failed
  check_user (some users) username password = check_pass (avl_get_by_key username users) password

  unfoldable pub auth_named :
      Disk → HtpasswdState Tree → Bytes → Bytes → Option Bytes → AuthResult × HtpasswdState Tree
  auth_named d htpasswd username password none = (auth_failed, htpasswd)
  auth_named d htpasswd username password (some filename) =
      let now_read = htpasswd_recheckfile d htpasswd in
      (check_user now_read.users username password, now_read)

  unfoldable pub htpasswd_auth :
      Disk → HtpasswdState Tree → Option Bytes → Option Bytes → AuthResult × HtpasswdState Tree
  htpasswd_auth d htpasswd none password = (auth_failed, htpasswd)
  htpasswd_auth d htpasswd (some username) none = (auth_failed, htpasswd)
  htpasswd_auth d htpasswd (some username) (some password) =
      auth_named d htpasswd username password htpasswd.filename

  -- `"%s:%s\n"`
  unfoldable pub entry_line : Bytes → Bytes → Bytes
  entry_line username password = username ++ b':' ∷ (get_hash password ++ b'\n' ∷ [])

  abbrev pub Outcome : Type 0
  Outcome = AuthResult × HtpasswdState Tree × Disk

  unfoldable pub add_absent : ℕ → Disk → HtpasswdState Tree → Bytes → Bytes → Option Bytes → Outcome
  add_absent now d state username password (some pass) = (auth_user_exists, state, d)
  add_absent now d state username password none =
      if d.appendable
      then (
        auth_user_added,
        state,
        record d {
          file = some (append_text d.file (entry_line username password));
          file_mtime = now;
        },
      )
      else (auth_failed, state, d)

  unfoldable pub add_to : ℕ → Disk → HtpasswdState Tree → Bytes → Bytes → Option Tree → Outcome
  add_to now d state username password none = (auth_fault, state, d)
  add_to now d state username password (some users) =
      add_absent now d state username password (avl_get_by_key username users)

  unfoldable pub add_named : ℕ → Disk → HtpasswdState Tree → Bytes → Bytes → Option Bytes → Outcome
  add_named now d state username password none = (auth_failed, state, d)
  add_named now d state username password (some filename) =
      let now_read = htpasswd_recheckfile d state in
      add_to now d now_read username password now_read.users

  unfoldable pub htpasswd_adduser : ℕ → Disk → HtpasswdState Tree → Bytes → Bytes → Outcome
  htpasswd_adduser now d state username password =
      add_named now d state username password state.filename

  -- Behind the tests: the file is written anew without the user, and read again.
  unfoldable pub delete_from : ℕ → Disk → HtpasswdState Tree → Bytes → Option Bytes → Outcome
  delete_from now d state username none = (auth_failed, state, d)
  delete_from now d state username (some content) =
      let moved = move_tmp now d (copy_others username (file_lines content)) in
      if d.readable
      then (if d.tmp_exists
          then (auth_failed, state, d)
          else if d.tmp_writable
          then (auth_user_deleted, htpasswd_recheckfile moved state, moved)
          else (auth_failed, state, d))
      else (auth_failed, state, d)

  unfoldable pub delete_named :
      ℕ → Disk → HtpasswdState Tree → Bytes → Option Bytes → Option Tree → Outcome
  delete_named now d state username none users = (auth_failed, state, d)
  delete_named now d state username (some filename) none = (auth_failed, state, d)
  delete_named now d state username (some filename) (some users) =
      delete_from now d state username d.file

  unfoldable pub htpasswd_deleteuser : ℕ → Disk → HtpasswdState Tree → Bytes → Outcome
  htpasswd_deleteuser now d state username =
      delete_named now d state username state.filename state.users
