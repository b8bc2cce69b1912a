-- ===== src/Tests/Htpasswd.antt =====
-- src/auth_htpasswd.c at a concrete file of users.
use checkedc_icecast.Httpp.Request.{before}
use checkedc_icecast.Base.{
  ◌≡◌, refl, true, false, List, [], ◌∷◌, some, arith, Bytes, codes, All, str_chr, bytes_eq,
}
use checkedc_icecast.Htpasswd.{
  auth_ok, auth_failed, auth_user_added, auth_user_deleted, HtpasswdState, Disk, htpasswd_auth,
  htpasswd_adduser, htpasswd_deleteuser, load_users, get_hash, auth_named, check_user,
  htpasswd_recheckfile, recheck_named, check_pass, add_entry, add_named, add_to, add_absent,
  delete_named, delete_from,
}
use checkedc_icecast.Htpasswd.Entries.{read_user}
use checkedc_icecast.Util.Url.{util_bin_to_hex, high_digit, low_digit}
use checkedc_icecast.Htpasswd.Tree.{Users, list_users, find_user}
use checkedc_icecast.Htpasswd.Lines.{IsFileLine, render_file}
use checkedc_icecast.Htpasswd.Users.{InSync, loaded, adduser-auth}
use checkedc_icecast.Htpasswd.Deleting.{others, deleteuser-auth}

-- A digest of one byte.
abbrev digest : Bytes → Bytes
digest password = 171 ∷ []

abbrev entries : List Bytes
entries = codes "joe:ab" ∷ codes "ann:cd" ∷ []

entries-IsFileLine : All IsFileLine entries
entries-IsFileLine = omega arith

abbrev disk : Disk
disk = record {
  file = some (render_file entries);
  file_mtime = 1;
  readable = true;
  appendable = true;
  tmp_exists = false;
  tmp_writable = true;
  removable = true;
  renamable = true;
}

abbrev state : HtpasswdState Users
state = record {
  filename = some (codes "users");
  users = some (loaded list_users digest entries);
  mtime = 1;
}

state-InSync : InSync list_users digest disk state entries
state-InSync = record {
  lines = entries-IsFileLine;
  file = refl;
  readable = refl;
  users = refl;
  same_time = refl;
}

joe_logs_in :
    (htpasswd_auth list_users digest disk state (some (codes "joe")) (some (codes "x"))).0 ≡ auth_ok
unfolding htpasswd_auth loaded auth_named check_user htpasswd_recheckfile recheck_named check_pass
    find_user load_users add_entry read_user str_chr bytes_eq before get_hash util_bin_to_hex
    high_digit low_digit
joe_logs_in = refl

sue_added :
    (htpasswd_adduser list_users digest 2 disk state (codes "sue") (codes "y")).0 ≡ auth_user_added
unfolding htpasswd_adduser add_named add_to htpasswd_recheckfile recheck_named add_absent find_user
    loaded load_users add_entry read_user str_chr bytes_eq before
sue_added = refl

joe_deleted :
    (htpasswd_deleteuser list_users digest 2 disk state (codes "joe")).0 ≡ auth_user_deleted
unfolding htpasswd_deleteuser delete_named delete_from
joe_deleted = refl

adduser-auth_example :
    (htpasswd_auth list_users digest
      (htpasswd_adduser list_users digest 2 disk state (codes "sue") (codes "y")).2
      (htpasswd_adduser list_users digest 2 disk state (codes "sue") (codes "y")).1
      (some (codes "sue"))
      (some (codes "y"))).0
    ≡ auth_ok
unfolding get_hash util_bin_to_hex high_digit low_digit
adduser-auth_example =
    adduser-auth list_users digest 2 disk state entries (codes "sue") (codes "y") state-InSync
      (omega arith) (omega arith) (omega arith) sue_added

deleteuser-auth_example :
    ((htpasswd_deleteuser list_users digest 2 disk state (codes "joe")).2.file
      ≡ some (render_file (others (codes "joe") entries)))
    × ((htpasswd_auth list_users digest
          (htpasswd_deleteuser list_users digest 2 disk state (codes "joe")).2
          (htpasswd_deleteuser list_users digest 2 disk state (codes "joe")).1
          (some (codes "joe"))
          (some (codes "x"))).0
        ≡ auth_failed)
deleteuser-auth_example =
    deleteuser-auth list_users digest 2 disk state entries (codes "joe") (codes "x")
      entries-IsFileLine refl refl refl (omega arith) joe_deleted
