-- ===== src/Htpasswd/Deleting.antt =====
-- src/auth_htpasswd.c: what deleting a user leaves in the file.
use checkedc_icecast.Base.{
  ℕ, ◌≡◌, ◌≢◌, refl, ap, ◌∙◌, inl, inr, Bool, true, false, not, List, [], ◌∷◌, ◌++◌, arith, Option,
  none, some, if◌then◌else◌, Bool-cases, Bytes, bytes_eq, bytes_eq_sym, All, append_assoc,
}
use checkedc_icecast.Htpasswd.Tree.{UserTree}
use checkedc_icecast.Htpasswd.{
  Outcome, auth_failed, auth_user_deleted, HtpasswdState, Disk, move_tmp, add_entry, load_users,
  htpasswd_recheckfile, check_pass, check_user, htpasswd_auth, delete_from, delete_named,
  htpasswd_deleteuser,
}
use checkedc_icecast.Htpasswd.Entries.{file_lines, read_user, copy_entry, copy_others}
use checkedc_icecast.Htpasswd.Lines.{IsFileLine, render_file, file_lines-render}
use checkedc_icecast.Htpasswd.Users.{
  InSync, loaded, sync_recheck, read_anew, changed_recheck, auth_read,
}

-- Whether a line holds a user of another name.
abbrev keeps : Bytes → Option (Bytes × Bytes) → Bool
keeps name none = false
keeps name (some (user, pass)) = not (bytes_eq name user)

-- The lines of the other users.
pub others : Bytes → List Bytes → List Bytes
others name [] = []
others name (l ∷ ls) =
    let rest = others name ls in if keeps name (read_user l) then l ∷ rest else rest

copy_entry-keeps :
    (name l : Bytes) (o : Option (Bytes × Bytes)) (ls : List Bytes)
    → copy_entry name l o ++ render_file ls ≡ render_file (if keeps name o then l ∷ ls else ls)
unfolding copy_entry render_file
copy_entry-keeps name l none ls = refl
copy_entry-keeps name l (some (user, pass)) ls = elim (Bool-cases (bytes_eq name user)) [
  | inl e ↦ rw e refl
  | inr e ↦ rw e (append_assoc l (b'\n' ∷ []) (render_file ls))
]

copy_others-render :
    (name : Bytes) (ls : List Bytes) → copy_others name ls ≡ render_file (others name ls)
unfolding copy_others others render_file
copy_others-render name [] = refl
copy_others-render name (l ∷ ls) =
    ap (λ t. copy_entry name l (read_user l) ++ t) (copy_others-render name ls)
    ∙ copy_entry-keeps name l (read_user l) (others name ls)

others-IsFileLine :
    (name : Bytes) (ls : List Bytes) → All IsFileLine ls → All IsFileLine (others name ls)
unfolding others
others-IsFileLine name [] h = tt
others-IsFileLine name (l ∷ ls) h = elim (Bool-cases (keeps name (read_user l))) [
  | inl e ↦ rw e (h.0, others-IsFileLine name ls h.1)
  | inr e ↦ rw e (others-IsFileLine name ls h.1)
]

module _ (T : UserTree) (md5 : Bytes → Bytes) where
  open T use {Tree, avl_tree_new, avl_insert, avl_get_by_key, get-new, insert_other}

  still_absent :
      (name : Bytes) (o : Option (Bytes × Bytes)) (t : Tree)
      → keeps name o ≡ true
      → avl_get_by_key name t ≡ none
      → avl_get_by_key name (add_entry T md5 o t) ≡ none
  unfolding add_entry
  still_absent name none t k h = h
  still_absent name (some (user, pass)) t k h =
      insert_other user pass t name (bytes_eq_sym user name ∙ ground arith) h

  others-absent :
      (name : Bytes) (ls : List Bytes) (t : Tree)
      → avl_get_by_key name t ≡ none
      → avl_get_by_key name (load_users T md5 (others name ls) t) ≡ none
  unfolding load_users others
  others-absent name [] t h = h
  others-absent name (l ∷ ls) t h = elim (Bool-cases (keeps name (read_user l))) [
    | inl e ↦ rw e (others-absent name ls _ (still_absent name (read_user l) t e h))
    | inr e ↦ rw e (others-absent name ls t h)
  ]

  -- The files once the new one took the old one's place.
  replaced : ℕ → Disk → Bytes → List Bytes → Disk
  replaced now d name ls = record d { file = some (render_file (others name ls)); file_mtime = now }

  move_tmp-replaced :
      (now : ℕ) (d : Disk) (name : Bytes) (ls : List Bytes)
      → All IsFileLine ls
      → d.removable ≡ true
      → d.renamable ≡ true
      → move_tmp now d (copy_others name (file_lines (render_file ls))) ≡ replaced now d name ls
  unfolding move_tmp replaced
  move_tmp-replaced now d name ls l r n =
      rw (file_lines-render ls l, copy_others-render name ls) (ground arith)

  -- The three tests before the file is written anew.
  passed :
      (readable exists writable : Bool) (s : HtpasswdState Tree) (d : Disk) (r : Outcome T md5)
      → (if readable
          then (if exists then (auth_failed, s, d) else if writable then r else (auth_failed, s, d))
          else (auth_failed, s, d)).0
        ≡ auth_user_deleted
      → (readable ≡ true)
        × ((if readable
              then (if exists
                  then (auth_failed, s, d)
                  else if writable
                  then r
                  else (auth_failed, s, d))
              else (auth_failed, s, d))
            ≡ r)
  passed true false true s d r h = (refl, refl)
  passed true true writable s d r h = absurd cc
  passed true false false s d r h = absurd cc
  passed false exists writable s d r h = absurd cc

  -- What a call that deletes the user returns.
  deleted_outcome : Disk → HtpasswdState Tree → Outcome T md5
  deleted_outcome moved s = (auth_user_deleted, htpasswd_recheckfile T md5 moved s, moved)

  from-deleted :
      (now : ℕ) (d : Disk) (s : HtpasswdState Tree) (name : Bytes) (ls : List Bytes)
      (o : Option Bytes)
      → o ≡ some (render_file ls)
      → (delete_from T md5 now d s name o).0 ≡ auth_user_deleted
      → (d.readable ≡ true)
        × (delete_from T md5 now d s name o
            ≡ deleted_outcome (move_tmp now d (copy_others name (file_lines (render_file ls)))) s)
  unfolding delete_from deleted_outcome
  from-deleted now d s name ls none e h = absurd cc
  from-deleted now d s name ls (some c) e h =
      let p = passed d.readable d.tmp_exists d.tmp_writable s d _ h in
      let same : c ≡ render_file ls = ground arith in
      (
        p.0,
        p.1 ∙ ap (λ x. deleted_outcome (move_tmp now d (copy_others name (file_lines x))) s) same,
      )

  named-deleted :
      (now : ℕ) (d : Disk) (s : HtpasswdState Tree) (name : Bytes) (ls : List Bytes)
      (o : Option Bytes) (users : Option Tree)
      → d.file ≡ some (render_file ls)
      → (delete_named T md5 now d s name o users).0 ≡ auth_user_deleted
      → ((f : Bytes) × (o ≡ some f))
        × (d.readable ≡ true)
        × (delete_named T md5 now d s name o users
            ≡ deleted_outcome (move_tmp now d (copy_others name (file_lines (render_file ls)))) s)
  unfolding delete_named
  named-deleted now d s name ls none users e h = absurd cc
  named-deleted now d s name ls (some f) none e h = absurd cc
  named-deleted now d s name ls (some f) (some users) e h =
      let c = from-deleted now d s name ls d.file e h in ((f, refl), c.0, c.1)

  refused_after :
      (d : Disk) (s : HtpasswdState Tree) (ls : List Bytes) (f name password : Bytes)
      → All IsFileLine ls
      → d.file ≡ some (render_file (others name ls))
      → d.readable ≡ true
      → d.file_mtime ≢ s.mtime
      → s.filename ≡ some f
      → (htpasswd_auth T md5 d (htpasswd_recheckfile T md5 d s) (some name) (some password)).0
        ≡ auth_failed
  unfolding htpasswd_auth htpasswd_recheckfile check_user check_pass loaded read_anew
  refused_after d s ls f name password l e r n g =
      let s2 = read_anew T md5 d s (others name ls) in
      let fresh =
        changed_recheck T md5 d s (others name ls) s.filename f (others-IsFileLine name ls l) e r n
          g in
      let sync : InSync T md5 d s2 (others name ls) = record {
        lines = others-IsFileLine name ls l;
        file = e;
        readable = r;
        users = refl;
        same_time = refl;
      } in
      ap (λ q. (htpasswd_auth T md5 d q (some name) (some password)).0) fresh
      ∙ auth_read T md5 d s2 s2 s.filename f name password g
          (sync_recheck T md5 d s2 _ sync s.filename)
      ∙ ap (λ q. check_pass T md5 q password) (others-absent name ls avl_tree_new (get-new name))

  -- Where a user is deleted from a file of lines of less than 511 bytes and the new file takes the old
  -- one's place, that file holds the lines of the other users, in order, and the deleted name cannot
  -- log in any more, whatever the password, if the new file's time is not the one last read.
  pub deleteuser-auth :
      (now : ℕ) (d : Disk) (s : HtpasswdState Tree) (ls : List Bytes) (name password : Bytes)
      → All IsFileLine ls
      → d.file ≡ some (render_file ls)
      → d.removable ≡ true
      → d.renamable ≡ true
      → now ≢ s.mtime
      → (htpasswd_deleteuser T md5 now d s name).0 ≡ auth_user_deleted
      → ((htpasswd_deleteuser T md5 now d s name).2.file ≡ some (render_file (others name ls)))
        × ((htpasswd_auth T md5
              (htpasswd_deleteuser T md5 now d s name).2
              (htpasswd_deleteuser T md5 now d s name).1
              (some name)
              (some password)).0
            ≡ auth_failed)
  unfolding htpasswd_deleteuser deleted_outcome replaced
  deleteuser-auth now d s ls name password l e r n t h =
      let c = named-deleted now d s name ls s.filename s.users e h in
      let all : htpasswd_deleteuser T md5 now d s name
          ≡ deleted_outcome (replaced now d name ls) s =
        c.2 ∙ ap (λ m. deleted_outcome m s) (move_tmp-replaced now d name ls l r n) in
      (
        ap (λ q. q.2.file) all,
        ap (λ q. (htpasswd_auth T md5 q.2 q.1 (some name) (some password)).0) all
            ∙ refused_after (replaced now d name ls) s ls c.0.0 name password l refl c.1 t c.0.1,
      )
