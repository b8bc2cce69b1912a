-- ===== src/Htpasswd/Users.antt =====
-- src/auth_htpasswd.c: who can log in after a user was added or deleted.
use checkedc_icecast.Base.{
  ℕ, ◌≡◌, ◌≢◌, refl, sym, ap, ◌∙◌, inl, inr, true, List, [], ◌∷◌, ◌++◌, arith, Option, none, some,
  Bool-cases, Bytes, bytes_eq_refl, All, All-append, append_assoc,
}
use checkedc_icecast.Httpp.Request.Words.{Lacks, before-cut, str_chr-cut}
use checkedc_icecast.Htpasswd.Tree.{UserTree}
use checkedc_icecast.Htpasswd.{
  Outcome, auth_ok, auth_user_added, HtpasswdState, Disk, append_text, get_hash, add_entry,
  load_users, reread, recheck_named, htpasswd_recheckfile, check_pass, check_user, auth_named,
  htpasswd_auth, entry_line, add_absent, add_to, add_named, htpasswd_adduser,
}
use checkedc_icecast.Htpasswd.Entries.{read_user, cut_entry}
use checkedc_icecast.Htpasswd.Lines.{IsFileLine, render_file, file_lines-render, render-append}

-- A name that the file can hold: not empty, no comment, no colon.
abbrev pub IsName : Bytes → Type 0
IsName [] = ⊥
IsName (c ∷ s) = (c ≢ b'#') × Lacks b':' (c ∷ s)

read_user-entry :
    (name pass : Bytes) → IsName name → read_user (name ++ b':' ∷ pass) ≡ some (name, pass)
unfolding read_user cut_entry
read_user-entry [] pass h = absurd h
read_user-entry (c ∷ s) pass h =
    rw (str_chr-cut b':' (c ∷ s) pass h.1, before-cut b':' (c ∷ s) pass h.1) (ground arith)

module _ (T : UserTree) (md5 : Bytes → Bytes) where
  open T use {Tree, avl_tree_new, avl_insert, avl_get_by_key, get-new, get-insert, insert_other}

  load_users-append :
      (ls : List Bytes) (l : Bytes) (t : Tree)
      → load_users T md5 (ls ++ l ∷ []) t ≡ add_entry T md5 (read_user l) (load_users T md5 ls t)
  unfolding load_users
  load_users-append [] l t = refl
  load_users-append (m ∷ ls) l t = load_users-append ls l _

  unfoldable pub loaded : List Bytes → Tree
  loaded ls = load_users T md5 ls avl_tree_new

  -- The server has read the file's lines, and the file has not changed since.
  pub record InSync (d : Disk) (s : HtpasswdState Tree) (ls : List Bytes) : Type 0 where
    pub lines : All IsFileLine ls
    pub file : d.file ≡ some (render_file ls)
    pub readable : d.readable ≡ true
    pub users : s.users ≡ some (loaded ls)
    pub same_time : s.mtime ≡ d.file_mtime

  pub sync_recheck :
      (d : Disk) (s : HtpasswdState Tree) (ls : List Bytes)
      → InSync d s ls
      → (f : Option Bytes) → recheck_named T md5 d s f ≡ s
  unfolding recheck_named reread
  sync_recheck d s ls y none = refl
  sync_recheck d s ls y (some f) = rw (y.file) (ground (arith, y.same_time))

  -- The state once a changed file was read.
  unfoldable pub read_anew : Disk → HtpasswdState Tree → List Bytes → HtpasswdState Tree
  read_anew d s ls = record s { users = some (loaded ls); mtime = d.file_mtime }

  pub changed_recheck :
      (d : Disk) (s : HtpasswdState Tree) (ls : List Bytes) (o : Option Bytes) (f : Bytes)
      → All IsFileLine ls
      → d.file ≡ some (render_file ls)
      → d.readable ≡ true
      → d.file_mtime ≢ s.mtime
      → o ≡ some f
      → recheck_named T md5 d s o ≡ read_anew d s ls
  unfolding recheck_named reread read_anew loaded
  changed_recheck d s ls none f l e r n g = cc
  changed_recheck d s ls (some f) _ l e r n g = rw (e, file_lines-render ls l) (ground arith)

  pub auth_read :
      (d : Disk) (s r : HtpasswdState Tree) (o : Option Bytes) (f name password : Bytes)
      → o ≡ some f
      → htpasswd_recheckfile T md5 d s ≡ r
      → (auth_named T md5 d s name password o).0 ≡ check_user T md5 r.users name password
  unfolding auth_named
  auth_read d s r none f name password g e = cc
  auth_read d s r (some f) _ name password g e = ap (λ q. check_user T md5 q.users name password) e

  -- Who can log in after that.
  changed_auth :
      (d : Disk) (s : HtpasswdState Tree) (ls : List Bytes) (f name password : Bytes)
      → All IsFileLine ls
      → d.file ≡ some (render_file ls)
      → d.readable ≡ true
      → d.file_mtime ≢ s.mtime
      → s.filename ≡ some f
      → (htpasswd_auth T md5 d s (some name) (some password)).0
        ≡ check_pass T md5 (avl_get_by_key name (loaded ls)) password
  unfolding htpasswd_auth htpasswd_recheckfile read_anew check_user
  changed_auth d s ls f name password l e r n g =
      auth_read d s (read_anew d s ls) s.filename f name password g
        (changed_recheck d s ls s.filename f l e r n g)

  -- What a call that adds the user returns.
  added_outcome : ℕ → Disk → HtpasswdState Tree → Bytes → Bytes → Outcome T md5
  added_outcome now d s name password = (
    auth_user_added,
    s,
    record d {
      file = some (append_text d.file (entry_line T md5 name password));
      file_mtime = now;
    },
  )

  absent-added :
      (now : ℕ) (d : Disk) (s : HtpasswdState Tree) (name password : Bytes) (o : Option Bytes)
      → (add_absent T md5 now d s name password o).0 ≡ auth_user_added
      → (o ≡ none)
        × (add_absent T md5 now d s name password o ≡ added_outcome now d s name password)
  unfolding add_absent added_outcome
  absent-added now d s name password none h = elim (Bool-cases d.appendable) [
    | inl e ↦ (refl, rw e refl)
    | inr e ↦ absurd (ground arith)
  ]
  absent-added now d s name password (some pass) h = absurd cc

  named-added :
      (now : ℕ) (d : Disk) (s : HtpasswdState Tree) (ls : List Bytes) (name password : Bytes)
      → InSync d s ls
      → (o : Option Bytes) → (add_named T md5 now d s name password o).0 ≡ auth_user_added
      → ((f : Bytes) × (o ≡ some f))
        × (avl_get_by_key name (loaded ls) ≡ none)
        × (add_named T md5 now d s name password o ≡ added_outcome now d s name password)
  unfolding add_named htpasswd_recheckfile add_to
  named-added now d s ls name password y none h = absurd cc
  named-added now d s ls name password y (some f) h =
      let e : add_named T md5 now d s name password (some f)
          ≡ add_absent T md5 now d s name password (avl_get_by_key name (loaded ls)) =
        ap (λ r. add_to T md5 now d r name password r.users) (sync_recheck d s ls y s.filename)
        ∙ ap (add_to T md5 now d s name password) y.users in
      let c = absent-added now d s name password _ (ap (λ r. r.0) (sym e) ∙ h) in
      ((f, refl), c.0, e ∙ c.1)

  -- The line that adding a user writes.
  user_line : Bytes → Bytes → Bytes
  user_line name password = name ++ b':' ∷ get_hash T md5 password

  file_after :
      (ls : List Bytes) (name password : Bytes) (o : Option Bytes)
      → o ≡ some (render_file ls)
      → append_text o (entry_line T md5 name password)
        ≡ render_file (ls ++ user_line name password ∷ [])
  unfolding append_text entry_line user_line
  file_after ls name password none e = cc
  file_after ls name password (some content) e =
      let hash = get_hash T md5 password in
      let same : content ≡ render_file ls = ground arith in
      rw (same, ← append_assoc name (b':' ∷ hash) (b'\n' ∷ []))
        (render-append ls (user_line name password))

  login_after :
      (ls : List Bytes) (name password : Bytes)
      → IsName name
      → avl_get_by_key name (loaded ls) ≡ none
      → check_pass T md5
          (avl_get_by_key name (loaded (ls ++ user_line name password ∷ [])))
          password
        ≡ auth_ok
  unfolding check_pass loaded add_entry user_line
  login_after ls name password n g =
      rw
        (
          load_users-append ls (user_line name password) avl_tree_new,
          read_user-entry name (get_hash T md5 password) n,
          get-insert name (get_hash T md5 password) (loaded ls) g,
          bytes_eq_refl (get_hash T md5 password),
        )
        refl

  -- Where the server has read the file, every line of the file ends in a newline and has less than 511 bytes
  -- and no line end or NUL inside, and the file has not changed since, a user that it adds can log in with
  -- the password once the file's time is another: for a name that is not empty, has no colon and begins with
  -- no `#`, and a new line of less than 511 bytes with no line end or NUL inside.
  pub adduser-auth :
      (now : ℕ) (d : Disk) (s : HtpasswdState Tree) (ls : List Bytes) (name password : Bytes)
      → InSync d s ls
      → IsName name
      → IsFileLine (name ++ b':' ∷ get_hash T md5 password)
      → now ≢ d.file_mtime
      → (htpasswd_adduser T md5 now d s name password).0 ≡ auth_user_added
      → (htpasswd_auth T md5
          (htpasswd_adduser T md5 now d s name password).2
          (htpasswd_adduser T md5 now d s name password).1
          (some name)
          (some password)).0
        ≡ auth_ok
  unfolding htpasswd_adduser added_outcome user_line
  adduser-auth now d s ls name password y n k t h =
      let c = named-added now d s ls name password y s.filename h in
      let line = user_line name password in
      let d2 : Disk = record d {
        file = some (append_text d.file (entry_line T md5 name password));
        file_mtime = now;
      } in
      ap (λ r. (htpasswd_auth T md5 r.2 r.1 (some name) (some password)).0) c.2
      ∙ changed_auth d2 s (ls ++ line ∷ []) c.0.0 name password
          (All-append IsFileLine ls (line ∷ []) y.lines (k, tt))
          (ap some (file_after ls name password d.file y.file)) y.readable
          (λ e. t (e ∙ y.same_time)) c.0.1
      ∙ login_after ls name password n c.1
