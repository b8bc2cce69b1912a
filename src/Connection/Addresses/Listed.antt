-- ===== src/Connection/Addresses/Listed.antt =====
-- src/connection.c: the answer to an address in terms of the lines of the two files.
use checkedc_icecast.Base.{
  ℕ, ◌≡◌, refl, ap, ◌∙◌, inl, inr, Bool, true, false, List, [], ◌∷◌, Option, none, some, ◌==◌, ltb,
  if◌then◌else◌, Bytes, bytes_eq, Bool-cases,
}
use checkedc_icecast.Htpasswd.Entries.{file_lines}
use checkedc_icecast.Connection.Addresses.{
  AddressTree, ListFile, CacheFileContents, add_line, read_addresses, load_file, check_file,
  recheck, recheck_ip_file, avl_box_get_by_key, answer_if, is_allowed, is_accepted,
  accept_ip_address,
}

-- Whether a line that is no comment is the address.
pub is_line : Bytes → Bytes → Bool
is_line ip [] = false
is_line ip (c ∷ line) = if c == b'#' then false else bytes_eq (c ∷ line) ip

pub is_listed : Bytes → List Bytes → Bool
is_listed ip [] = false
is_listed ip (line ∷ lines) =
    let rest = is_listed ip lines in if is_line ip line then true else rest

-- Whether an address is found.
found : Option Bytes → Bool
found none = false
found (some ip) = true

found_if :
    (b : Bool) (ip : Bytes) (o : Option Bytes)
    → found (if b then some ip else o) ≡ (if b then true else found o)
unfolding found
found_if true ip o = refl
found_if false ip o = refl

if_either :
    (a b x : Bool)
    → (if a then true else if b then true else x) ≡ (if (if b then true else a) then true else x)
if_either true true x = refl
if_either true false x = refl
if_either false true x = refl
if_either false false x = refl

-- The answer for the lines of a list of banned and of a list of allowed addresses; where it is `none`, the server
-- reads through a NULL pointer.
pub answers : Option (List Bytes) → Option (List Bytes) → Bytes → Option Bool
answers (some banned) allowed ip = if is_listed ip banned then some false else none
answers none (some allowed) ip = if is_listed ip allowed then some true else none
answers none none ip = some true

answer_if-found :
    (answer : Bool) (o : Option Bytes)
    → answer_if answer o ≡ (if found o then some answer else none)
unfolding answer_if found
answer_if-found answer none = refl
answer_if-found answer (some ip) = refl

if_listed : (b : Bool) → (if b then true else false) ≡ b
if_listed true = refl
if_listed false = refl

module _ (T : AddressTree) where
  open T use {Tree, avl_tree_new, avl_insert, avl_get_by_key, get-new, get-insert}

  add_line-found :
      (ip line : Bytes) (t : Tree)
      → found (avl_get_by_key ip (add_line T line t))
        ≡ (if is_line ip line then true else found (avl_get_by_key ip t))
  unfolding add_line is_line found
  add_line-found ip [] t = refl
  add_line-found ip (c ∷ line) t = elim (Bool-cases (c == b'#')) [
    | inl e ↦ rw e refl
    | inr e ↦
        rw e
          (ap found (get-insert (c ∷ line) t ip) ∙ found_if (bytes_eq (c ∷ line) ip) (c ∷ line) _)
  ]

  read_addresses-found :
      (ip : Bytes) (lines : List Bytes) (t : Tree)
      → found (avl_get_by_key ip (read_addresses T lines t))
        ≡ (if is_listed ip lines then true else found (avl_get_by_key ip t))
  unfolding read_addresses is_listed
  read_addresses-found ip [] t = refl
  read_addresses-found ip (line ∷ lines) t =
      read_addresses-found ip lines (add_line T line t)
      ∙ ap (λ b. if is_listed ip lines then true else b) (add_line-found ip line t)
      ∙ if_either (is_listed ip lines) (is_line ip line) _

  -- A list that was read, or none.
  unfoldable pub Holds : CacheFileContents T → Option (List Bytes) → Type 0
  Holds cache none = cache.contents ≡ none
  Holds cache (some lines) = cache.contents ≡ some (read_addresses T lines avl_tree_new)

  -- The list that is in force behind recheck_ip_file: none without a name; what the file holds now where it has another
  -- time; and what was read before where it is too early, or the file cannot be asked or opened, or has the same time.
  pub data InForce (now : ℕ) (file : ListFile) (cache : CacheFileContents T)
      : Option (List Bytes) → Type 0 where
    unnamed :
        ltb now cache.file_recheck ≡ false → cache.filename ≡ none → InForce now file cache none
    read_in :
        (name : Bytes) (time : ℕ) (text : Bytes)
        → ltb now cache.file_recheck ≡ false
        → cache.filename ≡ some name
        → file.st_mtime ≡ some time
        → (time == cache.file_mtime) ≡ false
        → file.text ≡ some text
        → InForce now file cache (some (file_lines text))
    too_early :
        (lines : Option (List Bytes))
        → ltb now cache.file_recheck ≡ true
        → Holds cache lines
        → InForce now file cache lines
    missing :
        (name : Bytes) (lines : Option (List Bytes))
        → ltb now cache.file_recheck ≡ false
        → cache.filename ≡ some name
        → file.st_mtime ≡ none
        → Holds cache lines
        → InForce now file cache lines
    unchanged :
        (name : Bytes) (time : ℕ) (lines : Option (List Bytes))
        → ltb now cache.file_recheck ≡ false
        → cache.filename ≡ some name
        → file.st_mtime ≡ some time
        → (time == cache.file_mtime) ≡ true
        → Holds cache lines
        → InForce now file cache lines
    unreadable :
        (name : Bytes) (time : ℕ) (lines : Option (List Bytes))
        → ltb now cache.file_recheck ≡ false
        → cache.filename ≡ some name
        → file.st_mtime ≡ some time
        → (time == cache.file_mtime) ≡ false
        → file.text ≡ none
        → Holds cache lines
        → InForce now file cache lines

  -- The contents decide whether a list is held.
  same-Holds :
      (a b : CacheFileContents T) (lines : Option (List Bytes))
      → b.contents ≡ a.contents
      → Holds a lines
      → Holds b lines
  unfolding Holds
  same-Holds a b none e h = e ∙ h
  same-Holds a b (some lines) e h = e ∙ h

  recheck-Holds :
      (now : ℕ) (file : ListFile) (cache : CacheFileContents T) (lines : Option (List Bytes))
      → InForce now file cache lines
      → Holds (recheck_ip_file T now file cache) lines
  unfolding recheck_ip_file recheck check_file load_file Holds
  recheck-Holds now file cache none (unnamed due name) = rw due (rw name refl)
  recheck-Holds now file cache _ (read_in name time text due named stat new opened) =
      rw due (rw named (rw stat (rw new (rw opened refl))))
  recheck-Holds now file cache _ (too_early lines early h) =
      same-Holds cache (recheck_ip_file T now file cache) lines (rw early refl) h
  recheck-Holds now file cache _ (missing name lines due named stat h) =
      same-Holds cache (recheck_ip_file T now file cache) lines (rw due (rw named (rw stat refl))) h
  recheck-Holds now file cache _ (unchanged name time lines due named stat same h) =
      same-Holds cache (recheck_ip_file T now file cache) lines
        (rw due (rw named (rw stat (rw same refl)))) h
  recheck-Holds now file cache _ (unreadable name time lines due named stat new shut h) =
      same-Holds cache (recheck_ip_file T now file cache) lines
        (rw due (rw named (rw stat (rw new (rw shut refl))))) h

  read-found :
      (ip : Bytes) (lines : List Bytes)
      → found (avl_get_by_key ip (read_addresses T lines avl_tree_new)) ≡ is_listed ip lines
  unfolding found
  read-found ip lines =
      read_addresses-found ip lines avl_tree_new
      ∙ ap (λ o. if is_listed ip lines then true else found o) (get-new ip)
      ∙ if_listed (is_listed ip lines)

  box-listed :
      (answer : Bool) (ip : Bytes) (lines : List Bytes)
      → answer_if answer (avl_box_get_by_key T (read_addresses T lines avl_tree_new) ip)
        ≡ (if is_listed ip lines then some answer else none)
  unfolding avl_box_get_by_key
  box-listed answer ip lines =
      answer_if-found answer _ ∙ ap (λ b. if b then some answer else none) (read-found ip lines)

  accepted-answers :
      (a b : CacheFileContents T) (banned allowed : Option (List Bytes)) (ip : Bytes)
      → Holds a banned
      → Holds b allowed
      → is_accepted T a.contents b.contents ip ≡ answers banned allowed ip
  unfolding is_accepted is_allowed answers Holds
  accepted-answers a b (some banned) allowed ip h k = rw h (box-listed false ip banned)
  accepted-answers a b none (some allowed) ip h k = rw h (rw k (box-listed true ip allowed))
  accepted-answers a b none none ip h k = rw h (rw k refl)

  -- With the lists in force, accept_ip_address refuses an address on the list of banned ones; accepts one that is on
  -- the list of allowed ones if there is no list of banned ones; accepts every address if there is no list; and reads
  -- through a NULL pointer for every other address.
  pub accept_ip-answers :
      (now : ℕ) (ban_file allow_file : ListFile) (banned_ip allowed_ip : CacheFileContents T)
      (banned allowed : Option (List Bytes)) (ip : Bytes)
      → InForce now ban_file banned_ip banned
      → InForce now allow_file allowed_ip allowed
      → (accept_ip_address T now ban_file allow_file banned_ip allowed_ip ip).0
        ≡ answers banned allowed ip
  unfolding accept_ip_address
  accept_ip-answers now ban_file allow_file banned_ip allowed_ip banned allowed ip h k =
      accepted-answers (recheck_ip_file T now ban_file banned_ip)
        (recheck_ip_file T now allow_file allowed_ip) banned allowed ip
        (recheck-Holds now ban_file banned_ip banned h)
        (recheck-Holds now allow_file allowed_ip allowed k)
