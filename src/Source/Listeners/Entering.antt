-- ===== src/Source/Listeners/Entering.antt =====
-- src/source.c and src/auth.c: when a source has room, when a login is not there yet, and how a listener enters.
use checkedc_icecast.Base.{
  ℕ, zero, suc, ◌<◌, ◌≤◌, ◌≡◌, refl, sym, ap, ◌∙◌, ◌⊎◌, ◌↔◌, inl, inr, Bool, true, false, not, ◌&&◌,
  List, [], ◌∷◌, Option, none, some, Bytes, Bool-cases, if_true, if_false, arith,
}
use checkedc_icecast.Base.Number.{ℤ, pos, negsuc}
use mathlib.Core.Path.{subst}
use checkedc_icecast.Source.Mounts.{Client, Source, check_http}
use checkedc_icecast.Source.Listeners.{
  has_room, enter, is_login, find_login, check_login, check_duplicate_logins,
}
use checkedc_icecast.Source.Listeners.Logins.{logins, logins_at, none_at}

-- A negative limit is none.
abbrev pub HasRoom : Source → Type 0
HasRoom s =
    ((m : ℕ) × (s.max_listeners ≡ negsuc m))
    ⊎ ((m : ℕ) × (s.max_listeners ≡ pos m) × (s.listeners < m))

abbrev pub IsFull : Source → Type 0
IsFull s = (m : ℕ) × (s.max_listeners ≡ pos m) × (m ≤ s.listeners)

room_by :
    (s : Source) (limit : ℤ)
    → s.max_listeners ≡ limit
    → ((has_room s ≡ true) × HasRoom s) ⊎ ((has_room s ≡ false) × IsFull s)
unfolding has_room
room_by s (negsuc m) e = inl (ground arith, inl (m, e))
room_by s (pos m) e = elim (Bool-cases (has_room s)) [
  | inl h ↦ inl (h, inr (m, e, ground arith))
  | inr h ↦ inr (h, (m, e, ground arith))
]

not_both : (s : Source) → HasRoom s → IsFull s → ⊥
not_both s (inl (m, e)) (n, f, g) = absurd (cc (sym e ∙ f))
not_both s (inr (m, e, h)) (n, f, g) =
    let k : pos m ≡ pos n = sym e ∙ f in let l : m ≡ n = cc in omega (arith, h, g, l)

pub has_room-HasRoom : (s : Source) → has_room s ≡ true → HasRoom s
has_room-HasRoom s h = elim (room_by s s.max_listeners refl) [
  | inl (e, r) ↦ r
  | inr (e, r) ↦ absurd (cc (sym e ∙ h))
]

pub HasRoom-has_room : (s : Source) → HasRoom s → has_room s ≡ true
HasRoom-has_room s r = elim (room_by s s.max_listeners refl) [
  | inl (e, q) ↦ e
  | inr (e, q) ↦ absurd (not_both s r q)
]

pub has_room-IsFull : (s : Source) → has_room s ≡ false → IsFull s
has_room-IsFull s h = elim (room_by s s.max_listeners refl) [
  | inl (e, r) ↦ absurd (cc (sym e ∙ h))
  | inr (e, r) ↦ r
]

pub IsFull-has_room : (s : Source) → IsFull s → has_room s ≡ false
IsFull-has_room s r = elim (room_by s s.max_listeners refl) [
  | inl (e, q) ↦ absurd (not_both s q r)
  | inr (e, q) ↦ e
]

-- No authentication, an authenticator that allows users twice, a client without a name, or nobody of that name at
-- the source.
pub data IsAlone (source : Source) (client : Client) (allow : Option ℕ) : Type 0 where
  open_to_all : allow ≡ none → IsAlone source client allow
  twice : (n : ℕ) → allow ≡ some (suc n) → IsAlone source client allow
  nameless : client.username ≡ none → IsAlone source client allow
  first :
      (username : Bytes)
      → client.username ≡ some username
      → logins_at username source ≡ 0
      → IsAlone source client allow

logins-find_login :
    (cs : List Client) (username : Bytes) → logins username cs ≡ 0 → find_login cs username ≡ false
unfolding find_login logins
logins-find_login [] username h = refl
logins-find_login (c ∷ cs) username h = elim (Bool-cases (is_login c.username username)) [
  | inl e ↦ absurd (ground arith)
  | inr e ↦ if_false _ _ _ e ∙ logins-find_login cs username (ground arith)
]

alone_by :
    (s : Source) (client : Client) (username : Option Bytes) (allow : Option ℕ)
    → client.username ≡ username
    → check_login s username allow ≡ true
    → IsAlone s client allow
unfolding check_login
alone_by s client none allow u h = nameless u
alone_by s client (some name) none u h = open_to_all refl
alone_by s client (some name) (some (suc n)) u h = twice n refl
alone_by s client (some name) (some zero) u h = first name u (none_at s name h)

pub check_duplicate-IsAlone :
    (s : Source) (client : Client) (allow : Option ℕ)
    → check_duplicate_logins s client allow ≡ true
    → IsAlone s client allow
unfolding check_duplicate_logins
check_duplicate-IsAlone s client allow h = alone_by s client client.username allow refl h

nobody :
    (s : Source) (username : Bytes) (allow : Option ℕ)
    → logins_at username s ≡ 0
    → check_login s (some username) allow ≡ true
unfolding check_login logins_at
nobody s username none h = refl
nobody s username (some (suc n)) h = refl
nobody s username (some zero) h =
    if_false _ _ _ (logins-find_login s.client_tree username (omega (arith, h)))
    ∙ ap not (logins-find_login s.pending_tree username (omega (arith, h)))

unasked : (s : Source) (username : Option Bytes) → check_login s username none ≡ true
unfolding check_login
unasked s none = refl
unasked s (some username) = refl

allowed :
    (s : Source) (username : Option Bytes) (n : ℕ) → check_login s username (some (suc n)) ≡ true
unfolding check_login
allowed s none n = refl
allowed s (some username) n = refl

pub IsAlone-check_duplicate :
    (s : Source) (client : Client) (allow : Option ℕ)
    → IsAlone s client allow
    → check_duplicate_logins s client allow ≡ true
unfolding check_duplicate_logins check_login
IsAlone-check_duplicate s client allow (open_to_all e) =
    ap (check_login s client.username) e ∙ unasked s client.username
IsAlone-check_duplicate s client allow (twice n e) =
    ap (check_login s client.username) e ∙ allowed s client.username n
IsAlone-check_duplicate s client allow (nameless u) = ap (λ o. check_login s o allow) u
IsAlone-check_duplicate s client allow (first username u l) =
    ap (λ o. check_login s o allow) u ∙ nobody s username allow l

-- Whether the source is asked to start: one that does not run and may be started by a listener is, any other keeps what it
-- was asked for.
abbrev pub Asked : Source → Bool → Type 0
Asked t asked =
    ((t.running ≡ false) × (t.on_demand ≡ true) × (asked ≡ true))
    ⊎ (((t.running ≡ true) ⊎ (t.on_demand ≡ false)) × (asked ≡ t.on_demand_req))

module _ (avl_insert : Client → List Client → List Client) where
  -- The client, which will be sent its headers, is one more client that waits at the source.
  abbrev pub Enters : Source → Client → Source → Client → Type 0
  Enters t client s c =
      (c ≡ record client { check_buffer = check_http })
      × (asked : Bool) × Asked t asked
      × (s ≡ record t { pending_tree = avl_insert c t.pending_tree; on_demand_req = asked })

  enter_by :
      (t : Source) (client : Client) (running on_demand : Bool)
      → t.running ≡ running
      → t.on_demand ≡ on_demand
      → Enters t client (enter avl_insert t client).0 (enter avl_insert t client).1
  unfolding enter
  enter_by t client true on_demand r d =
      (refl, t.on_demand_req, inr (inl r, refl), if_false _ _ _ (ap (λ b. not b && t.on_demand) r))
  enter_by t client false true r d =
      (refl, true, inl (r, d, refl), if_true _ _ _ (ap (λ b. not b && t.on_demand) r ∙ d))
  enter_by t client false false r d = (
    refl,
    t.on_demand_req,
    inr (inr d, refl),
    if_false _ _ _ (ap (λ b. not b && t.on_demand) r ∙ d),
  )

  Asked-once : (t : Source) (a b : Bool) → Asked t a → Asked t b → a ≡ b
  Asked-once t a b (inl (r, d, e)) (inl (r', d', e')) = e ∙ sym e'
  Asked-once t a b (inl (r, d, e)) (inr (inl r', e')) = absurd (cc (sym r ∙ r'))
  Asked-once t a b (inl (r, d, e)) (inr (inr d', e')) = absurd (cc (sym d ∙ d'))
  Asked-once t a b (inr (inl r, e)) (inl (r', d', e')) = absurd (cc (sym r ∙ r'))
  Asked-once t a b (inr (inr d, e)) (inl (r', d', e')) = absurd (cc (sym d ∙ d'))
  Asked-once t a b (inr (o, e)) (inr (o', e')) = e ∙ sym e'

  Enters-once :
      (t : Source) (client : Client) (s : Source) (c : Client) (s' : Source) (c' : Client)
      → Enters t client s c
      → Enters t client s' c'
      → ◌≡◌ {A = Source × Client} (s, c) (s', c')
  Enters-once t client s c s' c' (h, a, i, k) (h', a', i', k') =
      let e : c ≡ c' = h ∙ sym h' in
      let f =
        ap (λ b. record t { pending_tree = avl_insert b t.pending_tree; on_demand_req = a }) e
        ∙ ap (λ b. record t { pending_tree = avl_insert c' t.pending_tree; on_demand_req = b })
            (Asked-once t a a' i i') in
      ap (λ z. (z, c)) (k ∙ f ∙ sym k') ∙ ap (λ z. (s', z)) e

  pub enter-Enters :
      (t : Source) (client : Client) (s : Source) (c : Client)
      → (enter avl_insert t client ≡ (s, c)) ↔ Enters t client s c
  enter-Enters t client s c = (
    λ e. subst (λ r. Enters t client r.0 r.1) e (enter_by t client t.running t.on_demand refl refl),
    λ h. Enters-once t client _ _ s c (enter_by t client t.running t.on_demand refl refl) h,
  )
