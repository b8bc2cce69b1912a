-- ===== src/Util/Dict/Lookup.antt =====
-- src/util.c: util_dict_set and util_dict_get against a map from keys to values.
use checkedc_icecast.Base.{
  ◌≡◌, refl, ◌∙◌, ap, ◌⊎◌, inl, inr, ◌≢◌, Bool, true, false, [], ◌∷◌, Option, none, some, arith,
  if◌then◌else◌, Bytes, bytes_eq, bytes_eq_refl, bytes_eq_sym, bytes_eq_sound, All,
}
use checkedc_icecast.Util.Dict.{
  Dict, util_dict_new, DictReply, answer, match_key, util_dict_get, takes_key, write_entry,
  set_from, util_dict_set,
}

-- The map that a list stands for: the first entry of a key counts, entries with no key do not.
abbrev pub view_entry : Option Bytes → Option Bytes → Bytes → Option Bytes → Option Bytes
view_entry none val wanted rest = rest
view_entry (some key) val wanted rest = if bytes_eq key wanted then val else rest

abbrev pub view : Dict → Bytes → Option Bytes
view [] wanted = none
view (e ∷ dict) wanted = view_entry e.key e.val wanted (view dict wanted)

-- Every entry has its key.
abbrev pub IsKeyed : Dict → Type 0
IsKeyed = All (λ e. e.key ≢ none)

-- A list as util_dict_new and util_dict_set leave it: with all keys, or fresh.
abbrev pub IsDict : Dict → Type 0
IsDict d = (IsKeyed d × (d ≢ [])) ⊎ (d ≡ util_dict_new)

match_key-view :
    (key val : Option Bytes) (k : Bytes) (r : DictReply) (rest : Option Bytes)
    → key ≢ none
    → r ≡ answer rest
    → match_key k key val r ≡ answer (view_entry key val k rest)
unfolding match_key
match_key-view none val k r rest h e = absurd (h refl)
match_key-view (some key) val k r rest h e = rw (bytes_eq_sym k key) (ground arith)

get-view : (d : Dict) (k : Bytes) → IsKeyed d → util_dict_get d k ≡ answer (view d k)
unfolding util_dict_get
get-view [] k h = refl
get-view (e ∷ d) k h =
    match_key-view e.key e.val k (util_dict_get d k) (view d k) h.0 (get-view d k h.1)

-- One entry, written or passed over.
entry-view :
    (key val : Option Bytes) (k v j : Bytes) (rest rest' : Option Bytes)
    → key ≢ none
    → rest' ≡ (if bytes_eq k j then some v else rest)
    → (if takes_key key k
        then view_entry (write_entry key k v).key (write_entry key k v).val j rest
        else view_entry key val j rest')
      ≡ (if bytes_eq k j then some v else view_entry key val j rest)
unfolding takes_key write_entry
entry-view none val k v j rest rest' h e = absurd (h refl)
entry-view (some key) val k v j rest rest' h e =
    ground (arith, bytes_eq_sound key k, bytes_eq_sound k j, bytes_eq_sound key j, bytes_eq_refl j)

view-if :
    (b : Bool) (d d' : Dict) (j : Bytes)
    → view (if b then d else d') j ≡ (if b then view d j else view d' j)
view-if true d d' j = refl
view-if false d d' j = refl

set_from-view :
    (d : Dict) (k v j : Bytes)
    → IsKeyed d
    → view (set_from d k v) j ≡ (if bytes_eq k j then some v else view d j)
unfolding set_from
set_from-view [] k v j h = refl
set_from-view (e ∷ d) k v j h =
    view-if (takes_key e.key k) _ _ j
    ∙ entry-view e.key e.val k v j (view d j) _ h.0 (set_from-view d k v j h.1)

write_entry-key : (key : Option Bytes) (k v : Bytes) → (write_entry key k v).key ≢ none
unfolding write_entry
write_entry-key none k v = λ e. cc
write_entry-key (some key) k v = λ e. cc

IsKeyed-if : (b : Bool) (d d' : Dict) → IsKeyed d → IsKeyed d' → IsKeyed (if b then d else d')
IsKeyed-if true d d' h h' = h
IsKeyed-if false d d' h h' = h'

set_from-IsKeyed : (d : Dict) (k v : Bytes) → IsKeyed d → IsKeyed (set_from d k v)
unfolding set_from
set_from-IsKeyed [] k v h = ((λ e. cc), tt)
set_from-IsKeyed (e ∷ d) k v h =
    IsKeyed-if (takes_key e.key k) _ _ (write_entry-key e.key k v, h.1)
      (h.0, set_from-IsKeyed d k v h.1)

fresh-view :
    (k v j : Bytes)
    → view (set_from util_dict_new k v) j ≡ (if bytes_eq k j then some v else view util_dict_new j)
unfolding util_dict_new set_from takes_key write_entry
fresh-view k v j = refl

fresh-IsKeyed : (k v : Bytes) → IsKeyed (set_from util_dict_new k v)
unfolding util_dict_new set_from takes_key write_entry
fresh-IsKeyed k v = ((λ e. cc), tt)

set-set_from :
    (d : Dict) (k v : Bytes) → d ≢ [] → util_dict_set d (some k) v ≡ (set_from d k v, true)
unfolding util_dict_set
set-set_from [] k v h = absurd (h refl)
set-set_from (e ∷ d) k v h = refl

dict-nonempty : (d : Dict) → IsDict d → d ≢ []
unfolding util_dict_new
dict-nonempty d (inl h) = h.1
dict-nonempty d (inr e) = λ n. cc

-- util_dict_set on a list that util_dict_new or it has left succeeds, and a later util_dict_get reads
-- no NULL key: it answers the new value for the key, and what the list held for any other.
pub get-set :
    (d : Dict) (k v j : Bytes)
    → IsDict d
    → ((util_dict_set d (some k) v).1 ≡ true)
      × (util_dict_get (util_dict_set d (some k) v).0 j
          ≡ answer (if bytes_eq k j then some v else view d j))
get-set d k v j h =
    rw (set-set_from d k v (dict-nonempty d h)) (refl, get-view _ j (keyed h) ∙ ap answer (shows h))
  where
    keyed : IsDict d → IsKeyed (set_from d k v)
    keyed (inl i) = set_from-IsKeyed d k v i.0
    keyed (inr e) = rw e (fresh-IsKeyed k v)

    shows : IsDict d → view (set_from d k v) j ≡ (if bytes_eq k j then some v else view d j)
    shows (inl i) = set_from-view d k v j i.0
    shows (inr e) = rw e (fresh-view k v j)
