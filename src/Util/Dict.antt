-- ===== src/Util/Dict.antt =====
-- src/util.c: the key and value list of util_dict_new and its operations. A pointer to a list is the
-- list, NULL the empty one; a value handed in is a C string; an allocation succeeds, so util_dict_free
-- and the failure branches behind strdup and calloc do not show.
pub mod Lookup
use checkedc_icecast.Base.{
  ℕ, Bool, true, false, List, [], ◌∷◌, ◌++◌, Option, none, some, if◌then◌else◌, Bytes, bytes_eq,
}
use checkedc_icecast.Util.Url.{util_url_escape}

pub record DictEntry : Type 0 where
  pub key : Option Bytes
  pub val : Option Bytes

abbrev pub Dict : Type 0
Dict = List DictEntry

-- calloc leaves both pointers NULL.
unfoldable pub util_dict_new : Dict
util_dict_new = record { key = none; val = none } ∷ []

-- What util_dict_get does: strcmp reads a NULL key, or the answer, which may be a NULL value.
pub data DictReply : Type 0 where
  fault : DictReply
  answer : Option Bytes → DictReply

-- One round of the loop at a key: `rest` is what the later rounds answer.
unfoldable pub match_key : Bytes → Option Bytes → Option Bytes → DictReply → DictReply
match_key wanted none val rest = fault
match_key wanted (some key) val rest = if bytes_eq wanted key then answer val else rest

unfoldable pub util_dict_get : Dict → Bytes → DictReply
util_dict_get [] wanted = answer none
util_dict_get (e ∷ dict) wanted = match_key wanted e.key e.val (util_dict_get dict wanted)

-- The entry in which the search of util_dict_set stops: a free one, or one with the key.
unfoldable pub takes_key : Option Bytes → Bytes → Bool
takes_key none wanted = true
takes_key (some key) wanted = bytes_eq key wanted

-- The key stays, or is written where there was none; the value is replaced.
unfoldable pub write_entry : Option Bytes → Bytes → Bytes → DictEntry
write_entry none wanted val = record { key = some wanted; val = some val }
write_entry (some key) wanted val = record { key = some key; val = some val }

unfoldable pub set_from : Dict → Bytes → Bytes → Dict
unfolding takes_key write_entry
set_from [] wanted val = record { key = some wanted; val = some val } ∷ []
set_from (e ∷ dict) wanted val =
    if takes_key e.key wanted
    then write_entry e.key wanted val ∷ dict
    else e ∷ set_from dict wanted val

-- The new list and the return code, false where the source returns 0.
unfoldable pub util_dict_set : Dict → Option Bytes → Bytes → Dict × Bool
util_dict_set [] key val = ([], false)
util_dict_set (e ∷ dict) none val = (e ∷ dict, false)
util_dict_set (e ∷ dict) (some key) val = (set_from (e ∷ dict) key val, true)

-- `=` and the escaped value, if there is one.
unfoldable pub encode_value : Option Bytes → Bytes
encode_value none = []
encode_value (some val) = b'=' ∷ util_url_escape val

-- One entry appended to the result so far, NULL before the first key.
unfoldable pub encode_entry : ℕ → Option Bytes → DictEntry → Option Bytes
unfolding encode_value
encode_entry delim res e = elim e.key [
  | none ↦ res
  | some key ↦ elim res [
    | none ↦ some (key ++ encode_value e.val)
    | some text ↦ some (text ++ (delim ∷ key ++ encode_value e.val))
  ]
]

unfoldable pub urlencode_from : ℕ → Option Bytes → Dict → Option Bytes
urlencode_from delim res [] = res
urlencode_from delim res (e ∷ dict) = urlencode_from delim (encode_entry delim res e) dict

unfoldable pub util_dict_urlencode : Dict → ℕ → Option Bytes
unfolding urlencode_from
util_dict_urlencode dict delim = urlencode_from delim none dict
