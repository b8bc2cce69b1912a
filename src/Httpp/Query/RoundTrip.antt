-- ===== src/Httpp/Query/RoundTrip.antt =====
-- src/httpp/httpp.c and src/util.c: parse_query reads what util_dict_urlencode writes.
use checkedc_icecast.Base.{
  append-nil, ℕ, ◌<◌, ◌≡◌, refl, sym, ap, ◌∙◌, Bool, true, false, not, ◌&&◌, ◌||◌, List, [], ◌∷◌,
  ◌++◌, Option, none, some, arith, ◌==◌, Bool-cases, inl, inr, Bytes, IsText, All, every_below,
  holds_below, append_assoc,
}
use checkedc_icecast.Httpp.Tree.{VarTree}
use checkedc_icecast.Httpp.Vars.{HttpParser, set_query_value}
use checkedc_icecast.Httpp.Query.{
  is_cut, field_text, httpp_set_query_param, set_pair, query_loop, parse_query,
}
use checkedc_icecast.Httpp.Query.Escape.{url_escape, hex_pair, emit, decode_char}
use checkedc_icecast.Httpp.Query.Stale.{
  IsField, field_text-cut, field_text-end, parse_query-loop, loop-eq, loop-amp, loop-end,
  set_pair-fields, amp-cut, eq-cut,
}
use checkedc_icecast.Util.Url.{is_safe, high_digit, low_digit, util_url_escape}
use checkedc_icecast.Util.Dict.{
  Dict, encode_value, encode_entry, urlencode_from, util_dict_urlencode,
}

reads_as : Option ℕ → ℕ → Bool
reads_as none c = false
reads_as (some d) c = d == c

reads_as_sound : (o : Option ℕ) (c : ℕ) → reads_as o c ≡ true → o ≡ some c
unfolding reads_as
reads_as_sound none c h = cc
reads_as_sound (some d) c h = ground arith

-- How a byte's escaped form is read: a safe byte stands for itself, digits pair up, nothing is cut.
is_read_back : ℕ → Bool
is_read_back c =
    reads_as (hex_pair (high_digit c) (low_digit c)) c
    && not (is_cut (high_digit c))
    && not (is_cut (low_digit c))
    && (not (is_safe c) || not (c == b'%' || c == b'+' || c == b'#' || c == 0 || is_cut c))

read_table : every_below 256 is_read_back ≡ true
unfolding every_below is_read_back reads_as hex_pair high_digit low_digit is_safe is_cut
read_table = refl

read_back : (c : ℕ) → c < 256 → is_read_back c ≡ true
read_back c h = holds_below is_read_back c h read_table

digits_read : (c : ℕ) → c < 256 → hex_pair (high_digit c) (low_digit c) ≡ some c
unfolding is_read_back
digits_read c h = reads_as_sound _ c (ground (arith, read_back c h))

digits_uncut : (c : ℕ) → c < 256 → (is_cut (high_digit c) ≡ false) × (is_cut (low_digit c) ≡ false)
unfolding is_read_back
digits_uncut c h = ground (arith, read_back c h)

safe_uncut : (c : ℕ) → c < 256 → is_safe c ≡ true → is_cut c ≡ false
unfolding is_read_back
safe_uncut c h e = ground (arith, read_back c h)

safe_plain :
    (c : ℕ) → c < 256 → is_safe c ≡ true → (c == b'%' || c == b'+' || c == b'#' || c == 0) ≡ false
unfolding is_read_back
safe_plain c h e = ground (arith, read_back c h)

plain_read :
    (c : ℕ) (s : Bytes)
    → (c == b'%' || c == b'+' || c == b'#' || c == 0) ≡ false
    → url_escape (c ∷ s) ≡ emit c (url_escape s)
unfolding url_escape decode_char
plain_read c [] h = ground arith
plain_read c (a ∷ []) h = ground arith
plain_read c (a ∷ b ∷ s) h = ground arith

percent_read :
    (a b d : ℕ) (s : Bytes)
    → hex_pair a b ≡ some d
    → url_escape (b'%' ∷ a ∷ b ∷ s) ≡ emit d (url_escape s)
unfolding url_escape
percent_read a b d s h = rw h

-- A value that util_url_escape wrote is read back by url_escape.
pub url_escape-util_url_escape : (s : Bytes) → IsText s → url_escape (util_url_escape s) ≡ some s
unfolding util_url_escape url_escape emit
url_escape-util_url_escape [] h = refl
url_escape-util_url_escape (c ∷ s) h = elim (Bool-cases (is_safe c)) [
  | inl e ↦
      rw (
        e,
        plain_read c (util_url_escape s) (safe_plain c h.0.1 e),
        url_escape-util_url_escape s h.1,
      )
  | inr e ↦ rw (
    e,
    percent_read (high_digit c) (low_digit c) c (util_url_escape s) (digits_read c h.0.1),
    url_escape-util_url_escape s h.1,
  )
]

percent_uncut : is_cut b'%' ≡ false
unfolding is_cut
percent_uncut = refl

escape-IsField : (s : Bytes) → IsText s → IsField (util_url_escape s)
unfolding util_url_escape
escape-IsField [] h = tt
escape-IsField (c ∷ s) h = elim (Bool-cases (is_safe c)) [
  | inl e ↦ rw (e, util_url_escape) (safe_uncut c h.0.1 e, escape-IsField s h.1)
  | inr e ↦
      rw (e, util_url_escape)
        (
          percent_uncut,
          ((digits_uncut c h.0.1).0, ((digits_uncut c h.0.1).1, escape-IsField s h.1)),
        )
]

-- A dictionary whose entries all have a key and a value.
unfoldable pub dict_of : List (Bytes × Bytes) → Dict
dict_of [] = []
dict_of ((k, v) ∷ pairs) = record { key = some k; val = some v } ∷ dict_of pairs

abbrev pub IsPair : Bytes × Bytes → Type 0
IsPair x = IsField x.0 × IsText x.1

pair_text : Bytes → Bytes → Bytes
pair_text k v = k ++ b'=' ∷ util_url_escape v

-- The text behind the first pair.
tail_text : List (Bytes × Bytes) → Bytes
tail_text [] = []
tail_text ((k, v) ∷ pairs) = b'&' ∷ k ++ b'=' ∷ (util_url_escape v ++ tail_text pairs)

urlencode-tail :
    (t : Bytes) (pairs : List (Bytes × Bytes))
    → urlencode_from b'&' (some t) (dict_of pairs) ≡ some (t ++ tail_text pairs)
unfolding urlencode_from dict_of tail_text encode_entry encode_value
urlencode-tail t [] = ap some (sym (append-nil t))
urlencode-tail t ((k, v) ∷ pairs) =
    urlencode-tail (t ++ (b'&' ∷ k ++ b'=' ∷ util_url_escape v)) pairs ∙ ap some (simp append_assoc)

urlencode-pairs :
    (k v : Bytes) (pairs : List (Bytes × Bytes))
    → util_dict_urlencode (dict_of ((k, v) ∷ pairs)) b'&'
      ≡ some (k ++ b'=' ∷ (util_url_escape v ++ tail_text pairs))
unfolding util_dict_urlencode urlencode_from dict_of encode_entry encode_value
urlencode-pairs k v pairs =
    urlencode-tail (k ++ b'=' ∷ util_url_escape v) pairs ∙ ap some (simp append_assoc)

nothing_encoded : util_dict_urlencode (dict_of []) b'&' ≡ none
unfolding util_dict_urlencode urlencode_from dict_of
nothing_encoded = refl

module _ (T : VarTree) where
  open T use {Tree}

  -- Each key set to its value, in order.
  pub set_all : HttpParser Tree → List (Bytes × Bytes) → HttpParser Tree
  set_all p [] = p
  set_all p ((k, v) ∷ pairs) = set_all (set_query_value T p k (some v)) pairs

  set_escaped :
      (p : HttpParser Tree) (k v : Bytes)
      → IsText v
      → httpp_set_query_param T p k (util_url_escape v) ≡ set_query_value T p k (some v)
  unfolding httpp_set_query_param
  set_escaped p k v h = rw (url_escape-util_url_escape v h)

  value_text :
      (v : Bytes) (pairs : List (Bytes × Bytes))
      → IsText v
      → field_text (util_url_escape v ++ tail_text pairs) ≡ util_url_escape v
  unfolding tail_text
  value_text v [] h = rw append-nil (field_text-end _ (escape-IsField v h))
  value_text v (x ∷ pairs) h =
      field_text-cut (util_url_escape v) _ b'&' (escape-IsField v h) amp-cut

  -- The loop behind the `=` of a pair, with the pair's key and value in its pointers.
  pairs-loop :
      (p : HttpParser Tree) (key k v : Bytes) (pairs : List (Bytes × Bytes))
      → field_text key ≡ k
      → IsText v
      → All IsPair pairs
      → query_loop T p key
          (some (util_url_escape v ++ tail_text pairs))
          (util_url_escape v ++ tail_text pairs)
        ≡ set_all (set_query_value T p k (some v)) pairs
  unfolding set_all tail_text
  pairs-loop p key k v [] e h hs = rw append-nil (
      loop-end T p key _ (util_url_escape v) (escape-IsField v h)
      ∙ set_pair-fields T p key _ e (field_text-end _ (escape-IsField v h))
      ∙ set_escaped p k v h)
  pairs-loop p key k v ((k', v') ∷ pairs) e h hs =
      let value = util_url_escape v ++ tail_text ((k', v') ∷ pairs) in
      let next = k' ++ b'=' ∷ (util_url_escape v' ++ tail_text pairs) in
      loop-amp T p key (some value) (util_url_escape v) next (escape-IsField v h)
      ∙ loop-eq T (set_pair T p key (some value)) next (some value) k'
          (util_url_escape v' ++ tail_text pairs) hs.0.0
      ∙ pairs-loop (set_pair T p key (some value)) next k' v' pairs
          (field_text-cut k' _ b'=' hs.0.0 eq-cut) hs.0.1 hs.1
      ∙ ap (λ q. set_all (set_query_value T q k' (some v')) pairs)
          (set_pair-fields T p key value e (value_text v ((k', v') ∷ pairs) h)
            ∙ set_escaped p k v h)

  -- Parsing the text that util_dict_urlencode writes for keys without `&` and `=` and values that
  -- are C strings sets each key to its value, in order.
  pub parse_query-urlencode :
      (p : HttpParser Tree) (pairs : List (Bytes × Bytes)) (text : Bytes)
      → All IsPair pairs
      → util_dict_urlencode (dict_of pairs) b'&' ≡ some text
      → parse_query T p text ≡ set_all p pairs
  unfolding set_all
  parse_query-urlencode p [] text h e = cc nothing_encoded
  parse_query-urlencode p ((k, v) ∷ pairs) text h e =
      let value = util_url_escape v ++ tail_text pairs in
      let same : text ≡ k ++ b'=' ∷ value = cc (urlencode-pairs k v pairs) in
      rw same (
        parse_query-loop T p (k ++ b'=' ∷ value)
        ∙ loop-eq T p (k ++ b'=' ∷ value) none k value h.0.0
        ∙ pairs-loop p (k ++ b'=' ∷ value) k v pairs (field_text-cut k value b'=' h.0.0 eq-cut)
            h.0.1 h.1)
