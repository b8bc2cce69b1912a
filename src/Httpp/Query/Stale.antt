-- ===== src/Httpp/Query/Stale.antt =====
-- src/httpp/httpp.c: parse_query, one pair at a time; a key without a value takes the value before it.
use mathlib.Core.Path.{ap₂}
use checkedc_icecast.Base.{
  append-nil, ℕ, ◌≡◌, refl, sym, ap, ◌∙◌, true, false, [], ◌∷◌, ◌++◌, Option, none, some, arith,
  Bytes, All,
}
use checkedc_icecast.Httpp.Tree.{VarTree}
use checkedc_icecast.Httpp.Vars.{HttpParser}
use checkedc_icecast.Httpp.Query.{
  is_cut, field_text, httpp_set_query_param, set_pair, query_loop, parse_query,
}

-- A text that parse_query cuts nowhere.
abbrev pub IsField : Bytes → Type 0
IsField = All (λ c. is_cut c ≡ false)

pub field_text-cut :
    (s r : Bytes) (c : ℕ) → IsField s → is_cut c ≡ true → field_text (s ++ c ∷ r) ≡ s
unfolding field_text
field_text-cut [] r c h e = rw e
field_text-cut (d ∷ s) r c h e = rw h.0 (ap (◌∷◌ d) (field_text-cut s r c h.1 e))

pub field_text-end : (s : Bytes) → IsField s → field_text s ≡ s
unfolding field_text
field_text-end [] h = refl
field_text-end (d ∷ s) h = rw h.0 (ap (◌∷◌ d) (field_text-end s h.1))

pub amp-cut : is_cut b'&' ≡ true
unfolding is_cut
amp-cut = refl

pub eq-cut : is_cut b'=' ≡ true
unfolding is_cut
eq-cut = refl

module _ (T : VarTree) where
  open T use {Tree}

  pub loop-field :
      (p : HttpParser Tree) (key : Bytes) (val : Option Bytes) (s r : Bytes)
      → IsField s
      → query_loop T p key val (s ++ r) ≡ query_loop T p key val r
  unfolding query_loop is_cut
  loop-field p key val [] r h = refl
  loop-field p key val (c ∷ s) r h = ground (arith, loop-field p key val s r h.1)

  pub parse_query-loop :
      (p : HttpParser Tree) (s : Bytes) → parse_query T p s ≡ query_loop T p s none s
  unfolding parse_query query_loop set_pair
  parse_query-loop p [] = refl
  parse_query-loop p (c ∷ s) = refl

  pub loop-eq :
      (p : HttpParser Tree) (key : Bytes) (val : Option Bytes) (k r : Bytes)
      → IsField k
      → query_loop T p key val (k ++ b'=' ∷ r) ≡ query_loop T p key (some r) r
  unfolding query_loop
  loop-eq p key val k r h = loop-field p key val k (b'=' ∷ r) h

  pub loop-amp :
      (p : HttpParser Tree) (key : Bytes) (val : Option Bytes) (v r : Bytes)
      → IsField v
      → query_loop T p key val (v ++ b'&' ∷ r) ≡ query_loop T (set_pair T p key val) r val r
  unfolding query_loop
  loop-amp p key val v r h = loop-field p key val v (b'&' ∷ r) h

  pub loop-end :
      (p : HttpParser Tree) (key : Bytes) (val : Option Bytes) (v : Bytes)
      → IsField v
      → query_loop T p key val v ≡ set_pair T p key val
  unfolding query_loop
  loop-end p key val v h =
      ap (query_loop T p key val) (sym (append-nil v)) ∙ loop-field p key val v [] h

  pub set_pair-fields :
      (p : HttpParser Tree) (key val : Bytes) {k v : Bytes}
      → field_text key ≡ k
      → field_text val ≡ v
      → set_pair T p key (some val) ≡ httpp_set_query_param T p k v
  unfolding set_pair
  set_pair-fields p key val e f = ap₂ (httpp_set_query_param T p) e f

  -- After a pair `k=v&`, a last key `j` without `=` is set to the value of the pair before it, for
  -- texts `k`, `v` and `j` with no `&` and `=` inside.
  pub parse_query_stale :
      (p : HttpParser Tree) (k v j : Bytes)
      → IsField k
      → IsField v
      → IsField j
      → parse_query T p (k ++ b'=' ∷ (v ++ b'&' ∷ j))
        ≡ httpp_set_query_param T (httpp_set_query_param T p k v) j v
  parse_query_stale p k v j hk hv hj =
      parse_query-loop p (k ++ b'=' ∷ (v ++ b'&' ∷ j))
      ∙ loop-eq p _ none k _ hk
      ∙ loop-amp p _ _ v j hv
      ∙ loop-end _ j _ j hj
      ∙ set_pair-fields _ j (v ++ b'&' ∷ j) (field_text-end j hj)
          (field_text-cut v j b'&' hv amp-cut)
      ∙ ap (λ q. httpp_set_query_param T q j v)
          (set_pair-fields p (k ++ b'=' ∷ (v ++ b'&' ∷ j)) (v ++ b'&' ∷ j)
            (field_text-cut k (v ++ b'&' ∷ j) b'=' hk eq-cut) (field_text-cut v j b'&' hv amp-cut))
