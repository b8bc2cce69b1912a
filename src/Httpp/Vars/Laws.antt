-- ===== src/Httpp/Vars/Laws.antt =====
-- src/httpp/httpp.c: httpp_setvar, httpp_getvar and httpp_deletevar as a map from names to values.
use checkedc_icecast.Base.{
  ◌≡◌, ◌≢◌, refl, sym, ◌∙◌, ap, Bool, true, false, List, [], ◌∷◌, Option, none, some, arith,
  if◌then◌else◌, Option-cases, inl, inr, Bytes, bytes_eq, bytes_eq_refl,
}
use checkedc_icecast.Httpp.Tree.{VarTree}
use checkedc_icecast.Httpp.Vars.{
  HttpParser, value_of, httpp_getvar, put, httpp_setvar, httpp_deletevar, set_defaults,
  httpp_initialize,
}

value_of-if :
    (b : Bool) (o o' : Option (Option Bytes))
    → value_of (if b then o else o') ≡ (if b then value_of o else value_of o')
value_of-if true o o' = refl
value_of-if false o o' = refl

module _ (T : VarTree) where
  open T use {
    Tree, avl_tree_new, avl_insert, avl_get_by_key, avl_delete, IsUnique, new-IsUnique,
    insert-IsUnique, delete-IsUnique, get-new, get-insert, get-delete,
  }

  -- One entry for a name, and no entry with a NULL value.
  pub record IsClean (t : Tree) : Type 0 where
    pub unique : IsUnique t
    pub valued : (k : Bytes) → avl_get_by_key k t ≢ some none

  absent : (o : Option (Option Bytes)) → o ≢ some none → value_of o ≡ none → o ≡ none
  unfolding value_of
  absent none h e = refl
  absent (some none) h e = absurd (h refl)
  absent (some (some v)) h e = cc

  -- What a lookup sees after a value was put into a clean tree.
  put-get :
      (t : Tree) (k : Bytes) (v : Option Bytes) (j : Bytes)
      → IsClean t
      → avl_get_by_key j (put T (value_of (avl_get_by_key k t)) k v t)
        ≡ (if bytes_eq k j then some v else avl_get_by_key j t)
  unfolding put
  put-get t k v j c = elim (Option-cases (value_of (avl_get_by_key k t))) [
    | inl e ↦ rw (e, put) (get-insert k v t j c.unique (absent _ (c.valued k) e))
    | inr (old, e) ↦
        rw (e, put)
          (get-insert k v (avl_delete k t) j (delete-IsUnique k t c.unique) (gone k)
            ∙ ground (arith, get-delete k t j c.unique))
  ]
    where
      gone : (i : Bytes) → avl_get_by_key i (avl_delete i t) ≡ none
      gone i = rw (get-delete i t i c.unique, bytes_eq_refl i)

  put-IsUnique :
      (t : Tree) (k : Bytes) (v : Option Bytes)
      → IsClean t
      → IsUnique (put T (value_of (avl_get_by_key k t)) k v t)
  unfolding put
  put-IsUnique t k v c = elim (Option-cases (value_of (avl_get_by_key k t))) [
    | inl e ↦ rw (e, put) (insert-IsUnique k v t c.unique (absent _ (c.valued k) e))
    | inr (old, e) ↦
        rw (e, put)
          (insert-IsUnique k v (avl_delete k t) (delete-IsUnique k t c.unique)
            (rw (get-delete k t k c.unique, bytes_eq_refl k)))
  ]

  pub put-IsClean :
      (t : Tree) (k v : Bytes)
      → IsClean t
      → IsClean (put T (value_of (avl_get_by_key k t)) k (some v) t)
  put-IsClean t k v c = record {
    unique = put-IsUnique t k (some v) c;
    valued = λ j e.
        choose (bytes_eq k j) (avl_get_by_key j t) (c.valued j)
          (sym (put-get t k (some v) j c) ∙ e);
  }
    where
      choose :
          (b : Bool) (o : Option (Option Bytes))
          → o ≢ some none
          → (if b then some (some v) else o) ≢ some none
      choose true o h = λ e. cc
      choose false o h = h

  -- Setting a variable in a clean tree keeps it clean; the variable then reads as the new value, and
  -- every other variable as before.
  pub getvar-setvar :
      (p : HttpParser Tree) (k v j : Bytes)
      → IsClean p.vars
      → IsClean (httpp_setvar T p k (some v)).vars
        × (httpp_getvar T (httpp_setvar T p k (some v)) j
            ≡ (if bytes_eq k j then some v else httpp_getvar T p j))
  unfolding httpp_setvar httpp_getvar value_of
  getvar-setvar p k v j c = (
    put-IsClean p.vars k v c,
    ap value_of (put-get p.vars k (some v) j c) ∙ value_of-if (bytes_eq k j) _ _,
  )

  -- After a variable of a clean tree is deleted it reads as missing, and every other as before.
  getvar-deletevar :
      (p : HttpParser Tree) (k j : Bytes)
      → IsClean p.vars
      → httpp_getvar T (httpp_deletevar T p k) j
        ≡ (if bytes_eq k j then none else httpp_getvar T p j)
  unfolding httpp_deletevar httpp_getvar value_of
  getvar-deletevar p k j c =
      ap value_of (get-delete k p.vars j c.unique) ∙ value_of-if (bytes_eq k j) _ _

  new-IsClean : IsClean avl_tree_new
  new-IsClean = record {
    unique = new-IsUnique;
    valued =
        λ k e. let h : ◌≡◌ {A = Option (Option Bytes)} none (some none) = sym (get-new k) ∙ e in cc;
  }

  unset :
      (p : HttpParser Tree) (k : Bytes) → IsClean p.vars → IsClean (httpp_setvar T p k none).vars
  unfolding httpp_setvar
  unset p k c = c

  defaults-IsClean :
      (p : HttpParser Tree) (defaults : List (Bytes × Option Bytes))
      → IsClean p.vars
      → IsClean (set_defaults T p defaults).vars
  unfolding set_defaults
  defaults-IsClean p [] c = c
  defaults-IsClean p ((k, none) ∷ l) c = defaults-IsClean (httpp_setvar T p k none) l (unset p k c)
  defaults-IsClean p ((k, some v) ∷ l) c =
      defaults-IsClean (httpp_setvar T p k (some v)) l (getvar-setvar p k v k c).0

  -- A new parser's variables are clean whatever the defaults are.
  pub initialize-IsClean :
      (defaults : List (Bytes × Option Bytes)) → IsClean (httpp_initialize T defaults).vars
  unfolding httpp_initialize
  initialize-IsClean defaults = defaults-IsClean _ defaults new-IsClean
