-- ===== src/Stats/Only.antt =====
-- src/stats.c: a tree of statistics in which one entry is changed.
use mathlib.Core.Option.{map}
use checkedc_icecast.Base.{
  if_true, if_false, ◌≡◌, ◌∙◌, false, Option, none, some, Bytes, bytes_eq, bytes_eq_refl,
}
use checkedc_icecast.Stats.Tree.{NodeTree}

-- A tree with lookups that are a given one's, but for one name.
module _ (V : Type 0) (T : NodeTree V) where
  abbrev pub Only : Bytes → (Option V → Option V) → T.Tree → T.Tree → Type 0
  Only k f before after =
      (T.find k after ≡ f (T.find k before))
      × ((j : Bytes) → bytes_eq k j ≡ false → T.find j after ≡ T.find j before)

  pub insert-Only :
      (k : Bytes) (v : V) (t : T.Tree)
      → T.IsUnique t
      → T.find k t ≡ none
      → Only k (λ o. some v) t (T.avl_insert k v t)
  insert-Only k v t u e = (
    T.find-insert k v t k u e ∙ if_true _ _ _ (bytes_eq_refl k),
    λ j n. T.find-insert k v t j u e ∙ if_false _ _ _ n,
  )

  pub delete-Only :
      (k : Bytes) (t : T.Tree) → T.IsUnique t → Only k (λ o. none) t (T.avl_delete k t)
  delete-Only k t u = (
    T.find-delete k t k u ∙ if_true _ _ _ (bytes_eq_refl k),
    λ j n. T.find-delete k t j u ∙ if_false _ _ _ n,
  )

  pub alter-Only :
      (k : Bytes) (f : V → V) (t : T.Tree) → T.IsUnique t → Only k (map f) t (T.alter k f t)
  alter-Only k f t u = (
    T.find-alter k f t k u ∙ if_true _ _ _ (bytes_eq_refl k),
    λ j n. T.find-alter k f t j u ∙ if_false _ _ _ n,
  )
