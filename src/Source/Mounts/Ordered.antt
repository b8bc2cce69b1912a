-- ===== src/Source/Mounts/Ordered.antt =====
-- src/source.c: the walk of source_find_mount_raw in an ordered tree.
use Prim.Native.Nat.{Ordering}
use mathlib.Core.Path.{subst}
use checkedc_icecast.Base.{◌≡◌, refl, ap, ◌∙◌, ◌↔◌, [], ◌∷◌, Option, none, some, arith, Bytes}
use checkedc_icecast.Source.Mounts.{
  Source, SourceTree, leaf, node, str_cmp, find_node, source_find_mount_raw,
}

pub str_cmp-eq : (s t : Bytes) → str_cmp s t ≡ Ordering.eq → s ≡ t
unfolding str_cmp
str_cmp-eq [] [] h = refl
str_cmp-eq [] (d ∷ t) h = cc
str_cmp-eq (c ∷ s) [] h = cc
str_cmp-eq (c ∷ s) (d ∷ t) h = ground (arith, str_cmp-eq s t)

pub str_cmp_refl : (s : Bytes) → str_cmp s s ≡ Ordering.eq
unfolding str_cmp
str_cmp_refl [] = refl
str_cmp_refl (c ∷ s) = ground (arith, str_cmp_refl s)

-- The source stands in the tree.
pub data InTree (s : Source) : SourceTree → Type 0 where
  at_root : {l r : SourceTree} → InTree s (node l s r)
  at_left : {l r : SourceTree} {x : Source} → InTree s l → InTree s (node l x r)
  at_right : {l r : SourceTree} {x : Source} → InTree s r → InTree s (node l x r)

-- Every name in the left subtree compares below the root's, every name in the right one above it.
pub data IsOrdered : SourceTree → Type 0 where
  leaf_ordered : IsOrdered leaf
  node_ordered :
      {l r : SourceTree} {x : Source}
      → IsOrdered l
      → IsOrdered r
      → ((s : Source) → InTree s l → str_cmp s.mount x.mount ≡ Ordering.lt)
      → ((s : Source) → InTree s r → str_cmp s.mount x.mount ≡ Ordering.gt)
      → IsOrdered (node l x r)

-- In an ordered tree the walk finds every source of the tree by its mount.
pub find_node-InTree :
    {tree : SourceTree} (s : Source)
    → IsOrdered tree
    → InTree s tree
    → find_node tree s.mount ≡ some s
unfolding find_node
find_node-InTree s leaf_ordered i = elim i [ ]
find_node-InTree s (node_ordered {l} {r} {x} ol or below above) at_root =
    rw (str_cmp_refl s.mount, find_node)
find_node-InTree s (node_ordered {l} {r} {x} ol or below above) (at_left i) =
    rw (below s i, find_node) (find_node-InTree s ol i)
find_node-InTree s (node_ordered {l} {r} {x} ol or below above) (at_right i) =
    rw (above s i, find_node) (find_node-InTree s or i)

-- What the walk finds stands in the tree and has the mount asked for, in any tree.
abbrev Fits : SourceTree → Bytes → Option Source → Type 0
Fits tree mount none = Unit
Fits tree mount (some s) = InTree s tree × (mount ≡ s.mount)

Fits-left :
    (l r : SourceTree) (x : Source) (mount : Bytes) (o : Option Source)
    → Fits l mount o
    → Fits (node l x r) mount o
Fits-left l r x mount none f = tt
Fits-left l r x mount (some s) f = (at_left f.0, f.1)

Fits-right :
    (l r : SourceTree) (x : Source) (mount : Bytes) (o : Option Source)
    → Fits r mount o
    → Fits (node l x r) mount o
Fits-right l r x mount none f = tt
Fits-right l r x mount (some s) f = (at_right f.0, f.1)

find_node-Fits : (tree : SourceTree) (mount : Bytes) → Fits tree mount (find_node tree mount)
unfolding find_node
find_node-Fits leaf mount = tt
find_node-Fits (node l x r) mount =
    by_order (find_node-Fits l mount) (find_node-Fits r mount) (str_cmp mount x.mount) refl
  where
    by_order :
        Fits l mount (find_node l mount)
        → Fits r mount (find_node r mount)
        → (o : Ordering) → str_cmp mount x.mount ≡ o
        → Fits (node l x r) mount (find_node (node l x r) mount)
    by_order fl fr Ordering.lt e = rw (e, find_node) (Fits-left l r x mount _ fl)
    by_order fl fr Ordering.gt e = rw (e, find_node) (Fits-right l r x mount _ fr)
    by_order fl fr Ordering.eq e = rw (e, find_node) (at_root, str_cmp-eq mount x.mount e)

pub find_node_sound :
    (tree : SourceTree) (mount : Bytes) (s : Source)
    → find_node tree mount ≡ some s
    → InTree s tree × (mount ≡ s.mount)
find_node_sound tree mount s h = subst (Fits tree mount) h (find_node-Fits tree mount)

-- In an ordered tree the walk from the root finds exactly the source of the tree that has the mount
-- asked for.
pub find_mount_raw-InTree :
    (tree : SourceTree) (mount : Bytes) (s : Source)
    → IsOrdered tree
    → (source_find_mount_raw tree (some mount) ≡ some s) ↔ (InTree s tree × (mount ≡ s.mount))
unfolding source_find_mount_raw
find_mount_raw-InTree tree mount s o =
    (find_node_sound tree mount s, λ i. ap (find_node tree) i.1 ∙ find_node-InTree s o i.0)
