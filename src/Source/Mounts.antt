-- ===== src/Source/Mounts.antt =====
-- src/source.c: the search for a mount point's source. The tree of sources is the tree of avl nodes that the
-- source walks by hand; strcmp compares bytes; locks and the configuration's reference are left out.
pub mod Ordered
pub mod Fallback
use Prim.Native.Nat.{compare, Ordering}
use checkedc_icecast.Base.{
  ℕ, zero, suc, Bool, true, false, not, ◌&&◌, ◌||◌, List, [], ◌∷◌, Option, none, some, ◌==◌,
  if◌then◌else◌, Bytes,
}
use checkedc_icecast.Base.Number.{ℤ}
use checkedc_icecast.Config.{MountProxy, normal, config_find_mount}

-- Which check_buffer function a client has.
pub data CheckBuffer : Type 0 where
  check_http check_file check_other : CheckBuffer

pub record Client : Type 0 where
  pub id : ℕ
  pub username : Option Bytes
  pub check_buffer : CheckBuffer
  pub refbuf : Option ℕ
  pub pos : ℕ
  pub intro_offset : ℤ

-- source_t, its fields that the functions here read or write; a format is its type.
pub record Source : Type 0 where
  pub mount : Bytes
  pub has_con : Bool
  pub running : Bool
  pub on_demand : Bool
  pub on_demand_req : Bool
  pub format : Option ℕ
  pub client_tree : List Client
  pub pending_tree : List Client
  pub listeners : ℕ
  pub max_listeners : ℤ
  pub fallback_when_full : Bool
  pub fallback_mount : Option Bytes

-- The sign of `strcmp (s, t)`.
unfoldable pub str_cmp : Bytes → Bytes → Ordering
str_cmp [] [] = Ordering.eq
str_cmp [] (d ∷ t) = Ordering.lt
str_cmp (c ∷ s) [] = Ordering.gt
str_cmp (c ∷ s) (d ∷ t) =
    let rest = str_cmp s t in
    elim (compare c d) [
      | Ordering.lt ↦ Ordering.lt
      | Ordering.eq ↦ rest
      | Ordering.gt ↦ Ordering.gt
    ]

pub data SourceTree : Type 0 where
  leaf : SourceTree
  node : SourceTree → Source → SourceTree → SourceTree

-- The walk from the root.
unfoldable pub find_node : SourceTree → Bytes → Option Source
find_node leaf mount = none
find_node (node l source r) mount =
    let left = find_node l mount in
    let right = find_node r mount in
    elim (str_cmp mount source.mount) [
      | Ordering.lt ↦ left
      | Ordering.gt ↦ right
      | Ordering.eq ↦ some source
    ]

unfoldable pub source_find_mount_raw : SourceTree → Option Bytes → Option Source
source_find_mount_raw tree none = none
source_find_mount_raw tree (some mount) = find_node tree mount

abbrev pub max_fallback_depth : ℕ
max_fallback_depth = 10

-- `source->running || source->on_demand`
unfoldable pub is_active : Source → Bool
is_active s = s.running || s.on_demand

-- The source itself where it is active, and NULL where there is none or it is not.
unfoldable pub active_only : Option Source → Option Source
active_only none = none
active_only (some s) = if is_active s then some s else none

-- `mountinfo->fallback_mount`, or the end of the search.
unfoldable pub fallback_of : Option MountProxy → Option Bytes
fallback_of none = none
fallback_of (some m) = m.fallback_mount

module _ (fnmatch : Bytes → Bytes → Bool) (mounts : List MountProxy) (tree : SourceTree) where
  -- The next mount to look at.
  unfoldable pub next_mount : Option Bytes → Option Bytes
  next_mount mount = fallback_of (config_find_mount fnmatch mounts mount normal)

  -- The loop, with the rounds that are left.
  unfoldable pub find_from : ℕ → Option Bytes → Option Source
  find_from zero mount = none
  find_from (suc rounds) none = none
  find_from (suc rounds) (some mount) =
      elim (active_only (source_find_mount_raw tree (some mount))) [
        | some s ↦ some s
        | none ↦ find_from rounds (next_mount (some mount))
      ]

  unfoldable pub source_find_mount : Option Bytes → Option Source
  source_find_mount mount = find_from max_fallback_depth mount
