-- ===== src/Config/Defaults/Found.antt =====
-- src/cfgfile.c: the default mount that the merge finds, and what it makes of a mount.
use checkedc_icecast.Base.{
  ◌≡◌, refl, ◌⊎◌, inl, inr, Bool, true, false, ◌&&◌, List, [], ◌∷◌, Option, none, some, Bool-cases,
  Bytes, bytes_eq, All, ap, ◌∙◌, ◌||◌,
}
use checkedc_icecast.Config.{
  MountProxy, MountType, normal, default, same_type, stops_at, find_of_type, or_default,
  config_find_mount, merge_mounts,
}
use checkedc_icecast.Config.Defaults.{
  merge-Inherits, Fits, Misses, IsOut, First, here, there, Merged, alone, inherits,
}

pub type-cases : (t : MountType) → (t ≡ normal) ⊎ (t ≡ default)
type-cases normal = inl refl
type-cases default = inr refl

module _ (fnmatch : Bytes → Bytes → Bool) where
  -- The tests of one round, on a mount of the list.
  data Tested (mount : Option Bytes) (x : MountProxy) : Type 0 where
    fits :
        x.mounttype ≡ default
        → Fits fnmatch x.mountname mount
        → (same_type x.mounttype default && stops_at fnmatch x mount) ≡ true
        → Tested mount x
    out :
        IsOut fnmatch mount x
        → (same_type x.mounttype default && stops_at fnmatch x mount) ≡ false
        → Tested mount x

  stopped_by :
      (name : Option Bytes) (type : MountType) (mount : Bytes)
      → type ≡ default
      → ((elim name as (λ _. Bool) [
        | none ↦ true
        | some name ↦ (same_type type normal && bytes_eq name mount) || fnmatch name mount
      ]
            ≡ true)
          × Fits fnmatch name (some mount))
        ⊎ ((elim name as (λ _. Bool) [
          | none ↦ true
          | some name ↦ (same_type type normal && bytes_eq name mount) || fnmatch name mount
        ]
              ≡ false)
            × Misses fnmatch name (some mount))
  unfolding same_type Fits Misses
  stopped_by none type mount t = inl (refl, tt)
  stopped_by (some name) normal mount t = absurd cc
  stopped_by (some name) default mount t = elim (Bool-cases (fnmatch name mount)) [
    | inl e ↦ inl (e, e)
    | inr e ↦ inr (e, e)
  ]

  stopped :
      (x : MountProxy) (mount : Option Bytes)
      → x.mounttype ≡ default
      → ((stops_at fnmatch x mount ≡ true) × Fits fnmatch x.mountname mount)
        ⊎ ((stops_at fnmatch x mount ≡ false) × Misses fnmatch x.mountname mount)
  unfolding stops_at Fits
  stopped x none t = inl (refl, tt)
  stopped x (some mount) t = stopped_by x.mountname x.mounttype mount t

  tested : (mount : Option Bytes) (x : MountProxy) → Tested mount x
  unfolding same_type IsOut
  tested mount x = elim (type-cases x.mounttype) [
    | inl n ↦ out (inl n) (ap (λ t. same_type t default && stops_at fnmatch x mount) n)
    | inr d ↦ elim (stopped x mount d) [
      | inl (s, f) ↦ fits d f (ap (λ t. same_type t default && stops_at fnmatch x mount) d ∙ s)
      | inr (s, f) ↦ out (inr f) (ap (λ t. same_type t default && stops_at fnmatch x mount) d ∙ s)
    ]
  ]

  -- What a search for a default mount answers.
  pub Answers : List MountProxy → Option Bytes → Option MountProxy → Type 0
  Answers ms mount none = All (IsOut fnmatch mount) ms
  Answers ms mount (some d) = First fnmatch mount d ms

  passed :
      (x : MountProxy) (ms : List MountProxy) (mount : Option Bytes) (o : Option MountProxy)
      → IsOut fnmatch mount x
      → Answers ms mount o
      → Answers (x ∷ ms) mount o
  unfolding Answers
  passed x ms mount none i a = (i, a)
  passed x ms mount (some d) i a = there i a

  find-Answers :
      (ms : List MountProxy) (mount : Option Bytes)
      → Answers ms mount (find_of_type fnmatch ms mount default)
  unfolding find_of_type Answers
  find-Answers [] mount = tt
  find-Answers (x ∷ ms) mount = elim (tested mount x) [
    | fits d f e ↦ rw (e, find_of_type) (here d f)
    | out i e ↦ rw (e, find_of_type) (passed x ms mount _ i (find-Answers ms mount))
  ]

  no_default :
      (o : Option MountProxy) (ms : List MountProxy) (mount : Option Bytes)
      → or_default fnmatch o ms mount default ≡ o
  unfolding or_default
  no_default none ms mount = refl
  no_default (some d) ms mount = refl

  pub find_default-Answers :
      (ms : List MountProxy) (mount : Option Bytes)
      → Answers ms mount (config_find_mount fnmatch ms mount default)
  unfolding config_find_mount
  find_default-Answers ms mount =
      rw (no_default (find_of_type fnmatch ms mount default) ms mount) (find-Answers ms mount)

  pub merge-Merged :
      (all : List MountProxy) (m : MountProxy) (o : Option MountProxy)
      → m.mounttype ≡ normal
      → Answers all m.mountname o
      → Merged fnmatch all m (merge_mounts m o)
  unfolding merge_mounts Answers
  merge-Merged all m none n a = alone n a
  merge-Merged all m (some d) n a = inherits n a (merge-Inherits m d)
