-- ===== src/Config/Find.antt =====
-- src/cfgfile.c: what config_find_mount finds.
use checkedc_icecast.Base.{
  ◌≡◌, ◌⊎◌, inl, inr, Bool, true, false, ◌&&◌, List, [], ◌∷◌, Option, none, some, Bool-cases, Bytes,
  All,
}
use checkedc_icecast.Config.{
  MountProxy, MountType, normal, default, same_type, stops_at, find_of_type, or_default,
  config_find_mount,
}

module _ (fnmatch : Bytes → Bytes → Bool) where
  -- The mount stands in the list behind mounts that the search passes by.
  pub data FirstOf (mount : Option Bytes) (type : MountType) (m : MountProxy)
      : List MountProxy → Type 0 where
    here :
        {mounts : List MountProxy}
        → (same_type m.mounttype type && stops_at fnmatch m mount) ≡ true
        → FirstOf mount type m (m ∷ mounts)
    there :
        {x : MountProxy} {mounts : List MountProxy}
        → (same_type x.mounttype type && stops_at fnmatch x mount) ≡ false
        → FirstOf mount type m mounts
        → FirstOf mount type m (x ∷ mounts)

  -- The search passes by every mount.
  abbrev pub NoneOf : Option Bytes → MountType → List MountProxy → Type 0
  NoneOf mount type = All (λ x. (same_type x.mounttype type && stops_at fnmatch x mount) ≡ false)

  abbrev Found : List MountProxy → Option Bytes → MountType → Option MountProxy → Type 0
  Found mounts mount type none = NoneOf mount type mounts
  Found mounts mount type (some m) = FirstOf mount type m mounts

  found-skip :
      (x : MountProxy) (mounts : List MountProxy) (mount : Option Bytes) (type : MountType)
      (o : Option MountProxy)
      → (same_type x.mounttype type && stops_at fnmatch x mount) ≡ false
      → Found mounts mount type o
      → Found (x ∷ mounts) mount type o
  found-skip x mounts mount type none e h = (e, h)
  found-skip x mounts mount type (some m) e h = there e h

  found :
      (mounts : List MountProxy) (mount : Option Bytes) (type : MountType)
      → Found mounts mount type (find_of_type fnmatch mounts mount type)
  unfolding find_of_type
  found [] mount type = tt
  found (x ∷ mounts) mount type =
      elim (Bool-cases (same_type x.mounttype type && stops_at fnmatch x mount)) [
        | inl e ↦ rw (e, find_of_type) (here e)
        | inr e ↦
            rw (e, find_of_type) (found-skip x mounts mount type _ e (found mounts mount type))
      ]

  -- What a lookup may answer: the first normal mount that fits, or, where none does, the first default
  -- mount that fits, or, where none does either, nothing.
  abbrev pub Answer : List MountProxy → Option Bytes → Option MountProxy → Type 0
  Answer mounts mount none = NoneOf mount normal mounts × NoneOf mount default mounts
  Answer mounts mount (some m) =
      FirstOf mount normal m mounts ⊎ (NoneOf mount normal mounts × FirstOf mount default m mounts)

  default_case :
      (mounts : List MountProxy) (mount : Option Bytes) (o : Option MountProxy)
      → NoneOf mount normal mounts
      → Found mounts mount default o
      → Answer mounts mount o
  default_case mounts mount none h f = (h, f)
  default_case mounts mount (some m) h f = inr (h, f)

  normal_case :
      (mounts : List MountProxy) (mount : Option Bytes) (o : Option MountProxy)
      → Found mounts mount normal o
      → Answer mounts mount (or_default fnmatch o mounts mount normal)
  unfolding or_default
  normal_case mounts mount (some m) f = inl f
  normal_case mounts mount none f = default_case mounts mount _ f (found mounts mount default)

  -- A lookup among the normal mounts answers the first normal mount that fits the name; where none
  -- does, the first default mount that fits; and nothing only where no mount of either type fits.
  pub find_mount-Answer :
      (mounts : List MountProxy) (mount : Option Bytes)
      → Answer mounts mount (config_find_mount fnmatch mounts mount normal)
  unfolding config_find_mount
  find_mount-Answer mounts mount = normal_case mounts mount _ (found mounts mount normal)
