-- ===== src/Config/Merge.antt =====
-- src/cfgfile.c: the merge of all normal mounts with their default.
use checkedc_icecast.Base.{Bool, List, if◌then◌else◌, Bytes}
use checkedc_icecast.Config.{
  MountProxy, normal, default, same_type, config_find_mount, merge_mounts,
}

module _ (fnmatch : Bytes → Bytes → Bool) where
  -- One mount with the defaults of a list that is not changed.
  with_default : List MountProxy → MountProxy → MountProxy
  with_default mounts m =
      if same_type m.mounttype normal
      then merge_mounts m (config_find_mount fnmatch mounts m.mountname default)
      else m
