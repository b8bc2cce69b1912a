-- ===== src/Connection/Dispatch/Sources.antt =====
-- src/connection.c: which requests start a source.
use checkedc_icecast.Base.{◌≡◌, Bool, ◌∷◌, some, Bytes}
use checkedc_icecast.Config.{MountProxy, normal, config_find_mount}
use checkedc_icecast.Connection.Passwords.{Shows}
use checkedc_icecast.Connection.Dispatch.{
  ServerConfig, Handled, starts_source, source_user, source_pass,
}
use checkedc_icecast.Httpp.Tree.{VarTree}
use checkedc_icecast.Httpp.Vars.{HttpParser}
use checkedc_icecast.Util.Path.Traversal.{Traverses}

module _ (T : VarTree) (fnmatch : Bytes → Bytes → Bool) (stream_auth : MountProxy → Bool) where
  open T use {Tree}

  -- The request shows the password of the mount, or else the server's.
  pub record IsEntitled (config : ServerConfig) (parser : HttpParser Tree) (uri : Bytes)
      : Type 0 where
    pub password : Bytes
    pub is_set :
        source_pass
          (config_find_mount fnmatch config.mounts (some uri) normal)
          config.source_password
        ≡ some password
    pub shown :
        Shows T config.access.ice_login parser
          (source_user (config_find_mount fnmatch config.mounts (some uri) normal))
          password

  -- It begins with `/` and has no component between two separators that is empty or made of dots only.
  abbrev pub IsConfined : Bytes → Type 0
  IsConfined uri = (r : Bytes) × (uri ≡ b'/' ∷ r) × (¬ Traverses uri)

  abbrev Allowed : ServerConfig → Handled Tree → Type 0
  Allowed config (starts_source parser uri body) = IsEntitled config parser uri × IsConfined uri
  Allowed config _ = Unit
