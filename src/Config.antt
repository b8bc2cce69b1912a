-- ===== src/Config.antt =====
-- src/cfgfile.c: the mount settings, their defaults and their lookup. A list of mount_proxy is a List; an
-- `int` that is compared with -1 is an integer, the others are numbers; `auth` is copied by no function here
-- and is left out; fnmatch is libc's, a parameter; an allocation succeeds.
pub mod Find
pub mod Defaults
pub mod Merge
use checkedc_icecast.Base.{
  ℕ, Bool, true, false, ◌&&◌, ◌||◌, List, [], ◌∷◌, ◌++◌, Option, none, some, ◌==◌, if◌then◌else◌,
  Bytes, bytes_eq,
}
use checkedc_icecast.Base.Number.{ℤ, pos, negsuc, eqb_ℤ}
use checkedc_icecast.Util.Headers.{HttpHeader}

pub data MountType : Type 0 where
  normal default : MountType

pub record MountProxy : Type 0 where
  pub mountname : Option Bytes
  pub mounttype : MountType
  pub username : Option Bytes
  pub password : Option Bytes
  pub dumpfile : Option Bytes
  pub intro_filename : Option Bytes
  pub fallback_when_full : ℕ
  pub max_listeners : ℤ
  pub fallback_mount : Option Bytes
  pub fallback_override : ℕ
  pub no_mount : ℕ
  pub burst_size : ℤ
  pub queue_size_limit : ℕ
  pub hidden : ℕ
  pub source_timeout : ℕ
  pub charset : Option Bytes
  pub mp3_meta_interval : ℤ
  pub http_headers : List HttpHeader
  pub auth_type : Option Bytes
  pub cluster_password : Option Bytes
  pub on_connect : Option Bytes
  pub on_disconnect : Option Bytes
  pub max_listener_duration : ℕ
  pub stream_name : Option Bytes
  pub stream_description : Option Bytes
  pub stream_url : Option Bytes
  pub stream_genre : Option Bytes
  pub bitrate : Option Bytes
  pub mime_type : Option Bytes
  pub subtype : Option Bytes
  pub yp_public : ℤ

-- The copy of a header list stops at the first header with no name or no value, which xmlCharStrdup
-- copies to NULL.
unfoldable pub copy_from :
    Option Bytes → Option Bytes → HttpHeader → List HttpHeader → List HttpHeader
copy_from (some name) (some value) header rest = header ∷ rest
copy_from (some name) none header rest = []
copy_from none value header rest = []

unfoldable pub config_copy_http_header : List HttpHeader → List HttpHeader
unfolding copy_from
config_copy_http_header [] = []
config_copy_http_header (header ∷ headers) =
    copy_from header.name header.value header (config_copy_http_header headers)

-- `if (!dst->x) dst->x = xmlStrdup (src->x)`
unfoldable pub or_text : Option Bytes → Option Bytes → Option Bytes
or_text none src = src
or_text (some dst) src = some dst

-- `if (!dst->x) dst->x = src->x`
unfoldable pub or_number : ℕ → ℕ → ℕ
or_number dst src = if dst == 0 then src else dst

-- `if (dst->x == -1) dst->x = src->x`
unfoldable pub or_unset : ℤ → ℤ → ℤ
or_unset dst src = if eqb_ℤ dst (negsuc 0) then src else dst

unfoldable pub merge_fields : MountProxy → MountProxy → MountProxy
unfolding or_text or_number or_unset
merge_fields d s = record {
  mountname = d.mountname;
  mounttype = d.mounttype;
  username = or_text d.username s.username;
  password = or_text d.password s.password;
  dumpfile = or_text d.dumpfile s.dumpfile;
  intro_filename = or_text d.intro_filename s.intro_filename;
  fallback_when_full = or_number d.fallback_when_full s.fallback_when_full;
  max_listeners = or_unset d.max_listeners s.max_listeners;
  fallback_mount = or_text d.fallback_mount s.fallback_mount;
  fallback_override = or_number d.fallback_override s.fallback_override;
  no_mount = or_number d.no_mount s.no_mount;
  burst_size = or_unset d.burst_size s.burst_size;
  queue_size_limit = or_number d.queue_size_limit s.queue_size_limit;
  hidden = or_number d.hidden s.hidden;
  source_timeout = or_number d.source_timeout s.source_timeout;
  charset = or_text d.charset s.charset;
  mp3_meta_interval = or_unset d.mp3_meta_interval s.mp3_meta_interval;
  http_headers = d.http_headers ++ config_copy_http_header s.http_headers;
  auth_type = or_text d.auth_type s.auth_type;
  cluster_password = or_text d.cluster_password s.cluster_password;
  on_connect = or_text d.on_connect s.on_connect;
  on_disconnect = or_text d.on_disconnect s.on_disconnect;
  max_listener_duration = or_number d.max_listener_duration s.max_listener_duration;
  stream_name = or_text d.stream_name s.stream_name;
  stream_description = or_text d.stream_description s.stream_description;
  stream_url = or_text d.stream_url s.stream_url;
  stream_genre = or_text d.stream_genre s.stream_genre;
  bitrate = or_text d.bitrate s.bitrate;
  mime_type = or_text d.mime_type s.mime_type;
  subtype = or_text d.subtype s.subtype;
  yp_public = or_unset d.yp_public s.yp_public;
}

-- Nothing happens where there is no default mount.
unfoldable pub merge_mounts : MountProxy → Option MountProxy → MountProxy
merge_mounts dst none = dst
merge_mounts dst (some src) = merge_fields dst src

unfoldable pub same_type : MountType → MountType → Bool
same_type normal normal = true
same_type default default = true
same_type normal default = false
same_type default normal = false

module _ (fnmatch : Bytes → Bytes → Bool) where
  -- The tests of one round of the loop, for a mount of the wanted type.
  unfoldable pub stops_at : MountProxy → Option Bytes → Bool
  stops_at m none = true
  stops_at m (some mount) = elim m.mountname [
    | none ↦ true
    | some name ↦ (same_type m.mounttype normal && bytes_eq name mount) || fnmatch name mount
  ]

  unfoldable pub find_of_type : List MountProxy → Option Bytes → MountType → Option MountProxy
  find_of_type [] mount type = none
  find_of_type (m ∷ mounts) mount type =
      if same_type m.mounttype type && stops_at m mount
      then some m
      else find_of_type mounts mount type

  -- The retry with the default mounts.
  unfoldable pub or_default :
      Option MountProxy → List MountProxy → Option Bytes → MountType → Option MountProxy
  or_default (some m) mounts mount type = some m
  or_default none mounts mount default = none
  or_default none mounts mount normal = find_of_type mounts mount default

  unfoldable pub config_find_mount : List MountProxy → Option Bytes → MountType → Option MountProxy
  config_find_mount mounts mount type =
      or_default (find_of_type mounts mount type) mounts mount type

  -- The walk over the list, which is changed in place: the mounts already passed, and the rest.
  unfoldable pub merge_from : List MountProxy → List MountProxy → List MountProxy
  merge_from done [] = done
  merge_from done (m ∷ mounts) =
      merge_from
        (done
          ++ (if same_type m.mounttype normal
              then merge_mounts m (config_find_mount (done ++ m ∷ mounts) m.mountname default)
              else m)
            ∷ [])
        mounts

  unfoldable pub merge_mounts_all : List MountProxy → List MountProxy
  merge_mounts_all mounts = merge_from [] mounts
