-- ===== src/Config/Defaults.antt =====
-- src/cfgfile.c: which settings a mount takes from a default mount, and from which one.
pub mod Found
use checkedc_icecast.Base.{
  ℕ, zero, suc, ◌≡◌, refl, ◌⊎◌, inl, inr, Bool, true, false, ◌&&◌, List, [], ◌∷◌, ◌++◌, Option,
  none, some, Bool-cases, Bytes, bytes_eq, All, arith, ap, ◌∙◌, ◌||◌,
}
use checkedc_icecast.Base.Number.{ℤ, pos, negsuc}
use checkedc_icecast.Config.{
  HttpHeader, MountProxy, MountType, normal, default, same_type, stops_at, find_of_type, or_default,
  config_find_mount, or_text, or_number, or_unset, copy_from, config_copy_http_header, merge_fields,
  merge_mounts,
}

-- A text that is there stays, a number that is not 0, and one that is not -1; the default's value comes in their place.
pub TextFrom : Option Bytes → Option Bytes → Option Bytes → Type 0
TextFrom none s out = out ≡ s
TextFrom (some d) s out = out ≡ some d

pub NumberFrom : ℕ → ℕ → ℕ → Type 0
NumberFrom zero s out = out ≡ s
NumberFrom (suc d) s out = out ≡ suc d

pub UnsetFrom : ℤ → ℤ → ℤ → Type 0
UnsetFrom (pos n) s out = out ≡ pos n
UnsetFrom (negsuc zero) s out = out ≡ s
UnsetFrom (negsuc (suc n)) s out = out ≡ negsuc (suc n)

-- The headers up to the first one without a name or a value.
pub data Copied : List HttpHeader → List HttpHeader → Type 0 where
  ends : Copied [] []
  stops :
      {h : HttpHeader} {hs : List HttpHeader}
      → (h.name ≡ none) ⊎ (h.value ≡ none)
      → Copied (h ∷ hs) []
  goes :
      {h : HttpHeader} {hs cs : List HttpHeader} {name value : Bytes}
      → h.name ≡ some name
      → h.value ≡ some value
      → Copied hs cs
      → Copied (h ∷ hs) (h ∷ cs)

-- The mount `out` is `d` with what it does not set taken from `s`; its headers come first.
pub record Inherits (d s out : MountProxy) : Type 0 where
  pub mountname : out.mountname ≡ d.mountname
  pub mounttype : out.mounttype ≡ d.mounttype
  pub username : TextFrom d.username s.username out.username
  pub password : TextFrom d.password s.password out.password
  pub dumpfile : TextFrom d.dumpfile s.dumpfile out.dumpfile
  pub intro_filename : TextFrom d.intro_filename s.intro_filename out.intro_filename
  pub fallback_mount : TextFrom d.fallback_mount s.fallback_mount out.fallback_mount
  pub charset : TextFrom d.charset s.charset out.charset
  pub auth_type : TextFrom d.auth_type s.auth_type out.auth_type
  pub cluster_password : TextFrom d.cluster_password s.cluster_password out.cluster_password
  pub on_connect : TextFrom d.on_connect s.on_connect out.on_connect
  pub on_disconnect : TextFrom d.on_disconnect s.on_disconnect out.on_disconnect
  pub stream_name : TextFrom d.stream_name s.stream_name out.stream_name
  pub stream_description : TextFrom d.stream_description s.stream_description out.stream_description
  pub stream_url : TextFrom d.stream_url s.stream_url out.stream_url
  pub stream_genre : TextFrom d.stream_genre s.stream_genre out.stream_genre
  pub bitrate : TextFrom d.bitrate s.bitrate out.bitrate
  pub mime_type : TextFrom d.mime_type s.mime_type out.mime_type
  pub subtype : TextFrom d.subtype s.subtype out.subtype
  pub fallback_when_full :
      NumberFrom d.fallback_when_full s.fallback_when_full out.fallback_when_full
  pub fallback_override : NumberFrom d.fallback_override s.fallback_override out.fallback_override
  pub no_mount : NumberFrom d.no_mount s.no_mount out.no_mount
  pub queue_size_limit : NumberFrom d.queue_size_limit s.queue_size_limit out.queue_size_limit
  pub hidden : NumberFrom d.hidden s.hidden out.hidden
  pub source_timeout : NumberFrom d.source_timeout s.source_timeout out.source_timeout
  pub max_listener_duration :
      NumberFrom d.max_listener_duration s.max_listener_duration out.max_listener_duration
  pub max_listeners : UnsetFrom d.max_listeners s.max_listeners out.max_listeners
  pub burst_size : UnsetFrom d.burst_size s.burst_size out.burst_size
  pub mp3_meta_interval : UnsetFrom d.mp3_meta_interval s.mp3_meta_interval out.mp3_meta_interval
  pub yp_public : UnsetFrom d.yp_public s.yp_public out.yp_public
  pub http_headers :
      (cs : List HttpHeader) × Copied s.http_headers cs × (out.http_headers ≡ d.http_headers ++ cs)

text-From : (d s : Option Bytes) → TextFrom d s (or_text d s)
unfolding or_text TextFrom
text-From none s = refl
text-From (some d) s = refl

number-From : (d s : ℕ) → NumberFrom d s (or_number d s)
unfolding or_number NumberFrom
number-From zero s = refl
number-From (suc d) s = ground arith

unset-From : (d s : ℤ) → UnsetFrom d s (or_unset d s)
unfolding or_unset UnsetFrom
unset-From (pos n) s = ground arith
unset-From (negsuc zero) s = refl
unset-From (negsuc (suc n)) s = ground arith

copied :
    (h : HttpHeader) (hs cs : List HttpHeader) (name value : Option Bytes)
    → h.name ≡ name
    → h.value ≡ value
    → Copied hs cs
    → Copied (h ∷ hs) (copy_from name value h cs)
unfolding copy_from
copied h hs cs none value n v c = stops (inl n)
copied h hs cs (some name) none n v c = stops (inr v)
copied h hs cs (some name) (some value) n v c = goes n v c

copy-Copied : (hs : List HttpHeader) → Copied hs (config_copy_http_header hs)
unfolding config_copy_http_header
copy-Copied [] = ends
copy-Copied (h ∷ hs) = copied h hs _ h.name h.value refl refl (copy-Copied hs)

pub merge-Inherits : (d s : MountProxy) → Inherits d s (merge_fields d s)
unfolding merge_fields
merge-Inherits d s = record {
  mountname = refl;
  mounttype = refl;
  username = text-From d.username s.username;
  password = text-From d.password s.password;
  dumpfile = text-From d.dumpfile s.dumpfile;
  intro_filename = text-From d.intro_filename s.intro_filename;
  fallback_mount = text-From d.fallback_mount s.fallback_mount;
  charset = text-From d.charset s.charset;
  auth_type = text-From d.auth_type s.auth_type;
  cluster_password = text-From d.cluster_password s.cluster_password;
  on_connect = text-From d.on_connect s.on_connect;
  on_disconnect = text-From d.on_disconnect s.on_disconnect;
  stream_name = text-From d.stream_name s.stream_name;
  stream_description = text-From d.stream_description s.stream_description;
  stream_url = text-From d.stream_url s.stream_url;
  stream_genre = text-From d.stream_genre s.stream_genre;
  bitrate = text-From d.bitrate s.bitrate;
  mime_type = text-From d.mime_type s.mime_type;
  subtype = text-From d.subtype s.subtype;
  fallback_when_full = number-From d.fallback_when_full s.fallback_when_full;
  fallback_override = number-From d.fallback_override s.fallback_override;
  no_mount = number-From d.no_mount s.no_mount;
  queue_size_limit = number-From d.queue_size_limit s.queue_size_limit;
  hidden = number-From d.hidden s.hidden;
  source_timeout = number-From d.source_timeout s.source_timeout;
  max_listener_duration = number-From d.max_listener_duration s.max_listener_duration;
  max_listeners = unset-From d.max_listeners s.max_listeners;
  burst_size = unset-From d.burst_size s.burst_size;
  mp3_meta_interval = unset-From d.mp3_meta_interval s.mp3_meta_interval;
  yp_public = unset-From d.yp_public s.yp_public;
  http_headers = (config_copy_http_header s.http_headers, copy-Copied s.http_headers, refl);
}

module _ (fnmatch : Bytes → Bytes → Bool) where
  -- The name, NULL or a pattern, fits the mount that is looked for, or does not; NULL for that fits every name.
  unfoldable pub Fits : Option Bytes → Option Bytes → Type 0
  Fits name none = Unit
  Fits none (some mount) = Unit
  Fits (some pattern) (some mount) = fnmatch pattern mount ≡ true

  unfoldable pub Misses : Option Bytes → Option Bytes → Type 0
  Misses name none = ⊥
  Misses none (some mount) = ⊥
  Misses (some pattern) (some mount) = fnmatch pattern mount ≡ false

  -- A mount that is no default mount that fits.
  unfoldable pub IsOut : Option Bytes → MountProxy → Type 0
  IsOut mount x = (x.mounttype ≡ normal) ⊎ Misses x.mountname mount

  -- The first default mount of the list that fits.
  pub data First (mount : Option Bytes) (d : MountProxy) : List MountProxy → Type 0 where
    here :
        {ms : List MountProxy}
        → d.mounttype ≡ default
        → Fits d.mountname mount
        → First mount d (d ∷ ms)
    there :
        {x : MountProxy} {ms : List MountProxy}
        → IsOut mount x
        → First mount d ms
        → First mount d (x ∷ ms)

  -- What the merge may make of a mount of the list `all`.
  pub data Merged (all : List MountProxy) (m : MountProxy) : MountProxy → Type 0 where
    stays : m.mounttype ≡ default → Merged all m m
    alone : m.mounttype ≡ normal → All (IsOut m.mountname) all → Merged all m m
    inherits :
        {d out : MountProxy}
        → m.mounttype ≡ normal
        → First m.mountname d all
        → Inherits m d out
        → Merged all m out

  unfoldable pub AllMerged : List MountProxy → List MountProxy → List MountProxy → Type 0
  AllMerged all [] [] = Unit
  AllMerged all [] (o ∷ os) = ⊥
  AllMerged all (m ∷ ms) [] = ⊥
  AllMerged all (m ∷ ms) (o ∷ os) = Merged all m o × AllMerged all ms os
