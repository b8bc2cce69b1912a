-- ===== src/Relay/Connect/Asks.antt =====
-- src/slave.c and src/connection.c: how another server reads what a relay asks it for.
use checkedc_icecast.Base.{List, [], ◌∷◌, Option, some, if◌then◌else◌, Bytes, bytes_eq}
use checkedc_icecast.Httpp.Tree.{VarTree}
use checkedc_icecast.Httpp.Lines.{lowercase}
use checkedc_icecast.Relay.{Relay}

module _ (T : VarTree) where
  open T use {Tree, get-new}

  -- What a variable is after header lines have been set.
  last_value : List (Bytes × Bytes) → Bytes → Option Bytes → Option Bytes
  last_value [] j old = old
  last_value ((name, value) ∷ hs) j old =
      last_value hs j (if bytes_eq (lowercase name) j then some value else old)
