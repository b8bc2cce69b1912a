-- ===== src/Relay/Connect/Answered.antt =====
-- src/slave.c and src/httpp/httpp.c: which answers open a relay.
use checkedc_icecast.Base.{
  ◌<◌, ℕ, ◌≤◌, ◌≡◌, true, List, [], ◌∷◌, ◌⊎◌, some, Bytes, c_string, take, length,
}
use checkedc_icecast.Httpp.Tree.{VarTree}
use checkedc_icecast.Httpp.Vars.{HttpParser, httpp_initialize}
use checkedc_icecast.Httpp.Request.{httpp_parse_response}
use checkedc_icecast.Relay.{Relay}
use checkedc_icecast.Util.ReadHeader.Shortest.{arrived, shortest}
use checkedc_icecast.Relay.Connect.Accepted.{IsSuccess, status_code}
use checkedc_icecast.Relay.Connect.{Reply, no_connection, connected, Run, opened}

-- The header that a server sent, up to its first NUL.
pub Sent : Reply → Bytes → Type 0
Sent no_connection text = ⊥
Sent (connected c events) text =
    (s : Bytes) × (shortest true (take 4095 (arrived c events)) ≡ some s) × (c_string s ≡ text)

pub Among : Bytes → List Reply → Type 0
Among text [] = ⊥
Among text (reply ∷ net) = Sent reply text ⊎ Among text net

module _ (T : VarTree) where
  open T use {Tree}

  -- The answer that opened the relay.
  pub IsOpened : Relay → List Reply → HttpParser Tree → Type 0
  IsOpened relay net read =
      (text : Bytes) × Among text net
      × (httpp_parse_response T (httpp_initialize T []) text relay.localmount ≡ (read, true))
      × IsSuccess (status_code text)

  module _ (relay : Relay) (server_id : Bytes) (client_limit clients : ℕ) where
    -- What a run of at most so many rounds comes to.
    IsRun : ℕ → List Reply → Run T relay server_id client_limit clients → Type 0
    IsRun rounds net r =
        (length r.1 ≤ rounds)
        × ((read : HttpParser Tree)
            → r.0 ≡ opened read
            → IsOpened relay net read × (clients < client_limit))
