-- ===== src/Swarm/Relay/Run.antt =====
-- swarm/relay.go: connections that come, send and go in any order.
use gole.Base.{ℕ, none, some, List, [], ◌∷◌, Bytes, nat_eq, bytes_eq}
use gole.Base.Dict.{Dict, lookup, insert, delete}
use gole.Base.Int.{ℤ}
use gole.Base.Result.{Result, ok, err}
use gole.Swarm.Types.Wire.{RelayFrameHeader}
use gole.Swarm.Paseto.{Crypto}
use gole.Swarm.Relay.Frames.{WriteError}
use gole.Swarm.Relay.Server.{
  RelaySession, RelayServer, RelayRouter, remove_session, handle_frame, start_conn,
}

-- The server, and the sessions of the calls of HandleConn that are in their loop, by connection.
pub record RelayRun : Type 0 where
  pub server : RelayServer
  pub live : Dict ℕ RelaySession

pub data RelayEvent : Type 0 where
  -- a new connection, with what it sends up to and with its first frame
  connects : ℕ → Bytes → ℤ → RelayEvent
  -- a frame that a connection's loop reads
  receives : ℕ → RelayFrameHeader → Bytes → RelayEvent
  -- a connection whose loop meets the end of its stream, or an error of readFrame
  closes : ℕ → RelayEvent

-- The deferred removeSession, when HandleConn returns
unfoldable pub finish : ℕ → RelaySession → RelayRun → RelayRun
finish id s w = record { server = remove_session s w.server; live = delete id w.live }

unfoldable pub after_frame :
    ℕ → RelaySession → Dict ℕ RelaySession → RelayServer × Result WriteError (Unit {0}) → RelayRun
after_frame id s live (r, ok u) = record { server = r; live = live }
after_frame id s live (r, err e) = finish id s (record { server = r; live = live })

unfoldable pub after_start :
    {E : Type 0}
    → ℕ
    → Dict ℕ RelaySession
    → RelayServer × Result E (RelaySession × Bytes)
    → RelayRun
after_start id live (r, err e) = record { server = r; live = live }
after_start id live (r, ok (s, rest)) = record { server = r; live = insert id s live }

-- An event on a connection that is not there, or is there already, is none.
unfoldable pub relay_step : Crypto → RelayRouter → RelayEvent → RelayRun → RelayRun
relay_step c route (connects id input now) w = elim (lookup id w.live) [
  | some s ↦ w
  | none ↦ after_start id w.live (start_conn c id input now w.server)
]
relay_step c route (receives id h payload) w = elim (lookup id w.live) [
  | none ↦ w
  | some s ↦ after_frame id s w.live (handle_frame route s h payload w.server)
]
relay_step c route (closes id) w = elim (lookup id w.live) [ none ↦ w | some s ↦ finish id s w ]

unfoldable pub relay_run : Crypto → RelayRouter → List RelayEvent → RelayRun → RelayRun
relay_run c route [] w = w
relay_run c route (e ∷ es) w = relay_run c route es (relay_step c route e w)
