-- ===== src/Swarm/Relay/Server.antt =====
-- swarm/relay.go: sessions, routing and HandleConn. A connection has a number, under which the
-- server's record keeps what was written to it; a session, which the source compares by pointer,
-- has its connection's number as its identity.
use gole.Base.{
  ℕ, suc, zero, ◌+◌, Bool, true, false, Option, none, some, [], Bytes, length, ◌==◌, nat_eq,
  bytes_eq, if◌then◌else◌,
}
use gole.Base.Dict.{Dict, lookup, insert, delete}
use gole.Base.Int.{ℤ}
use gole.Base.Result.{Result, ok, err}
use gole.Swarm.Types.Address.{EndpointAddr, addr_key}
use gole.Swarm.Types.Wire.{
  RelayFrameHeader, frame_auth, frame_auth_ok, frame_auth_fail, frame_data, frame_no_route,
  frame_ping, frame_pong,
}
use gole.Swarm.Paseto.{Crypto, TokenClaims, TokenError, verify_token}
use gole.Swarm.Relay.Frames.{
  Sink, ReadError, WriteError, write_frame, read_frame, plain_header, addressed_header,
}

pub record RelaySession : Type 0 where
  pub id : ℕ
  pub addr : EndpointAddr
  pub claims : TokenClaims

pub record RelayServer : Type 0 where
  pub controller_pub_key : Bytes
  pub sessions : Dict Bytes RelaySession
  pub sinks : Dict ℕ Sink

pub data AuthError : Type 0 where
  read_auth : ReadError → AuthError
  expected_auth : ℕ → AuthError
  token_refused : TokenError → AuthError

-- RelayRouter: whether the frame was handled, or an error
abbrev pub RelayRouter : Type 0
RelayRouter =
    RelaySession
    → EndpointAddr
    → RelayFrameHeader
    → Bytes
    → RelayServer
    → RelayServer × Result WriteError Bool

-- NewRelayServer
unfoldable pub new_relay_server : Bytes → RelayServer
new_relay_server key = record { controller_pub_key = key; sessions = []; sinks = [] }

unfoldable pub sink_of : ℕ → RelayServer → Sink
sink_of id r = elim (lookup id r.sinks) [ none ↦ record { written = []; faults = [] } | some w ↦ w ]

unfoldable pub write_to :
    ℕ → RelayFrameHeader → Bytes → RelayServer → RelayServer × Result WriteError (Unit {0})
write_to id h payload r =
    let (w, res) = write_frame h payload (sink_of id r) in
    (record r { sinks = insert id w r.sinks }, res)

-- SessionCount
unfoldable pub session_count : RelayServer → ℕ
session_count r = length r.sessions

unfoldable pub session_key : RelaySession → Bytes
session_key s = addr_key s.addr

-- addSession
unfoldable pub add_session : RelaySession → RelayServer → RelayServer
unfolding session_key
add_session s r = record r { sessions = insert (session_key s) s r.sessions }

-- removeSession
unfoldable pub remove_session : RelaySession → RelayServer → RelayServer
unfolding session_key
remove_session s r = elim (lookup (session_key s) r.sessions) [
  | none ↦ r
  | some cur ↦
      if cur.id == s.id then record r { sessions = delete (session_key s) r.sessions } else r
]

-- getSession
unfoldable pub get_session : Bytes → RelayServer → Option RelaySession
get_session key r = lookup key r.sessions

-- writeControlFrame, writeNoRoute; their callers drop the error
unfoldable pub write_control_frame : ℕ → ℕ → RelayServer → RelayServer
write_control_frame id kind r = (write_to id (plain_header kind 0) [] r).0

unfoldable pub write_no_route : ℕ → RelayFrameHeader → RelayServer → RelayServer
write_no_route id h r = (write_to id (record h { kind = frame_no_route; payload_len = 0 }) [] r).0

-- The target's session is dropped when the write to it fails.
unfoldable pub forwarded :
    RelaySession → RelayServer × Result WriteError (Unit {0}) → RelayServer × Result WriteError Bool
forwarded target (r, err e) = (remove_session target r, err e)
forwarded target (r, ok u) = (r, ok true)

-- LocalRouter.Route: the receiver's frame has the sender's address in its header.
unfoldable pub local_route : RelayRouter
local_route src dst h payload r = elim (get_session (addr_key dst) r) [
  | none ↦ (r, ok false)
  | some target ↦
      forwarded target
        (write_to target.id (addressed_header frame_data src.addr (length payload)) payload r)
]

-- MeshRouter.Route: local delivery, and nothing after it yet.
unfoldable pub mesh_route : RelayRouter
mesh_route src dst h payload r = local_route src dst h payload r

unfoldable pub destination : RelayFrameHeader → EndpointAddr
destination h = record {
  domain = h.dst_domain;
  group = h.dst_group;
  endpoint = h.dst_endpoint;
  role_flags = 0;
}

-- What follows the router's answer: its errors are dropped.
unfoldable pub after_route :
    ℕ → RelayFrameHeader → RelayServer × Result WriteError Bool → RelayServer
after_route id h (r, err e) = r
after_route id h (r, ok true) = r
after_route id h (r, ok false) = write_no_route id h r

-- One round of HandleConn's loop, with a frame read; an error ends the loop.
unfoldable pub handle_frame :
    RelayRouter
    → RelaySession
    → RelayFrameHeader
    → Bytes
    → RelayServer
    → RelayServer × Result WriteError (Unit {0})
handle_frame route s h payload r =
    if h.kind == frame_ping
    then write_to s.id (plain_header frame_pong (length payload)) payload r
    else if h.kind == frame_data
    then (after_route s.id h (route s (destination h) h payload r), ok tt)
    else (r, ok tt)

unfoldable pub session_of : ℕ → TokenClaims → RelaySession
session_of id claims = record {
  id = id;
  addr = record {
    domain = claims.domain;
    group = claims.group;
    endpoint = claims.endpoint_id;
    role_flags = claims.role_flags;
  };
  claims = claims;
}

-- How HandleConn's loop ends; `out_of_fuel` is not an outcome of the source.
pub data ConnEnd : Type 0 where
  auth_failed : AuthError → ConnEnd
  read_failed : ReadError → ConnEnd
  pong_failed : WriteError → ConnEnd
  out_of_fuel : ConnEnd

-- HandleConn's loop, on what its connection still sends
unfoldable pub handle_frames :
    ℕ → RelayRouter → RelaySession → Bytes → RelayServer → RelayServer × ConnEnd
handle_frames zero route s input r = (r, out_of_fuel)
handle_frames (suc fuel) route s input r = elim (read_frame input) [
  | err e ↦ (r, read_failed e)
  | ok (h, (payload, rest)) ↦
      let (r', res) = handle_frame route s h payload r in
      elim res [ err e ↦ (r', pong_failed e) | ok u ↦ handle_frames fuel route s rest r' ]
]

module _ (c : Crypto) where
  -- authenticate, from the frame's type on
  unfoldable pub check_auth :
      ℕ → RelayFrameHeader → Bytes → Bytes → ℤ → Result AuthError RelaySession
  check_auth id h payload key now =
      if h.kind == frame_auth
      then elim (verify_token c payload key now) [
        | err e ↦ err (token_refused e)
        | ok claims ↦ ok (session_of id claims)
      ]
      else err (expected_auth h.kind)

  -- authenticate: the session, and what the connection sends after the frame
  unfoldable pub authenticate :
      ℕ → Bytes → ℤ → RelayServer → Result AuthError (RelaySession × Bytes)
  authenticate id input now r = elim (read_frame input) [
    | err e ↦ err (read_auth e)
    | ok (h, (payload, rest)) ↦ elim (check_auth id h payload r.controller_pub_key now) [
      | err e ↦ err e
      | ok s ↦ ok (s, rest)
    ]
  ]

  -- HandleConn up to its loop
  unfoldable pub start_conn :
      ℕ → Bytes → ℤ → RelayServer → RelayServer × Result AuthError (RelaySession × Bytes)
  start_conn id input now r = elim (authenticate id input now r) [
    | err e ↦ (write_control_frame id frame_auth_fail r, err e)
    | ok (s, rest) ↦ (add_session s (write_control_frame id frame_auth_ok r), ok (s, rest))
  ]

  -- HandleConn of a connection that sends `input` and ends, with no other connection served
  -- meanwhile
  unfoldable pub handle_conn : RelayRouter → ℕ → Bytes → ℤ → RelayServer → RelayServer × ConnEnd
  handle_conn route id input now r =
      let (r', res) = start_conn id input now r in
      elim res [
        | err e ↦ (r', auth_failed e)
        | ok (s, rest) ↦
            let (r2, end) = handle_frames (length rest + 1) route s rest r' in
            (remove_session s r2, end)
      ]
