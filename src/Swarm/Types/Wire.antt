-- ===== src/Swarm/Types/Wire.antt =====
-- swarm/types.go: messages, the relay's frame header, and reachability records.
use gole.Base.{ℕ, ◌^◌, Option, Bytes}
use gole.Base.Int.{ℤ}
use gole.Swarm.Types.Address.{EndpointAddr}

pub record SwarmMessage : Type 0 where
  pub from : EndpointAddr
  pub to : EndpointAddr
  pub token : Bytes
  pub payload : Bytes
  pub signature : Bytes

abbrev pub frame_auth : ℕ
frame_auth = 0x01

abbrev pub frame_auth_ok : ℕ
frame_auth_ok = 0x02

abbrev pub frame_auth_fail : ℕ
frame_auth_fail = 0x03

abbrev pub frame_data : ℕ
frame_data = 0x10

abbrev pub frame_no_route : ℕ
frame_no_route = 0x11

abbrev pub frame_ping : ℕ
frame_ping = 0x20

abbrev pub frame_pong : ℕ
frame_pong = 0x21

pub record RelayFrameHeader : Type 0 where
  pub kind : ℕ
  pub dst_domain : ℕ
  pub dst_group : ℕ
  pub dst_endpoint : ℕ
  pub payload_len : ℕ

abbrev pub relay_frame_header_size : ℕ
relay_frame_header_size = 9

abbrev pub max_relay_payload : ℕ
max_relay_payload = 2 ^ 20

pub record DirectRoute : Type 0 where
  pub observed_addr : Bytes
  pub proto : Bytes

pub record RelayRoute : Type 0 where
  pub relay_addr : EndpointAddr

pub record ReachabilityInfo : Type 0 where
  pub addr : EndpointAddr
  pub direct : Option DirectRoute
  pub relay : Option RelayRoute
  pub updated_at : ℤ

pub record PunchRequest : Type 0 where
  pub peer_addr : EndpointAddr
  pub observed_addr : Bytes
  pub proto : Bytes
