-- ===== src/Swarm/Types/Transport.antt =====
-- swarm/types.go: transport modes, transport configuration and decision. A `time.Duration` is an
-- integer, in nanoseconds.
use gole.Base.{ℕ, ◌*◌, Bool, Option, none, Bytes, codes, ◌++◌, ◌==◌, if◌then◌else◌}
use gole.Base.Int.{ℤ, pos}
use gole.Base.{nat_eq}
use gole.Base.Decimal.{itoa}
use gole.Swarm.Types.Address.{EndpointAddr}

abbrev pub mode_pinned : ℕ
mode_pinned = 0x01

abbrev pub mode_relay : ℕ
mode_relay = 0x02

abbrev pub mode_peer : ℕ
mode_peer = 0x03

abbrev pub mode_dynamic : ℕ
mode_dynamic = 0x04

-- TransportMode.String
unfoldable pub mode_string : ℕ → Bytes
mode_string m =
    if m == mode_pinned
    then codes "pinned"
    else if m == mode_relay
    then codes "relay"
    else if m == mode_peer
    then codes "peer"
    else if m == mode_dynamic
    then codes "dynamic"
    else codes "unknown(" ++ (itoa m ++ codes ")")

pub record TransportConfig : Type 0 where
  pub mode : ℕ
  pub pinned_relay : Option EndpointAddr
  pub probe_interval : ℤ
  pub threshold : ℤ

abbrev pub millisecond : ℕ
millisecond = 1000000

abbrev pub minute : ℕ
minute = 60 * 1000 * millisecond

-- DefaultTransportConfig
unfoldable pub default_transport_config : TransportConfig
default_transport_config = record {
  mode = mode_dynamic;
  pinned_relay = none;
  probe_interval = pos (5 * minute);
  threshold = pos (50 * millisecond);
}

pub record TransportDecision : Type 0 where
  pub use_relay : Bool
  pub relay_addr : Option EndpointAddr
  pub p2p_latency : ℤ
  pub relay_latency : ℤ

pub record RelayInfo : Type 0 where
  pub addr : EndpointAddr
  pub latency : ℤ
