-- ===== src/Swarm/Config.antt =====
-- swarm/config.go: what a configuration, once decoded, means. The files, JSON and DNS are left to
-- the caller; time.ParseDuration and fmt.Sscanf with "%d.%d.%d" are arguments, `none` an error.
pub mod Flags
use gole.Base.{
  ℕ, ◌-◌, Bool, true, false, Option, none, some, List, [], ◌∷◌, ◌++◌, Bytes, codes, ◌==◌, nat_eq,
  bytes_eq, if◌then◌else◌,
}
use Prim.Native.Nat.{bit_or}
use gole.Base.Int.{ℤ}
use gole.Base.Decimal.{itoa}
use gole.Base.Result.{Result, ok, err, ◌>>=◌}
use gole.Swarm.Types.Address.{
  EndpointAddr, role_client, role_agent, role_relay, make_role_flags, flag_relay_eligible,
  flag_priority,
}
use gole.Swarm.Types.Transport.{
  TransportConfig, default_transport_config, mode_pinned, mode_relay, mode_peer, mode_dynamic,
}

abbrev pub default_broker_srv : Bytes
default_broker_srv = codes "_swarmbroker._tcp.wixcloud.de"

pub record TransportModeConfig : Type 0 where
  pub mode : Bytes
  pub pinned_relay : Bytes
  pub probe_interval : Bytes
  pub threshold : Bytes

pub record EndpointConfig : Type 0 where
  pub local_id : Bytes
  pub relay_eligible : Bool
  pub priority : Bool
  pub registrar_addr : Bytes
  pub registrar_srv : Bytes
  pub transport : TransportModeConfig

pub data ConfigError : Type 0 where
  srv_lookup no_records : Bytes → ConfigError
  unknown_role unknown_mode : Bytes → ConfigError
  bad_pinned_relay bad_probe_interval bad_threshold : ConfigError

-- A record of the answer of net.LookupSRV
pub record SrvRecord : Type 0 where
  pub target : Bytes
  pub port : ℕ

-- A name without the dot at its end
unfoldable pub trim_dot : Bytes → Bytes
trim_dot [] = []
trim_dot (b ∷ []) = if b == 46 then [] else b ∷ []
trim_dot (b ∷ c ∷ bs) = b ∷ trim_dot (c ∷ bs)

-- ResolveSRV, with what the lookup of the name answers
unfoldable pub resolve_srv : Bytes → Option (List SrvRecord) → Result ConfigError Bytes
resolve_srv name none = err (srv_lookup name)
resolve_srv name (some []) = err (no_records name)
resolve_srv name (some (best ∷ rest)) = ok (trim_dot best.target ++ (codes ":" ++ itoa best.port))

-- ResolveRegistrar
unfoldable pub resolve_registrar :
    (Bytes → Option (List SrvRecord)) → EndpointConfig → Result ConfigError Bytes
resolve_registrar lookup_srv c =
    let srv = if c.registrar_srv == [] then default_broker_srv else c.registrar_srv in
    let found = resolve_srv srv (lookup_srv srv) in
    if c.registrar_addr == [] then found else ok c.registrar_addr

-- ParseRole
unfoldable pub parse_role : Bytes → Result ConfigError ℕ
parse_role role =
    if role == codes "client"
    then ok role_client
    else if role == codes "agent"
    then ok role_agent
    else if role == codes "relay"
    then ok role_relay
    else err (unknown_role role)

-- The flags of a configuration, which may be missing
unfoldable pub config_flags : Option EndpointConfig → ℕ
config_flags none = 0
config_flags (some cfg) =
    let eligible = if cfg.relay_eligible then bit_or 0 flag_relay_eligible else 0 in
    if cfg.priority then bit_or eligible flag_priority else eligible

-- BuildRoleFlags
unfoldable pub build_role_flags : Bytes → Option EndpointConfig → Result ConfigError ℕ
build_role_flags role cfg = elim (parse_role role) [
  | err e ↦ err e
  | ok r ↦ ok (make_role_flags r (config_flags cfg))
]

-- The mode's name
unfoldable pub parse_mode : Bytes → Result ConfigError ℕ
parse_mode name =
    if name == codes "pinned"
    then ok mode_pinned
    else if name == codes "relay"
    then ok mode_relay
    else if name == codes "peer"
    then ok mode_peer
    else if name == codes "dynamic"
    then ok mode_dynamic
    else if name == []
    then ok mode_dynamic
    else err (unknown_mode name)

unfoldable pub with_mode : Bytes → TransportConfig → Result ConfigError TransportConfig
with_mode name cfg = elim (parse_mode name) [ err e ↦ err e | ok m ↦ ok (record cfg { mode = m }) ]

unfoldable pub with_pinned :
    (Bytes → Option (ℕ × (ℕ × ℕ))) → Bytes → TransportConfig → Result ConfigError TransportConfig
with_pinned scan text cfg = if text == [] then ok cfg else elim (scan text) [
  | none ↦ err bad_pinned_relay
  | some (d, (g, e)) ↦ ok (record cfg {
    pinned_relay = some record { domain = d; group = g; endpoint = e; role_flags = role_relay };
  })
]

unfoldable pub with_interval :
    (Bytes → Option ℤ) → Bytes → TransportConfig → Result ConfigError TransportConfig
with_interval parse text cfg = if text == [] then ok cfg else elim (parse text) [
  | none ↦ err bad_probe_interval
  | some d ↦ ok (record cfg { probe_interval = d })
]

unfoldable pub with_threshold :
    (Bytes → Option ℤ) → Bytes → TransportConfig → Result ConfigError TransportConfig
with_threshold parse text cfg =
    if text == []
    then ok cfg
    else elim (parse text) [ none ↦ err bad_threshold | some d ↦ ok (record cfg { threshold = d }) ]

-- EndpointConfig.TransportConfig
unfoldable pub transport_config :
    (Bytes → Option (ℕ × (ℕ × ℕ)))
    → (Bytes → Option ℤ)
    → EndpointConfig
    → Result ConfigError TransportConfig
transport_config scan parse c = do
  moded ← with_mode c.transport.mode default_transport_config
  pinned ← with_pinned scan c.transport.pinned_relay moded
  timed ← with_interval parse c.transport.probe_interval pinned
  with_threshold parse c.transport.threshold timed
