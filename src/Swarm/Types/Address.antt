-- ===== src/Swarm/Types/Address.antt =====
-- swarm/types.go: states, roles and flags, and swarm addresses. The uint8 and uint16 values are
-- numbers; their ranges are hypotheses where they matter.
use Prim.Native.Nat.{bit_and, bit_or}
use gole.Base.{ℕ, Bool, not, ◌∷◌, ◌++◌, Bytes, codes, ◌==◌, if◌then◌else◌}
use gole.Base.{nat_eq}
use gole.Base.Decimal.{itoa}

-- Registration states.
abbrev pub state_unregistered : ℕ
state_unregistered = 0x00

abbrev pub state_requesting : ℕ
state_requesting = 0x01

abbrev pub state_challenge_issued : ℕ
state_challenge_issued = 0x02

abbrev pub state_challenge_response : ℕ
state_challenge_response = 0x03

abbrev pub state_registered : ℕ
state_registered = 0x04

abbrev pub state_active : ℕ
state_active = 0x05

abbrev pub state_pending : ℕ
state_pending = 0x06

abbrev pub state_denied : ℕ
state_denied = 0x07

abbrev pub state_revoked : ℕ
state_revoked = 0xff

-- Roles, in the lower two bits of a RoleFlags byte.
abbrev pub role_client : ℕ
role_client = 0x01

abbrev pub role_agent : ℕ
role_agent = 0x02

abbrev pub role_relay : ℕ
role_relay = 0x03

abbrev pub role_mask : ℕ
role_mask = 0x03

-- Flags, in the upper six bits.
abbrev pub flag_relay_eligible : ℕ
flag_relay_eligible = 0x04

abbrev pub flag_priority : ℕ
flag_priority = 0x08

-- RoleOf
unfoldable pub role_of : ℕ → ℕ
role_of flags = bit_and flags role_mask

-- HasFlag
unfoldable pub has_flag : ℕ → ℕ → Bool
has_flag flags flag = not (bit_and flags flag == 0)

-- MakeRoleFlags: `^RoleMask` on a uint8 is 0xfc.
unfoldable pub make_role_flags : ℕ → ℕ → ℕ
make_role_flags role flags = bit_or (bit_and role role_mask) (bit_and flags 0xfc)

-- EndpointAddr
pub record EndpointAddr : Type 0 where
  pub domain : ℕ
  pub group : ℕ
  pub endpoint : ℕ
  pub role_flags : ℕ

-- EndpointAddr.Role
unfoldable pub addr_role : EndpointAddr → ℕ
addr_role a = role_of a.role_flags

-- EndpointAddr.AddrKey: "%d.%d.%d"
unfoldable pub addr_key : EndpointAddr → Bytes
addr_key a = itoa a.domain ++ (46 ∷ (itoa a.group ++ (46 ∷ itoa a.endpoint)))

-- StateName
unfoldable pub state_name : ℕ → Bytes
state_name s =
    if s == state_unregistered
    then codes "unregistered"
    else if s == state_requesting
    then codes "requesting"
    else if s == state_challenge_issued
    then codes "challenge_issued"
    else if s == state_challenge_response
    then codes "challenge_response"
    else if s == state_registered
    then codes "registered"
    else if s == state_active
    then codes "active"
    else if s == state_pending
    then codes "pending"
    else if s == state_denied
    then codes "denied"
    else if s == state_revoked
    then codes "revoked"
    else codes "unknown(" ++ (itoa s ++ codes ")")

-- RoleName
unfoldable pub role_name : ℕ → Bytes
role_name r =
    if r == role_client
    then codes "client"
    else if r == role_agent
    then codes "agent"
    else if r == role_relay
    then codes "relay"
    else codes "unknown(" ++ (itoa r ++ codes ")")

-- EndpointAddr.String: "%s@%d.%d.%d"
unfoldable pub addr_string : EndpointAddr → Bytes
unfolding addr_key
addr_string a = role_name (addr_role a) ++ (64 ∷ addr_key a)
