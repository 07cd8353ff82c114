-- ===== src/Swarm/MachineId/Interfaces.antt =====
-- swarm/machineid.go: the interface that PrimaryMAC chooses.
use gole.Base.{
  Bool, ◌&&◌, Option, none, some, List, [], ◌∷◌, Bytes, if◌then◌else◌, bytes_eq, nat_eq,
}
use gole.Swarm.MachineId.{Iface, is_wired_iface, mac_string, is_usable}

-- The first interface that passes a test
pub first_iface : (Iface → Bool) → List Iface → Option Iface
first_iface test [] = none
first_iface test (i ∷ is) = let rest = first_iface test is in if test i then some i else rest

pub usable_wired : Iface → Bool
usable_wired i = is_usable i && is_wired_iface i.iface_name

pub mac_of : Bytes → Option Iface → Bytes
mac_of other none = other
mac_of other (some i) = mac_string i.hardware_addr

-- The order of PrimaryMAC's comment, among the interfaces in use: a wired one, else any other, else
-- no address
pub preferred_mac : List Iface → Bytes
preferred_mac ifaces =
    mac_of (mac_of [] (first_iface is_usable ifaces)) (first_iface usable_wired ifaces)
