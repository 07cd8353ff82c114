-- ===== src/Swarm/MachineId.antt =====
-- swarm/machineid.go: which interface a machine is known by, and its fingerprint. The operating
-- system's answers are arguments, and HMAC-SHA256 is a parameter.
use gole.Base.{
  ℕ, ◌+◌, ◌/◌, ◌%◌, Bool, true, false, not, ◌||◌, ◌&&◌, Option, none, some, List, [], ◌∷◌, ◌++◌,
  Bytes, length, drop, ltb, if◌then◌else◌, ◌==◌, nat_eq, bytes_eq, codes,
}
use gole.Base.Result.{Result, ok, err}
use gole.Base.Strings.{has_prefix, to_lower}
pub mod Interfaces
pub mod Fingerprints

abbrev pub base62_dict : Bytes
base62_dict = codes "0123456789ABCDEFGHIJKLMNOPQRSTUVWXYZabcdefghijklmnopqrstuvwxyz"

abbrev pub skip_iface_prefixes : List Bytes
skip_iface_prefixes =
    codes "docker"
    ∷ codes "veth"
    ∷ codes "br-"
    ∷ codes "virbr"
    ∷ codes "vboxnet"
    ∷ codes "lxcbr"
    ∷ codes "tailscale"
    ∷ codes "wg"
    ∷ codes "tun"
    ∷ codes "tap"
    ∷ codes "zt"
    ∷ codes "cni"
    ∷ []

abbrev pub wired_iface_prefixes : List Bytes
wired_iface_prefixes = codes "eth" ∷ codes "eno" ∷ codes "enp" ∷ codes "ens" ∷ codes "enx" ∷ []

-- net.Interface, with the two flags that are looked at
pub record Iface : Type 0 where
  pub iface_name : Bytes
  pub up : Bool
  pub loopback : Bool
  pub hardware_addr : Bytes

-- The loop over a list of prefixes
unfoldable pub any_prefix : List Bytes → Bytes → Bool
any_prefix [] n = false
any_prefix (p ∷ ps) n = if has_prefix n p then true else any_prefix ps n

unfoldable pub is_skipped_iface : Bytes → Bool
is_skipped_iface name =
    let n = to_lower name in
    if any_prefix skip_iface_prefixes n
    then true
    else if has_prefix n (codes "wlan")
        || (has_prefix n (codes "wlp") || has_prefix n (codes "wifi"))
    then true
    else false

unfoldable pub is_wired_iface : Bytes → Bool
is_wired_iface name = any_prefix wired_iface_prefixes (to_lower name)

abbrev hex_digit : ℕ → ℕ
hex_digit d = if ltb d 10 then 48 + d else 87 + d

-- HardwareAddr.String
unfoldable pub mac_string : Bytes → Bytes
mac_string [] = []
mac_string (b ∷ []) = hex_digit (b / 16) ∷ hex_digit (b % 16) ∷ []
mac_string (b ∷ c ∷ rest) = hex_digit (b / 16) ∷ hex_digit (b % 16) ∷ 58 ∷ mac_string (c ∷ rest)

-- The interfaces that the loop does not pass over
unfoldable pub is_usable : Iface → Bool
is_usable i =
    if not i.up
    then false
    else if i.loopback
    then false
    else if length i.hardware_addr == 0
    then false
    else if is_skipped_iface i.iface_name
    then false
    else true

-- PrimaryMAC's loop
unfoldable pub mac_loop : Bytes → List Iface → Bytes
mac_loop fallback [] = fallback
mac_loop fallback (i ∷ is) =
    let mac = mac_string i.hardware_addr in
    let skip = mac_loop fallback is in
    let next = mac_loop (if fallback == [] then mac else fallback) is in
    if not (is_usable i) then skip else if is_wired_iface i.iface_name then mac else next

-- PrimaryMAC; `none` is the error of net.Interfaces
unfoldable pub primary_mac : Option (List Iface) → Option Bytes
primary_mac none = none
primary_mac (some ifaces) = some (mac_loop [] ifaces)

-- base62Dict[int(x)%dictLen]
unfoldable pub base62_digit : ℕ → ℕ
base62_digit x = elim (drop (x % 62) base62_dict) [ [] ↦ 0 | d ∷ ds ↦ d ]

unfoldable pub bytes_to_base62 : Bytes → Bytes
bytes_to_base62 [] = []
bytes_to_base62 (x ∷ xs) = base62_digit x ∷ bytes_to_base62 xs

-- mac, _ := PrimaryMAC()
unfoldable pub mac_or_empty : Option Bytes → Bytes
mac_or_empty none = []
mac_or_empty (some mac) = mac

module _ (hmac : Bytes → Bytes → Bytes) where
  -- Fingerprint
  unfoldable pub fingerprint : Bytes → Bytes → Bytes → Bytes → Bytes
  fingerprint machine_id mac local_id role =
      bytes_to_base62 (hmac (machine_id ++ (124 ∷ mac)) (local_id ++ (124 ∷ role)))

  -- DeriveFingerprint, by what MachineID and net.Interfaces give; an error of PrimaryMAC is passed
  -- over.
  unfoldable pub derive_fingerprint :
      Option Bytes → Option (List Iface) → Bytes → Bytes → Option Bytes
  derive_fingerprint none ifaces local_id role = none
  derive_fingerprint (some mid) ifaces local_id role =
      some (fingerprint mid (mac_or_empty (primary_mac ifaces)) local_id role)
