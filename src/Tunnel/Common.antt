-- ===== src/Tunnel/Common.antt =====
-- common.go: the helpers on values.
use gole.Base.{
  ℕ, Bool, true, false, ◌&&◌, List, [], ◌∷◌, Bytes, if◌then◌else◌, ◌==◌, nat_eq, bytes_eq,
}
use gole.Base.Int.{ℤ, ltℤ}

unfoldable pub contains : Bytes → List Bytes → Bool
contains s [] = false
contains s (v ∷ vs) = let rest = contains s vs in if v == s then true else rest

unfoldable pub bound : ℤ → ℤ → ℤ → ℤ
bound val low high = if ltℤ val low then low else if ltℤ high val then high else val

-- net.UDPAddr
pub record UdpAddr : Type 0 where
  pub ip : Bytes
  pub port : ℕ
  pub zone : Bytes

unfoldable pub udp_addr_equal : UdpAddr → UdpAddr → Bool
udp_addr_equal a b = a.port == b.port && (a.ip == b.ip && a.zone == b.zone)
