-- ===== src/S5/Examples.antt =====
-- The SOCKS5 server's theorems at concrete inputs.
use gole.Base.{
  ◌≡◌, refl, true, Option, some, ◌⊎◌, inr, List, [], ◌∷◌, ◌++◌, arith, Bytes, codes, concat, nat_eq,
  bytes_eq, bytes_beq,
}
use gole.Base.Decimal.{itoa}
use gole.S5.Stream.{eof}
use gole.S5.Address.{join_host_port, v4_prefix, to4, to16}
use gole.S5.Proxy.{TcpAddr, or_nil, zone_of, ip_equal, reply, relaying, handle_connection}
use gole.S5.Requests.{IsTarget, name}
use gole.S5.Accepting.{Refused, Parsed, parse_target_sound}
use gole.S5.Serving.{reply_with, local_target, reply-IsReply, handle_connection-IsServed}

-- A greeting that arrives in two pieces
abbrev pieces : List Bytes
pieces = (5 ∷ []) ∷ (2 ∷ 0 ∷ 1 ∷ []) ∷ []

-- A request for port 80 that arrives in two pieces
abbrev asked : List Bytes
asked = (5 ∷ 1 ∷ 0 ∷ 3 ∷ 2 ∷ 97 ∷ []) ∷ (98 ∷ 0 ∷ 80 ∷ []) ∷ []

abbrev later : List Bytes
later = (7 ∷ []) ∷ []

-- A connection from 192.0.2.7, in the 16-byte form
abbrev local : TcpAddr
local = record { ip = v4_prefix ++ (192 ∷ 0 ∷ 2 ∷ 7 ∷ []); port = 4660; zone = [] }

abbrev dial : Bytes → Option TcpAddr
dial target = some local

handle_connection-IsServed_example :
    (left : List Bytes) × (concat left ≡ [])
    × (handle_connection true dial eof (pieces ++ (asked ++ later)) ≡ (
      relaying (codes "ab:80") (left ++ later),
      5 ∷ 0 ∷ 5 ∷ 0 ∷ 0 ∷ 1 ∷ 192 ∷ 0 ∷ 2 ∷ 7 ∷ 18 ∷ 52 ∷ [],
    ))
unfolding concat join_host_port itoa reply or_nil to4 to16 zone_of ip_equal bytes_beq
handle_connection-IsServed_example =
    handle_connection-IsServed dial eof (0 ∷ 1 ∷ []) 0 (name (codes "ab")) 80 pieces asked later
      local (omega arith) refl (omega arith) (omega arith) refl refl

parse_target_sound_example : Refused eof asked ⊎ Parsed eof asked
unfolding concat
parse_target_sound_example = parse_target_sound eof asked (ground arith)

reply-IsReply_example :
    IsTarget (local_target local.ip) × (reply local ≡ reply_with (local_target local.ip) 4660)
reply-IsReply_example = reply-IsReply local refl (inr refl) (omega arith)

-- A link-local address has a zone, and the reply then names no address at all.
link_local : Bytes
link_local = reply (record {
  ip = 254 ∷ 128 ∷ 0 ∷ 0 ∷ 0 ∷ 0 ∷ 0 ∷ 0 ∷ 0 ∷ 0 ∷ 0 ∷ 0 ∷ 0 ∷ 0 ∷ 0 ∷ 1 ∷ [];
  port = 80;
  zone = codes "eth0";
})

link_local_lem : link_local ≡ 5 ∷ 0 ∷ 0 ∷ 1 ∷ 0 ∷ 80 ∷ []
unfolding link_local reply or_nil to4 zone_of ip_equal bytes_beq
link_local_lem = refl
