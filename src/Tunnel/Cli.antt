-- ===== src/Tunnel/Cli.antt =====
-- cli.go: what ParseConfig makes of a command line whose flags the package flag has parsed. The
-- lookups of names and addresses are parameters; where they fail the source goes on with nil.
pub mod Configs
pub mod Socks5
use gole.Base.{
  ℕ, ◌≡◌, Bool, true, false, not, Option, none, some, List, [], ◌∷◌, Bytes, length, ltb,
  if◌then◌else◌, ◌==◌, nat_eq, bytes_eq, codes,
}
use gole.Base.Int.{ℤ, pos}
use gole.Base.Result.{Result, ok, err, guard, ◌>>=◌, ◌>>◌}
use gole.Base.Strings.{has_prefix, to_lower, split, split_first}
use gole.Tunnel.Common.{contains}

-- What the source asks of net and strconv: addresses by the network and their text, and numbers,
-- with what Atoi returns beside an error. net.Addr is its text.
pub record Lookups : Type 0 where
  pub resolve : Bytes → Bytes → Option Bytes
  pub parse_ip : Bytes → Bytes
  pub atoi : Bytes → ℤ

-- The global flags, and the words after them
pub record GlobalFlags : Type 0 where
  pub help : Bool
  pub enc : Bytes
  pub key : Bytes
  pub args : List Bytes

-- The flags of a mode, and the words that are left; a TCP command has op and fwd alone.
pub record ModeFlags : Type 0 where
  pub op : Bytes
  pub fwd : Bytes
  pub ttl : ℤ
  pub proto : Bytes
  pub left : List Bytes

pub record S5Config : Type 0 where
  pub bind : Option Bytes
  pub fwmark : ℤ
  pub dscp : ℤ

-- FwdAddr is an interface: `none` is its nil, and `some none` the nil pointer that a failed lookup
-- leaves in it, which is not equal to nil.
pub record TcpConfig : Type 0 where
  pub op : Bytes
  pub l_addr : Option Bytes
  pub r_addr : Option Bytes
  pub fwd_addr : Option (Option Bytes)
  pub enc : Bytes
  pub key : Bytes
  pub s5_conf : Option S5Config

pub record UdpConfig : Type 0 where
  pub op : Bytes
  pub l_addr : Option Bytes
  pub r_addr : Option Bytes
  pub fwd_addr : Option (Option Bytes)
  pub proto : Bytes
  pub k_conf : Bytes
  pub ttl : ℤ
  pub enc : Bytes
  pub key : Bytes
  pub s5_conf : Option S5Config

pub data Config : Type 0 where
  tcp : TcpConfig → Config
  udp : UdpConfig → Config

-- Why the process exits, with the status 0 for `usage` alone
pub data Exit : Type 0 where
  usage : Exit
  no_mode : Exit
  no_endpoints : Exit
  unknown_mode : Exit
  unknown_operation : Bytes → Exit
  socks5_not_server : Exit
  unknown_socks5_parameter : Bytes → Exit
  unknown_protocol : Exit
  unknown_proto_parameter : Exit
  unknown_option : Bytes → Exit

-- The part after the equals sign, empty without one
unfoldable pub value_of : List Bytes → Bytes
value_of [] = []
value_of (v ∷ vs) = v

-- One round of parseSocks5's loop
unfoldable pub socks5_parameter : Lookups → Bytes → S5Config → Result Exit S5Config
socks5_parameter look word conf =
    let (key, rest) = split_first 61 word in
    let val = value_of rest in
    if key == codes "bind"
    then ok (record conf { bind = some (look.parse_ip val) })
    else if key == codes "fwmark"
    then ok (record conf { fwmark = look.atoi val })
    else if key == codes "dscp"
    then ok (record conf { dscp = look.atoi val })
    else err (unknown_socks5_parameter word)

unfoldable pub socks5_loop : Lookups → List Bytes → S5Config → Result Exit S5Config
socks5_loop look [] conf = ok conf
socks5_loop look (w ∷ ws) conf = socks5_parameter look w conf >>= socks5_loop look ws

-- parseSocks5, without the dialer
unfoldable pub parse_socks5 : Lookups → Bytes → Result Exit S5Config
parse_socks5 look ss =
    socks5_loop look (split 44 ss).1 (record { bind = none; fwmark = pos 0; dscp = pos 0 })

unfoldable pub proto_loop : List Bytes → Bytes → Result Exit Bytes
proto_loop [] k_conf = ok k_conf
proto_loop (w ∷ ws) k_conf =
    let (key, rest) = split_first 61 w in
    let next = proto_loop ws (value_of rest) in
    if key == codes "conf" then next else err unknown_proto_parameter

-- parseProto: the protocol and the path of its configuration
unfoldable pub parse_proto : Bytes → Result Exit (Bytes × Bytes)
parse_proto ss =
    let (proto, rest) = split 44 ss in
    if proto == codes "kcp"
    then (proto_loop rest (codes "kcp.conf") >>= λ k. ok (proto, k))
    else if proto == codes "udp"
    then ok (proto, [])
    else err unknown_protocol

abbrev pub operations : List Bytes
operations = codes "holepunch" ∷ codes "server" ∷ codes "client" ∷ []

-- The forward address: a SOCKS5 server, which a server alone can have, or an address
unfoldable pub forward :
    Lookups → Bytes → Bytes → Result Exit (Option (Option Bytes) × Option S5Config)
forward look op fwd =
    let socks5 = parse_socks5 look fwd >>= λ s. ok (none, some s) in
    if has_prefix fwd (codes "socks5")
    then (if not (op == codes "server") then err socks5_not_server else socks5)
    else ok (some (look.resolve (codes "tcp4") fwd), none)

-- The case "tcp" of ParseConfig
unfoldable pub parse_tcp : Lookups → GlobalFlags → ModeFlags → Bytes → Bytes → Result Exit Config
parse_tcp look g m l_endpt r_endpt =
    guard (contains m.op operations) (unknown_operation m.op)
    >> (forward look m.op m.fwd >>= λ f. ok (
        tcp (record {
          op = m.op;
          l_addr = look.resolve (codes "tcp4") l_endpt;
          r_addr = look.resolve (codes "tcp4") r_endpt;
          fwd_addr = f.0;
          enc = g.enc;
          key = g.key;
          s5_conf = f.1;
        })))

-- The forward address of the case "udp"
unfoldable pub udp_forward :
    Lookups → Bytes → Bytes → Bytes → Result Exit (Option (Option Bytes) × Option S5Config)
udp_forward look proto op fwd =
    let kcp = forward look op fwd in
    if proto == codes "udp"
    then ok (some (look.resolve (codes "udp4") fwd), none)
    else if proto == codes "kcp"
    then kcp
    else ok (none, none)

unfoldable pub no_more : List Bytes → Result Exit (Unit {0})
no_more [] = ok tt
no_more (w ∷ ws) = err (unknown_option w)

-- The case "udp" of ParseConfig
unfoldable pub parse_udp : Lookups → GlobalFlags → ModeFlags → Bytes → Bytes → Result Exit Config
parse_udp look g m l_endpt r_endpt =
    guard (contains m.op operations) (unknown_operation m.op)
    >> (parse_proto m.proto >>= λ p. udp_forward look p.0 m.op m.fwd >>= λ f.
        no_more m.left
        >> ok (
            udp (record {
              op = m.op;
              l_addr = look.resolve (codes "udp4") l_endpt;
              r_addr = look.resolve (codes "udp4") r_endpt;
              fwd_addr = f.0;
              proto = p.0;
              k_conf = p.1;
              ttl = m.ttl;
              enc = g.enc;
              key = g.key;
              s5_conf = f.1;
            })))

-- ParseConfig past the global flags, with how the flags of a mode are parsed
unfoldable pub parse_args :
    Lookups → (List Bytes → ModeFlags) → GlobalFlags → List Bytes → Result Exit Config
parse_args look flags g [] = err no_mode
parse_args look flags g (mode ∷ []) = err no_endpoints
parse_args look flags g (mode ∷ l ∷ []) = err no_endpoints
parse_args look flags g (mode ∷ l ∷ r ∷ rest) =
    if to_lower mode == codes "tcp"
    then parse_tcp look g (flags rest) l r
    else if to_lower mode == codes "udp"
    then parse_udp look g (flags rest) l r
    else err unknown_mode

-- ParseConfig
unfoldable pub parse_config : Lookups → (List Bytes → ModeFlags) → GlobalFlags → Result Exit Config
parse_config look flags g = if g.help then err usage else parse_args look flags g g.args
