-- ===== src/Tunnel/Cli/Configs.antt =====
-- cli.go: which configurations ParseConfig returns.
use gole.Base.{
  ◌≡◌, refl, ◌⊎◌, inl, inr, true, not, Option, none, some, List, [], ◌∷◌, arith, Bytes, nat_eq,
  bytes_eq, bytes_beq, bytes_beq_iff, codes,
}
use gole.Base.Result.{
  Result, ok, err, ◌>>◌, Ensures, Ensures-any, Ensures-bind, Ensures-guard, Ensures-if, Ensures-ok,
}
use gole.Base.Strings.{has_prefix, to_lower, split}
use gole.Tunnel.Common.{contains}
use gole.Tunnel.Cli.{
  Lookups, GlobalFlags, ModeFlags, S5Config, UdpConfig, Config, tcp, udp, Exit, unknown_operation,
  operations, parse_socks5, proto_loop, parse_proto, forward, parse_tcp, udp_forward, no_more,
  parse_udp, parse_args, parse_config,
}

-- With a SOCKS5 server the operation is that of a server, and there is no forward address.
abbrev pub Forwards : Bytes → Option (Option Bytes) × Option S5Config → Type 0
Forwards op f = (s : S5Config) → f.1 ≡ some s → (op ≡ codes "server") × (f.0 ≡ none)

abbrev pub IsConfig : Config → Type 0
IsConfig (tcp c) = (contains c.op operations ≡ true) × Forwards c.op (c.fwd_addr, c.s5_conf)
IsConfig (udp c) =
    (contains c.op operations ≡ true)
    × Forwards c.op (c.fwd_addr, c.s5_conf)
    × (((c.proto ≡ codes "udp") × (c.s5_conf ≡ none)) ⊎ (c.proto ≡ codes "kcp"))

forward-Forwards : (look : Lookups) (op fwd : Bytes) → Ensures (Forwards op) (forward look op fwd)
unfolding forward
forward-Forwards look op fwd =
    Ensures-if (Forwards op) (has_prefix fwd (codes "socks5")) _ _
      (λ b.
        Ensures-if (Forwards op) (not (bytes_beq op (codes "server"))) _ _ (λ d. tt)
          (λ d.
            Ensures-any (Forwards op) (parse_socks5 look fwd) _
              (λ s t e. ((bytes_beq_iff _ _).0 (ground (arith, d)), refl))))
      (λ b s e. absurd cc)

parse_tcp-IsConfig :
    (look : Lookups) (g : GlobalFlags) (m : ModeFlags) (l r : Bytes)
    → Ensures IsConfig (parse_tcp look g m l r)
unfolding parse_tcp
parse_tcp-IsConfig look g m l r =
    Ensures-guard IsConfig (contains m.op operations) (unknown_operation m.op) _ (λ known.
      Ensures-bind (Forwards m.op) IsConfig (forward look m.op m.fwd) _
        (forward-Forwards look m.op m.fwd) (λ f allowed. (known, allowed)))

-- The two protocols
abbrev IsProto : Bytes → Type 0
IsProto proto = (proto ≡ codes "udp") ⊎ (proto ≡ codes "kcp")

parse_proto-IsProto : (ss : Bytes) → Ensures (λ p. IsProto p.0) (parse_proto ss)
unfolding parse_proto
parse_proto-IsProto ss =
    let proto = (split 44 ss).0 in
    Ensures-if (λ p. IsProto p.0) (bytes_beq proto (codes "kcp")) _ _
      (λ b.
        Ensures-any (λ p. IsProto p.0) (proto_loop (split 44 ss).1 (codes "kcp.conf")) _
          (λ k. inr ((bytes_beq_iff _ _).0 b)))
      (λ b.
        Ensures-if (λ p. IsProto p.0) (bytes_beq proto (codes "udp")) _ _
          (λ d. inl ((bytes_beq_iff _ _).0 d)) (λ d. tt))

-- What the forward address of a UDP tunnel is, by its protocol
abbrev UdpForwards : Bytes → Bytes → Option (Option Bytes) × Option S5Config → Type 0
UdpForwards proto op f =
    Forwards op f × (((proto ≡ codes "udp") × (f.1 ≡ none)) ⊎ (proto ≡ codes "kcp"))

udp_forward-UdpForwards :
    (look : Lookups) (proto op fwd : Bytes)
    → IsProto proto
    → Ensures (UdpForwards proto op) (udp_forward look proto op fwd)
unfolding udp_forward
udp_forward-UdpForwards look proto op fwd p =
    Ensures-if (UdpForwards proto op) (bytes_beq proto (codes "udp")) _ _
      (λ b. ((λ s e. absurd cc), inl ((bytes_beq_iff _ _).0 b, refl)))
      (λ b.
        Ensures-if (UdpForwards proto op) (bytes_beq proto (codes "kcp")) _ _
          (λ d. kcp d (forward look op fwd) (forward-Forwards look op fwd))
          (λ d. elim p [
            | inl e ↦ absurd (ground (arith, b, (bytes_beq_iff proto (codes "udp")).1 e))
            | inr e ↦ absurd (ground (arith, d, (bytes_beq_iff proto (codes "kcp")).1 e))
          ]))
  where
    kcp :
        bytes_beq proto (codes "kcp") ≡ true
        → (m : Result Exit (Option (Option Bytes) × Option S5Config)) → Ensures (Forwards op) m
        → Ensures (UdpForwards proto op) m
    kcp d (ok f) h = (h, inr ((bytes_beq_iff _ _).0 d))
    kcp d (err e) h = tt

parse_udp-IsConfig :
    (look : Lookups) (g : GlobalFlags) (m : ModeFlags) (l r : Bytes)
    → Ensures IsConfig (parse_udp look g m l r)
unfolding parse_udp
parse_udp-IsConfig look g m l r =
    Ensures-guard IsConfig (contains m.op operations) (unknown_operation m.op) _ (λ known.
      Ensures-bind (λ p. IsProto p.0) IsConfig (parse_proto m.proto) _ (parse_proto-IsProto m.proto)
        (λ p is.
          Ensures-bind (UdpForwards p.0 m.op) IsConfig (udp_forward look p.0 m.op m.fwd) _
            (udp_forward-UdpForwards look p.0 m.op m.fwd is)
            (λ f allowed. finish _ (no_more m.left) known allowed)))
  where
    finish :
        (c : UdpConfig) (m : Result Exit (Unit {0}))
        → contains c.op operations ≡ true
        → UdpForwards c.proto c.op (c.fwd_addr, c.s5_conf)
        → Ensures IsConfig (m >> ok (udp c))
    finish c (ok u) known allowed = (known, allowed.0, allowed.1)
    finish c (err e) known allowed = tt

parse_args-IsConfig :
    (look : Lookups) (flags : List Bytes → ModeFlags) (g : GlobalFlags) (args : List Bytes)
    → Ensures IsConfig (parse_args look flags g args)
unfolding parse_args
parse_args-IsConfig look flags g [] = tt
parse_args-IsConfig look flags g (mode ∷ []) = tt
parse_args-IsConfig look flags g (mode ∷ l ∷ []) = tt
parse_args-IsConfig look flags g (mode ∷ l ∷ r ∷ rest) =
    Ensures-if IsConfig (bytes_beq (to_lower mode) (codes "tcp")) _ _
      (λ b. parse_tcp-IsConfig look g (flags rest) l r)
      (λ b.
        Ensures-if IsConfig (bytes_beq (to_lower mode) (codes "udp")) _ _
          (λ d. parse_udp-IsConfig look g (flags rest) l r) (λ d. tt))

-- A configuration that ParseConfig returns has one of the three operations, and a SOCKS5 server
-- only where the operation is that of a server, and then no forward address; over UDP its
-- protocol is udp, which has no SOCKS5 server, or kcp.
pub parse_config-IsConfig :
    (look : Lookups) (flags : List Bytes → ModeFlags) (g : GlobalFlags) (conf : Config)
    → parse_config look flags g ≡ ok conf
    → IsConfig conf
unfolding parse_config
parse_config-IsConfig look flags g conf h =
    Ensures-ok IsConfig (parse_config look flags g)
      (Ensures-if IsConfig g.help _ _ (λ b. tt) (λ b. parse_args-IsConfig look flags g g.args)) h
