-- ===== src/Tunnel/Cli/Socks5.antt =====
-- cli.go: the parameters of a SOCKS5 server as they are written on the command line.
use gole.Base.{
  ℕ, ◌≡◌, ◌≢◌, refl, ◌∙◌, ap, true, false, none, some, List, [], ◌∷◌, ◌++◌, arith, Bytes, All,
  nat_eq, nat_beq, bytes_eq, bytes_beq, codes,
}
use gole.Base.Int.{pos}
use gole.Base.Result.{ok}
use gole.Base.Strings.{split, split_first}
use gole.Tunnel.Cli.{Lookups, value_of, socks5_parameter, socks5_loop, parse_socks5}

-- A text without the separator
abbrev pub Without : ℕ → Bytes → Type 0
Without sep s = All (λ c. c ≢ sep) s

split-append :
    (sep : ℕ) (a rest : Bytes)
    → Without sep a
    → split sep (a ++ (sep ∷ rest)) ≡ (a, (split sep rest).0 ∷ (split sep rest).1)
unfolding split
split-append sep [] rest h = let same : nat_beq sep sep ≡ true = ground arith in rw same refl
split-append sep (x ∷ a) rest h =
    let other : nat_beq x sep ≡ false = ground (arith, h.0) in
    rw (other, split-append sep a rest h.1) refl

split-Without : (sep : ℕ) (a : Bytes) → Without sep a → split sep a ≡ (a, [])
unfolding split
split-Without sep [] h = refl
split-Without sep (x ∷ a) h =
    let other : nat_beq x sep ≡ false = ground (arith, h.0) in
    rw (other, split-Without sep a h.1) refl

-- -fwd="socks5,bind=...,fwmark=...,dscp=..."
abbrev pub socks5_text : Bytes → Bytes → Bytes → Bytes
socks5_text bind fwmark dscp =
    codes "socks5"
    ++ (44
        ∷ ((codes "bind=" ++ bind)
            ++ (44 ∷ ((codes "fwmark=" ++ fwmark) ++ (44 ∷ (codes "dscp=" ++ dscp))))))

-- parseSocks5 reads the three parameters back as they are written, where they hold no comma.
pub parse_socks5-socks5_text :
    (look : Lookups) (bind fwmark dscp : Bytes)
    → Without 44 bind
    → Without 44 fwmark
    → Without 44 dscp
    → parse_socks5 look (socks5_text bind fwmark dscp)
      ≡ ok (record {
        bind = some (look.parse_ip bind);
        fwmark = look.atoi fwmark;
        dscp = look.atoi dscp;
      })
unfolding parse_socks5 socks5_loop socks5_parameter split_first value_of bytes_beq
parse_socks5-socks5_text look bind fwmark dscp b f d =
    let words : List Bytes =
      (codes "bind=" ++ bind) ∷ (codes "fwmark=" ++ fwmark) ∷ (codes "dscp=" ++ dscp) ∷ [] in
    let from_third : split 44 ((codes "fwmark=" ++ fwmark) ++ (44 ∷ (codes "dscp=" ++ dscp)))
        ≡ (codes "fwmark=" ++ fwmark, (codes "dscp=" ++ dscp) ∷ []) =
      split-append 44 (codes "fwmark=" ++ fwmark) (codes "dscp=" ++ dscp) (ground (arith, f))
      ∙ ap (λ r. (codes "fwmark=" ++ fwmark, r.0 ∷ r.1))
          (split-Without 44 (codes "dscp=" ++ dscp) (ground (arith, d))) in
    let from_second : split 44 (
          (codes "bind=" ++ bind)
          ++ (44 ∷ ((codes "fwmark=" ++ fwmark) ++ (44 ∷ (codes "dscp=" ++ dscp)))))
        ≡ (codes "bind=" ++ bind, (codes "fwmark=" ++ fwmark) ∷ (codes "dscp=" ++ dscp) ∷ []) =
      split-append 44 (codes "bind=" ++ bind)
        ((codes "fwmark=" ++ fwmark) ++ (44 ∷ (codes "dscp=" ++ dscp))) (ground (arith, b))
      ∙ ap (λ r. (codes "bind=" ++ bind, r.0 ∷ r.1)) from_third in
    let whole : split 44 (socks5_text bind fwmark dscp) ≡ (codes "socks5", words) =
      split-append 44 (codes "socks5")
        ((codes "bind=" ++ bind)
          ++ (44 ∷ ((codes "fwmark=" ++ fwmark) ++ (44 ∷ (codes "dscp=" ++ dscp)))))
        (ground arith)
      ∙ ap (λ r. (codes "socks5", r.0 ∷ r.1)) from_second in
    ap (λ r. socks5_loop look r.1 (record { bind = none; fwmark = pos 0; dscp = pos 0 })) whole
