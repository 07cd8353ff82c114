-- ===== src/S5/Serving.antt =====
-- s5/s5.go: a client that greets and asks for a connection, from its first byte to the relaying,
-- and the reply that it is sent.
use gole.Base.{
  ℕ, ◌/◌, ◌%◌, ◌<◌, ◌≡◌, refl, ◌∙◌, sym, ap, subst, Bool, true, false, ◌⊎◌, inl, inr, none, some,
  Option, List, [], ◌∷◌, ◌++◌, arith, Bytes, length, length-drop, concat, concat-append, take, drop,
  take-append-drop, if◌then◌else◌, Bool-cases, nat_eq, nat_beq, bytes_eq, bytes_beq, bytes_beq_iff,
  codes,
}
use mathlib.Core.List.{append_assoc}
use gole.Base.Result.{Result, ok, err}
use gole.Base.Decimal.{itoa}
use gole.S5.Stream.{IoError}
use gole.S5.Address.{v4_prefix, to4, to16, join_host_port}
use gole.S5.Server.{Refusal, slice_panic, hand_shake, parse_target, confirmation}
use gole.S5.Proxy.{
  TcpAddr, or_nil, ip_equal, zone_of, reply, Served, dialed, after_greeting, refused, relaying,
  pipe_when_close, serve_request, handle_connection,
}
use gole.S5.Requests.{
  greeting, Target, ip4, ip6, IsTarget, address_bytes, request, host_text, fits,
  hand_shake-greeting, parse_target-request,
}

-- The local address of the outgoing connection, as the protocol writes it
abbrev pub target_of : Bytes → Option Bytes → Target
target_of ip none = ip6 ip
target_of ip (some v4) = ip4 v4

abbrev pub local_target : Bytes → Target
local_target ip = target_of ip (to4 ip)

-- The reply of the protocol with this address
abbrev pub reply_with : Target → ℕ → Bytes
reply_with t port = 5 ∷ 0 ∷ 0 ∷ (address_bytes t ++ (port / 256 ∷ port % 256 ∷ []))

to4_cases :
    (ip : Bytes)
    → (length ip ≡ 4) ⊎ (length ip ≡ 16)
    → ((to4 ip ≡ none) × (length ip ≡ 16))
      ⊎ ((v4 : Bytes) × (to4 ip ≡ some v4) × (length v4 ≡ 4) × (ip_equal ip v4 ≡ true))
unfolding to4 ip_equal
to4_cases ip (inl h) =
    let self : bytes_beq ip ip ≡ true = (bytes_beq_iff ip ip).1 refl in
    let four : nat_beq (length ip) 4 ≡ true = ground (arith, h) in
    let same : nat_beq (length ip) (length ip) ≡ true = ground arith in
    inr (ip, rw four refl, h, rw (same, self) refl)
to4_cases ip (inr h) = elim (Bool-cases (bytes_beq (take 12 ip) v4_prefix)) [
  | inl b ↦
      let n4 : length (drop 12 ip) ≡ 4 = length-drop 12 ip ∙ omega (arith, h) in
      let whole : ip ≡ v4_prefix ++ drop 12 ip =
        sym (take-append-drop 12 ip) ∙ ap (λ z. z ++ drop 12 ip) ((bytes_beq_iff _ _).0 b) in
      let is_mapped : bytes_beq ip (v4_prefix ++ drop 12 ip) ≡ true = (bytes_beq_iff _ _).1 whole in
      let not4 : nat_beq (length ip) 4 ≡ false = ground (arith, h) in
      let is16 : nat_beq (length ip) 16 ≡ true = ground (arith, h) in
      let other : nat_beq (length ip) (length (drop 12 ip)) ≡ false = ground (arith, h, n4) in
      let four : nat_beq (length (drop 12 ip)) 4 ≡ true = ground (arith, n4) in
      inr (drop 12 ip, rw (not4, is16, b) refl, n4, rw (other, not4, is16, four, is_mapped) refl)
  | inr b ↦
      let not4 : nat_beq (length ip) 4 ≡ false = ground (arith, h) in
      let is16 : nat_beq (length ip) 16 ≡ true = ground (arith, h) in
      inl (rw (not4, is16, b) refl, h)
]

no_zone :
    (a : TcpAddr)
    → a.zone ≡ []
    → zone_of a ≡ (if ip_equal a.ip (or_nil (to4 a.ip)) then codes "ip4" else codes "ip6")
unfolding zone_of bytes_beq
no_zone a z = rw z refl

not_nil : (ip : Bytes) → length ip ≡ 16 → ip_equal ip [] ≡ false
unfolding ip_equal
not_nil ip h =
    let not0 : nat_beq (length ip) 0 ≡ false = ground (arith, h) in
    let not4 : nat_beq (length ip) 4 ≡ false = ground (arith, h) in
    let is16 : nat_beq (length ip) 16 ≡ true = ground (arith, h) in rw (not0, not4, is16) refl

to16_lem : (ip : Bytes) → length ip ≡ 16 → to16 ip ≡ some ip
unfolding to16
to16_lem ip h =
    let not4 : nat_beq (length ip) 4 ≡ false = ground (arith, h) in
    let is16 : nat_beq (length ip) 16 ≡ true = ground (arith, h) in rw (not4, is16) refl

-- What pipeWhenClose writes to the client is the reply of RFC 1928 with the address of the
-- outgoing connection: version 5, success, a reserved byte, the kind of the address, the address
-- and its port. The address has the zone empty, and is one of 4 bytes or of 16.
pub reply-IsReply :
    (a : TcpAddr)
    → a.zone ≡ []
    → (length a.ip ≡ 4) ⊎ (length a.ip ≡ 16)
    → a.port < 65536
    → IsTarget (local_target a.ip) × (reply a ≡ reply_with (local_target a.ip) a.port)
unfolding reply or_nil bytes_beq
reply-IsReply a z h p = elim (to4_cases a.ip h) [
  | inl (q, n) ↦
      let zone : zone_of a ≡ codes "ip6" = no_zone a z ∙ rw (q, not_nil a.ip n) refl in
      let high : a.port / 256 % 256 ≡ a.port / 256 = omega (arith, p) in
      subst (λ t. IsTarget t × (reply a ≡ reply_with t a.port)) (sym (ap (target_of a.ip) q))
        (n, rw (zone, to16_lem a.ip n, high) refl)
  | inr (v4, q, n, same) ↦
      let zone : zone_of a ≡ codes "ip4" = no_zone a z ∙ rw (q, same) refl in
      let high : a.port / 256 % 256 ≡ a.port / 256 = omega (arith, p) in
      subst (λ t. IsTarget t × (reply a ≡ reply_with t a.port)) (sym (ap (target_of a.ip) q))
        (n, rw (zone, q, high) refl)
]

-- All that is written once the handshake has been answered
answered : (Bytes → Option TcpAddr) → Result Refusal (Bytes × List Bytes) → Served × Bytes
unfolding serve_request
answered dial result =
    let (served, written) = serve_request dial result in (served, confirmation ++ written)

handle_run :
    (dial : Bytes → Option TcpAddr) (e : IoError) (chunks mid : List Bytes)
    → hand_shake e chunks ≡ ok mid
    → handle_connection true dial e chunks ≡ answered dial (parse_target e mid)
unfolding handle_connection after_greeting answered
handle_run dial e chunks mid h = rw h refl

answered_if :
    (dial : Bytes → Option TcpAddr) (fit : Bool) (target : Bytes) (rest : List Bytes)
    (local : TcpAddr)
    → dial target ≡ some local
    → answered dial (if fit then ok (target, rest) else err slice_panic) ≡ (
        if fit
        then (relaying target rest, confirmation ++ reply local)
        else (refused slice_panic, confirmation))
unfolding answered serve_request pipe_when_close dialed
answered_if dial true target rest local d = rw d refl
answered_if dial false target rest local d = refl

-- A client whose greeting and whose request each end with a piece of what arrives is told that no
-- authentication is needed, and then, with the connection to the host and port that it named, is
-- sent the reply; what it sent after the request is left to be relayed. On a name of 251 to 255
-- bytes the server panics after its first answer. The write of that answer succeeds.
pub handle_connection-IsServed :
    (dial : Bytes → Option TcpAddr) (e : IoError) (methods : Bytes) (reserved : ℕ) (t : Target)
    (port : ℕ) (cs ds rest : List Bytes) (local : TcpAddr)
    → length methods < 256
    → concat cs ≡ greeting methods
    → IsTarget t
    → port < 65536
    → concat ds ≡ request reserved t port
    → dial (join_host_port (host_text t) (itoa port)) ≡ some local
    → (left : List Bytes) × (concat left ≡ [])
      × (handle_connection true dial e (cs ++ (ds ++ rest)) ≡ (
          if fits t
          then (
            relaying (join_host_port (host_text t) (itoa port)) (left ++ rest),
            confirmation ++ reply local,
          )
          else (refused slice_panic, confirmation)))
handle_connection-IsServed dial e methods reserved t port cs ds rest local m g h p r d =
    let (first, gone, shaken) = hand_shake-greeting e methods cs (ds ++ rest) m g in
    let pieces : concat (first ++ ds) ≡ request reserved t port =
      concat-append first ds ∙ (ap (λ z. z ++ concat ds) gone ∙ r) in
    let (left, clean, parsed) =
      parse_target-request e reserved t port (first ++ ds) rest h p pieces in
    let regroup : hand_shake e (cs ++ (ds ++ rest)) ≡ ok ((first ++ ds) ++ rest) =
      shaken ∙ ap ok (sym (append_assoc first ds rest)) in
    (
      left,
      clean,
      handle_run dial e (cs ++ (ds ++ rest)) ((first ++ ds) ++ rest) regroup
          ∙ (ap (answered dial) parsed
              ∙ answered_if dial (fits t) (join_host_port (host_text t) (itoa port)) (left ++ rest)
                  local d),
    )
