-- ===== src/Swarm/Registrar/Reach.antt =====
-- swarm/registrar.go: what LookupReachability and RequestPunch give away.
use gole.Base.{
  ◌≡◌, refl, ◌∙◌, true, none, some, arith, Bytes, ◌==◌, nat_eq, bytes_eq, bytes_beq_iff, inl, inr,
  Option-cases,
}
use gole.Base.Int.{ℤ}
use gole.Base.Result.{ok}
use gole.Base.Dict.{lookup, lookup-delete}
use gole.Swarm.Types.Address.{EndpointAddr, addr_key}
use gole.Swarm.Types.Wire.{DirectRoute, PunchRequest}
use gole.Swarm.Paseto.{Crypto, TokenClaims, verify_token, claims_match_id}
use gole.Swarm.Registrar.State.{Registrar, get_endpoint, set_state}
use gole.Swarm.Registrar.Activation.{
  revoke_endpoint, lookup_reachability, punch_to, direct_route, is_active,
}

-- The address is reported by LookupReachability only while its endpoint is active.
abbrev pub NotReported : EndpointAddr → Registrar → Type 0
NotReported addr r = lookup_reachability addr r ≡ none

-- A successful RevokeEndpoint takes the endpoint's reachability with it.
pub revoke-lookup :
    (addr : EndpointAddr) (r : Registrar)
    → (revoke_endpoint addr r).1 ≡ ok tt
    → NotReported addr (revoke_endpoint addr r).0
unfolding revoke_endpoint lookup_reachability set_state
revoke-lookup addr r h = elim (Option-cases (get_endpoint r addr)) [
  | inl q ↦ absurd (ground arith)
  | inr (ep, q) ↦
      let gone = lookup-delete (addr_key addr) (addr_key addr) r.reachability in
      let self : (addr_key addr == addr_key addr) ≡ true =
        ground (arith, bytes_beq_iff (addr_key addr) (addr_key addr)) in
      let e : lookup (addr_key addr) (revoke_endpoint addr r).0.reachability ≡ none =
        rw (q, revoke_endpoint) (gone ∙ rw self refl) in
      rw (e, lookup_reachability) refl
]

-- What RequestPunch has established when it introduces two endpoints to one another.
pub record IsIntroduced (c : Crypto) (client agent : EndpointAddr) (token : Bytes) (now : ℤ)
    (r : Registrar) (out : PunchRequest × PunchRequest) : Type 0 where
  pub claims : TokenClaims
  pub verified : verify_token c token r.public_key now ≡ ok claims
  pub matches : claims_match_id claims client ≡ true
  pub client_route : DirectRoute
  pub agent_route : DirectRoute
  pub client_seen : direct_route client r ≡ some client_route
  pub agent_seen : direct_route agent r ≡ some agent_route
  pub client_active : is_active client r ≡ true
  pub agent_active : is_active agent r ≡ true
  pub answer : out ≡ (punch_to agent agent_route, punch_to client client_route)
