-- ===== src/Swarm/Registrar/Routing.antt =====
-- swarm/registrar.go: observing and routing keep the registrar sound.
use gole.Base.{
  ℕ, ◌≡◌, refl, some, Bytes, ◌==◌, nat_eq, bytes_eq, inl, inr, Bool-cases, Option-cases,
}
use gole.Base.Int.{ℤ}
use gole.Base.Result.{Result-cases}
use gole.Swarm.Types.Address.{EndpointAddr, state_active}
use gole.Swarm.Types.Enroll.{RegisteredEndpoint}
use gole.Swarm.Paseto.{Crypto, verify_token, claims_match_id}
use gole.Swarm.Registrar.State.{Registrar, Endpoints, get_endpoint}
use gole.Swarm.Registrar.Store.{find_endpoint}
use gole.Swarm.Registrar.Soundness.{IsSound}
use gole.Swarm.Registrar.Activation.{
  observe_endpoint, set_relay_route, set_route_known, put_reachability,
}
use gole.Swarm.Registrar.Steps.{IsSafe, quiet, still}

pub observe_endpoint-IsSafe :
    (addr : EndpointAddr) (o proto : Bytes) (now : ℤ) (r : Registrar)
    → IsSound r
    → IsSafe r (observe_endpoint addr o proto now r).0
unfolding observe_endpoint put_reachability
observe_endpoint-IsSafe addr o proto now r h = elim (Option-cases (get_endpoint r addr)) [
  | inl q ↦ rw (q, observe_endpoint) (still r h)
  | inr (ep, q) ↦
      rw (q, observe_endpoint)
        (elim (Bool-cases (ep.state == state_active)) [
          | inl b ↦ rw b (quiet r _ h refl h.pending h.approvals)
          | inr b ↦ rw b (still r h)
        ])
]

pub at_address :
    (eps : Endpoints) (d' g' e' d g e : ℕ) (ep : RegisteredEndpoint)
    → d' ≡ d
    → g' ≡ g
    → e' ≡ e
    → find_endpoint eps d g e ≡ some ep
    → find_endpoint eps d' g' e' ≡ some ep
at_address eps d' g' e' d g e ep p q r h = rw (p, q, r) h

module _ (c : Crypto) where
  set_route_known-IsSafe :
      (addr relay : EndpointAddr) (now : ℤ) (r : Registrar)
      → IsSound r
      → IsSafe r (set_route_known c addr relay now r).0
  unfolding set_route_known put_reachability
  set_route_known-IsSafe addr relay now r h = elim (Option-cases (get_endpoint r addr)) [
    | inl q ↦ rw (q, set_route_known) (still r h)
    | inr (ep, q) ↦
        rw (q, set_route_known)
          (elim (Bool-cases (ep.state == state_active)) [
            | inl b ↦ rw b (quiet r _ h refl h.pending h.approvals)
            | inr b ↦ rw b (still r h)
          ])
  ]

  pub set_relay_route-IsSafe :
      (addr : EndpointAddr) (token : Bytes) (relay : EndpointAddr) (now : ℤ) (r : Registrar)
      → IsSound r
      → IsSafe r (set_relay_route c addr token relay now r).0
  unfolding set_relay_route
  set_relay_route-IsSafe addr token relay now r h =
      elim (Result-cases (verify_token c token r.public_key now)) [
        | inl (e, q) ↦ rw (q, set_relay_route) (still r h)
        | inr (t, q) ↦
            rw (q, set_relay_route)
              (elim (Bool-cases (claims_match_id t addr)) [
                | inl b ↦ rw b (set_route_known-IsSafe addr relay now r h)
                | inr b ↦ rw b (still r h)
              ])
      ]
