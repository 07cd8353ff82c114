-- ===== src/Swarm/Controller/Revoked.antt =====
-- swarm/controller.go: what a revocation changes for flows.
use gole.Base.{◌≡◌, ◌≢◌, arith, Bytes, nat_eq, inl, inr, Option-cases}
use gole.Base.Int.{ℤ}
use gole.Base.Result.{ok, Result-cases}
use gole.Swarm.Types.Address.{EndpointAddr, state_revoked}
use gole.Swarm.Paseto.{Crypto, verify_token}
use gole.Swarm.Registrar.State.{Registrar, get_endpoint}
use gole.Swarm.Registrar.Activation.{revoke_endpoint}
use gole.Swarm.Registrar.Activating.{IsMarked, set_state-IsMarked}
use gole.Swarm.Controller.{
  Controller, check_relay, check_destination, check_flow_rules, validate_flow,
}
use gole.Swarm.Controller.Flows.{IsActive, Permitted, to_relay, to_agent, validate_flow-ok_iff}

abbrev SameEndpoint : EndpointAddr → EndpointAddr → Type 0
SameEndpoint a b = (a.domain ≡ b.domain) × (a.group ≡ b.group) × (a.endpoint ≡ b.endpoint)

revoke-IsMarked :
    (addr : EndpointAddr) (r : Registrar)
    → (revoke_endpoint addr r).1 ≡ ok tt
    → IsMarked addr state_revoked r (revoke_endpoint addr r).0
unfolding revoke_endpoint get_endpoint
revoke-IsMarked addr r h = elim (Option-cases (get_endpoint r addr)) [
  | inl q ↦ absurd (ground arith)
  | inr (ep, q) ↦
      let m = set_state-IsMarked addr ep state_revoked r q in
      rw (q, revoke_endpoint)
        (record { old = m.old; held = m.held; marked = m.marked; others = m.others })
]

check_relay_unchanged :
    (r r' : Registrar) (to : EndpointAddr)
    → get_endpoint r' to ≡ get_endpoint r to
    → check_relay r' to ≡ check_relay r to
unfolding check_relay
check_relay_unchanged r r' to h = elim (Option-cases (get_endpoint r to)) [
  | inl q ↦ ground arith
  | inr (ep, q) ↦ ground arith
]

check_destination_unchanged :
    (k : Controller) (r r' : Registrar) (from to : EndpointAddr)
    → get_endpoint r' to ≡ get_endpoint r to
    → check_destination k r' from to ≡ check_destination k r from to
unfolding check_destination
check_destination_unchanged k r r' from to h = elim (Option-cases (get_endpoint r to)) [
  | inl q ↦ ground arith
  | inr (ep, q) ↦ ground arith
]

check_flow_rules_unchanged :
    (k : Controller) (r r' : Registrar) (from to : EndpointAddr)
    → get_endpoint r' to ≡ get_endpoint r to
    → check_flow_rules k r' from to ≡ check_flow_rules k r from to
unfolding check_flow_rules
check_flow_rules_unchanged k r r' from to h =
    ground (arith, check_relay_unchanged r r' to h, check_destination_unchanged k r r' from to h)

module _ (c : Crypto) where
  -- Revoking the sender does not stop its flows: after RevokeEndpoint has succeeded on the sender,
  -- ValidateFlow to any other endpoint answers for every token and time as it did before, since the
  -- sender's state is not looked up.
  pub validate_flow_revoked_sender :
      (k : Controller) (r : Registrar) (from to : EndpointAddr) (token : Bytes) (now : ℤ)
      → (revoke_endpoint from r).1 ≡ ok tt
      → ¬ SameEndpoint from to
      → validate_flow c k (revoke_endpoint from r).0 from to token now
        ≡ validate_flow c k r from to token now
  unfolding validate_flow
  validate_flow_revoked_sender k r from to token now h n =
      let m = revoke-IsMarked from r h in
      let e = check_flow_rules_unchanged k r (revoke_endpoint from r).0 from to (m.others to n) in
      elim (Result-cases (verify_token c token k.registrar_key now)) [
        | inl (x, q) ↦ ground arith
        | inr (t, q) ↦ ground (arith, e)
      ]

  -- Revoking the destination stops every flow to it: after RevokeEndpoint has succeeded on an
  -- endpoint, ValidateFlow to it succeeds for no sender, token or time.
  pub validate_flow_revoked_destination :
      (k : Controller) (r : Registrar) (from to : EndpointAddr) (token : Bytes) (now : ℤ)
      → (revoke_endpoint to r).1 ≡ ok tt
      → validate_flow c k (revoke_endpoint to r).0 from to token now ≢ ok tt
  validate_flow_revoked_destination k r from to token now h v =
      let m = revoke-IsMarked to r h in
      let (t, _, _, p) =
        (validate_flow-ok_iff c k (revoke_endpoint to r).0 from to token now).0 v in
      let inactive : IsActive (revoke_endpoint to r).0 to → ⊥ =
        λ a. ground (arith, a.held, a.active, m.marked) in
      refuted k (revoke_endpoint to r).0 from to inactive p
    where
      refuted :
          (k : Controller) (r' : Registrar) (from to : EndpointAddr)
          → (IsActive r' to → ⊥)
          → Permitted k r' from to
          → ⊥
      refuted k r' from to n (to_relay _ _ a) = n a
      refuted k r' from to n (to_agent _ _ _ _ a _) = n a
