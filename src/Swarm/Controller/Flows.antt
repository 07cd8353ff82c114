-- ===== src/Swarm/Controller/Flows.antt =====
-- swarm/controller.go: exactly which flows are allowed.
use gole.Base.{
  ◌≡◌, refl, ◌↔◌, inl, inr, true, none, some, List, [], ◌∷◌, arith, Bytes, ◌==◌, nat_eq,
  Option-cases,
}
use gole.Base.Int.{ℤ}
use gole.Base.{Bool-cases}
use gole.Base.Result.{ok, Result-cases}
use gole.Swarm.Types.Address.{
  EndpointAddr, addr_role, role_client, role_agent, role_relay, state_active,
}
use gole.Swarm.Types.Enroll.{RegisteredEndpoint}
use gole.Swarm.Types.Wire.{SwarmMessage}
use gole.Swarm.Paseto.{Crypto, TokenClaims, verify_token, claims_match}
use gole.Swarm.Policy.{FlowPolicy}
use gole.Swarm.Registrar.State.{Registrar, get_endpoint, relay_domain}
use gole.Swarm.Controller.{
  Controller, check_policies, check_relay, check_destination, check_flow_rules, validate_flow,
  verify_message,
}

-- The registrar holds the endpoint, in the state active.
pub record IsActive (r : Registrar) (a : EndpointAddr) : Type 0 where
  pub ep : RegisteredEndpoint
  pub held : get_endpoint r a ≡ some ep
  pub active : ep.state ≡ state_active

abbrev pub AllAccept : List FlowPolicy → EndpointAddr → EndpointAddr → Type 0
AllAccept [] from to = Unit {0}
AllAccept (p ∷ ps) from to = (p from to ≡ none) × AllAccept ps from to

-- The flows that the comments of checkFlowRules allow: from anyone to an active relay of the
-- reserved domain, or from a client to an active agent of its own group if every policy accepts.
pub data Permitted (k : Controller) (r : Registrar) (from to : EndpointAddr) : Type 0 where
  to_relay :
      addr_role to ≡ role_relay → to.domain ≡ relay_domain → IsActive r to → Permitted k r from to
  to_agent :
      addr_role from ≡ role_client
      → addr_role to ≡ role_agent
      → from.domain ≡ to.domain
      → from.group ≡ to.group
      → IsActive r to
      → AllAccept k.policies from to
      → Permitted k r from to

check_policies-ok :
    (ps : List FlowPolicy) (from to : EndpointAddr)
    → check_policies ps from to ≡ ok tt
    → AllAccept ps from to
unfolding check_policies
check_policies-ok [] from to h = tt
check_policies-ok (p ∷ ps) from to h = ground (arith, check_policies-ok ps from to)

ok-check_policies :
    (ps : List FlowPolicy) (from to : EndpointAddr)
    → AllAccept ps from to
    → check_policies ps from to ≡ ok tt
unfolding check_policies
ok-check_policies [] from to h = refl
ok-check_policies (p ∷ ps) from to h = rw (h.0) (ok-check_policies ps from to h.1)

check_relay-ok :
    (r : Registrar) (to : EndpointAddr)
    → check_relay r to ≡ ok tt
    → (to.domain ≡ relay_domain) × IsActive r to
unfolding check_relay
check_relay-ok r to h = elim (Option-cases (get_endpoint r to)) [
  | inl e ↦ absurd (ground arith)
  | inr (ep, e) ↦ (ground arith, record { ep = ep; held = e; active = ground arith })
]

check_destination-ok :
    (k : Controller) (r : Registrar) (from to : EndpointAddr)
    → check_destination k r from to ≡ ok tt
    → IsActive r to × (check_policies k.policies from to ≡ ok tt)
unfolding check_destination
check_destination-ok k r from to h = elim (Option-cases (get_endpoint r to)) [
  | inl e ↦ absurd (ground arith)
  | inr (ep, e) ↦ (record { ep = ep; held = e; active = ground arith }, ground arith)
]

permitted :
    (k : Controller) (r : Registrar) (from to : EndpointAddr)
    → check_flow_rules k r from to ≡ ok tt
    → Permitted k r from to
unfolding check_flow_rules
permitted k r from to h = elim (Bool-cases (addr_role to == role_relay)) [
  | inl e ↦ let (d, a) = check_relay-ok r to (ground arith) in to_relay (ground arith) d a
  | inr e ↦
      let (a, p) = check_destination-ok k r from to (ground arith) in
      to_agent (ground arith) (ground arith) (ground arith) (ground arith) a
        (check_policies-ok k.policies from to p)
]

allowed :
    (k : Controller) (r : Registrar) (from to : EndpointAddr)
    → Permitted k r from to
    → check_flow_rules k r from to ≡ ok tt
unfolding check_flow_rules check_relay check_destination
allowed k r from to (to_relay role d a) = ground (arith, a.held, a.active)
allowed k r from to (to_agent client agent d g a p) =
    ground (arith, a.held, a.active, ok-check_policies k.policies from to p)

-- checkFlowRules returns no error exactly on the permitted flows: to an active relay in the
-- reserved domain 0 (whoever sends, and whatever the policies say), or from a client to an active
-- agent of the same domain and group whom every policy accepts.
pub check_flow_rules-ok_iff :
    (k : Controller) (r : Registrar) (from to : EndpointAddr)
    → (check_flow_rules k r from to ≡ ok tt) ↔ Permitted k r from to
check_flow_rules-ok_iff k r from to = (permitted k r from to, allowed k r from to)

module _ (c : Crypto) where
  -- ValidateFlow returns no error exactly when the token verifies under the registrar's key to
  -- claims that match the sender's address, role flags included, and the flow is one that the
  -- comments of checkFlowRules allow: to an active relay in the reserved domain 0, whatever the
  -- sender's own domain and role are, or from a client to an active agent of the same domain and
  -- group whom every policy accepts. The tests of flows to relays expect another rule, by which
  -- the relay's domain has to be the sender's.
  pub validate_flow-ok_iff :
      (k : Controller) (r : Registrar) (from to : EndpointAddr) (token : Bytes) (now : ℤ)
      → (validate_flow c k r from to token now ≡ ok tt) ↔ (
          (t : TokenClaims) × (verify_token c token k.registrar_key now ≡ ok t)
          × (claims_match t from ≡ true)
          × Permitted k r from to)
  unfolding validate_flow
  validate_flow-ok_iff k r from to token now = (there, back)
    where
      there :
          validate_flow c k r from to token now ≡ ok tt
          → (t : TokenClaims) × (verify_token c token k.registrar_key now ≡ ok t)
            × (claims_match t from ≡ true)
            × Permitted k r from to
      there h = elim (Result-cases (verify_token c token k.registrar_key now)) [
        | inl (e, q) ↦ absurd (ground arith)
        | inr (t, q) ↦ (t, q, ground arith, permitted k r from to (ground arith))
      ]

      back :
          ((t : TokenClaims) × (verify_token c token k.registrar_key now ≡ ok t)
            × (claims_match t from ≡ true)
            × Permitted k r from to)
          → validate_flow c k r from to token now ≡ ok tt
      back (t, q, m, p) = ground (arith, allowed k r from to p)

  -- A message is accepted exactly when its flow is valid under its token and the payload's
  -- signature verifies under the public key that the token carries.
  pub verify_message-ok_iff :
      (k : Controller) (r : Registrar) (msg : SwarmMessage) (now : ℤ)
      → (verify_message c k r msg now ≡ ok tt) ↔ (
          (t : TokenClaims) × (verify_token c msg.token k.registrar_key now ≡ ok t)
          × (c.verify t.public_key msg.payload msg.signature ≡ true)
          × (validate_flow c k r msg.from msg.to msg.token now ≡ ok tt))
  unfolding verify_message validate_flow
  verify_message-ok_iff k r msg now = (there, back)
    where
      there :
          verify_message c k r msg now ≡ ok tt
          → (t : TokenClaims) × (verify_token c msg.token k.registrar_key now ≡ ok t)
            × (c.verify t.public_key msg.payload msg.signature ≡ true)
            × (validate_flow c k r msg.from msg.to msg.token now ≡ ok tt)
      there h = elim (Result-cases (verify_token c msg.token k.registrar_key now)) [
        | inl (e, q) ↦ absurd (ground arith)
        | inr (t, q) ↦ (t, q, ground arith, ground arith)
      ]

      back :
          ((t : TokenClaims) × (verify_token c msg.token k.registrar_key now ≡ ok t)
            × (c.verify t.public_key msg.payload msg.signature ≡ true)
            × (validate_flow c k r msg.from msg.to msg.token now ≡ ok tt))
          → verify_message c k r msg now ≡ ok tt
      back (t, q, s, v) = ground arith
