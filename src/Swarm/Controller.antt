-- ===== src/Swarm/Controller.antt =====
-- swarm/controller.go: flow authorization. The controller holds a pointer to the registrar: the
-- registrar as it stands at the call is an argument.
pub mod Flows
pub mod Revoked
use gole.Base.{ℕ, not, none, some, List, [], ◌∷◌, ◌++◌, Bytes, ◌==◌, nat_eq, if◌then◌else◌}
use gole.Base.Int.{ℤ}
use gole.Base.Result.{Result, ok, err}
use gole.Swarm.Types.Address.{
  EndpointAddr, addr_role, role_client, role_agent, role_relay, state_active,
}
use gole.Swarm.Types.Wire.{SwarmMessage}
use gole.Swarm.Paseto.{Crypto, TokenError, verify_token, claims_match}
use gole.Swarm.Policy.{FlowPolicy, PolicyError}
use gole.Swarm.Registrar.State.{Registrar, get_endpoint, relay_domain}

pub data FlowError : Type 0 where
  invalid_token : TokenError → FlowError
  sender_mismatch invalid_signature : FlowError
  relay_outside_domain relay_not_found : FlowError
  relay_state : ℕ → FlowError
  not_a_client not_an_agent : FlowError
  cross_domain cross_group : ℕ → ℕ → FlowError
  destination_not_found : FlowError
  destination_state : ℕ → FlowError
  policy_denied : PolicyError → FlowError

pub record Controller : Type 0 where
  pub registrar_key : Bytes
  pub policies : List FlowPolicy

-- NewController
unfoldable pub new_controller : Registrar → Controller
new_controller r = record { registrar_key = r.public_key; policies = [] }

-- AddPolicy
unfoldable pub add_policy : FlowPolicy → Controller → Controller
add_policy p k = record k { policies = k.policies ++ (p ∷ []) }

-- The loop over the custom policies: the first error denies.
unfoldable pub check_policies :
    List FlowPolicy → EndpointAddr → EndpointAddr → Result FlowError (Unit {0})
check_policies [] from to = ok tt
check_policies (p ∷ ps) from to =
    let rest = check_policies ps from to in
    elim (p from to) [ none ↦ rest | some e ↦ err (policy_denied e) ]

unfoldable pub check_relay : Registrar → EndpointAddr → Result FlowError (Unit {0})
check_relay r to =
    if not (to.domain == relay_domain) then err relay_outside_domain else elim (get_endpoint r to) [
      | none ↦ err relay_not_found
      | some ep ↦ if ep.state == state_active then ok tt else err (relay_state ep.state)
    ]

unfoldable pub check_destination :
    Controller → Registrar → EndpointAddr → EndpointAddr → Result FlowError (Unit {0})
check_destination k r from to = elim (get_endpoint r to) [
  | none ↦ err destination_not_found
  | some ep ↦
      if ep.state == state_active
      then check_policies k.policies from to
      else err (destination_state ep.state)
]

-- checkFlowRules
unfoldable pub check_flow_rules :
    Controller → Registrar → EndpointAddr → EndpointAddr → Result FlowError (Unit {0})
check_flow_rules k r from to =
    if addr_role to == role_relay
    then check_relay r to
    else if not (addr_role from == role_client)
    then err not_a_client
    else if not (addr_role to == role_agent)
    then err not_an_agent
    else if not (from.domain == to.domain)
    then err (cross_domain from.domain to.domain)
    else if not (from.group == to.group)
    then err (cross_group from.group to.group)
    else check_destination k r from to

module _ (c : Crypto) where
  -- ValidateFlow
  unfoldable pub validate_flow :
      Controller → Registrar → EndpointAddr → EndpointAddr → Bytes → ℤ → Result FlowError (Unit {0})
  validate_flow k r from to token now = elim (verify_token c token k.registrar_key now) [
    | err e ↦ err (invalid_token e)
    | ok claims ↦
        if not (claims_match claims from) then err sender_mismatch else check_flow_rules k r from to
  ]

  -- VerifyMessage
  unfoldable pub verify_message :
      Controller → Registrar → SwarmMessage → ℤ → Result FlowError (Unit {0})
  verify_message k r msg now = elim (verify_token c msg.token k.registrar_key now) [
    | err e ↦ err (invalid_token e)
    | ok claims ↦
        if not (claims_match claims msg.from)
        then err sender_mismatch
        else if not (c.verify claims.public_key msg.payload msg.signature)
        then err invalid_signature
        else check_flow_rules k r msg.from msg.to
  ]
