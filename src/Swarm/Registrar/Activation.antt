-- ===== src/Swarm/Registrar/Activation.antt =====
-- swarm/registrar.go: activation, revocation, reachability and the queries.
use gole.Base.{
  ℕ, Bool, false, not, Option, none, some, List, [], ◌∷◌, Bytes, ◌==◌, nat_eq, bytes_eq,
  if◌then◌else◌,
}
use gole.Base.Dict.{lookup, insert, delete}
use gole.Base.Int.{ℤ, pos}
use gole.Base.Result.{Result, ok, err}
use gole.Swarm.Types.Address.{EndpointAddr, addr_key, state_registered, state_active, state_revoked}
use gole.Swarm.Types.Enroll.{RegisteredEndpoint, RegistrationInfo}
use gole.Swarm.Types.Wire.{ReachabilityInfo, DirectRoute, PunchRequest}
use gole.Swarm.Paseto.{Crypto, verify_token, claims_match, claims_match_id}
use gole.Swarm.Registrar.State.{Registrar, Group, get_endpoint, set_state, members, list_relays}
use gole.Swarm.Registrar.Enrollment.{
  bad_token, address_mismatch, not_found, wrong_state, client_unobserved, agent_unobserved,
  client_inactive, agent_inactive, RegistrarError, activation_denied, observe_denied,
  relay_route_denied, punch_denied, endpoint_not_found, endpoint_not_active, Outcome,
}

-- RevokeEndpoint
unfoldable pub revoke_endpoint : EndpointAddr → Registrar → Outcome (Unit {0})
revoke_endpoint addr r = elim (get_endpoint r addr) [
  | none ↦ (r, err endpoint_not_found)
  | some ep ↦ (
    record (set_state addr ep state_revoked r) {
      reachability = delete (addr_key addr) r.reachability;
    },
    ok tt,
  )
]

-- getOrCreateReachability; the caller writes the record back under the same key
unfoldable pub get_or_create_reachability : EndpointAddr → Registrar → ReachabilityInfo
get_or_create_reachability addr r = elim (lookup (addr_key addr) r.reachability) [
  | none ↦ record { addr = addr; direct = none; relay = none; updated_at = pos 0 }
  | some info ↦ info
]

unfoldable pub put_reachability : EndpointAddr → ReachabilityInfo → Registrar → Registrar
put_reachability addr info r = record r {
  reachability = insert (addr_key addr) info r.reachability;
}

-- ObserveEndpoint
unfoldable pub observe_endpoint : EndpointAddr → Bytes → Bytes → ℤ → Registrar → Outcome (Unit {0})
observe_endpoint addr observed proto now r = elim (get_endpoint r addr) [
  | none ↦ (r, err (observe_denied not_found))
  | some ep ↦
      if not (ep.state == state_active) then (r, err (observe_denied (wrong_state ep.state))) else (
        put_reachability addr
            (record (get_or_create_reachability addr r) {
              direct = some record { observed_addr = observed; proto = proto };
              updated_at = now;
            })
            r,
        ok tt,
      )
]

-- LookupReachability; the source's error is always nil
unfoldable pub lookup_reachability : EndpointAddr → Registrar → Option ReachabilityInfo
lookup_reachability target r = elim (lookup (addr_key target) r.reachability) [
  | none ↦ none
  | some info ↦ elim (get_endpoint r info.addr) [
    | none ↦ none
    | some ep ↦ if ep.state == state_active then some info else none
  ]
]

-- ClearReachability
unfoldable pub clear_reachability : EndpointAddr → Registrar → Registrar
clear_reachability addr r = record r { reachability = delete (addr_key addr) r.reachability }

unfoldable pub values : Group → List RegisteredEndpoint
values [] = []
values ((id, ep) ∷ m) = ep ∷ values m

-- ListEndpoints
unfoldable pub list_endpoints : ℕ → ℕ → Registrar → List RegisteredEndpoint
unfolding values
list_endpoints domain group r = values (members r.endpoints domain group)

-- FullRegistrationInfo
unfoldable pub full_registration_info :
    EndpointAddr → Registrar → Result RegistrarError RegistrationInfo
full_registration_info addr r = elim (get_endpoint r addr) [
  | none ↦ err endpoint_not_found
  | some ep ↦
      if not (ep.state == state_active)
      then err (endpoint_not_active ep.state)
      else ok record {
        id = ep.addr.endpoint;
        token = ep.token;
        registrar_key = r.public_key;
        relays = list_relays r;
      }
]

-- The peer's observed address, if the broker has one.
unfoldable pub direct_route : EndpointAddr → Registrar → Option DirectRoute
direct_route addr r = elim (lookup (addr_key addr) r.reachability) [
  | none ↦ none
  | some info ↦ info.direct
]

unfoldable pub is_active : EndpointAddr → Registrar → Bool
is_active addr r = elim (get_endpoint r addr) [ none ↦ false | some ep ↦ ep.state == state_active ]

unfoldable pub punch_to : EndpointAddr → DirectRoute → PunchRequest
punch_to peer route = record {
  peer_addr = peer;
  observed_addr = route.observed_addr;
  proto = route.proto;
}

-- RequestPunch once the token has matched
unfoldable pub punch_known :
    EndpointAddr → EndpointAddr → Registrar → Result RegistrarError (PunchRequest × PunchRequest)
punch_known client agent r = elim (direct_route client r) [
  | none ↦ err (punch_denied client_unobserved)
  | some cr ↦ elim (direct_route agent r) [
    | none ↦ err (punch_denied agent_unobserved)
    | some ar ↦
        if not (is_active client r)
        then err (punch_denied client_inactive)
        else if not (is_active agent r)
        then err (punch_denied agent_inactive)
        else ok (punch_to agent ar, punch_to client cr)
  ]
]

module _ (c : Crypto) where
  unfoldable pub activate_known : EndpointAddr → Registrar → Outcome (Unit {0})
  activate_known addr r = elim (get_endpoint r addr) [
    | none ↦ (r, err (activation_denied not_found))
    | some ep ↦
        if not (ep.state == state_registered)
        then (r, err (activation_denied (wrong_state ep.state)))
        else (set_state addr ep state_active r, ok tt)
  ]

  -- ActivateEndpoint
  unfoldable pub activate_endpoint : EndpointAddr → Bytes → ℤ → Registrar → Outcome (Unit {0})
  activate_endpoint addr token now r = elim (verify_token c token r.public_key now) [
    | err e ↦ (r, err (activation_denied (bad_token e)))
    | ok claims ↦
        if not (claims_match claims addr)
        then (r, err (activation_denied address_mismatch))
        else activate_known addr r
  ]

  unfoldable pub set_route_known : EndpointAddr → EndpointAddr → ℤ → Registrar → Outcome (Unit {0})
  set_route_known addr relay now r = elim (get_endpoint r addr) [
    | none ↦ (r, err (relay_route_denied not_found))
    | some ep ↦
        if not (ep.state == state_active)
        then (r, err (relay_route_denied (wrong_state ep.state)))
        else (
          put_reachability addr
              (record (get_or_create_reachability addr r) {
                relay = some record { relay_addr = relay };
                updated_at = now;
              })
              r,
          ok tt,
        )
  ]

  -- SetRelayRoute
  unfoldable pub set_relay_route :
      EndpointAddr → Bytes → EndpointAddr → ℤ → Registrar → Outcome (Unit {0})
  set_relay_route addr token relay now r = elim (verify_token c token r.public_key now) [
    | err e ↦ (r, err (relay_route_denied (bad_token e)))
    | ok claims ↦
        if not (claims_match_id claims addr)
        then (r, err (relay_route_denied address_mismatch))
        else set_route_known addr relay now r
  ]

  -- RequestPunch, which only reads
  unfoldable pub request_punch :
      EndpointAddr
      → EndpointAddr
      → Bytes
      → ℤ
      → Registrar
      → Result RegistrarError (PunchRequest × PunchRequest)
  request_punch client agent token now r = elim (verify_token c token r.public_key now) [
    | err e ↦ err (punch_denied (bad_token e))
    | ok claims ↦
        if not (claims_match_id claims client)
        then err (punch_denied address_mismatch)
        else punch_known client agent r
  ]
