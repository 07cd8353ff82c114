-- ===== src/Swarm/Endpoint/State.antt =====
-- swarm/endpoint.go: the endpoint's state, and what the registrar's answers do to it.
use gole.Base.{ℕ, ◌*◌, Option, none, some, List, [], Bytes, ◌==◌, nat_eq, bytes_eq, if◌then◌else◌}
use gole.Base.Int.{ℤ, pos, ltℤ, add64}
use gole.Base.Result.{Result, ok, err}
use gole.Swarm.Types.Address.{
  EndpointAddr, state_unregistered, state_challenge_issued, state_registered, state_pending,
  state_denied,
}
use gole.Swarm.Types.Enroll.{EnrollResponse, EnrollStatus}
use gole.Swarm.Types.Transport.{
  TransportConfig, TransportDecision, RelayInfo, default_transport_config,
}
use gole.Swarm.Registrar.State.{Registrar}
use gole.Swarm.Registrar.Enrollment.{RegistrarError}
use gole.Swarm.Registrar.Activation.{lookup_reachability}
use gole.Swarm.Discovery.Select.{TransportMonitor, prioritize_relay}

-- The monitor stands for the goroutine that evaluates it.
pub record Endpoint : Type 0 where
  pub public_key : Bytes
  pub private_key : Bytes
  pub addr : Option EndpointAddr
  pub token : Bytes
  pub state : ℕ
  pub request_id : Bytes
  pub fingerprint : Bytes
  pub registrar_key : Bytes
  pub relays : List RelayInfo
  pub transport_cfg : TransportConfig
  pub decision : Option TransportDecision
  pub monitor : Option TransportMonitor

pub data EndpointError : Type 0 where
  cannot_enroll cannot_confirm cannot_activate cannot_discover : ℕ → EndpointError
  cannot_set_route cannot_send : ℕ → EndpointError
  enroll_failed confirm_failed poll_failed registrar_failed info_failed :
      RegistrarError → EndpointError
  no_active_enrollment not_registered enrollment_denied cancelled derive_failed : EndpointError

-- The endpoint and the registrar after a call, with its result
abbrev pub Joint : Type 0 → Type 0
Joint A = Endpoint × (Registrar × Result EndpointError A)

-- NewEndpoint, with the generated key pair
unfoldable pub new_endpoint : Bytes → Bytes → Endpoint
new_endpoint public_key private_key = record {
  public_key = public_key;
  private_key = private_key;
  addr = none;
  token = [];
  state = state_unregistered;
  request_id = [];
  fingerprint = [];
  registrar_key = [];
  relays = [];
  transport_cfg = default_transport_config;
  decision = none;
  monitor = none;
}

-- SetTransportConfig
unfoldable pub set_transport_config : TransportConfig → Endpoint → Endpoint
set_transport_config cfg e = record e { transport_cfg = cfg }

-- applyStatus
unfoldable pub apply_registered : EnrollStatus → Endpoint → Endpoint
apply_registered s e = elim s.result [
  | none ↦ record e { state = state_registered }
  | some res ↦ record e { addr = some res.address; token = res.token; state = state_registered }
]

unfoldable pub apply_status : EnrollStatus → Endpoint → Endpoint
apply_status s e =
    if s.state == state_registered
    then apply_registered s e
    else if s.state == state_pending
    then record e { state = state_pending }
    else if s.state == state_denied
    then record e { state = state_denied }
    else e

-- Enroll, once the registrar has answered
unfoldable pub enrolled :
    Endpoint → Registrar × Result RegistrarError EnrollResponse → Joint EnrollResponse
enrolled e (r, err x) = (record e { state = state_unregistered }, (r, err (enroll_failed x)))
enrolled e (r, ok resp) =
    (record e { request_id = resp.request_id; state = state_challenge_issued }, (r, ok resp))

-- ConfirmEnrollment, once the registrar has answered
unfoldable pub confirmed :
    Endpoint → Registrar × Result RegistrarError EnrollStatus → Joint EnrollStatus
confirmed e (r, err x) = (record e { state = state_unregistered }, (r, err (confirm_failed x)))
confirmed e (r, ok s) = (apply_status s e, (r, ok s))

-- StopMonitor
unfoldable pub stop_monitor : Endpoint → Endpoint
stop_monitor e = record e { monitor = none }

-- The wait after a poll that has found the enrollment pending
unfoldable pub next_interval : ℤ → ℤ
next_interval interval =
    let doubled = add64 interval interval in
    if ltℤ (pos (60 * 1000000000)) doubled then pos (60 * 1000000000) else doubled

-- The relays that Discover probes
unfoldable pub known_relays : Endpoint → EndpointAddr → Option Registrar → List RelayInfo
known_relays e peer none = e.relays
known_relays e peer (some r) = elim (lookup_reachability peer r) [
  | none ↦ e.relays
  | some reach ↦ elim reach.relay [
    | none ↦ e.relays
    | some route ↦ prioritize_relay e.relays route.relay_addr
  ]
]
