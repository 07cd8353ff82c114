-- ===== src/Swarm/Endpoint/Lifecycle.antt =====
-- swarm/endpoint.go: the endpoint's operations. The registrar that an operation calls is passed along
-- with the endpoint; the registrar's random bytes and the time are arguments.
use gole.Base.{
  ℕ, Bool, not, Option, none, some, List, [], ◌∷◌, Bytes, ◌==◌, nat_eq, bytes_eq, if◌then◌else◌,
}
use gole.Base.Int.{ℤ}
use gole.Base.Result.{Result, ok, err}
use gole.Swarm.Types.Address.{
  EndpointAddr, role_relay, state_unregistered, state_requesting, state_challenge_issued,
  state_challenge_response, state_registered, state_active, state_denied,
}
use gole.Swarm.Types.Enroll.{EnrollResponse, EnrollStatus}
use gole.Swarm.Types.Transport.{TransportDecision, RelayInfo, mode_dynamic}
use gole.Swarm.Types.Wire.{SwarmMessage, ReachabilityInfo}
use gole.Swarm.Paseto.{Crypto}
use gole.Swarm.Registrar.State.{Registrar}
use gole.Swarm.Registrar.Enrollment.{
  RegistrarError, enroll, confirm_enrollment, poll_enrollment, poll_text,
}
use gole.Swarm.Registrar.Activation.{
  activate_endpoint, full_registration_info, lookup_reachability, set_relay_route,
}
use gole.Swarm.Registrar.Trace.{Call, run}
use gole.Swarm.Discovery.Select.{new_transport_monitor, probe_relays, select_transport}
use gole.Swarm.Endpoint.State.{
  Endpoint, EndpointError, Joint, apply_status, cancelled, cannot_activate, cannot_confirm,
  cannot_discover, cannot_enroll, cannot_send, cannot_set_route, confirmed, derive_failed, enrolled,
  enrollment_denied, info_failed, known_relays, no_active_enrollment, not_registered, poll_failed,
  registrar_failed,
}

module _ (c : Crypto) where
  -- Endpoint.Enroll
  unfoldable pub endpoint_enroll :
      Bytes → ℕ → Option Bytes → Option Bytes → ℤ → Endpoint → Registrar → Joint EnrollResponse
  endpoint_enroll fp role nonce id_bytes now e r =
      if not (e.state == state_unregistered)
      then (e, (r, err (cannot_enroll e.state)))
      else enrolled (record e { state = state_requesting; fingerprint = fp })
          (enroll c (record { public_key = e.public_key; fingerprint = fp; role_flags = role })
            nonce id_bytes now r)

  -- Endpoint.ConfirmEnrollment
  unfoldable pub endpoint_confirm : Bytes → ℤ → Endpoint → Registrar → Joint EnrollStatus
  endpoint_confirm challenge now e r =
      if not (e.state == state_challenge_issued)
      then (e, (r, err (cannot_confirm e.state)))
      else confirmed (record e { state = state_challenge_response })
          (confirm_enrollment c
            (record { request_id = e.request_id; signature = c.sign e.private_key challenge }) now
            r)

  -- Endpoint.Poll, by which the registrar is only read
  unfoldable pub endpoint_poll : Endpoint → Registrar → Endpoint × Result EndpointError EnrollStatus
  endpoint_poll e r =
      if e.request_id == []
      then (e, err no_active_enrollment)
      else elim (poll_enrollment c e.request_id (c.sign e.private_key (poll_text e.request_id)) r) [
        | err x ↦ (e, err (poll_failed x))
        | ok s ↦ (apply_status s e, ok s)
      ]

  -- AutoEnroll's loop. Each entry is what others ask of the registrar before the timer fires; the
  -- context is cancelled at the end of the list.
  unfoldable pub poll_loop : List (List Call) → Endpoint → Registrar → Joint (Unit {0})
  poll_loop [] e r = (e, (r, err cancelled))
  poll_loop (calls ∷ ticks) e r =
      let r' = run c calls r in
      let (e', res) = endpoint_poll e r' in
      let rest = poll_loop ticks e' r' in
      elim res [
        | err x ↦ (e', (r', err x))
        | ok s ↦
            if s.state == state_registered
            then (e', (r', ok tt))
            else if s.state == state_denied
            then (e', (r', err enrollment_denied))
            else rest
      ]

  -- AutoEnroll past its phase 2
  unfoldable pub after_confirm : List (List Call) → Joint EnrollStatus → Joint (Unit {0})
  after_confirm ticks (e, (r, err x)) = (e, (r, err x))
  after_confirm ticks (e, (r, ok s)) =
      if s.state == state_registered
      then (e, (r, ok tt))
      else if s.state == state_denied
      then (e, (r, err enrollment_denied))
      else poll_loop ticks e r

  unfoldable pub after_enroll : List (List Call) → ℤ → Joint EnrollResponse → Joint (Unit {0})
  after_enroll ticks now (e, (r, err x)) = (e, (r, err x))
  after_enroll ticks now (e, (r, ok resp)) =
      after_confirm ticks (endpoint_confirm resp.challenge now e r)

  -- AutoEnroll, with what DeriveFingerprint makes of the local ID, `none` if it fails; a relay's
  -- fingerprint is empty.
  unfoldable pub auto_enroll :
      Option Bytes
      → ℕ
      → Option Bytes
      → Option Bytes
      → ℤ
      → List (List Call)
      → Endpoint
      → Registrar
      → Joint (Unit {0})
  auto_enroll fp role nonce id_bytes now ticks e r =
      elim (if role == role_relay then some [] else fp) [
        | none ↦ (e, (r, err derive_failed))
        | some used ↦ after_enroll ticks now (endpoint_enroll used role nonce id_bytes now e r)
      ]

  unfoldable pub fetch_info : EndpointAddr → Endpoint → Registrar → Joint (Unit {0})
  fetch_info addr e r = elim (full_registration_info addr r) [
    | err x ↦ (e, (r, err (info_failed x)))
    | ok info ↦ (record e { registrar_key = info.registrar_key; relays = info.relays }, (r, ok tt))
  ]

  unfoldable pub activated :
      EndpointAddr → Endpoint → Registrar × Result RegistrarError (Unit {0}) → Joint (Unit {0})
  activated addr e (r, err x) = (e, (r, err (registrar_failed x)))
  activated addr e (r, ok u) = fetch_info addr (record e { state = state_active }) r

  -- Activate
  unfoldable pub activate : ℤ → Endpoint → Registrar → Joint (Unit {0})
  activate now e r =
      if not (e.state == state_registered)
      then (e, (r, err (cannot_activate e.state)))
      else (elim e.addr [
        | none ↦ (e, (r, err not_registered))
        | some addr ↦ activated addr e (activate_endpoint c addr e.token now r)
      ])

  -- Endpoint.SetRelayRoute
  unfoldable pub endpoint_set_relay_route :
      EndpointAddr → ℤ → Endpoint → Registrar → Registrar × Result EndpointError (Unit {0})
  endpoint_set_relay_route relay now e r =
      if not (e.state == state_active) then (r, err (cannot_set_route e.state)) else (elim e.addr [
        | none ↦ (r, err not_registered)
        | some addr ↦
            let (r', res) = set_relay_route c addr e.token relay now r in
            elim res [ err x ↦ (r', err (registrar_failed x)) | ok u ↦ (r', ok tt) ]
      ])

  -- PrepareMessage
  unfoldable pub prepare_message :
      EndpointAddr → Bytes → Endpoint → Result EndpointError SwarmMessage
  prepare_message to payload e =
      if not (e.state == state_active) then err (cannot_send e.state) else (elim e.addr [
        | none ↦ err not_registered
        | some addr ↦ ok record {
          from = addr;
          to = to;
          token = e.token;
          payload = payload;
          signature = c.sign e.private_key payload;
        }
      ])

-- LookupTarget
unfoldable pub lookup_target : EndpointAddr → Registrar → Option ReachabilityInfo
lookup_target target r = lookup_reachability target r

module _ (sort_slice : (RelayInfo → RelayInfo → Bool) → List RelayInfo → List RelayInfo) where
  -- Discover: the monitor of an earlier call is stopped when a new one is started.
  unfoldable pub discover :
      (EndpointAddr → Option ℤ)
      → (EndpointAddr → ℤ)
      → EndpointAddr
      → Option Registrar
      → Endpoint
      → Endpoint × Result EndpointError TransportDecision
  discover prober probe_peer peer reg e =
      if not (e.state == state_active)
      then (e, err (cannot_discover e.state))
      else (let probed = probe_relays sort_slice prober (known_relays e peer reg) in
          let chosen = select_transport sort_slice e.transport_cfg (probe_peer peer) probed in
          let decided = record e { relays = probed; decision = some chosen } in
          (
            if e.transport_cfg.mode == mode_dynamic
                then record decided {
                  monitor = some (new_transport_monitor e.transport_cfg peer probed);
                }
                else decided,
            ok chosen,
          ))
