-- ===== src/Swarm/Registrar/Enrollment.antt =====
-- swarm/registrar.go: the three phases of enrollment, and the administrator's operations. Random
-- bytes (`none` for a failed read) and the current time are arguments.
use gole.Base.{
  ℕ, Bool, not, ◌&&◌, ◌||◌, Option, none, some, List, [], ◌∷◌, ◌++◌, Bytes, codes, length, leb,
  ◌==◌, nat_eq, bytes_eq, if◌then◌else◌,
}
use gole.Base.Dict.{Dict, lookup, insert, delete}
use gole.Base.Int.{ℤ, ◌+ℤ◌}
use gole.Base.Result.{Result, ok, err}
use gole.Swarm.Types.Address.{
  EndpointAddr, role_of, role_client, role_agent, role_relay, state_challenge_issued, state_pending,
  state_registered, state_denied,
}
use gole.Swarm.Types.Enroll.{
  EnrollRequest, EnrollResponse, EnrollConfirm, EnrollStatus, PendingEnrollment,
}
use gole.Swarm.Paseto.{Crypto, TokenClaims, TokenError, sign_token, public_key_size}
use gole.Swarm.Registrar.State.{
  Registrar, PendingEnroll, max_endpoints_per_group, relay_domain, relay_group, count_endpoints,
  find_by_fingerprint, store_endpoint, status_for,
}
use gole.Swarm.Registrar.Ids.{allocate_id}

-- Why an operation on a registered endpoint is refused.
pub data Reason : Type 0 where
  bad_token : TokenError → Reason
  address_mismatch not_found : Reason
  wrong_state : ℕ → Reason
  client_unobserved agent_unobserved client_inactive agent_inactive : Reason

pub data RegistrarError : Type 0 where
  invalid_role fingerprint_required challenge_unavailable request_id_unavailable : RegistrarError
  invalid_public_key : ℕ → RegistrarError
  unknown_request challenge_failed poll_signature_invalid : RegistrarError
  empty_fingerprint reserved_domain : RegistrarError
  cannot_approve cannot_deny : ℕ → RegistrarError
  group_full no_available_ids sign_failed : RegistrarError
  activation_denied observe_denied relay_route_denied punch_denied : Reason → RegistrarError
  endpoint_not_found : RegistrarError
  endpoint_not_active : ℕ → RegistrarError

-- What a method returns: the registrar after it, and Go's (value, error).
abbrev pub Outcome : Type 0 → Type 0
Outcome A = Registrar × Result RegistrarError A

abbrev pub zero_addr : EndpointAddr
zero_addr = record { domain = 0; group = 0; endpoint = 0; role_flags = 0 }

unfoldable pub is_known_role : ℕ → Bool
is_known_role role = (role == role_client) || ((role == role_agent) || (role == role_relay))

-- The checks of Enroll; `none` if the request passes.
unfoldable pub check_request : EnrollRequest → Option RegistrarError
check_request req =
    if not (is_known_role (role_of req.role_flags))
    then some invalid_role
    else if not (length req.public_key == public_key_size)
    then some (invalid_public_key (length req.public_key))
    else if not (role_of req.role_flags == role_relay) && (req.fingerprint == [])
    then some fingerprint_required
    else none

-- The enrollment that an earlier request with this fingerprint left.
unfoldable pub existing_enroll : Registrar → Bytes → Option PendingEnroll
existing_enroll r fp =
    if fp == []
    then none
    else elim (lookup fp r.by_fingerprint) [ none ↦ none | some rid ↦ lookup rid r.pending ]

unfoldable pub new_enroll : EnrollRequest → Bytes → Bytes → ℤ → PendingEnroll
new_enroll req nonce rid now = record {
  request_id = rid;
  public_key = req.public_key;
  fingerprint = req.fingerprint;
  role_flags = req.role_flags;
  challenge = nonce;
  created_at = now;
  state = state_challenge_issued;
  address = zero_addr;
  token = [];
}

unfoldable pub add_enroll : EnrollRequest → Bytes → Bytes → ℤ → Registrar → Registrar
add_enroll req nonce rid now r = record r {
  pending = insert rid (new_enroll req nonce rid now) r.pending;
  by_fingerprint =
      if req.fingerprint == []
      then r.by_fingerprint
      else insert req.fingerprint rid r.by_fingerprint;
}

-- r.pending[rid] = pe: a write through the pointer that the map holds
unfoldable pub put_pending : Bytes → PendingEnroll → Registrar → Registrar
put_pending rid pe r = record r { pending = insert rid pe r.pending }

-- delete(r.pending, rid), and the fingerprint's entry
unfoldable pub forget_enroll : Bytes → PendingEnroll → Registrar → Registrar
forget_enroll rid pe r = record r {
  pending = delete rid r.pending;
  by_fingerprint =
      if pe.fingerprint == [] then r.by_fingerprint else delete pe.fingerprint r.by_fingerprint;
}

-- What a poll signs: RequestID || "|poll"
unfoldable pub poll_text : Bytes → Bytes
poll_text rid = rid ++ codes "|poll"

-- PreApprove
unfoldable pub pre_approve : Bytes → ℕ → ℕ → Registrar → Outcome (Unit {0})
pre_approve fp domain group r =
    if fp == []
    then (r, err empty_fingerprint)
    else if domain == relay_domain
    then (r, err reserved_domain)
    else (
      record r {
        pre_approved = insert fp (record { domain = domain; group = group }) r.pre_approved;
      },
      ok tt,
    )

-- DenyEnrollment
unfoldable pub deny_found : Bytes → PendingEnroll → Registrar → Outcome (Unit {0})
deny_found rid pe r =
    if not (pe.state == state_pending) && not (pe.state == state_challenge_issued)
    then (r, err (cannot_deny pe.state))
    else (put_pending rid (record pe { state = state_denied }) r, ok tt)

unfoldable pub deny_enrollment : Bytes → Registrar → Outcome (Unit {0})
unfolding deny_found
deny_enrollment rid r = elim (lookup rid r.pending) [
  | none ↦ (r, err unknown_request)
  | some pe ↦ deny_found rid pe r
]

unfoldable pub pending_view : PendingEnroll → PendingEnrollment
pending_view pe = record {
  request_id = pe.request_id;
  fingerprint = pe.fingerprint;
  role_flags = pe.role_flags;
  public_key = pe.public_key;
  created_at = pe.created_at;
  state = pe.state;
}

unfoldable pub collect_pending : Dict Bytes PendingEnroll → List PendingEnrollment
collect_pending [] = []
collect_pending ((rid, pe) ∷ m) =
    let rest = collect_pending m in
    if pe.state == state_pending then pending_view pe ∷ rest else rest

-- ListPending
unfoldable pub list_pending : Registrar → List PendingEnrollment
unfolding collect_pending pending_view
list_pending r = collect_pending r.pending

module _ (c : Crypto) where
  -- Enroll past its idempotent return
  unfoldable pub fresh_enroll :
      EnrollRequest → Option Bytes → Option Bytes → ℤ → Registrar → Outcome EnrollResponse
  fresh_enroll req nonce id_bytes now r = elim nonce [
    | none ↦ (r, err challenge_unavailable)
    | some n ↦ elim id_bytes [
      | none ↦ (r, err request_id_unavailable)
      | some b ↦ (
        add_enroll req n (c.base64_encode b) now r,
        ok record { request_id = c.base64_encode b; challenge = n },
      )
    ]
  ]

  -- Enroll past its checks: an enrollment that is known is returned as it is.
  unfoldable pub known_or_fresh :
      EnrollRequest → Option Bytes → Option Bytes → ℤ → Registrar → Outcome EnrollResponse
  known_or_fresh req nonce id_bytes now r = elim (existing_enroll r req.fingerprint) [
    | some pe ↦ (r, ok record { request_id = pe.request_id; challenge = pe.challenge })
    | none ↦ fresh_enroll req nonce id_bytes now r
  ]

  -- Enroll: the 32 challenge bytes and the 16 bytes of the request ID are the arguments.
  unfoldable pub enroll :
      EnrollRequest → Option Bytes → Option Bytes → ℤ → Registrar → Outcome EnrollResponse
  enroll req nonce id_bytes now r = elim (check_request req) [
    | some e ↦ (r, err e)
    | none ↦ known_or_fresh req nonce id_bytes now r
  ]

  unfoldable pub claims_for : PendingEnroll → EndpointAddr → ℤ → ℤ → TokenClaims
  claims_for pe addr now ttl = record {
    endpoint_id = addr.endpoint;
    domain = addr.domain;
    group = addr.group;
    role_flags = addr.role_flags;
    public_key = pe.public_key;
    fingerprint = pe.fingerprint;
    issued_at = now;
    expires_at = now +ℤ ttl;
    issuer = codes "gole-swarm-registrar";
  }

  -- registerApproved once an ID is allocated
  unfoldable pub issue : PendingEnroll → EndpointAddr → ℤ → Registrar → Outcome PendingEnroll
  issue pe addr now r = elim (sign_token c (claims_for pe addr now r.token_ttl) r.private_key) [
    | none ↦ (r, err sign_failed)
    | some token ↦ (
      store_endpoint addr pe.public_key token pe.fingerprint r,
      ok (record pe { address = addr; token = token; state = state_registered }),
    )
  ]

  unfoldable pub issue_at : PendingEnroll → ℕ → ℕ → ℤ → Registrar × Option ℕ → Outcome PendingEnroll
  issue_at pe domain group now (r, none) = (r, err no_available_ids)
  issue_at pe domain group now (r, some id) =
      issue pe
        (record { domain = domain; group = group; endpoint = id; role_flags = pe.role_flags }) now r

  -- registerApproved; the record that it writes through the pointer is returned
  unfoldable pub register_approved : PendingEnroll → ℕ → ℕ → ℤ → Registrar → Outcome PendingEnroll
  register_approved pe domain group now r = elim (find_by_fingerprint r pe.fingerprint) [
    | some ep ↦
        (r, ok (record pe { address = ep.addr; token = ep.token; state = state_registered }))
    | none ↦
        if leb max_endpoints_per_group (count_endpoints r domain group)
        then (r, err group_full)
        else issue_at pe domain group now (allocate_id r domain group)
  ]

  -- The pending record is written back at its request ID.
  unfoldable pub settle : Bytes → Outcome PendingEnroll → Outcome EnrollStatus
  settle rid (r, err e) = (r, err e)
  settle rid (r, ok pe) = (put_pending rid pe r, ok (status_for pe))

  -- ConfirmEnrollment once the signature has verified
  unfoldable pub decide_enroll : Bytes → PendingEnroll → ℤ → Registrar → Outcome EnrollStatus
  decide_enroll rid pe now r =
      if role_of pe.role_flags == role_relay
      then settle rid (register_approved pe relay_domain relay_group now r)
      else elim (lookup pe.fingerprint r.pre_approved) [
        | some m ↦ settle rid (register_approved pe m.domain m.group now r)
        | none ↦ (
          put_pending rid (record pe { state = state_pending }) r,
          ok (status_for (record pe { state = state_pending })),
        )
      ]

  unfoldable pub confirm_found :
      EnrollConfirm → PendingEnroll → ℤ → Registrar → Outcome EnrollStatus
  confirm_found conf pe now r =
      if not (pe.state == state_challenge_issued)
      then (r, ok (status_for pe))
      else if not (c.verify pe.public_key pe.challenge conf.signature)
      then (forget_enroll conf.request_id pe r, err challenge_failed)
      else decide_enroll conf.request_id pe now r

  -- ConfirmEnrollment
  unfoldable pub confirm_enrollment : EnrollConfirm → ℤ → Registrar → Outcome EnrollStatus
  confirm_enrollment conf now r = elim (lookup conf.request_id r.pending) [
    | none ↦ (r, err unknown_request)
    | some pe ↦ confirm_found conf pe now r
  ]

  -- PollEnrollment, which only reads
  unfoldable pub poll_enrollment : Bytes → Bytes → Registrar → Result RegistrarError EnrollStatus
  poll_enrollment rid signature r = elim (lookup rid r.pending) [
    | none ↦ err unknown_request
    | some pe ↦
        if c.verify pe.public_key (poll_text rid) signature
        then ok (status_for pe)
        else err poll_signature_invalid
  ]

  unfoldable pub approve_found :
      Bytes → PendingEnroll → ℕ → ℕ → ℤ → Registrar → Outcome EnrollStatus
  approve_found rid pe domain group now r =
      if not (pe.state == state_pending)
      then (r, err (cannot_approve pe.state))
      else if domain == relay_domain
      then (r, err reserved_domain)
      else settle rid (register_approved pe domain group now r)

  -- ApproveEnrollment; the source returns the error alone
  unfoldable pub approve_enrollment : Bytes → ℕ → ℕ → ℤ → Registrar → Outcome EnrollStatus
  approve_enrollment rid domain group now r = elim (lookup rid r.pending) [
    | none ↦ (r, err unknown_request)
    | some pe ↦ approve_found rid pe domain group now r
  ]
