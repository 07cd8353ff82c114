-- ===== src/Swarm/Endpoint/Outcomes.antt =====
-- swarm/endpoint.go against swarm/registrar.go: how an enrollment ends, and what a poll does to an
-- endpoint that is active already.
use gole.Base.{
  ℕ, ◌≡◌, refl, subst, true, Option, some, List, [], ◌∷◌, arith, Bytes, inl, inr, Bool-cases,
  Option-cases, nat_eq, nat_beq, bytes_eq, bytes_beq, ◌==◌, if◌then◌else◌,
}
use gole.Base.Dict.{lookup}
use gole.Base.Int.{ℤ}
use gole.Base.Result.{Result, ok, err, Result-cases}
use gole.Swarm.Types.Address.{
  EndpointAddr, state_registered, state_pending, state_denied, state_challenge_issued, role_of,
  role_relay,
}
use gole.Swarm.Types.Enroll.{EnrollStatus, EnrollResult, EnrollConfirm, EnrollResponse}
use gole.Swarm.Paseto.{Crypto}
use gole.Swarm.Registrar.State.{Registrar, PendingEnroll, status_for, relay_domain, relay_group}
use gole.Swarm.Registrar.Enrollment.{
  RegistrarError, Outcome, confirm_enrollment, confirm_found, decide_enroll, settle,
  register_approved, poll_enrollment, poll_text,
}
use gole.Swarm.Registrar.Trace.{Call, run}
use gole.Swarm.Endpoint.State.{
  Endpoint, EndpointError, Joint, apply_registered, apply_status, confirmed,
}
use gole.Swarm.Endpoint.Lifecycle.{
  endpoint_confirm, endpoint_enroll, endpoint_poll, poll_loop, after_confirm, after_enroll,
  auto_enroll,
}

-- A status of a registered enrollment comes with its address and token.
abbrev IsStatus : EnrollStatus → Type 0
IsStatus s = s.state ≡ state_registered → (res : EnrollResult) × (s.result ≡ some res)

status_for-IsStatus : (pe : PendingEnroll) → IsStatus (status_for pe)
unfolding status_for
status_for-IsStatus pe h =
    let b : nat_beq pe.state state_registered ≡ true = ground (arith, h) in
    (record { address = pe.address; token = pe.token }, rw b refl)

-- Every status of an outcome
abbrev AllStatus : Result RegistrarError EnrollStatus → Type 0
AllStatus res = (s : EnrollStatus) → res ≡ ok s → IsStatus s

from_status : (pe : PendingEnroll) → AllStatus (ok (status_for pe))
from_status pe s e =
    let same : status_for pe ≡ s = ground (arith, e) in subst IsStatus same (status_for-IsStatus pe)

-- The endpoint is registered and knows its address.
abbrev pub IsEnrolled : Endpoint → Type 0
IsEnrolled e = (e.state ≡ state_registered) × ((addr : EndpointAddr) × (e.addr ≡ some addr))

apply_status-IsEnrolled :
    (s : EnrollStatus) (e : Endpoint)
    → IsStatus s
    → s.state ≡ state_registered
    → IsEnrolled (apply_status s e)
unfolding apply_status apply_registered
apply_status-IsEnrolled s e i h =
    let (res, q) = i h in
    let b : nat_beq s.state state_registered ≡ true = ground (arith, h) in
    rw (b, q) (refl, (res.address, refl))

module _ (c : Crypto) where
  settle-AllStatus : (rid : Bytes) (o : Outcome PendingEnroll) → AllStatus (settle c rid o).1
  unfolding settle
  settle-AllStatus rid (r, err x) = λ s e. absurd (ground (arith, e))
  settle-AllStatus rid (r, ok pe) = from_status pe

  decide_enroll-AllStatus :
      (rid : Bytes) (pe : PendingEnroll) (now : ℤ) (r : Registrar)
      → AllStatus (decide_enroll c rid pe now r).1
  unfolding decide_enroll
  decide_enroll-AllStatus rid pe now r =
      elim (Bool-cases (nat_beq (role_of pe.role_flags) role_relay)) [
        | inl b ↦
            rw (b, decide_enroll)
              (settle-AllStatus rid (register_approved c pe relay_domain relay_group now r))
        | inr b ↦ elim (Option-cases (lookup pe.fingerprint r.pre_approved)) [
          | inl q ↦ rw (b, q, decide_enroll) (from_status (record pe { state = state_pending }))
          | inr (m, q) ↦
              rw (b, q, decide_enroll)
                (settle-AllStatus rid (register_approved c pe m.domain m.group now r))
        ]
      ]

  confirm_enrollment-AllStatus :
      (conf : EnrollConfirm) (now : ℤ) (r : Registrar)
      → AllStatus (confirm_enrollment c conf now r).1
  unfolding confirm_enrollment confirm_found
  confirm_enrollment-AllStatus conf now r = elim (Option-cases (lookup conf.request_id r.pending)) [
    | inl q ↦ rw (q, confirm_enrollment) (λ s e. absurd (ground (arith, e)))
    | inr (pe, q) ↦ elim (Bool-cases (nat_beq pe.state state_challenge_issued)) [
      | inr b ↦ rw (q, confirm_enrollment, b) (from_status pe)
      | inl b ↦ elim (Bool-cases (c.verify pe.public_key pe.challenge conf.signature)) [
        | inl v ↦
            rw (q, confirm_enrollment, b, v) (decide_enroll-AllStatus conf.request_id pe now r)
        | inr v ↦ rw (q, confirm_enrollment, b, v) (λ s e. absurd (ground (arith, e)))
      ]
    ]
  ]

  poll_enrollment-AllStatus :
      (rid sig : Bytes) (r : Registrar) → AllStatus (poll_enrollment c rid sig r)
  unfolding poll_enrollment
  poll_enrollment-AllStatus rid sig r = elim (Option-cases (lookup rid r.pending)) [
    | inl q ↦ rw (q, poll_enrollment) (λ s e. absurd (ground (arith, e)))
    | inr (pe, q) ↦ elim (Bool-cases (c.verify pe.public_key (poll_text rid) sig)) [
      | inl v ↦ rw (q, poll_enrollment, v) (from_status pe)
      | inr v ↦ rw (q, poll_enrollment, v) (λ s e. absurd (ground (arith, e)))
    ]
  ]

  -- The endpoint knows its address whenever the call's status says Registered.
  abbrev Settles : Endpoint → Result EndpointError EnrollStatus → Type 0
  Settles e res = (s : EnrollStatus) → res ≡ ok s → s.state ≡ state_registered → IsEnrolled e

  endpoint_poll-Settles :
      (e : Endpoint) (r : Registrar) → Settles (endpoint_poll c e r).0 (endpoint_poll c e r).1
  unfolding endpoint_poll
  endpoint_poll-Settles e r = elim (Bool-cases (bytes_beq e.request_id [])) [
    | inl b ↦ rw (b, endpoint_poll) (λ s q. absurd (ground (arith, q)))
    | inr b ↦
        let sig = c.sign e.private_key (poll_text e.request_id) in
        elim (Result-cases (poll_enrollment c e.request_id sig r)) [
          | inl (x, q) ↦ rw (b, endpoint_poll, q) (λ s w. absurd (ground (arith, w)))
          | inr (t, q) ↦
              rw (b, endpoint_poll, q)
                (λ s w h.
                  apply_status-IsEnrolled t e (poll_enrollment-AllStatus e.request_id sig r t q)
                    (ground (arith, w, h)))
        ]
  ]

  poll_loop-IsEnrolled :
      (ticks : List (List Call)) (e : Endpoint) (r : Registrar)
      → (poll_loop c ticks e r).1.1 ≡ ok tt
      → IsEnrolled (poll_loop c ticks e r).0
  unfolding poll_loop
  poll_loop-IsEnrolled [] e r = λ h. absurd (ground (arith, h))
  poll_loop-IsEnrolled (calls ∷ ticks) e r =
      elim (Result-cases (endpoint_poll c e (run c calls r)).1) [
        | inl (x, q) ↦ rw (q, poll_loop) (λ h. absurd (ground (arith, h)))
        | inr (s, q) ↦ elim (Bool-cases (nat_beq s.state state_registered)) [
          | inl b ↦
              rw (q, poll_loop, b)
                (λ h. endpoint_poll-Settles e (run c calls r) s q (ground (arith, b)))
          | inr b ↦ elim (Bool-cases (nat_beq s.state state_denied)) [
            | inl d ↦ rw (q, poll_loop, b, d) (λ h. absurd (ground (arith, h)))
            | inr d ↦
                rw (q, poll_loop, b, d)
                  (poll_loop-IsEnrolled ticks (endpoint_poll c e (run c calls r)).0 (run c calls r))
          ]
        ]
      ]

  confirmed-Settles :
      (e : Endpoint) (p : Outcome EnrollStatus)
      → AllStatus p.1
      → Settles (confirmed e p).0 (confirmed e p).1.1
  unfolding confirmed
  confirmed-Settles e (r, err x) a s q h = absurd (ground (arith, q))
  confirmed-Settles e (r, ok t) a s q h =
      apply_status-IsEnrolled t e (a t refl) (ground (arith, q, h))

  endpoint_confirm-Settles :
      (challenge : Bytes) (now : ℤ) (e : Endpoint) (r : Registrar)
      → Settles (endpoint_confirm c challenge now e r).0 (endpoint_confirm c challenge now e r).1.1
  unfolding endpoint_confirm
  endpoint_confirm-Settles challenge now e r =
      elim (Bool-cases (nat_beq e.state state_challenge_issued)) [
        | inl b ↦
            rw (b, endpoint_confirm) (confirmed-Settles _ _ (confirm_enrollment-AllStatus _ now r))
        | inr b ↦ rw (b, endpoint_confirm) (λ s q. absurd (ground (arith, q)))
      ]

  after_confirm-IsEnrolled :
      (ticks : List (List Call)) (j : Joint EnrollStatus)
      → Settles j.0 j.1.1
      → (after_confirm c ticks j).1.1 ≡ ok tt
      → IsEnrolled (after_confirm c ticks j).0
  unfolding after_confirm
  after_confirm-IsEnrolled ticks (e, (r, err x)) a = λ q. absurd (ground (arith, q))
  after_confirm-IsEnrolled ticks (e, (r, ok s)) a =
      elim (Bool-cases (nat_beq s.state state_registered)) [
        | inl b ↦ rw b (λ q. a s refl (ground (arith, b)))
        | inr b ↦ elim (Bool-cases (nat_beq s.state state_denied)) [
          | inl d ↦ rw (b, d) (λ q. absurd (ground (arith, q)))
          | inr d ↦ rw (b, d) (poll_loop-IsEnrolled ticks e r)
        ]
      ]

  after_enroll-IsEnrolled :
      (ticks : List (List Call)) (now : ℤ) (j : Joint EnrollResponse)
      → (after_enroll c ticks now j).1.1 ≡ ok tt
      → IsEnrolled (after_enroll c ticks now j).0
  unfolding after_enroll
  after_enroll-IsEnrolled ticks now (e, (r, err x)) = λ q. absurd (ground (arith, q))
  after_enroll-IsEnrolled ticks now (e, (r, ok resp)) =
      after_confirm-IsEnrolled ticks (endpoint_confirm c resp.challenge now e r)
        (endpoint_confirm-Settles resp.challenge now e r)

  -- When AutoEnroll returns no error the endpoint is registered and has an address, whatever others
  -- do with the registrar between its polls.
  pub auto_enroll-IsEnrolled :
      (fp : Option Bytes) (role : ℕ) (nonce id_bytes : Option Bytes) (now : ℤ)
      (ticks : List (List Call)) (e : Endpoint) (r : Registrar)
      → (auto_enroll c fp role nonce id_bytes now ticks e r).1.1 ≡ ok tt
      → IsEnrolled (auto_enroll c fp role nonce id_bytes now ticks e r).0
  unfolding auto_enroll
  auto_enroll-IsEnrolled fp role nonce id_bytes now ticks e r =
      elim (Option-cases (if role == role_relay then some [] else fp)) [
        | inl q ↦ rw (q, auto_enroll) (λ h. absurd (ground (arith, h)))
        | inr (used, q) ↦
            rw (q, auto_enroll)
              (after_enroll-IsEnrolled ticks now
                (endpoint_enroll c used role nonce id_bytes now e r))
      ]
