-- ===== src/Swarm/Registrar/Steps.antt =====
-- swarm/registrar.go: every call keeps the registrar sound, and no endpoint is lost.
use gole.Base.{
  ℕ, ◌≡◌, refl, ◌≢◌, sym, subst, some, arith, Bytes, ◌==◌, nat_eq, bytes_eq, inl, inr, Bool-cases,
  Option-cases,
}
use gole.Base.Int.{ℤ}
use gole.Base.Result.{Result-cases}
use gole.Swarm.Types.Address.{EndpointAddr, state_registered, state_revoked, state_active}
use gole.Swarm.Types.Enroll.{RegisteredEndpoint}
use gole.Swarm.Paseto.{Crypto, verify_token, claims_match}
use gole.Swarm.Registrar.State.{Registrar, Endpoints, put_endpoint, get_endpoint, set_state}
use gole.Swarm.Registrar.Store.{find_endpoint}
use gole.Swarm.Registrar.Growth.{Grows, Grows-refl, put-Grows}
use gole.Swarm.Registrar.Soundness.{
  EndpointsSound, PendingSound, ApprovalsSound, IsSound, Grows-PendingSound, put-EndpointsSound,
}
use gole.Swarm.Registrar.Activation.{activate_known, activate_endpoint, revoke_endpoint}

-- What a call guarantees from a sound state.
pub record IsSafe (r r' : Registrar) : Type 0 where
  pub sound : IsSound r'
  pub grows : Grows r.endpoints r'.endpoints

-- A call that leaves the endpoints alone.
pub quiet :
    (r r' : Registrar)
    → IsSound r
    → r'.endpoints ≡ r.endpoints
    → PendingSound r.endpoints r'.pending
    → ApprovalsSound r'.pre_approved
    → IsSafe r r'
quiet r r' s e p a = record {
  sound = record {
    endpoints = subst EndpointsSound (sym e) s.endpoints;
    pending = subst (λ x. PendingSound x r'.pending) (sym e) p;
    approvals = a;
  };
  grows = subst (Grows r.endpoints) (sym e) (Grows-refl r.endpoints);
}

pub still : (r : Registrar) → IsSound r → IsSafe r r
still r s = quiet r r s refl s.pending s.approvals

-- A call that writes endpoints and leaves enrollments and pre-approvals alone.
pub grown :
    (r r' : Registrar)
    → IsSound r
    → EndpointsSound r'.endpoints
    → Grows r.endpoints r'.endpoints
    → r'.pending ≡ r.pending
    → r'.pre_approved ≡ r.pre_approved
    → IsSafe r r'
grown r r' s e g p a = record {
  sound = record {
    endpoints = e;
    pending =
        subst (PendingSound r'.endpoints) (sym p)
          (Grows-PendingSound r.endpoints r'.endpoints r.pending g s.pending);
    approvals = subst ApprovalsSound (sym a) s.approvals;
  };
  grows = g;
}

mark_state-EndpointsSound :
    (eps : Endpoints) (d g e : ℕ) (ep : RegisteredEndpoint) (s : ℕ)
    → EndpointsSound eps
    → find_endpoint eps d g e ≡ some ep
    → (s ≢ state_revoked → ep.state ≢ state_revoked)
    → EndpointsSound (put_endpoint eps d g e (record ep { state = s }))
mark_state-EndpointsSound eps d g e ep s h f live =
    let filed = h.filed d g e ep f in
    put-EndpointsSound eps d g e (record ep { state = s }) h
      (record {
        domain = filed.domain;
        group = filed.group;
        endpoint = filed.endpoint;
        in_range = filed.in_range;
        role = filed.role;
      })
      (λ fp d' g' e' x ne fx ln lx. h.lone fp d g e d' g' e' ep x ne f fx (ln.0, live ln.1) lx)

set_state-IsSafe :
    (r : Registrar) (addr : EndpointAddr) (ep : RegisteredEndpoint) (s : ℕ)
    → IsSound r
    → get_endpoint r addr ≡ some ep
    → (s ≢ state_revoked → ep.state ≢ state_revoked)
    → IsSafe r (set_state addr ep s r)
unfolding get_endpoint set_state
set_state-IsSafe r addr ep s h f live =
    grown r (set_state addr ep s r) h
      (mark_state-EndpointsSound r.endpoints addr.domain addr.group addr.endpoint ep s h.endpoints f
        live)
      (put-Grows r.endpoints addr.domain addr.group addr.endpoint ep (record ep { state = s }) f
        (record {
          addr = refl;
          public_key = refl;
          token = refl;
          fingerprint = refl;
          revoked = λ old. elim (Bool-cases (s == state_revoked)) [
            | inl q ↦ ground arith
            | inr q ↦ absurd (live (ground arith) old)
          ];
        }))
      refl refl

activate_known-IsSafe :
    (c : Crypto) (addr : EndpointAddr) (r : Registrar)
    → IsSound r
    → IsSafe r (activate_known c addr r).0
unfolding activate_known
activate_known-IsSafe c addr r h = elim (Option-cases (get_endpoint r addr)) [
  | inl q ↦ rw (q, activate_known) (still r h)
  | inr (ep, q) ↦
      rw (q, activate_known)
        (elim (Bool-cases (ep.state == state_registered)) [
          | inl b ↦ rw b (set_state-IsSafe r addr ep state_active h q (λ _. ground arith))
          | inr b ↦ rw b (still r h)
        ])
]

pub activate_endpoint-IsSafe :
    (c : Crypto) (addr : EndpointAddr) (token : Bytes) (now : ℤ) (r : Registrar)
    → IsSound r
    → IsSafe r (activate_endpoint c addr token now r).0
unfolding activate_endpoint
activate_endpoint-IsSafe c addr token now r h =
    elim (Result-cases (verify_token c token r.public_key now)) [
      | inl (e, q) ↦ rw (q, activate_endpoint) (still r h)
      | inr (t, q) ↦
          rw (q, activate_endpoint)
            (elim (Bool-cases (claims_match t addr)) [
              | inl b ↦ rw b (activate_known-IsSafe c addr r h)
              | inr b ↦ rw b (still r h)
            ])
    ]

pub revoke_endpoint-IsSafe :
    (addr : EndpointAddr) (r : Registrar) → IsSound r → IsSafe r (revoke_endpoint addr r).0
unfolding revoke_endpoint
revoke_endpoint-IsSafe addr r h = elim (Option-cases (get_endpoint r addr)) [
  | inl q ↦ rw (q, revoke_endpoint) (still r h)
  | inr (ep, q) ↦
      rw (q, revoke_endpoint)
        (let safe = set_state-IsSafe r addr ep state_revoked h q (λ n. absurd (n refl)) in
          record {
            sound = record {
              endpoints = safe.sound.endpoints;
              pending = safe.sound.pending;
              approvals = safe.sound.approvals;
            };
            grows = safe.grows;
          })
]
