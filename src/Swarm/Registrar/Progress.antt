-- ===== src/Swarm/Registrar/Progress.antt =====
-- swarm/registrar.go: the enrollment calls keep the registrar sound, and so does every sequence of
-- calls.
use gole.Base.{
  ℕ, refl, not, ◌&&◌, [], arith, Bytes, ◌==◌, nat_eq, bytes_eq, inl, inr, Bool-cases, Option-cases,
}
use gole.Base.Int.{ℤ}
use gole.Base.Dict.{lookup}
use gole.Swarm.Types.Address.{state_challenge_issued, state_pending, state_denied}
use gole.Swarm.Types.Enroll.{EnrollConfirm}
use gole.Swarm.Paseto.{Crypto}
use gole.Swarm.Registrar.State.{Registrar, PendingEnroll, relay_domain}
use gole.Swarm.Registrar.Soundness.{IsSound, delete-PendingSound, insert-ApprovalsSound}
use gole.Swarm.Registrar.Enrollment.{
  forget_enroll, confirm_found, confirm_enrollment, approve_found, approve_enrollment,
  deny_enrollment, pre_approve,
}
use gole.Swarm.Registrar.Activation.{clear_reachability}
use gole.Swarm.Registrar.Trace.{
  Call, enrolls, confirms, approves, denies, pre_approves, activates, revokes, observes, routes,
  clears, step,
}
use gole.Swarm.Registrar.Steps.{
  IsSafe, quiet, still, activate_endpoint-IsSafe, revoke_endpoint-IsSafe,
}
use gole.Swarm.Registrar.Routing.{observe_endpoint-IsSafe, set_relay_route-IsSafe}
use gole.Swarm.Registrar.Enrolling.{idle-EnrollSound, enroll-IsSafe}
use gole.Swarm.Registrar.Approvals.{put_back, approval-IsSafe, fits_other, decide_enroll-IsSafe}

module _ (c : Crypto) where
  forget_enroll-IsSafe :
      (rid : Bytes) (pe : PendingEnroll) (r : Registrar)
      → IsSound r
      → IsSafe r (forget_enroll rid pe r)
  unfolding forget_enroll
  forget_enroll-IsSafe rid pe r h =
      quiet r _ h refl (delete-PendingSound r.endpoints r.pending rid h.pending) h.approvals

  confirm_found-IsSafe :
      (conf : EnrollConfirm) (pe : PendingEnroll) (now : ℤ) (r : Registrar)
      → IsSound r
      → IsSafe r (confirm_found c conf pe now r).0
  unfolding confirm_found
  confirm_found-IsSafe conf pe now r h = elim (Bool-cases (pe.state == state_challenge_issued)) [
    | inr b ↦ rw b (still r h)
    | inl b ↦ rw b (elim (Bool-cases (c.verify pe.public_key pe.challenge conf.signature)) [
      | inl v ↦ rw v (decide_enroll-IsSafe c conf.request_id pe now r h)
      | inr v ↦ rw v (forget_enroll-IsSafe conf.request_id pe r h)
    ])
  ]

  confirm_enrollment-IsSafe :
      (conf : EnrollConfirm) (now : ℤ) (r : Registrar)
      → IsSound r
      → IsSafe r (confirm_enrollment c conf now r).0
  unfolding confirm_enrollment
  confirm_enrollment-IsSafe conf now r h = elim (Option-cases (lookup conf.request_id r.pending)) [
    | inl q ↦ rw (q, confirm_enrollment) (still r h)
    | inr (pe, q) ↦ rw (q, confirm_enrollment) (confirm_found-IsSafe conf pe now r h)
  ]

  approve_enrollment-IsSafe :
      (rid : Bytes) (d g : ℕ) (now : ℤ) (r : Registrar)
      → IsSound r
      → IsSafe r (approve_enrollment c rid d g now r).0
  unfolding approve_enrollment approve_found
  approve_enrollment-IsSafe rid d g now r h = elim (Option-cases (lookup rid r.pending)) [
    | inl q ↦ rw (q, approve_enrollment) (still r h)
    | inr (pe, q) ↦
        rw (q, approve_enrollment)
          (elim (Bool-cases (pe.state == state_pending)) [
            | inr b ↦ rw b (still r h)
            | inl b ↦ rw b (elim (Bool-cases (d == relay_domain)) [
              | inl x ↦ rw x (still r h)
              | inr x ↦ rw x (
                  approval-IsSafe c rid pe d g now r h (
                    fits_other c pe.role_flags d ((h.pending rid pe q).waiting (ground arith))
                      (ground arith)))
            ])
          ])
  ]

  deny_enrollment-IsSafe :
      (rid : Bytes) (r : Registrar) → IsSound r → IsSafe r (deny_enrollment rid r).0
  unfolding deny_enrollment
  deny_enrollment-IsSafe rid r h = elim (Option-cases (lookup rid r.pending)) [
    | inl q ↦ rw (q, deny_enrollment) (still r h)
    | inr (pe, q) ↦
        rw (q, deny_enrollment)
          (elim (Bool-cases
            (not (pe.state == state_pending) && not (pe.state == state_challenge_issued))) [
              | inl b ↦ rw b (still r h)
              | inr b ↦ rw b (
                  put_back c r r rid (record pe { state = state_denied }) (still r h)
                    (idle-EnrollSound c r.endpoints _ (λ e. ground arith) (λ e. ground arith)))
            ])
  ]

  pre_approve-IsSafe :
      (fp : Bytes) (d g : ℕ) (r : Registrar) → IsSound r → IsSafe r (pre_approve fp d g r).0
  unfolding pre_approve
  pre_approve-IsSafe fp d g r h = elim (Bool-cases (fp == [])) [
    | inl b ↦ rw b (still r h)
    | inr b ↦ rw b (elim (Bool-cases (d == relay_domain)) [
      | inl x ↦ rw x (still r h)
      | inr x ↦ rw x (
          quiet r _ h refl h.pending
            (insert-ApprovalsSound r.pre_approved fp _ h.approvals (ground arith)))
    ])
  ]

  -- Every call keeps the registrar sound, and keeps every endpoint with its address, key, token and
  -- fingerprint, and revoked if it was revoked.
  pub step-IsSafe : (k : Call) (r : Registrar) → IsSound r → IsSafe r (step c k r)
  unfolding step clear_reachability
  step-IsSafe (enrolls req nonce id_bytes now) r h = enroll-IsSafe c req nonce id_bytes now r h
  step-IsSafe (confirms conf now) r h = confirm_enrollment-IsSafe conf now r h
  step-IsSafe (approves rid d g now) r h = approve_enrollment-IsSafe rid d g now r h
  step-IsSafe (denies rid) r h = deny_enrollment-IsSafe rid r h
  step-IsSafe (pre_approves fp d g) r h = pre_approve-IsSafe fp d g r h
  step-IsSafe (activates addr token now) r h = activate_endpoint-IsSafe c addr token now r h
  step-IsSafe (revokes addr) r h = revoke_endpoint-IsSafe addr r h
  step-IsSafe (observes addr o proto now) r h = observe_endpoint-IsSafe addr o proto now r h
  step-IsSafe (routes addr token relay now) r h = set_relay_route-IsSafe c addr token relay now r h
  step-IsSafe (clears addr) r h = quiet r _ h refl h.pending h.approvals
