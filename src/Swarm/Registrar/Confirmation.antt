-- ===== src/Swarm/Registrar/Confirmation.antt =====
-- swarm/registrar.go, `ConfirmEnrollment`: who gets in, and what the token binds.
use gole.Base.{
  ◌≡◌, refl, ◌≢◌, true, false, none, some, [], arith, Bytes, ◌==◌, nat_eq, bytes_eq, bytes_beq_iff,
}
use gole.Base.Int.{ℤ}
use gole.Base.Result.{ok, err}
use gole.Base.Dict.{lookup, lookup-delete}
use gole.Swarm.Types.Address.{role_of, role_relay, state_challenge_issued, state_pending}
use gole.Swarm.Types.Enroll.{EnrollConfirm}
use gole.Swarm.Paseto.{Crypto}
use gole.Swarm.Registrar.State.{Registrar, PendingEnroll, status_for}
use gole.Swarm.Registrar.Enrollment.{
  challenge_failed, decide_enroll, confirm_found, confirm_enrollment, forget_enroll,
}

module _ (c : Crypto) where
  -- What a confirmation with a bad signature leaves.
  pub record IsForgotten (rid : Bytes) (pe : PendingEnroll) (r r' : Registrar) : Type 0 where
    pub gone : lookup rid r'.pending ≡ none
    pub others : (k : Bytes) → k ≢ rid → lookup k r'.pending ≡ lookup k r.pending
    pub fingerprint_gone : pe.fingerprint ≢ [] → lookup pe.fingerprint r'.by_fingerprint ≡ none
    pub endpoints_kept : r'.endpoints ≡ r.endpoints
    pub hints_kept : r'.next_id ≡ r.next_id

  -- A challenge signature that does not verify under the enrolled key ends the enrollment: the call
  -- fails, the request ID and its fingerprint are unknown afterwards, and no other enrollment, no
  -- endpoint and no ID hint changes.
  pub confirm_bad_signature :
      (conf : EnrollConfirm) (pe : PendingEnroll) (now : ℤ) (r : Registrar)
      → lookup conf.request_id r.pending ≡ some pe
      → pe.state ≡ state_challenge_issued
      → c.verify pe.public_key pe.challenge conf.signature ≡ false
      → ((confirm_enrollment c conf now r).1 ≡ err challenge_failed)
        × IsForgotten conf.request_id pe r (confirm_enrollment c conf now r).0
  unfolding confirm_enrollment confirm_found forget_enroll
  confirm_bad_signature conf pe now r f s v =
      rw (f, s, v, confirm_enrollment, confirm_found)
        (
          refl,
          record {
            gone = ground (
              arith,
              lookup-delete conf.request_id conf.request_id r.pending,
              bytes_beq_iff conf.request_id conf.request_id,
            );
            others = λ k n.
                ground (
                  arith,
                  lookup-delete conf.request_id k r.pending,
                  bytes_beq_iff conf.request_id k,
                );
            fingerprint_gone = λ n. ground (
              arith,
              lookup-delete pe.fingerprint pe.fingerprint r.by_fingerprint,
              bytes_beq_iff pe.fingerprint pe.fingerprint,
              bytes_beq_iff pe.fingerprint [],
            );
            endpoints_kept = refl;
            hints_kept = refl;
          },
        )

  -- A verified client or agent whose fingerprint is not pre-approved waits for the administrator,
  -- also when an endpoint with its fingerprint is registered already.
  pub confirm_waits :
      (conf : EnrollConfirm) (pe : PendingEnroll) (now : ℤ) (r : Registrar)
      → lookup conf.request_id r.pending ≡ some pe
      → pe.state ≡ state_challenge_issued
      → c.verify pe.public_key pe.challenge conf.signature ≡ true
      → role_of pe.role_flags ≢ role_relay
      → lookup pe.fingerprint r.pre_approved ≡ none
      → (confirm_enrollment c conf now r).1 ≡ ok record { state = state_pending; result = none }
  unfolding confirm_enrollment confirm_found decide_enroll status_for
  confirm_waits conf pe now r f s v n m =
      let other : (role_of pe.role_flags == role_relay) ≡ false = ground arith in
      rw (f, s, v, other, m, confirm_enrollment, confirm_found, decide_enroll) refl
