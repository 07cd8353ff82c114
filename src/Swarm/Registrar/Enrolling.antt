-- ===== src/Swarm/Registrar/Enrolling.antt =====
-- swarm/registrar.go: Enroll keeps the registrar sound.
use gole.Base.{
  refl, ◌≢◌, Option, none, some, arith, Bytes, nat_eq, bytes_eq, inl, inr, Option-cases,
}
use gole.Base.Int.{ℤ}
use gole.Swarm.Types.Address.{state_registered, state_pending}
use gole.Swarm.Types.Enroll.{EnrollRequest}
use gole.Swarm.Paseto.{Crypto}
use gole.Swarm.Registrar.State.{Registrar, PendingEnroll, Endpoints}
use gole.Swarm.Registrar.Soundness.{EnrollSound, IsSound, insert-PendingSound}
use gole.Swarm.Registrar.Enrollment.{
  new_enroll, add_enroll, fresh_enroll, existing_enroll, enroll, known_or_fresh, check_request,
}
use gole.Swarm.Registrar.Steps.{IsSafe, quiet, still}

module _ (c : Crypto) where
  -- A record in a state that is neither registered nor pending promises nothing.
  pub idle-EnrollSound :
      (eps : Endpoints) (pe : PendingEnroll)
      → pe.state ≢ state_registered
      → pe.state ≢ state_pending
      → EnrollSound eps pe
  idle-EnrollSound eps pe a b = record { issued = λ e. absurd (a e); waiting = λ e. absurd (b e) }

  fresh_enroll-IsSafe :
      (req : EnrollRequest) (nonce id_bytes : Option Bytes) (now : ℤ) (r : Registrar)
      → IsSound r
      → IsSafe r (fresh_enroll c req nonce id_bytes now r).0
  unfolding fresh_enroll add_enroll new_enroll
  fresh_enroll-IsSafe req none id_bytes now r h = still r h
  fresh_enroll-IsSafe req (some n) none now r h = still r h
  fresh_enroll-IsSafe req (some n) (some b) now r h =
      quiet r _ h refl
        (insert-PendingSound r.endpoints r.pending _ _ h.pending
          (idle-EnrollSound r.endpoints _ (λ e. ground arith) (λ e. ground arith)))
        h.approvals

  known_or_fresh-IsSafe :
      (req : EnrollRequest) (nonce id_bytes : Option Bytes) (now : ℤ) (r : Registrar)
      → IsSound r
      → IsSafe r (known_or_fresh c req nonce id_bytes now r).0
  unfolding known_or_fresh
  known_or_fresh-IsSafe req nonce id_bytes now r h =
      elim (Option-cases (existing_enroll r req.fingerprint)) [
        | inl q ↦ rw (q, known_or_fresh) (fresh_enroll-IsSafe req nonce id_bytes now r h)
        | inr (pe, q) ↦ rw (q, known_or_fresh) (still r h)
      ]

  pub enroll-IsSafe :
      (req : EnrollRequest) (nonce id_bytes : Option Bytes) (now : ℤ) (r : Registrar)
      → IsSound r
      → IsSafe r (enroll c req nonce id_bytes now r).0
  unfolding enroll
  enroll-IsSafe req nonce id_bytes now r h = elim (Option-cases (check_request req)) [
    | inl q ↦ rw (q, enroll) (known_or_fresh-IsSafe req nonce id_bytes now r h)
    | inr (e, q) ↦ rw (q, enroll) (still r h)
  ]
