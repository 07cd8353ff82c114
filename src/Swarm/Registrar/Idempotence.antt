-- ===== src/Swarm/Registrar/Idempotence.antt =====
-- swarm/registrar.go, `Enroll`: asking again.
use gole.Base.{
  ◌≡◌, refl, ◌≢◌, ◌∙◌, false, Option, none, some, [], arith, Bytes, ◌==◌, nat_eq, bytes_eq,
  bytes_beq_iff, inl, inr, Option-cases,
}
use gole.Base.Int.{ℤ}
use gole.Base.Result.{ok}
use gole.Base.Dict.{lookup-insert_self}
use gole.Swarm.Types.Enroll.{EnrollRequest, EnrollResponse}
use gole.Swarm.Paseto.{Crypto}
use gole.Swarm.Registrar.State.{Registrar, PendingEnroll}
use gole.Swarm.Registrar.Enrollment.{
  check_request, existing_enroll, known_or_fresh, fresh_enroll, add_enroll, new_enroll, enroll,
}

-- The registrar remembers, under the fingerprint, the enrollment that the response describes.
record Answers (r : Registrar) (fp : Bytes) (resp : EnrollResponse) : Type 0 where
  pe : PendingEnroll
  known : existing_enroll r fp ≡ some pe
  request_id : pe.request_id ≡ resp.request_id
  challenge : pe.challenge ≡ resp.challenge

added-Answers :
    (req : EnrollRequest) (nonce rid : Bytes) (now : ℤ) (r : Registrar)
    → req.fingerprint ≢ []
    → Answers
        (add_enroll req nonce rid now r)
        req.fingerprint
        (record { request_id = rid; challenge = nonce })
unfolding add_enroll existing_enroll new_enroll
added-Answers req nonce rid now r ne =
    let fresh : (req.fingerprint == []) ≡ false =
      ground (arith, bytes_beq_iff req.fingerprint []) in
    let pe : PendingEnroll = new_enroll req nonce rid now in
    record {
      pe = pe;
      known = rw fresh (
          rw (lookup-insert_self req.fingerprint rid r.by_fingerprint)
            (lookup-insert_self rid pe r.pending));
      request_id = refl;
      challenge = refl;
    }

module _ (c : Crypto) where
  fresh-Answers :
      (req : EnrollRequest) (n b : Option Bytes) (now : ℤ) (r r1 : Registrar)
      (resp : EnrollResponse)
      → req.fingerprint ≢ []
      → fresh_enroll c req n b now r ≡ (r1, ok resp)
      → Answers r1 req.fingerprint resp
  unfolding fresh_enroll
  fresh-Answers req none b now r r1 resp ne q = absurd (ground arith)
  fresh-Answers req (some x) none now r r1 resp ne q = absurd (ground arith)
  fresh-Answers req (some x) (some y) now r r1 resp ne q =
      let e : add_enroll req x (c.base64_encode y) now r ≡ r1 = ground arith in
      let a = added-Answers req x (c.base64_encode y) now r ne in
      record {
        pe = a.pe;
        known = rw (← e) a.known;
        request_id = a.request_id ∙ ground arith;
        challenge = a.challenge ∙ ground arith;
      }

  enroll-Answers :
      (req : EnrollRequest) (n b : Option Bytes) (now : ℤ) (r r1 : Registrar)
      (resp : EnrollResponse)
      → req.fingerprint ≢ []
      → enroll c req n b now r ≡ (r1, ok resp)
      → Answers r1 req.fingerprint resp
  unfolding enroll known_or_fresh
  enroll-Answers req n b now r r1 resp ne h = elim (Option-cases (check_request req)) [
    | inr (e, q) ↦ absurd (ground arith)
    | inl q ↦ elim (Option-cases (existing_enroll r req.fingerprint)) [
      | inl f ↦ fresh-Answers req n b now r r1 resp ne (ground arith)
      | inr (pe, f) ↦
          let e : r ≡ r1 = ground arith in
          record {
            pe = pe;
            known = rw (← e) f;
            request_id = ground arith;
            challenge = ground arith;
          }
    ]
  ]

  -- Enroll is idempotent: once a non-empty fingerprint has enrolled, every well-formed request with
  -- that fingerprint, whatever its key, gets the same request ID and challenge, and leaves the
  -- registrar as it is.
  pub enroll_again :
      (req req' : EnrollRequest) (n b n' b' : Option Bytes) (now now' : ℤ) (r r1 : Registrar)
      (resp : EnrollResponse)
      → req.fingerprint ≢ []
      → enroll c req n b now r ≡ (r1, ok resp)
      → req'.fingerprint ≡ req.fingerprint
      → check_request req' ≡ none
      → enroll c req' n' b' now' r1 ≡ (r1, ok resp)
  unfolding enroll known_or_fresh
  enroll_again req req' n b n' b' now now' r r1 resp ne h same good =
      let a = enroll-Answers req n b now r r1 resp ne h in
      let f : existing_enroll r1 req'.fingerprint ≡ some a.pe = rw same a.known in
      rw (good, f, enroll, known_or_fresh) (ground (arith, a.request_id, a.challenge))
