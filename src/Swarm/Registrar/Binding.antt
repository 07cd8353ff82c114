-- ===== src/Swarm/Registrar/Binding.antt =====
-- swarm/registrar.go and swarm/paseto.go together: a token handed out by an enrollment is bound to
-- the enrolled key and to the address that the registrar chose.
use gole.Base.{
  ℕ, ◌≡◌, refl, ◌≢◌, true, none, some, arith, Bytes, codes, ◌==◌, nat_eq, bytes_eq, if◌then◌else◌,
  inl, inr, Bool-cases, Option-cases,
}
use gole.Base.Int.{ℤ, ltℤ, ◌+ℤ◌}
use gole.Base.Result.{ok, err}
use gole.Base.Dict.{lookup}
use gole.Swarm.Types.Address.{role_of, role_relay, state_challenge_issued}
use gole.Swarm.Types.Enroll.{EnrollConfirm, EnrollStatus, EnrollResult}
use gole.Swarm.Paseto.{Crypto, CryptoLaws, IsAscii, expired, verify_token}
use gole.Swarm.Paseto.Tokens.{verify_token-sign_token}
use gole.Swarm.Registrar.State.{
  Registrar, PendingEnroll, AddrMapping, find_by_fingerprint, relay_domain, relay_group, status_for,
}
use gole.Swarm.Registrar.Approval.{
  Approved, refused, reused, issued, addr_of, register_approved-Approved,
}
use gole.Swarm.Registrar.Enrollment.{
  Outcome, claims_for, settle, decide_enroll, confirm_found, confirm_enrollment,
}

issuer-IsAscii : IsAscii (codes "gole-swarm-registrar")
issuer-IsAscii = omega arith

-- The token verifies, until it expires, to claims that name the given address, which lies in the
-- group (d, g) and has the enrolled flags, and that carry the enrolled public key.
pub record IsBound (c : Crypto) (pe : PendingEnroll) (d g : ℕ) (now later : ℤ) (r : Registrar)
    (res : EnrollResult) : Type 0 where
  pub domain : res.address.domain ≡ d
  pub group : res.address.group ≡ g
  pub flags : res.address.role_flags ≡ pe.role_flags
  pub token : verify_token c res.token r.public_key later ≡ (
      if ltℤ (now +ℤ r.token_ttl) later
      then err expired
      else ok (claims_for c pe res.address now r.token_ttl))

-- Where an enrollment is sent without an administrator: a relay to the reserved group, a client or
-- agent to the group for which its fingerprint is pre-approved.
pub data SentTo (pe : PendingEnroll) (r : Registrar) (d g : ℕ) : Type 0 where
  as_relay :
      role_of pe.role_flags ≡ role_relay → d ≡ relay_domain → g ≡ relay_group → SentTo pe r d g
  as_approved :
      (m : AddrMapping)
      → role_of pe.role_flags ≢ role_relay
      → lookup pe.fingerprint r.pre_approved ≡ some m
      → d ≡ m.domain
      → g ≡ m.group
      → SentTo pe r d g

module _ (c : Crypto) (laws : CryptoLaws c) where
  Approved-IsBound :
      (rid : Bytes) (pe : PendingEnroll) (d g : ℕ) (now later : ℤ) (r : Registrar)
      (out : Outcome PendingEnroll) (status : EnrollStatus) (res : EnrollResult)
      → r.public_key ≡ c.public_of r.private_key
      → IsAscii pe.fingerprint
      → find_by_fingerprint r pe.fingerprint ≡ none
      → Approved c pe d g now r out
      → (settle c rid out).1 ≡ ok status
      → status.result ≡ some res
      → IsBound c pe d g now later r res
  unfolding settle status_for claims_for
  Approved-IsBound rid pe d g now later r (r1, err x) status res key fp lone a q s =
      absurd (ground arith)
  Approved-IsBound rid pe d g now later r (r1, ok pe') status res key fp lone (refused e x _ _ _) q
        s =
      absurd (ground arith)
  Approved-IsBound rid pe d g now later r (r1, ok pe') status res key fp lone (reused ep f x) q s =
      absurd (ground arith)
  Approved-IsBound rid pe d g now later r (r1, ok pe') status res key fp lone
        (issued r0 id token f n a t x) q s =
      let addr : res.address ≡ addr_of pe d g id = ground arith in
      let tok : res.token ≡ token = ground arith in
      let checked =
        verify_token-sign_token c laws (claims_for c pe (addr_of pe d g id) now r.token_ttl)
          r.private_key token later fp issuer-IsAscii t in
      record {
        domain = ground arith;
        group = ground arith;
        flags = ground arith;
        token = rw (addr, tok, key) checked;
      }

  decided :
      (rid : Bytes) (pe : PendingEnroll) (now later : ℤ) (r : Registrar) (status : EnrollStatus)
      (res : EnrollResult)
      → r.public_key ≡ c.public_of r.private_key
      → IsAscii pe.fingerprint
      → find_by_fingerprint r pe.fingerprint ≡ none
      → (decide_enroll c rid pe now r).1 ≡ ok status
      → status.result ≡ some res
      → (d g : ℕ) × SentTo pe r d g × IsBound c pe d g now later r res
  unfolding decide_enroll
  decided rid pe now later r status res key fp lone q s =
      elim (Bool-cases (role_of pe.role_flags == role_relay)) [
        | inl b ↦ (
          relay_domain,
          relay_group,
          as_relay (ground arith) refl refl,
          Approved-IsBound rid pe relay_domain relay_group now later r _ status res key fp lone
              (register_approved-Approved c pe relay_domain relay_group now r)
              (rw (b, decide_enroll) at q) s,
        )
        | inr b ↦ elim (Option-cases (lookup pe.fingerprint r.pre_approved)) [
          | inl m ↦ absurd (unfold status_for in ground arith)
          | inr (m, l) ↦ (
            m.domain,
            m.group,
            as_approved m (ground arith) l refl refl,
            Approved-IsBound rid pe m.domain m.group now later r _ status res key fp lone
                (register_approved-Approved c pe m.domain m.group now r)
                (rw (b, l, decide_enroll) at q) s,
          )
        ]
      ]

  -- On a registrar whose public key is its private key's public half, a confirmation that turns an
  -- unconfirmed enrollment with an ASCII fingerprint into a registered one, with no live endpoint
  -- under its fingerprint before, has verified the challenge's signature under the enrolled key. The
  -- address is in the reserved group for a relay and else in the group of the pre-approval, with the
  -- enrolled role flags; and under the registrar's key the token verifies to exactly that address
  -- and the enrolled public key, until the token's lifetime after the confirmation has passed, and
  -- is refused as expired from then on.
  pub confirm-IsBound :
      (conf : EnrollConfirm) (pe : PendingEnroll) (now later : ℤ) (r : Registrar)
      (status : EnrollStatus) (res : EnrollResult)
      → r.public_key ≡ c.public_of r.private_key
      → IsAscii pe.fingerprint
      → lookup conf.request_id r.pending ≡ some pe
      → pe.state ≡ state_challenge_issued
      → find_by_fingerprint r pe.fingerprint ≡ none
      → (confirm_enrollment c conf now r).1 ≡ ok status
      → status.result ≡ some res
      → (c.verify pe.public_key pe.challenge conf.signature ≡ true)
        × ((d g : ℕ) × SentTo pe r d g × IsBound c pe d g now later r res)
  unfolding confirm_enrollment confirm_found
  confirm-IsBound conf pe now later r status res key fp f st lone q s =
      elim (Bool-cases (c.verify pe.public_key pe.challenge conf.signature)) [
        | inl v ↦
            (v, decided conf.request_id pe now later r status res key fp lone (ground arith) s)
        | inr v ↦ absurd (ground arith)
      ]
