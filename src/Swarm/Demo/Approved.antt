-- ===== src/Swarm/Demo/Approved.antt =====
-- cmd/swarm/demo.go: the registrar's pre-approval and its answer to Enroll.
use gole.Base.{
  ◌≡◌, ◌≢◌, refl, true, false, none, some, [], ◌∷◌, arith, Bytes, length, nat_beq, nat_eq, bytes_eq,
  bytes_beq, bytes_beq, inl, inr, Bool-cases,
}
use gole.Base.Dict.{lookup, insert}
use gole.Base.Int.{ℤ}
use gole.Base.Result.{ok}
use gole.Swarm.Types.Address.{role_of, role_agent}
use gole.Swarm.Paseto.{Crypto}
use gole.Swarm.Registrar.State.{Registrar, PendingEnroll, new_registrar}
use gole.Swarm.Registrar.Enrollment.{
  is_known_role, check_request, existing_enroll, new_enroll, add_enroll, fresh_enroll,
  known_or_fresh, enroll, pre_approve,
}

-- The registrar that has pre-approved the fingerprint
abbrev pub approving : Bytes → Bytes → Bytes → ℤ → Registrar
approving pk sk fp ttl = record (new_registrar pk sk ttl) {
  pre_approved = (fp, record { domain = 1; group = 1 }) ∷ [];
}

not_empty : (fp : Bytes) → fp ≢ [] → bytes_beq fp [] ≡ false
unfolding bytes_beq
not_empty [] h = absurd (h refl)
not_empty (x ∷ fp) h = refl

pub pre_approve_run :
    (pk sk fp : Bytes) (ttl : ℤ)
    → fp ≢ []
    → pre_approve fp 1 1 (new_registrar pk sk ttl) ≡ (approving pk sk fp ttl, ok tt)
unfolding pre_approve new_registrar insert
pre_approve_run pk sk fp ttl h = rw (not_empty fp h) refl

-- The one enrollment that the registrar then has
abbrev pub asked : Bytes → Bytes → Bytes → Bytes → ℤ → PendingEnroll
asked epk fp nonce rid now =
    new_enroll (record { public_key = epk; fingerprint = fp; role_flags = role_agent }) nonce rid
      now

abbrev pub enrolling : Bytes → Bytes → Bytes → Bytes → ℤ → Registrar → Registrar
enrolling epk fp nonce rid now r = record r {
  pending = (rid, asked epk fp nonce rid now) ∷ [];
  by_fingerprint = (fp, rid) ∷ [];
}

module _ (c : Crypto) where
  existing_none : (pk sk fp : Bytes) (ttl : ℤ) → existing_enroll (approving pk sk fp ttl) fp ≡ none
  unfolding existing_enroll lookup new_registrar
  existing_none pk sk fp ttl = elim (Bool-cases (bytes_beq fp [])) [
    | inl b ↦ rw b refl
    | inr b ↦ rw b refl
  ]

  fresh_run :
      (pk sk epk fp nonce id : Bytes) (ttl now : ℤ)
      → fp ≢ []
      → fresh_enroll c
          (record { public_key = epk; fingerprint = fp; role_flags = role_agent })
          (some nonce)
          (some id)
          now
          (approving pk sk fp ttl)
        ≡ (
          enrolling epk fp nonce (c.base64_encode id) now (approving pk sk fp ttl),
          ok record { request_id = c.base64_encode id; challenge = nonce },
        )
  unfolding fresh_enroll add_enroll new_enroll insert new_registrar
  fresh_run pk sk epk fp nonce id ttl now h = rw (not_empty fp h) refl

  pub enroll_run :
      (pk sk epk fp nonce id : Bytes) (ttl now : ℤ)
      → fp ≢ []
      → length epk ≡ 32
      → enroll c
          (record { public_key = epk; fingerprint = fp; role_flags = role_agent })
          (some nonce)
          (some id)
          now
          (approving pk sk fp ttl)
        ≡ (
          enrolling epk fp nonce (c.base64_encode id) now (approving pk sk fp ttl),
          ok record { request_id = c.base64_encode id; challenge = nonce },
        )
  unfolding enroll check_request is_known_role role_of known_or_fresh
  enroll_run pk sk epk fp nonce id ttl now h l =
      let sized : nat_beq (length epk) 32 ≡ true = ground (arith, l) in
      rw (sized, not_empty fp h, enroll, existing_none pk sk fp ttl, known_or_fresh)
        (fresh_run pk sk epk fp nonce id ttl now h)
