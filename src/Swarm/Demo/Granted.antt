-- ===== src/Swarm/Demo/Granted.antt =====
-- cmd/swarm/demo.go: the registrar's answers to the confirmation and to the activation.
use gole.Base.{
  ◌≡◌, refl, ◌∙◌, ap, true, false, none, some, [], arith, Bytes, nat_eq, bytes_eq, bytes_beq,
  bytes_beq_iff, bytes_beq, inl, inr, Bool-cases, if◌then◌else◌,
}
use gole.Base.Dict.{lookup, insert, first_match}
use gole.Base.Int.{ℤ, ltℤ, ◌+ℤ◌}
use gole.Base.Result.{ok, err}
use gole.Swarm.Types.Address.{role_of, role_agent, state_registered, EndpointAddr}
use gole.Swarm.Types.Enroll.{RegisteredEndpoint}
use gole.Swarm.Paseto.{
  Crypto, CryptoLaws, IsAscii, sign_token, verify_token, claims_match, claims_match_id, TokenClaims,
  expired,
}
use gole.Swarm.Paseto.Tokens.{verify_token-sign_token}
use gole.Swarm.Registrar.State.{
  Registrar, PendingEnroll, new_registrar, groups, members, get_endpoint, put_endpoint,
  store_endpoint, is_id_taken, count_endpoints, scan_all, find_by_fingerprint, status_for,
}
use gole.Swarm.Registrar.Ids.{
  hints, hint_of, candidate_at, probe, hint_after, set_hint, allocate_id,
}
use gole.Swarm.Registrar.Enrollment.{
  new_enroll, put_pending, claims_for, issue, issue_at, register_approved, settle, decide_enroll,
  confirm_found, confirm_enrollment,
}
use gole.Swarm.Registrar.Activation.{activate_endpoint}
use gole.Swarm.Registrar.Activating.{activate-ok_iff}
use gole.Swarm.Demo.Approved.{approving, asked, enrolling}

-- The address that the endpoint gets
abbrev pub address : EndpointAddr
address = record { domain = 1; group = 1; endpoint = 1; role_flags = role_agent }

-- The registered endpoint
registered : Bytes → Bytes → Bytes → RegisteredEndpoint
registered epk fp token = record {
  addr = address;
  public_key = epk;
  state = state_registered;
  token = token;
  fingerprint = fp;
}

-- The claims of the endpoint's token
abbrev pub claimed : Crypto → Bytes → Bytes → Bytes → Bytes → ℤ → ℤ → TokenClaims
claimed c epk fp nonce rid ttl now = claims_for c (asked epk fp nonce rid now) address now ttl

module _ (c : Crypto) (pk sk epk fp nonce rid token : Bytes) (ttl now : ℤ) where
  -- The registrar before the confirmation, once it has taken an ID, and with the endpoint
  abbrev enrolled : Registrar
  enrolled = enrolling epk fp nonce rid now (approving pk sk fp ttl)

  abbrev hinted : Registrar
  hinted = set_hint enrolled 1 1 2

  holding : Registrar
  holding = store_endpoint address epk token fp hinted

  abbrev granted : PendingEnroll
  granted = record (asked epk fp nonce rid now) {
    address = address;
    token = token;
    state = state_registered;
  }

  -- The registrar after the confirmation
  pub settled : Registrar
  settled = put_pending rid granted holding

  abbrev IsSigned : Type 0
  IsSigned = sign_token c (claimed c epk fp nonce rid ttl now) sk ≡ some token

  allocate_run : allocate_id enrolled 1 1 ≡ (hinted, some 1)
  unfolding allocate_id hint_of hints lookup new_registrar probe is_id_taken members groups
      candidate_at hint_after
  allocate_run = refl

  find_none : find_by_fingerprint enrolled fp ≡ none
  unfolding find_by_fingerprint scan_all first_match new_registrar
  find_none = elim (Bool-cases (bytes_beq fp [])) [ inl b ↦ rw b refl | inr b ↦ rw b refl ]

  issue_run :
      IsSigned → issue c (asked epk fp nonce rid now) address now hinted ≡ (holding, ok granted)
  unfolding issue holding new_enroll new_registrar set_hint
  issue_run s = rw (s, issue) refl

  register_run :
      IsSigned
      → register_approved c (asked epk fp nonce rid now) 1 1 now enrolled ≡ (holding, ok granted)
  unfolding register_approved count_endpoints members groups lookup issue_at new_enroll
      new_registrar
  register_run s = rw (find_none, allocate_run, register_approved) (issue_run s)

  decide_run :
      IsSigned
      → decide_enroll c rid (asked epk fp nonce rid now) now enrolled
        ≡ (settled, ok (status_for granted))
  unfolding decide_enroll settle new_enroll role_of settled lookup new_registrar
  decide_run s =
      let same : bytes_beq fp fp ≡ true = (bytes_beq_iff fp fp).1 refl in
      rw (same, register_run s, decide_enroll) refl

  -- A signature that the enrolled key verifies is answered with the address and the token.
  pub confirm_run :
      (signature : Bytes)
      → c.verify epk nonce signature ≡ true
      → IsSigned
      → confirm_enrollment c (record { request_id = rid; signature = signature }) now enrolled
        ≡ (settled, ok (status_for granted))
  unfolding confirm_enrollment confirm_found lookup new_enroll
  confirm_run signature v s =
      let self : bytes_beq rid rid ≡ true = (bytes_beq_iff rid rid).1 refl in
      rw (self, v, confirm_enrollment) (decide_run s)

  held_run : get_endpoint settled address ≡ some (registered epk fp token)
  unfolding get_endpoint settled put_pending holding store_endpoint put_endpoint members groups
      lookup insert set_hint new_registrar registered
  held_run = refl

-- The token that the endpoint got then activates it.
pub activates :
    (c : Crypto) (sk epk fp nonce rid token : Bytes) (ttl now at : ℤ)
    → CryptoLaws c
    → IsAscii fp
    → ltℤ (now +ℤ ttl) at ≡ false
    → sign_token c (claimed c epk fp nonce rid ttl now) sk ≡ some token
    → (activate_endpoint c address token at
        (settled c (c.public_of sk) sk epk fp nonce rid token ttl now)).1
      ≡ ok tt
unfolding settled put_pending holding store_endpoint set_hint new_registrar registered claims_for
    new_enroll claims_match claims_match_id
activates c sk epk fp nonce rid token ttl now at laws ascii later s =
    let t : TokenClaims = claimed c epk fp nonce rid ttl now in
    let r : Registrar = settled c (c.public_of sk) sk epk fp nonce rid token ttl now in
    let checked : verify_token c token (c.public_of sk) at ≡ ok t =
      verify_token-sign_token c laws t sk token at ascii (ground arith) s
      ∙ ap (λ b. if b then err expired else ok t) later in
    let held = held_run c (c.public_of sk) sk epk fp nonce rid token ttl now in
    (activate-ok_iff c address token at r).1 (t, registered epk fp token, checked, refl, held, refl)
