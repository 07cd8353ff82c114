-- ===== src/Swarm/Demo/ZeroTouch.antt =====
-- cmd/swarm/demo.go: the default run succeeds.
use gole.Base.{
  ◌≡◌, ◌≢◌, refl, sym, subst, true, false, some, List, [], ◌++◌, arith, Bytes, length, codes,
  nat_beq, nat_eq, bytes_eq, bytes_beq, bytes_beq,
}
use gole.Base.Int.{ℤ, ltℤ, ◌+ℤ◌}
use gole.Base.Result.{Result, ok, err}
use gole.Swarm.Types.Address.{role_agent, state_registered, state_active, EndpointAddr}
use gole.Swarm.Types.Enroll.{RegisteredEndpoint, RegistrationInfo}
use gole.Swarm.Config.{parse_role}
use gole.Swarm.Demo.{DemoInput, DemoError, hour, prepare, then_activate, then_enroll, run_demo}
use gole.Swarm.Paseto.{
  Crypto, CryptoLaws, IsAscii, paseto_header, signed_text, sign_token, TokenClaims,
}
use gole.Swarm.Registrar.State.{Registrar, get_endpoint, status_for, list_relays}
use gole.Swarm.Registrar.Enrollment.{Outcome}
use gole.Swarm.Registrar.Enrollment.{claims_for, new_enroll}
use gole.Swarm.Registrar.Activation.{activate_endpoint, full_registration_info}
use gole.Swarm.Registrar.Activating.{IsMarked, activate_effect}
use gole.Swarm.Endpoint.State.{
  Endpoint, EndpointError, new_endpoint, enrolled, confirmed, apply_status, apply_registered,
}
use gole.Swarm.Endpoint.Lifecycle.{
  endpoint_enroll, endpoint_confirm, after_enroll, after_confirm, auto_enroll, activate, activated,
  fetch_info,
}
use gole.Swarm.Registrar.Trace.{Call}
use gole.Swarm.Demo.Approved.{approving, pre_approve_run, enroll_run}
use gole.Swarm.Demo.Granted.{address, claimed, settled, confirm_run, activates}

-- What the demonstration is given without flags
abbrev pub default_input :
    Bytes → Bytes → Bytes → Bytes → Bytes → ℤ → ℤ → List (List Call) → DemoInput
default_input sk esk fp nonce id now at ticks = record {
  pending = false;
  denied = false;
  role = codes "agent";
  fp = some fp;
  registrar_secret = sk;
  endpoint_secret = esk;
  nonce = some nonce;
  id_bytes = some id;
  now = now;
  activated_at = at;
  ticks = ticks;
}

-- The command ends without an error, with an active endpoint.
abbrev pub Finishes : Endpoint × Result DemoError (Unit {0}) → Type 0
Finishes out = (out.0.state ≡ state_active) × (out.1 ≡ ok tt)

module _ (c : Crypto) where
  -- The endpoint once AutoEnroll has returned
  enrolled_endpoint : Bytes → Bytes → Bytes → Bytes → Endpoint
  enrolled_endpoint esk fp rid token = record (new_endpoint (c.public_of esk) esk) {
    state = state_registered;
    fingerprint = fp;
    request_id = rid;
    addr = some address;
    token = token;
  }

  auto_enroll_run :
      (pk sk esk fp nonce id token : Bytes) (ttl now : ℤ) (ticks : List (List Call))
      → CryptoLaws c
      → fp ≢ []
      → length (c.public_of esk) ≡ 32
      → sign_token c (claimed c (c.public_of esk) fp nonce (c.base64_encode id) ttl now) sk
        ≡ some token
      → auto_enroll c
          (some fp)
          role_agent
          (some nonce)
          (some id)
          now
          ticks
          (new_endpoint (c.public_of esk) esk)
          (approving pk sk fp ttl)
        ≡ (
          enrolled_endpoint esk fp (c.base64_encode id) token,
          (settled c pk sk (c.public_of esk) fp nonce (c.base64_encode id) token ttl now, ok tt),
        )
  unfolding auto_enroll endpoint_enroll enrolled after_enroll endpoint_confirm confirmed
      after_confirm status_for apply_status apply_registered new_endpoint enrolled_endpoint
  auto_enroll_run pk sk esk fp nonce id token ttl now ticks laws h l s =
      rw
        (
          enroll_run c pk sk (c.public_of esk) fp nonce id ttl now h l,
          confirm_run c pk sk (c.public_of esk) fp nonce (c.base64_encode id) token ttl now
              (c.sign esk nonce) (laws.verify-sign esk nonce) s,
        )
        refl

  -- The endpoint is active, and there was no error.
  abbrev Succeeds : Endpoint → Result EndpointError (Unit {0}) → Type 0
  Succeeds e res = (e.state ≡ state_active) × (res ≡ ok tt)

  -- The answer of FullRegistrationInfo about an active endpoint
  abbrev info_of : RegisteredEndpoint → Registrar → RegistrationInfo
  info_of ep r = record {
    id = ep.addr.endpoint;
    token = ep.token;
    registrar_key = r.public_key;
    relays = list_relays r;
  }

  info_run :
      (addr : EndpointAddr) (r : Registrar) (ep : RegisteredEndpoint)
      → get_endpoint r addr ≡ some ep
      → ep.state ≡ state_active
      → full_registration_info addr r ≡ ok (info_of ep r)
  unfolding full_registration_info
  info_run addr r ep g a =
      let active : nat_beq ep.state state_active ≡ true = ground (arith, a) in
      rw (g, active, full_registration_info) refl

  fetch_run :
      (addr : EndpointAddr) (e : Endpoint) (r : Registrar) (info : RegistrationInfo)
      → full_registration_info addr r ≡ ok info
      → e.state ≡ state_active
      → Succeeds (fetch_info c addr e r).0 (fetch_info c addr e r).1.1
  unfolding fetch_info
  fetch_run addr e r info q a = rw (q, fetch_info) (a, refl)

  activated_lem :
      (addr : EndpointAddr) (e : Endpoint) (out : Outcome (Unit {0})) (ep : RegisteredEndpoint)
      → out.1 ≡ ok tt
      → get_endpoint out.0 addr ≡ some ep
      → ep.state ≡ state_active
      → Succeeds (activated c addr e out).0 (activated c addr e out).1.1
  unfolding activated
  activated_lem addr e (r, err x) ep h g a = absurd (ground (arith, h))
  activated_lem addr e (r, ok u) ep h g a =
      fetch_run addr (record e { state = state_active }) r (info_of ep r) (info_run addr r ep g a)
        refl

  activate_run :
      (sk esk fp nonce rid token : Bytes) (ttl now at : ℤ)
      → CryptoLaws c
      → IsAscii fp
      → ltℤ (now +ℤ ttl) at ≡ false
      → sign_token c (claimed c (c.public_of esk) fp nonce rid ttl now) sk ≡ some token
      → Succeeds
          (activate c at
            (enrolled_endpoint esk fp rid token)
            (settled c (c.public_of sk) sk (c.public_of esk) fp nonce rid token ttl now)).0
          (activate c at
            (enrolled_endpoint esk fp rid token)
            (settled c (c.public_of sk) sk (c.public_of esk) fp nonce rid token ttl now)).1.1
  unfolding activate enrolled_endpoint new_endpoint
  activate_run sk esk fp nonce rid token ttl now at laws ascii later s =
      let r : Registrar =
        settled c (c.public_of sk) sk (c.public_of esk) fp nonce rid token ttl now in
      let fine : (activate_endpoint c address token at r).1 ≡ ok tt =
        activates c sk (c.public_of esk) fp nonce rid token ttl now at laws ascii later s in
      let marked : IsMarked address state_active r (activate_endpoint c address token at r).0 =
        (activate_effect c address token at r).0 fine in
      activated_lem address (enrolled_endpoint esk fp rid token)
        (activate_endpoint c address token at r) (record (marked.old) { state = state_active }) fine
        marked.marked refl

  then_activate_run :
      (now : ℤ) (e : Endpoint) (r : Registrar)
      → Succeeds (activate c now e r).0 (activate c now e r).1.1
      → Finishes (then_activate c now (e, (r, ok tt)))
  unfolding then_activate
  then_activate_run now e r (active, fine) = rw (fine, then_activate) (active, refl)

  sign_run :
      (t : TokenClaims) (sk message : Bytes)
      → c.marshal t ≡ some message
      → sign_token c t sk
        ≡ some (paseto_header ++ c.base64_encode (message ++ c.sign sk (signed_text message)))
  unfolding sign_token
  sign_run t sk message m = rw (m, sign_token) refl

  -- The claims that the registrar then makes
  abbrev pub demo_claims : Bytes → Bytes → ℤ → TokenClaims
  demo_claims public_key fp now = record {
    endpoint_id = 1;
    domain = 1;
    group = 1;
    role_flags = role_agent;
    public_key = public_key;
    fingerprint = fp;
    issued_at = now;
    expires_at = now +ℤ hour;
    issuer = codes "gole-swarm-registrar";
  }

  -- With its default flags the demonstration succeeds: the endpoint, whose fingerprint is
  -- pre-approved, enrolls, is registered without a poll and is activated, and the command ends
  -- without an error. The conditions: the random bytes and the fingerprint are there, the
  -- fingerprint is ASCII and not empty, the endpoint's public key has 32 bytes, JSON can write the
  -- claims of the one token that is made, which JSON refuses for times outside the years 0 to
  -- 9999, the activation is not later than an hour after the enrollment, and the laws of the
  -- external cryptography hold.
  pub run_demo-Finishes :
      (sk esk fp nonce id message : Bytes) (now at : ℤ) (ticks : List (List Call))
      → CryptoLaws c
      → fp ≢ []
      → IsAscii fp
      → length (c.public_of esk) ≡ 32
      → c.marshal (demo_claims (c.public_of esk) fp now) ≡ some message
      → ltℤ (now +ℤ hour) at ≡ false
      → Finishes (run_demo c (default_input sk esk fp nonce id now at ticks))
  unfolding run_demo parse_role prepare then_enroll bytes_beq claims_for new_enroll
  run_demo-Finishes sk esk fp nonce id message now at ticks laws not_nil ascii size m later =
      let rid : Bytes = c.base64_encode id in
      let t : TokenClaims = claimed c (c.public_of esk) fp nonce rid hour now in
      let token : Bytes =
        paseto_header ++ c.base64_encode (message ++ c.sign sk (signed_text message)) in
      let signed : sign_token c t sk ≡ some token = sign_run t sk message m in
      let enrolled_lem =
        auto_enroll_run (c.public_of sk) sk esk fp nonce id token hour now ticks laws not_nil size
          signed in
      subst
        (λ out.
          Finishes
            (then_enroll c (default_input sk esk fp nonce id now at ticks) role_agent fp out))
        (sym (pre_approve_run (c.public_of sk) sk fp hour not_nil))
        (subst (λ j. Finishes (then_activate c at j)) (sym enrolled_lem)
          (then_activate_run at (enrolled_endpoint esk fp rid token)
            (settled c (c.public_of sk) sk (c.public_of esk) fp nonce rid token hour now)
            (activate_run sk esk fp nonce rid token hour now at laws ascii later signed)))
