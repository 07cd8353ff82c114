-- ===== src/Swarm/Endpoint/Messages.antt =====
-- swarm/endpoint.go against swarm/controller.go: the messages of an endpoint.
use gole.Base.{
  ◌≡◌, refl, ◌∙◌, ap, subst, true, some, arith, Bytes, inl, inr, Bool-cases, Option-cases, nat_eq,
  nat_beq,
}
use gole.Base.Int.{ℤ}
use gole.Base.Result.{ok}
use gole.Swarm.Types.Address.{EndpointAddr, state_active}
use gole.Swarm.Types.Wire.{SwarmMessage}
use gole.Swarm.Paseto.{Crypto, CryptoLaws, TokenClaims, verify_token}
use gole.Swarm.Registrar.State.{Registrar}
use gole.Swarm.Controller.{Controller, validate_flow, verify_message}
use gole.Swarm.Endpoint.State.{Endpoint}
use gole.Swarm.Endpoint.Lifecycle.{prepare_message}

abbrev pub prepared : Crypto → EndpointAddr → EndpointAddr → Bytes → Endpoint → SwarmMessage
prepared c from to payload e = record {
  from = from;
  to = to;
  token = e.token;
  payload = payload;
  signature = c.sign e.private_key payload;
}

-- What PrepareMessage makes
pub record IsPrepared (c : Crypto) (to : EndpointAddr) (payload : Bytes) (e : Endpoint)
    (msg : SwarmMessage) : Type 0 where
  pub active : e.state ≡ state_active
  pub sender : e.addr ≡ some msg.from
  pub shape : msg ≡ prepared c msg.from to payload e

module _ (c : Crypto) where
  prepare_message_sound :
      (to : EndpointAddr) (payload : Bytes) (e : Endpoint) (msg : SwarmMessage)
      → prepare_message c to payload e ≡ ok msg
      → IsPrepared c to payload e msg
  unfolding prepare_message
  prepare_message_sound to payload e msg h = elim (Bool-cases (nat_beq e.state state_active)) [
    | inl b ↦ elim (Option-cases e.addr) [
      | inl q ↦ absurd (ground (arith, b, q, h))
      | inr (addr, q) ↦
          let same : prepared c addr to payload e ≡ msg = ground (arith, b, q, h) in
          subst (IsPrepared c to payload e) same
            (record { active = ground (arith, b); sender = q; shape = refl })
    ]
    | inr b ↦ absurd (ground (arith, b, h))
  ]

  -- When the token of an endpoint carries its own public key, the controller accepts a message that
  -- the endpoint has prepared exactly as it accepts the message's flow: the check of the signature
  -- never stands in the way, and whatever error there is is the flow's.
  pub verify_message-prepare_message :
      (laws : CryptoLaws c) (k : Controller) (r : Registrar) (to : EndpointAddr) (payload : Bytes)
      (e : Endpoint) (msg : SwarmMessage) (t : TokenClaims) (now : ℤ)
      → e.public_key ≡ c.public_of e.private_key
      → verify_token c e.token k.registrar_key now ≡ ok t
      → t.public_key ≡ e.public_key
      → prepare_message c to payload e ≡ ok msg
      → verify_message c k r msg now ≡ validate_flow c k r msg.from to e.token now
  unfolding verify_message validate_flow
  verify_message-prepare_message laws k r to payload e msg t now own v same h =
      let p = prepare_message_sound to payload e msg h in
      let checks : c.verify t.public_key payload (c.sign e.private_key payload) ≡ true =
        ap (λ z. c.verify z payload (c.sign e.private_key payload)) (same ∙ own)
        ∙ laws.verify-sign e.private_key payload in
      ap (λ m. verify_message c k r m now) p.shape
      ∙ rw (v, checks, verify_message, validate_flow) refl
