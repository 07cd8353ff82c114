-- ===== src/Swarm/Endpoint/Polling.antt =====
-- swarm/endpoint.go against swarm/registrar.go: what a poll does to an endpoint that is active
-- already.
use gole.Base.{
  ◌≡◌, refl, ◌≢◌, ◌∙◌, sym, true, false, some, [], arith, inl, inr, bytes_eq, nat_eq, nat_beq,
  some_inj, ap, bytes_beq, bytes_beq_iff,
}
use gole.Base.Dict.{lookup}
use gole.Base.Int.{ℤ}
use gole.Base.Result.{ok, err, Result-cases}
use gole.Swarm.Types.Address.{state_registered, state_active, EndpointAddr}
use gole.Swarm.Types.Enroll.{RegisteredEndpoint}
use gole.Swarm.Paseto.{Crypto}
use gole.Swarm.Registrar.State.{Registrar, PendingEnroll, get_endpoint, status_for}
use gole.Swarm.Registrar.Enrollment.{poll_enrollment, poll_text, Outcome, RegistrarError}
use gole.Swarm.Registrar.Activation.{activate_endpoint}
use gole.Swarm.Registrar.Activating.{activate-ok_iff}
use gole.Swarm.Endpoint.State.{Endpoint, apply_registered, apply_status}
use gole.Swarm.Endpoint.Lifecycle.{endpoint_poll, activated, activate}

module _ (c : Crypto) where
  -- The endpoint after a poll of its registered enrollment
  abbrev pub back : PendingEnroll → Endpoint → Endpoint
  back pe e = record e { addr = some pe.address; token = pe.token; state = state_registered }

  polled :
      (e : Endpoint) (r : Registrar) (pe : PendingEnroll)
      → e.request_id ≢ []
      → lookup e.request_id r.pending ≡ some pe
      → pe.state ≡ state_registered
      → c.verify pe.public_key
          (poll_text e.request_id)
          (c.sign e.private_key (poll_text e.request_id))
        ≡ true
      → (endpoint_poll c e r).0 ≡ back pe e
  unfolding endpoint_poll poll_enrollment apply_status apply_registered status_for
  polled e r pe started f s v =
      let b : bytes_beq e.request_id [] ≡ false =
        ground (arith, bytes_beq_iff e.request_id [], started) in
      let reg : nat_beq pe.state state_registered ≡ true = ground (arith, s) in
      rw (b, endpoint_poll, f, poll_enrollment, v, apply_status, status_for, reg) refl

  activated_err :
      (addr : EndpointAddr) (e : Endpoint) (o : Outcome (Unit {0})) (x : RegistrarError)
      → o.1 ≡ err x
      → (activated c addr e o).1.1 ≢ ok tt
  unfolding activated
  activated_err addr e (r, err y) x q h = absurd (ground (arith, h))
  activated_err addr e (r, ok u) x q h = absurd (ground (arith, q))

  refused :
      (e : Endpoint) (r : Registrar) (pe : PendingEnroll) (ep : RegisteredEndpoint) (now : ℤ)
      → get_endpoint r pe.address ≡ some ep
      → ep.state ≡ state_active
      → (activate c now (back pe e) r).1.1 ≢ ok tt
  unfolding activate
  refused e r pe ep now g a =
      elim (Result-cases (activate_endpoint c pe.address pe.token now r).1) [
        | inl (x, q) ↦
            activated_err pe.address (back pe e) (activate_endpoint c pe.address pe.token now r) x q
        | inr (u, q) ↦
            let (t, ep', v, m, g', s) = (activate-ok_iff c pe.address pe.token now r).0 q in
            absurd (ground (arith, a, s, ap (λ z. z.state) (some_inj (sym g ∙ g'))))
      ]

  -- A poll by an endpoint whose enrollment is registered puts it in the state Registered, also when
  -- it was active; and if the registrar holds it as active, it can then not be activated again.
  pub endpoint_poll_demotes :
      (e : Endpoint) (r : Registrar) (pe : PendingEnroll) (ep : RegisteredEndpoint) (now : ℤ)
      → e.request_id ≢ []
      → lookup e.request_id r.pending ≡ some pe
      → pe.state ≡ state_registered
      → c.verify pe.public_key
          (poll_text e.request_id)
          (c.sign e.private_key (poll_text e.request_id))
        ≡ true
      → get_endpoint r pe.address ≡ some ep
      → ep.state ≡ state_active
      → ((endpoint_poll c e r).0.state ≡ state_registered)
        × ((activate c now (endpoint_poll c e r).0 r).1.1 ≢ ok tt)
  endpoint_poll_demotes e r pe ep now started f s v g a =
      rw (polled e r pe started f s v) (refl, refused e r pe ep now g a)
