-- ===== src/Swarm/Registrar/Activating.antt =====
-- swarm/registrar.go: exactly when an endpoint is activated, observed and introduced to a peer.
use gole.Base.{
  ℕ, ◌≡◌, refl, ◌≢◌, ◌↔◌, ◌∙◌, sym, subst, true, ◌&&◌, some, arith, Bytes, ◌==◌, nat_eq, bytes_eq,
  nat_beq_iff, inl, inr, Bool-cases, Option-cases,
}
use gole.Base.Int.{ℤ}
use gole.Base.Result.{ok, Result-cases}
use gole.Swarm.Types.Address.{EndpointAddr, state_active, state_registered}
use gole.Swarm.Types.Enroll.{RegisteredEndpoint}
use gole.Swarm.Paseto.{Crypto, TokenClaims, verify_token, claims_match}
use gole.Swarm.Registrar.State.{Registrar, get_endpoint, set_state}
use gole.Swarm.Registrar.Store.{find-put_endpoint}
use gole.Swarm.Registrar.Activation.{activate_endpoint, activate_known}

-- One endpoint's state is rewritten, and nothing else that getEndpoint shows.
pub record IsMarked (addr : EndpointAddr) (s : ℕ) (r r' : Registrar) : Type 0 where
  pub old : RegisteredEndpoint
  pub held : get_endpoint r addr ≡ some old
  pub marked : get_endpoint r' addr ≡ some (record old { state = s })
  pub others :
      (a : EndpointAddr)
      → ¬ ((addr.domain ≡ a.domain) × (addr.group ≡ a.group) × (addr.endpoint ≡ a.endpoint))
      → get_endpoint r' a ≡ get_endpoint r a

pub set_state-IsMarked :
    (addr : EndpointAddr) (ep : RegisteredEndpoint) (s : ℕ) (r : Registrar)
    → get_endpoint r addr ≡ some ep
    → IsMarked addr s r (set_state addr ep s r)
unfolding set_state get_endpoint
set_state-IsMarked addr ep s r h =
    let new : RegisteredEndpoint = record ep { state = s } in
    record {
      old = ep;
      held = h;
      marked =
          find-put_endpoint r.endpoints addr.domain addr.group addr.endpoint addr.domain addr.group
            addr.endpoint new
          ∙ ground (
            arith,
            nat_beq_iff addr.domain addr.domain,
            nat_beq_iff addr.group addr.group,
            nat_beq_iff addr.endpoint addr.endpoint,
          );
      others = λ a n.
          find-put_endpoint r.endpoints addr.domain addr.group addr.endpoint a.domain a.group
            a.endpoint new
          ∙ elim (Bool-cases (
              (addr.domain == a.domain)
              && ((addr.group == a.group) && (addr.endpoint == a.endpoint)))) [
                | inl q ↦ absurd (n (ground arith, ground arith, ground arith))
                | inr q ↦ rw q refl
              ];
    }

module _ (c : Crypto) where
  -- ActivateEndpoint succeeds exactly when the token verifies to claims that match the address, role
  -- flags included, and the registrar holds the endpoint in the state registered.
  pub activate-ok_iff :
      (addr : EndpointAddr) (token : Bytes) (now : ℤ) (r : Registrar)
      → ((activate_endpoint c addr token now r).1 ≡ ok tt) ↔ (
          (t : TokenClaims) × (ep : RegisteredEndpoint) × (verify_token c token r.public_key now
            ≡ ok t)
          × (claims_match t addr ≡ true)
          × (get_endpoint r addr ≡ some ep)
          × (ep.state ≡ state_registered))
  unfolding activate_endpoint activate_known
  activate-ok_iff addr token now r = (there, back)
    where
      there :
          (activate_endpoint c addr token now r).1 ≡ ok tt
          → (t : TokenClaims) × (ep : RegisteredEndpoint) × (verify_token c token r.public_key now
              ≡ ok t)
            × (claims_match t addr ≡ true)
            × (get_endpoint r addr ≡ some ep)
            × (ep.state ≡ state_registered)
      there h = elim (Result-cases (verify_token c token r.public_key now)) [
        | inl (e, q) ↦ absurd (ground arith)
        | inr (t, q) ↦ elim (Option-cases (get_endpoint r addr)) [
          | inl f ↦ absurd (ground arith)
          | inr (ep, f) ↦ (t, ep, q, ground arith, f, ground arith)
        ]
      ]

      back :
          ((t : TokenClaims) × (ep : RegisteredEndpoint) × (verify_token c token r.public_key now
              ≡ ok t)
            × (claims_match t addr ≡ true)
            × (get_endpoint r addr ≡ some ep)
            × (ep.state ≡ state_registered))
          → (activate_endpoint c addr token now r).1 ≡ ok tt
      back (t, ep, q, m, f, s) = ground arith

  -- A successful activation makes that endpoint active and changes no other; a failed one changes
  -- nothing.
  pub activate_effect :
      (addr : EndpointAddr) (token : Bytes) (now : ℤ) (r : Registrar)
      → (((activate_endpoint c addr token now r).1 ≡ ok tt)
          → IsMarked addr state_active r (activate_endpoint c addr token now r).0)
        × (((activate_endpoint c addr token now r).1 ≢ ok tt)
            → (activate_endpoint c addr token now r).0 ≡ r)
  unfolding activate_endpoint activate_known
  activate_effect addr token now r = elim (Result-cases (verify_token c token r.public_key now)) [
    | inl (e, q) ↦ (λ h. absurd (ground arith), λ h. ground arith)
    | inr (t, q) ↦ elim (Option-cases (get_endpoint r addr)) [
      | inl f ↦ (λ h. absurd (ground arith), λ h. ground arith)
      | inr (ep, f) ↦ (
        λ h.
            let e : (activate_endpoint c addr token now r).0 ≡ set_state addr ep state_active r =
              ground arith in
            subst (IsMarked addr state_active r) (sym e)
              (set_state-IsMarked addr ep state_active r f),
        λ h. ground arith,
      )
    ]
  ]
