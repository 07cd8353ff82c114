-- ===== src/Swarm/Registrar/Life.antt =====
-- swarm/registrar.go: what holds after any sequence of calls.
use gole.Base.{
  ℕ, ◌≡◌, refl, ◌≢◌, ◌∙◌, false, some, List, [], ◌∷◌, arith, Bytes, nat_eq, nat_beq_iff, inl, inr,
  Option-cases,
}
use gole.Base.Int.{ℤ}
use gole.Base.Result.{ok, Result-cases}
use gole.Base.Dict.{lookup}
use gole.Swarm.Types.Address.{EndpointAddr, state_revoked}
use gole.Swarm.Types.Enroll.{RegisteredEndpoint}
use gole.Swarm.Paseto.{Crypto, verify_token}
use gole.Swarm.Registrar.State.{Registrar, new_registrar, members, groups, get_endpoint, set_state}
use gole.Swarm.Registrar.Store.{find_endpoint, find-put_endpoint}
use gole.Swarm.Registrar.Growth.{Grows-refl, Grows-trans, Kept}
use gole.Swarm.Registrar.Soundness.{IsSound}
use gole.Swarm.Registrar.Steps.{IsSafe, revoke_endpoint-IsSafe}
use gole.Swarm.Registrar.Progress.{step-IsSafe}
use gole.Swarm.Registrar.Activation.{activate_endpoint, activate_known, revoke_endpoint, is_active}
use gole.Swarm.Registrar.Trace.{Call, step, run}

new_registrar-IsSound : (pk sk : Bytes) (ttl : ℤ) → IsSound (new_registrar pk sk ttl)
unfolding new_registrar members groups lookup
new_registrar-IsSound pk sk ttl = record {
  endpoints = record {
    keyed = record { domains = tt; in_domain = λ d. tt; in_group = λ d g. tt };
    filed = λ d g e ep h. absurd (ground arith);
    lone = λ fp d g e d' g' e' ep ep' n h k l m. absurd (ground arith);
  };
  pending = λ rid pe h. absurd (ground arith);
  approvals = λ fp a h. absurd (ground arith);
}

module _ (c : Crypto) where
  run-IsSafe : (ks : List Call) (r : Registrar) → IsSound r → IsSafe r (run c ks r)
  unfolding run
  run-IsSafe [] r h = record { sound = h; grows = Grows-refl r.endpoints }
  run-IsSafe (k ∷ ks) r h =
      let s = step-IsSafe c k r h in
      let t = run-IsSafe ks (step c k r) s.sound in
      record {
        sound = t.sound;
        grows = Grows-trans r.endpoints (step c k r).endpoints _ s.grows t.grows;
      }

  -- After any sequence of calls on a new registrar the state is sound: every endpoint stands under
  -- its own address with an ID in 1..65534, relays and only relays are in domain 0, no two live
  -- endpoints share a non-empty fingerprint, every registered enrollment names a stored endpoint
  -- with its token and fingerprint, no relay waits for an administrator, and no pre-approval is for
  -- domain 0.
  pub run-new_registrar-IsSound :
      (pk sk : Bytes) (ttl : ℤ) (ks : List Call) → IsSound (run c ks (new_registrar pk sk ttl))
  run-new_registrar-IsSound pk sk ttl ks =
      let s = run-IsSafe ks (new_registrar pk sk ttl) (new_registrar-IsSound pk sk ttl) in s.sound

  -- From a sound state no sequence of calls loses an endpoint or changes its address, public key,
  -- token or fingerprint, and a revoked endpoint stays revoked.
  pub run-Kept :
      (ks : List Call) (r : Registrar) (d g e : ℕ) (ep : RegisteredEndpoint)
      → IsSound r
      → find_endpoint r.endpoints d g e ≡ some ep
      → (ep' : RegisteredEndpoint) × (find_endpoint (run c ks r).endpoints d g e ≡ some ep')
        × Kept ep ep'
  run-Kept ks r d g e ep h f = let s = run-IsSafe ks r h in s.grows d g e ep f

  activate_revoked :
      (addr : EndpointAddr) (token : Bytes) (now : ℤ) (r : Registrar) (ep : RegisteredEndpoint)
      → get_endpoint r addr ≡ some ep
      → ep.state ≡ state_revoked
      → (activate_endpoint c addr token now r).1 ≢ ok tt
  unfolding activate_endpoint activate_known
  activate_revoked addr token now r ep f s q =
      elim (Result-cases (verify_token c token r.public_key now)) [
        | inl (e, x) ↦ ground arith
        | inr (t, x) ↦ ground arith
      ]

  revoked_state :
      (addr : EndpointAddr) (r : Registrar)
      → (revoke_endpoint addr r).1 ≡ ok tt
      → (ep : RegisteredEndpoint) × (get_endpoint (revoke_endpoint addr r).0 addr ≡ some ep)
        × (ep.state ≡ state_revoked)
  unfolding revoke_endpoint set_state get_endpoint
  revoked_state addr r q = elim (Option-cases (get_endpoint r addr)) [
    | inl x ↦ absurd (ground arith)
    | inr (ep, x) ↦ (
      record ep { state = state_revoked },
      rw (x, revoke_endpoint)
          (find-put_endpoint r.endpoints addr.domain addr.group addr.endpoint addr.domain addr.group
              addr.endpoint (record ep { state = state_revoked })
            ∙ ground (
              arith,
              nat_beq_iff addr.domain addr.domain,
              nat_beq_iff addr.group addr.group,
              nat_beq_iff addr.endpoint addr.endpoint,
            )),
      refl,
    )
  ]

  -- Revocation is final: once RevokeEndpoint has succeeded on a sound registrar, then after any
  -- further calls, with whatever token and at whatever time, ActivateEndpoint fails for that
  -- address and the endpoint is not active.
  pub revoked_for_good :
      (addr : EndpointAddr) (r : Registrar) (ks : List Call) (token : Bytes) (now : ℤ)
      → IsSound r
      → (revoke_endpoint addr r).1 ≡ ok tt
      → ((activate_endpoint c addr token now (run c ks (revoke_endpoint addr r).0)).1 ≢ ok tt)
        × (is_active addr (run c ks (revoke_endpoint addr r).0) ≡ false)
  unfolding get_endpoint is_active
  revoked_for_good addr r ks token now h q =
      let (ep, f, s) = revoked_state addr r q in
      let r1 = (revoke_endpoint addr r).0 in
      let safe = revoke_endpoint-IsSafe addr r h in
      let (ep', f', k) = run-Kept ks r1 addr.domain addr.group addr.endpoint ep safe.sound f in
      (
        activate_revoked addr token now (run c ks r1) ep' f' (k.revoked s),
        ground (arith, k.revoked s),
      )
