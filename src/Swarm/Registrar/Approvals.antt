-- ===== src/Swarm/Registrar/Approvals.antt =====
-- swarm/registrar.go: registerApproved and the confirmation of an enrollment keep the registrar
-- sound.
use gole.Base.{
  ℕ, ◌≡◌, refl, ◌≢◌, sym, subst, none, some, arith, Bytes, ◌==◌, nat_eq, bytes_eq, nat_beq_iff, inl,
  inr, Bool-cases, Option-cases,
}
use gole.Base.Int.{ℤ}
use gole.Base.Result.{ok, err}
use gole.Base.Dict.{lookup}
use gole.Swarm.Types.Address.{EndpointAddr, role_of, role_relay, state_registered, state_pending}
use gole.Swarm.Types.Enroll.{RegisteredEndpoint}
use gole.Swarm.Paseto.{Crypto}
use gole.Swarm.Registrar.State.{
  Registrar, PendingEnroll, Endpoints, relay_domain, relay_group, store_endpoint,
}
use gole.Swarm.Registrar.Store.{find-put_endpoint}
use gole.Swarm.Registrar.Fingerprints.{find_by_fingerprint-some, find_by_fingerprint-none}
use gole.Swarm.Registrar.Growth.{put_new-Grows, free_id}
use gole.Swarm.Registrar.Ids.Allocation.{IsAllocated}
use gole.Swarm.Registrar.State.{find_by_fingerprint}
use gole.Swarm.Registrar.Approval.{
  Approved, refused, reused, issued, addr_of, settled, register_approved-Approved,
}
use gole.Swarm.Registrar.Soundness.{
  RoleFits, Backed, EnrollSound, PendingSound, ApprovalsSound, IsSound, insert-PendingSound,
  put-EndpointsSound,
}
use gole.Swarm.Registrar.Enrollment.{
  RegistrarError, Outcome, put_pending, settle, decide_enroll, register_approved,
}
use gole.Swarm.Registrar.Steps.{IsSafe, quiet, still, grown}
use gole.Swarm.Registrar.Routing.{at_address}

module _ (c : Crypto) where
  settle-refused :
      (rid : Bytes) (out : Outcome PendingEnroll) (e : RegistrarError)
      → out.1 ≡ err e
      → (settle c rid out).0 ≡ out.0
  unfolding settle
  settle-refused rid (r, err x) e q = refl
  settle-refused rid (r, ok pe) e q = absurd (ground arith)

  -- The endpoint that registerApproved stores.
  stored-IsSafe :
      (pe : PendingEnroll) (d g id : ℕ) (token : Bytes) (r r0 : Registrar)
      → IsSound r
      → RoleFits pe.role_flags d
      → find_by_fingerprint r pe.fingerprint ≡ none
      → IsAllocated r d g r0 id
      → IsSafe r (store_endpoint (addr_of pe d g id) pe.public_key token pe.fingerprint r0)
  unfolding store_endpoint
  stored-IsSafe pe d g id token r r0 h fits lone a =
      let new : RegisteredEndpoint = record {
        addr = addr_of pe d g id;
        public_key = pe.public_key;
        state = state_registered;
        token = token;
        fingerprint = pe.fingerprint;
      } in
      rw a.endpoints_kept (
        grown r _ h
          (put-EndpointsSound r.endpoints d g id new h.endpoints
            (record {
              domain = refl;
              group = refl;
              endpoint = refl;
              in_range = a.in_range;
              role = fits;
            })
            (λ fp d' g' e' x ne f ln lx. absurd (
              find_by_fingerprint-none r fp d' g' e' x ne
                (subst (λ y. find_by_fingerprint r y ≡ none) ln.0 lone) f lx)))
          (put_new-Grows r.endpoints d g id new (free_id r d g id a.free)) a.pending_kept
          a.approvals_kept)

  settled-EnrollSound :
      (eps : Endpoints) (pe : PendingEnroll) (addr : EndpointAddr) (token : Bytes)
      → Backed eps (settled pe addr token)
      → EnrollSound eps (settled pe addr token)
  settled-EnrollSound eps pe addr token b = record {
    issued = λ _. b;
    waiting = λ e. absurd (ground arith);
  }

  -- A sound state with an enrollment written back.
  pub put_back :
      (r r1 : Registrar) (rid : Bytes) (pe : PendingEnroll)
      → IsSafe r r1
      → EnrollSound r1.endpoints pe
      → IsSafe r (put_pending rid pe r1)
  unfolding put_pending
  put_back r r1 rid pe h s = record {
    sound = record {
      endpoints = h.sound.endpoints;
      pending = insert-PendingSound r1.endpoints r1.pending rid pe h.sound.pending s;
      approvals = h.sound.approvals;
    };
    grows = h.grows;
  }

  reused-Backed :
      (pe : PendingEnroll) (r : Registrar) (ep : RegisteredEndpoint)
      → IsSound r
      → find_by_fingerprint r pe.fingerprint ≡ some ep
      → Backed r.endpoints (settled pe ep.addr ep.token)
  reused-Backed pe r ep h f =
      let (d, g, e, held, live) =
        find_by_fingerprint-some r pe.fingerprint ep h.endpoints.keyed f in
      let filed = h.endpoints.filed d g e ep held in
      record {
        ep = ep;
        held =
            at_address r.endpoints ep.addr.domain ep.addr.group ep.addr.endpoint d g e ep
              filed.domain filed.group filed.endpoint held;
        addr = refl;
        token = refl;
        fingerprint = live.0;
      }

  issued-Backed :
      (pe : PendingEnroll) (d g id : ℕ) (token : Bytes) (r0 : Registrar)
      → Backed
          (store_endpoint (addr_of pe d g id) pe.public_key token pe.fingerprint r0).endpoints
          (settled pe (addr_of pe d g id) token)
  unfolding store_endpoint
  issued-Backed pe d g id token r0 =
      let new : RegisteredEndpoint = record {
        addr = addr_of pe d g id;
        public_key = pe.public_key;
        state = state_registered;
        token = token;
        fingerprint = pe.fingerprint;
      } in
      record {
        ep = new;
        held = ground (
          arith,
          find-put_endpoint r0.endpoints d g id d g id new,
          nat_beq_iff d d,
          nat_beq_iff g g,
          nat_beq_iff id id,
        );
        addr = refl;
        token = refl;
        fingerprint = refl;
      }

  Approved-IsSafe :
      (rid : Bytes) (pe : PendingEnroll) (d g : ℕ) (now : ℤ) (r : Registrar)
      (out : Outcome PendingEnroll)
      → IsSound r
      → RoleFits pe.role_flags d
      → Approved c pe d g now r out
      → IsSafe r (settle c rid out).0
  unfolding settle
  Approved-IsSafe rid pe d g now r out h fits (refused e q eps p a) =
      rw (settle-refused rid out e q) (
        quiet r out.0 h eps (subst (PendingSound r.endpoints) (sym p) h.pending)
          (subst ApprovalsSound (sym a) h.approvals))
  Approved-IsSafe rid pe d g now r out h fits (reused ep f q) = rw q (
      put_back r r rid _ (still r h)
        (settled-EnrollSound r.endpoints pe ep.addr ep.token (reused-Backed pe r ep h f)))
  Approved-IsSafe rid pe d g now r out h fits (issued r0 id token f n a t q) = rw q (
      put_back r _ rid _ (stored-IsSafe pe d g id token r r0 h fits f a)
        (settled-EnrollSound _ pe (addr_of pe d g id) token (issued-Backed pe d g id token r0)))

  pub approval-IsSafe :
      (rid : Bytes) (pe : PendingEnroll) (d g : ℕ) (now : ℤ) (r : Registrar)
      → IsSound r
      → RoleFits pe.role_flags d
      → IsSafe r (settle c rid (register_approved c pe d g now r)).0
  approval-IsSafe rid pe d g now r h fits =
      Approved-IsSafe rid pe d g now r _ h fits (register_approved-Approved c pe d g now r)

  fits_relay : (flags : ℕ) → role_of flags ≡ role_relay → RoleFits flags relay_domain
  fits_relay flags h = record { home = λ _. refl; reserved = λ _. h }

  pub fits_other : (flags d : ℕ) → role_of flags ≢ role_relay → d ≢ relay_domain → RoleFits flags d
  fits_other flags d h k = record { home = λ e. absurd (h e); reserved = λ e. absurd (k e) }

  wait-IsSafe :
      (rid : Bytes) (pe : PendingEnroll) (r : Registrar)
      → IsSound r
      → role_of pe.role_flags ≢ role_relay
      → IsSafe r (put_pending rid (record pe { state = state_pending }) r)
  wait-IsSafe rid pe r h n =
      put_back r r rid (record pe { state = state_pending }) (still r h)
        (record { issued = λ e. absurd (ground arith); waiting = λ _. n })

  pub decide_enroll-IsSafe :
      (rid : Bytes) (pe : PendingEnroll) (now : ℤ) (r : Registrar)
      → IsSound r
      → IsSafe r (decide_enroll c rid pe now r).0
  unfolding decide_enroll
  decide_enroll-IsSafe rid pe now r h = elim (Bool-cases (role_of pe.role_flags == role_relay)) [
    | inl b ↦ rw b (
        approval-IsSafe rid pe relay_domain relay_group now r h
          (fits_relay pe.role_flags (ground arith)))
    | inr b ↦ elim (Option-cases (lookup pe.fingerprint r.pre_approved)) [
      | inl q ↦ rw (b, q, decide_enroll) (wait-IsSafe rid pe r h (ground arith))
      | inr (m, q) ↦
          rw (b, q, decide_enroll)
            (approval-IsSafe rid pe m.domain m.group now r h
              (fits_other pe.role_flags m.domain (ground arith) (h.approvals pe.fingerprint m q)))
    ]
  ]
