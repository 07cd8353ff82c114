-- ===== src/Swarm/Registrar/Approval.antt =====
-- swarm/registrar.go, `registerApproved`: its three outcomes.
use gole.Base.{
  ℕ, ◌<◌, ◌≡◌, refl, ◌∙◌, sym, Option, none, some, arith, Bytes, leb, inl, inr, Bool-cases,
  Option-cases,
}
use gole.Base.Int.{ℤ}
use gole.Base.Result.{ok, err}
use gole.Swarm.Types.Address.{EndpointAddr, state_registered}
use gole.Swarm.Types.Enroll.{RegisteredEndpoint}
use gole.Swarm.Paseto.{Crypto, sign_token}
use gole.Swarm.Registrar.State.{
  Registrar, PendingEnroll, find_by_fingerprint, count_endpoints, store_endpoint,
  max_endpoints_per_group,
}
use gole.Swarm.Registrar.Ids.{allocate_id}
use gole.Swarm.Registrar.Ids.Allocation.{IsAllocated, allocate_id-IsAllocated, allocate_id_failed}
use gole.Swarm.Registrar.Enrollment.{
  RegistrarError, Outcome, claims_for, issue, issue_at, register_approved, sign_failed,
  no_available_ids, group_full,
}

abbrev pub addr_of : PendingEnroll → ℕ → ℕ → ℕ → EndpointAddr
addr_of pe d g id = record { domain = d; group = g; endpoint = id; role_flags = pe.role_flags }

abbrev pub settled : PendingEnroll → EndpointAddr → Bytes → PendingEnroll
settled pe addr token = record pe { address = addr; token = token; state = state_registered }

module _ (c : Crypto) where
  -- What registerApproved leaves behind, and what it returns.
  pub data Approved (pe : PendingEnroll) (d g : ℕ) (now : ℤ) (r : Registrar)
      (out : Outcome PendingEnroll) : Type 0 where
    refused :
        (e : RegistrarError)
        → out.1 ≡ err e
        → out.0.endpoints ≡ r.endpoints
        → out.0.pending ≡ r.pending
        → out.0.pre_approved ≡ r.pre_approved
        → Approved pe d g now r out
    reused :
        (ep : RegisteredEndpoint)
        → find_by_fingerprint r pe.fingerprint ≡ some ep
        → out ≡ (r, ok (settled pe ep.addr ep.token))
        → Approved pe d g now r out
    issued :
        (r0 : Registrar) (id : ℕ) (token : Bytes)
        → find_by_fingerprint r pe.fingerprint ≡ none
        → count_endpoints r d g < max_endpoints_per_group
        → IsAllocated r d g r0 id
        → sign_token c (claims_for c pe (addr_of pe d g id) now r.token_ttl) r.private_key
          ≡ some token
        → out ≡ (
          store_endpoint (addr_of pe d g id) pe.public_key token pe.fingerprint r0,
          ok (settled pe (addr_of pe d g id) token),
        )
        → Approved pe d g now r out

  issue_at-Approved :
      (pe : PendingEnroll) (d g : ℕ) (now : ℤ) (r r0 : Registrar) (o : Option ℕ)
      → find_by_fingerprint r pe.fingerprint ≡ none
      → count_endpoints r d g < max_endpoints_per_group
      → allocate_id r d g ≡ (r0, o)
      → Approved pe d g now r (issue_at c pe d g now (r0, o))
  unfolding issue_at issue
  issue_at-Approved pe d g now r r0 none f n q =
      let (e, p, a) = allocate_id_failed r d g r0 q in refused no_available_ids refl e p a
  issue_at-Approved pe d g now r r0 (some id) f n q =
      let a = allocate_id-IsAllocated r d g r0 id q in
      let k : sign_token c (claims_for c pe (addr_of pe d g id) now r0.token_ttl) r0.private_key
          ≡ sign_token c (claims_for c pe (addr_of pe d g id) now r.token_ttl) r.private_key =
        rw (a.ttl_kept, a.key_kept) refl in
      elim (Option-cases
        (sign_token c (claims_for c pe (addr_of pe d g id) now r0.token_ttl) r0.private_key)) [
          | inl s ↦
              refused sign_failed (ground arith) (ground (arith, a.endpoints_kept))
                (ground (arith, a.pending_kept)) (ground (arith, a.approvals_kept))
          | inr (token, s) ↦ issued r0 id token f n a (sym k ∙ s) (rw (s, issue) refl)
        ]

  -- registerApproved either fails and changes neither endpoints nor enrollments, or hands out the
  -- live endpoint that has the fingerprint already, or stores a new endpoint under a fresh ID with
  -- a token signed for it.
  pub register_approved-Approved :
      (pe : PendingEnroll) (d g : ℕ) (now : ℤ) (r : Registrar)
      → Approved pe d g now r (register_approved c pe d g now r)
  unfolding register_approved
  register_approved-Approved pe d g now r =
      elim (Option-cases (find_by_fingerprint r pe.fingerprint)) [
        | inr (ep, f) ↦ reused ep f (rw (f, register_approved) refl)
        | inl f ↦
            rw (f, register_approved)
              (elim (Bool-cases (leb max_endpoints_per_group (count_endpoints r d g))) [
                | inl full ↦ rw full (refused group_full refl refl refl refl)
                | inr room ↦ rw room (
                    issue_at-Approved pe d g now r (allocate_id r d g).0 (allocate_id r d g).1 f
                      (ground arith) refl)
              ])
      ]
