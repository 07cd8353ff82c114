-- ===== src/Swarm/Registrar/Soundness.antt =====
-- swarm/registrar.go: the invariant of the registrar's state, and the writes that keep it.
use gole.Base.{
  ℕ, ◌≡◌, ◌≢◌, ◌∙◌, sym, subst, ◌&&◌, some, [], arith, Bytes, ◌==◌, nat_eq, bytes_eq, inl, inr,
  Bool-cases,
}
use gole.Base.Dict.{Dict, lookup, insert, delete, lookup-insert, lookup-delete}
use gole.Swarm.Types.Address.{role_of, role_relay, state_registered, state_pending}
use gole.Swarm.Types.Enroll.{RegisteredEndpoint}
use gole.Swarm.Registrar.State.{
  Registrar, PendingEnroll, AddrMapping, Endpoints, put_endpoint, relay_domain,
}
use gole.Swarm.Registrar.Ids.Probing.{InRange}
use gole.Swarm.Registrar.Store.{find_endpoint, find-put_endpoint}
use gole.Swarm.Registrar.Fingerprints.{IsKeyed, IsLive, put_endpoint-IsKeyed}
use gole.Swarm.Registrar.Growth.{Grows}

-- Relays live in the reserved domain, and only they do.
pub record RoleFits (flags domain : ℕ) : Type 0 where
  pub home : role_of flags ≡ role_relay → domain ≡ relay_domain
  pub reserved : domain ≡ relay_domain → role_of flags ≡ role_relay

-- An endpoint stands under its own address.
pub record IsFiled (d g e : ℕ) (ep : RegisteredEndpoint) : Type 0 where
  pub domain : ep.addr.domain ≡ d
  pub group : ep.addr.group ≡ g
  pub endpoint : ep.addr.endpoint ≡ e
  pub in_range : InRange e
  pub role : RoleFits ep.addr.role_flags d

pub record EndpointsSound (eps : Endpoints) : Type 0 where
  pub keyed : IsKeyed eps
  pub filed :
      (d g e : ℕ) (ep : RegisteredEndpoint) → find_endpoint eps d g e ≡ some ep → IsFiled d g e ep
  -- a fingerprint has one live endpoint at most
  pub lone :
      (fp : Bytes) (d g e d' g' e' : ℕ) (ep ep' : RegisteredEndpoint)
      → fp ≢ []
      → find_endpoint eps d g e ≡ some ep
      → find_endpoint eps d' g' e' ≡ some ep'
      → IsLive fp ep
      → IsLive fp ep'
      → (d ≡ d') × (g ≡ g') × (e ≡ e')

-- The endpoint that a registered enrollment hands out.
pub record Backed (eps : Endpoints) (pe : PendingEnroll) : Type 0 where
  pub ep : RegisteredEndpoint
  pub held : find_endpoint eps pe.address.domain pe.address.group pe.address.endpoint ≡ some ep
  pub addr : ep.addr ≡ pe.address
  pub token : ep.token ≡ pe.token
  pub fingerprint : ep.fingerprint ≡ pe.fingerprint

pub record EnrollSound (eps : Endpoints) (pe : PendingEnroll) : Type 0 where
  pub issued : pe.state ≡ state_registered → Backed eps pe
  pub waiting : pe.state ≡ state_pending → role_of pe.role_flags ≢ role_relay

abbrev pub PendingSound : Endpoints → Dict Bytes PendingEnroll → Type 0
PendingSound eps m =
    (rid : Bytes) (pe : PendingEnroll) → lookup rid m ≡ some pe → EnrollSound eps pe

abbrev pub ApprovalsSound : Dict Bytes AddrMapping → Type 0
ApprovalsSound m = (fp : Bytes) (a : AddrMapping) → lookup fp m ≡ some a → a.domain ≢ relay_domain

pub record IsSound (r : Registrar) : Type 0 where
  pub endpoints : EndpointsSound r.endpoints
  pub pending : PendingSound r.endpoints r.pending
  pub approvals : ApprovalsSound r.pre_approved

pub insert-PendingSound :
    (eps : Endpoints) (m : Dict Bytes PendingEnroll) (rid : Bytes) (pe : PendingEnroll)
    → PendingSound eps m
    → EnrollSound eps pe
    → PendingSound eps (insert rid pe m)
insert-PendingSound eps m rid pe h s k q f = elim (Bool-cases (rid == k)) [
  | inl e ↦
      let same : pe ≡ q = ground (arith, lookup-insert rid k pe m) in
      subst (λ x. EnrollSound eps x) same s
  | inr e ↦ h k q (ground (arith, lookup-insert rid k pe m))
]

pub delete-PendingSound :
    (eps : Endpoints) (m : Dict Bytes PendingEnroll) (rid : Bytes)
    → PendingSound eps m
    → PendingSound eps (delete rid m)
delete-PendingSound eps m rid h k q f = h k q (ground (arith, lookup-delete rid k m))

pub insert-ApprovalsSound :
    (m : Dict Bytes AddrMapping) (fp : Bytes) (a : AddrMapping)
    → ApprovalsSound m
    → a.domain ≢ relay_domain
    → ApprovalsSound (insert fp a m)
insert-ApprovalsSound m fp a h n k b f = elim (Bool-cases (fp == k)) [
  | inl e ↦
      let same : a ≡ b = ground (arith, lookup-insert fp k a m) in
      subst (λ (x : AddrMapping). x.domain ≢ relay_domain) same n
  | inr e ↦ h k b (ground (arith, lookup-insert fp k a m))
]

pub Grows-Backed :
    (eps eps' : Endpoints) (pe : PendingEnroll) → Grows eps eps' → Backed eps pe → Backed eps' pe
Grows-Backed eps eps' pe g b =
    let (ep', f, k) = g pe.address.domain pe.address.group pe.address.endpoint b.ep b.held in
    record {
      ep = ep';
      held = f;
      addr = k.addr ∙ b.addr;
      token = k.token ∙ b.token;
      fingerprint = k.fingerprint ∙ b.fingerprint;
    }

pub Grows-PendingSound :
    (eps eps' : Endpoints) (m : Dict Bytes PendingEnroll)
    → Grows eps eps'
    → PendingSound eps m
    → PendingSound eps' m
Grows-PendingSound eps eps' m g h rid pe f =
    let s = h rid pe f in
    record { issued = λ e. Grows-Backed eps eps' pe g (s.issued e); waiting = s.waiting }

-- A write at (d, g, e): every endpoint found afterwards is the new one or was there before.
put-cases {ℓ} :
    (eps : Endpoints) (d g e d' g' e' : ℕ) (new ep : RegisteredEndpoint) (P : Type ℓ)
    → find_endpoint (put_endpoint eps d g e new) d' g' e' ≡ some ep
    → ((d ≡ d') → (g ≡ g') → (e ≡ e') → new ≡ ep → P)
    → (find_endpoint eps d' g' e' ≡ some ep → P)
    → P
put-cases eps d g e d' g' e' new ep P f same other =
    elim (Bool-cases ((d == d') && ((g == g') && (e == e')))) [
      | inl q ↦
          same (ground arith) (ground arith) (ground arith)
            (ground (arith, find-put_endpoint eps d g e d' g' e' new))
      | inr q ↦ other (ground (arith, find-put_endpoint eps d g e d' g' e' new))
    ]

-- A write keeps the endpoints sound if the new one is filed rightly and no other live endpoint
-- has its fingerprint.
pub put-EndpointsSound :
    (eps : Endpoints) (d g e : ℕ) (new : RegisteredEndpoint)
    → EndpointsSound eps
    → IsFiled d g e new
    → ((fp : Bytes) (d' g' e' : ℕ) (ep : RegisteredEndpoint)
        → fp ≢ []
        → find_endpoint eps d' g' e' ≡ some ep
        → IsLive fp new
        → IsLive fp ep
        → (d ≡ d') × (g ≡ g') × (e ≡ e'))
    → EndpointsSound (put_endpoint eps d g e new)
put-EndpointsSound eps d g e new h filed alone = record {
  keyed = put_endpoint-IsKeyed eps d g e new h.keyed;
  filed = λ d' g' e' ep f.
      put-cases eps d g e d' g' e' new ep (IsFiled d' g' e' ep) f
        (λ p q r s. moved d' g' e' ep p q r s) (h.filed d' g' e' ep);
  lone = λ fp d1 g1 e1 d2 g2 e2 x y ne fx fy lx ly.
      put-cases eps d g e d1 g1 e1 new x ((d1 ≡ d2) × (g1 ≡ g2) × (e1 ≡ e2)) fx
        (λ p q r s.
          put-cases eps d g e d2 g2 e2 new y ((d1 ≡ d2) × (g1 ≡ g2) × (e1 ≡ e2)) fy
            (λ p' q' r' s'. (sym p ∙ p', sym q ∙ q', sym r ∙ r'))
            (λ old.
              let (a, b, k) = alone fp d2 g2 e2 y ne old (subst (IsLive fp) (sym s) lx) ly in
              (sym p ∙ a, sym q ∙ b, sym r ∙ k)))
        (λ old.
          put-cases eps d g e d2 g2 e2 new y ((d1 ≡ d2) × (g1 ≡ g2) × (e1 ≡ e2)) fy
            (λ p' q' r' s'.
              let (a, b, k) = alone fp d1 g1 e1 x ne old (subst (IsLive fp) (sym s') ly) lx in
              (sym a ∙ p', sym b ∙ q', sym k ∙ r'))
            (λ old'. h.lone fp d1 g1 e1 d2 g2 e2 x y ne old old' lx ly));
}
  where
    moved :
        (d' g' e' : ℕ) (ep : RegisteredEndpoint)
        → d ≡ d'
        → g ≡ g'
        → e ≡ e'
        → new ≡ ep
        → IsFiled d' g' e' ep
    moved d' g' e' ep p q r s =
        subst (λ x. IsFiled d' g' e' x) s
          (subst (λ x. IsFiled d' g' x new) r
            (subst (λ x. IsFiled d' x e new) q (subst (λ x. IsFiled x g e new) p filed)))
