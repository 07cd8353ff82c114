-- ===== src/Swarm/Registrar/Growth.antt =====
-- swarm/registrar.go: what may happen to the stored endpoints.
use gole.Base.{
  ℕ, ◌≡◌, refl, ◌∙◌, subst, false, ◌&&◌, none, some, arith, ◌==◌, nat_eq, inl, inr, Bool-cases,
}
use gole.Swarm.Types.Address.{state_revoked}
use gole.Swarm.Types.Enroll.{RegisteredEndpoint}
use gole.Swarm.Registrar.State.{Registrar, Endpoints, put_endpoint, is_id_taken}
use gole.Swarm.Registrar.Store.{find_endpoint, find-put_endpoint}

-- The identity of an endpoint stays, and a revoked endpoint stays revoked.
pub record Kept (old new : RegisteredEndpoint) : Type 0 where
  pub addr : new.addr ≡ old.addr
  pub public_key : new.public_key ≡ old.public_key
  pub token : new.token ≡ old.token
  pub fingerprint : new.fingerprint ≡ old.fingerprint
  pub revoked : old.state ≡ state_revoked → new.state ≡ state_revoked

abbrev pub Grows : Endpoints → Endpoints → Type 0
Grows eps eps' =
    (d g e : ℕ) (ep : RegisteredEndpoint)
    → find_endpoint eps d g e ≡ some ep
    → (ep' : RegisteredEndpoint) × (find_endpoint eps' d g e ≡ some ep') × Kept ep ep'

Kept-refl : (ep : RegisteredEndpoint) → Kept ep ep
Kept-refl ep = record {
  addr = refl;
  public_key = refl;
  token = refl;
  fingerprint = refl;
  revoked = λ h. h;
}

Kept-trans : (a b c : RegisteredEndpoint) → Kept a b → Kept b c → Kept a c
Kept-trans a b c h k = record {
  addr = k.addr ∙ h.addr;
  public_key = k.public_key ∙ h.public_key;
  token = k.token ∙ h.token;
  fingerprint = k.fingerprint ∙ h.fingerprint;
  revoked = λ x. k.revoked (h.revoked x);
}

pub Grows-refl : (eps : Endpoints) → Grows eps eps
Grows-refl eps d g e ep h = (ep, h, Kept-refl ep)

pub Grows-trans : (a b c : Endpoints) → Grows a b → Grows b c → Grows a c
Grows-trans a b c h k d g e ep f =
    let (ep1, f1, k1) = h d g e ep f in
    let (ep2, f2, k2) = k d g e ep1 f1 in (ep2, f2, Kept-trans ep ep1 ep2 k1 k2)

-- A write over an endpoint that keeps its identity.
pub put-Grows :
    (eps : Endpoints) (d g e : ℕ) (old new : RegisteredEndpoint)
    → find_endpoint eps d g e ≡ some old
    → Kept old new
    → Grows eps (put_endpoint eps d g e new)
put-Grows eps d g e old new h k d' g' e' ep f =
    elim (Bool-cases ((d == d') && ((g == g') && (e == e')))) [
      | inl q ↦
          let same : old ≡ ep = ground arith in
          (
            new,
            find-put_endpoint eps d g e d' g' e' new ∙ rw q refl,
            subst (λ x. Kept x new) same k,
          )
      | inr q ↦ (ep, find-put_endpoint eps d g e d' g' e' new ∙ rw q f, Kept-refl ep)
    ]

-- A write at an address that is free.
pub put_new-Grows :
    (eps : Endpoints) (d g e : ℕ) (new : RegisteredEndpoint)
    → find_endpoint eps d g e ≡ none
    → Grows eps (put_endpoint eps d g e new)
put_new-Grows eps d g e new h d' g' e' ep f =
    elim (Bool-cases ((d == d') && ((g == g') && (e == e')))) [
      | inl q ↦ absurd (ground arith)
      | inr q ↦ (ep, find-put_endpoint eps d g e d' g' e' new ∙ rw q f, Kept-refl ep)
    ]

pub free_id :
    (r : Registrar) (d g id : ℕ)
    → is_id_taken r d g id ≡ false
    → find_endpoint r.endpoints d g id ≡ none
unfolding is_id_taken
free_id r d g id h = ground arith
