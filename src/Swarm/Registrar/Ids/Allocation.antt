-- ===== src/Swarm/Registrar/Ids/Allocation.antt =====
-- swarm/registrar.go, `allocateID`: the contract of an allocation.
use gole.Base.{
  [], ℕ, ◌≤◌, ◌≡◌, refl, ◌↔◌, ◌∙◌, ap, false, none, some, arith, ◌==◌, nat_eq, if◌then◌else◌, inl,
  inr, Option-cases,
}
use gole.Base.Dict.{lookup, insert, lookup-insert_self}
use gole.Swarm.Registrar.State.{Registrar, get_or, is_id_taken, max_endpoints_per_group}
use gole.Swarm.Registrar.Ids.{hints, hint_of, probe, hint_after, set_hint, allocate_id}
use gole.Swarm.Registrar.Ids.Probing.{InRange, AllTaken, probe-some, probe-none_iff}

-- The hint that the loop starts from: 1 where none is stored.
abbrev pub start_hint : Registrar → ℕ → ℕ → ℕ
start_hint r d g = if hint_of r d g == 0 then 1 else hint_of r d g

hint_of-set_hint : (r : Registrar) (d g next : ℕ) → hint_of (set_hint r d g next) d g ≡ next
unfolding hint_of set_hint hints
hint_of-set_hint r d g next =
    rw (lookup-insert_self d (insert g next (get_or (lookup d r.next_id) [])) r.next_id)
      (rw (lookup-insert_self g next (get_or (lookup d r.next_id) [])) refl)

-- What an allocation has done when it returns an ID.
pub record IsAllocated (r : Registrar) (d g : ℕ) (r' : Registrar) (id : ℕ) : Type 0 where
  pub in_range : InRange id
  pub free : is_id_taken r d g id ≡ false
  pub hint : hint_of r' d g ≡ hint_after id
  pub endpoints_kept : r'.endpoints ≡ r.endpoints
  pub pending_kept : r'.pending ≡ r.pending
  pub fingerprints_kept : r'.by_fingerprint ≡ r.by_fingerprint
  pub approvals_kept : r'.pre_approved ≡ r.pre_approved
  pub key_kept : r'.private_key ≡ r.private_key
  pub public_key_kept : r'.public_key ≡ r.public_key
  pub ttl_kept : r'.token_ttl ≡ r.token_ttl

-- An ID that allocateID returns lies in 1..65534 and is taken by no endpoint of the group; the
-- group's hint becomes the next ID, 1 after the last; endpoints, enrollments, fingerprints,
-- pre-approvals, keys and the token lifetime are as before.
pub allocate_id-IsAllocated :
    (r : Registrar) (d g : ℕ) (r' : Registrar) (id : ℕ)
    → allocate_id r d g ≡ (r', some id)
    → IsAllocated r d g r' id
unfolding allocate_id
allocate_id-IsAllocated r d g r' id h =
    elim (Option-cases (probe (is_id_taken r d g) (start_hint r d g) max_endpoints_per_group 0)) [
      | inl q ↦ absurd (ground arith)
      | inr (x, q) ↦
          let found : x ≡ id = ground arith in
          let after : set_hint r d g (hint_after id) ≡ r' = ground arith in
          let (free, range) =
            probe-some (is_id_taken r d g) (start_hint r d g) max_endpoints_per_group 0 id
              (q ∙ ap some found) in
          rw (← after) (
            unfold set_hint in
            record {
              in_range = range;
              free = free;
              hint = hint_of-set_hint r d g (hint_after id);
              endpoints_kept = refl;
              pending_kept = refl;
              fingerprints_kept = refl;
              approvals_kept = refl;
              key_kept = refl;
              public_key_kept = refl;
              ttl_kept = refl;
            })
    ]

id_of-allocate_id :
    (r : Registrar) (d g : ℕ)
    → (allocate_id r d g).1 ≡ probe (is_id_taken r d g) (start_hint r d g) max_endpoints_per_group 0
unfolding allocate_id
id_of-allocate_id r d g =
    elim (Option-cases (probe (is_id_taken r d g) (start_hint r d g) max_endpoints_per_group 0)) [
      | inl q ↦ rw (q, allocate_id)
      | inr (x, q) ↦ rw (q, allocate_id)
    ]

-- Where the group's hint is at most 65534, allocateID fails exactly when every ID of 1..65534 is taken apart from those that its loop never
-- tries: the two IDs below the hint (of 2 and above), since `hint + i` wraps at 65536 and not at
-- 65534.
pub allocate_id-none_iff :
    (r : Registrar) (d g : ℕ)
    → hint_of r d g ≤ max_endpoints_per_group
    → ((allocate_id r d g).1 ≡ none) ↔ AllTaken (is_id_taken r d g) (start_hint r d g)
allocate_id-none_iff r d g h = rw (id_of-allocate_id r d g) (
    probe-none_iff (is_id_taken r d g) (start_hint r d g) max_endpoints_per_group refl
      (ground arith))

-- A failed allocation changes hints alone.
pub allocate_id_failed :
    (r : Registrar) (d g : ℕ) (r' : Registrar)
    → allocate_id r d g ≡ (r', none)
    → (r'.endpoints ≡ r.endpoints) × (r'.pending ≡ r.pending) × (r'.pre_approved ≡ r.pre_approved)
unfolding allocate_id
allocate_id_failed r d g r' h =
    elim (Option-cases (probe (is_id_taken r d g) (start_hint r d g) max_endpoints_per_group 0)) [
      | inl q ↦ ground arith
      | inr (x, q) ↦ absurd (ground arith)
    ]
