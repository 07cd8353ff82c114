-- ===== src/Swarm/Registrar/Fingerprints.antt =====
-- swarm/registrar.go, `findByFingerprint`: what it finds, in whatever order the maps are walked.
use gole.Base.{
  ℕ, ap, ◌≡◌, refl, ◌≢◌, ◌∙◌, ◌&&◌, none, some, [], arith, Bytes, ◌==◌, nat_eq, bytes_eq,
  bytes_beq_iff, nat_beq_iff, inl, inr, Bool-cases, Option-cases,
}
use gole.Base.Dict.{
  lookup, insert, UniqueKeys, insert-UniqueKeys, first_match-some, first_match-none,
}
use gole.Swarm.Types.Address.{state_revoked}
use gole.Swarm.Types.Enroll.{RegisteredEndpoint}
use gole.Swarm.Registrar.State.{
  Registrar, Endpoints, groups, members, is_live_match, live_match, scan_group, scan_domain,
  scan_all, find_by_fingerprint, put_endpoint,
}
use gole.Swarm.Registrar.Store.{find_endpoint, groups-insert, members-put_endpoint}

-- No key stands twice, on any level.
pub record IsKeyed (eps : Endpoints) : Type 0 where
  pub domains : UniqueKeys eps
  pub in_domain : (d : ℕ) → UniqueKeys (groups eps d)
  pub in_group : (d g : ℕ) → UniqueKeys (members eps d g)

pub put_endpoint-IsKeyed :
    (eps : Endpoints) (d g e : ℕ) (ep : RegisteredEndpoint)
    → IsKeyed eps
    → IsKeyed (put_endpoint eps d g e ep)
unfolding put_endpoint
put_endpoint-IsKeyed eps d g e ep h = record {
  domains = insert-UniqueKeys d _ eps h.domains;
  in_domain = λ d'.
      rw (groups-insert eps d d' (insert g (insert e ep (members eps d g)) (groups eps d)))
        (elim (Bool-cases (d == d')) [
          | inl q ↦ rw q (insert-UniqueKeys g _ (groups eps d) (h.in_domain d))
          | inr q ↦ rw q (h.in_domain d')
        ]);
  in_group = λ d' g'.
      rw (members-put_endpoint eps d g e d' g' ep) (elim (Bool-cases ((d == d') && (g == g'))) [
        | inl q ↦ rw q (insert-UniqueKeys e ep (members eps d g) (h.in_group d g))
        | inr q ↦ rw q (h.in_group d' g')
      ]);
}

abbrev pub IsLive : Bytes → RegisteredEndpoint → Type 0
IsLive fp ep = (ep.fingerprint ≡ fp) × (ep.state ≢ state_revoked)

live_match-some :
    (fp : Bytes) (x ep : RegisteredEndpoint) → live_match fp x ≡ some ep → (x ≡ ep) × IsLive fp ep
unfolding live_match is_live_match
live_match-some fp x ep h =
    ground (arith, bytes_beq_iff x.fingerprint fp, nat_beq_iff x.state state_revoked)

live_match-none : (fp : Bytes) (ep : RegisteredEndpoint) → live_match fp ep ≡ none → ¬ IsLive fp ep
unfolding live_match is_live_match
live_match-none fp ep h = λ live. ground (arith, bytes_beq_iff ep.fingerprint fp, live.0, live.1)

pub find_by_fingerprint-some :
    (r : Registrar) (fp : Bytes) (ep : RegisteredEndpoint)
    → IsKeyed r.endpoints
    → find_by_fingerprint r fp ≡ some ep
    → (d g e : ℕ) × (find_endpoint r.endpoints d g e ≡ some ep) × IsLive fp ep
unfolding find_by_fingerprint scan_all scan_domain scan_group members groups
find_by_fingerprint-some r fp ep h q =
    let (d, ms, l, q1) = first_match-some (scan_domain fp) r.endpoints h.domains (ground arith) in
    let in_d : groups r.endpoints d ≡ ms = rw l refl in
    let u : UniqueKeys ms = rw in_d at (h.in_domain d) in
    let (g, m, l2, q2) = first_match-some (scan_group fp) ms u q1 in
    let in_g : members r.endpoints d g ≡ m = ground arith in
    let u2 : UniqueKeys m = rw in_g at (h.in_group d g) in
    let (e, x, l3, q3) = first_match-some (live_match fp) m u2 q2 in
    let (same, live) = live_match-some fp x ep q3 in (d, g, e, rw in_g (l3 ∙ ap some same), live)

pub find_by_fingerprint-none :
    (r : Registrar) (fp : Bytes) (d g e : ℕ) (ep : RegisteredEndpoint)
    → fp ≢ []
    → find_by_fingerprint r fp ≡ none
    → find_endpoint r.endpoints d g e ≡ some ep
    → ¬ IsLive fp ep
unfolding find_by_fingerprint scan_all scan_domain scan_group members groups lookup
find_by_fingerprint-none r fp d g e ep ne q l = elim (Option-cases (lookup d r.endpoints)) [
  | inl x ↦ absurd (ground arith)
  | inr (ms, x) ↦ elim (Option-cases (lookup g ms)) [
    | inl y ↦ absurd (ground arith)
    | inr (m, y) ↦ live_match-none fp ep (
        first_match-none (live_match fp) m e ep
          (first_match-none (scan_group fp) ms g m
            (first_match-none (scan_domain fp) r.endpoints d ms
              (ground (arith, bytes_beq_iff fp [])) x)
            y)
          (ground arith))
  ]
]
