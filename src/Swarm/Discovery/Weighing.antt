-- ===== src/Swarm/Discovery/Weighing.antt =====
-- swarm/discovery.go: when SelectTransport goes through a relay in dynamic mode.
use gole.Base.{
  ◌≡◌, refl, ◌↔◌, ◌⊎◌, inl, inr, sym, subst, Bool, true, false, none, some, List, [], arith,
  Bool-cases, Option-cases, nat_eq, nat_beq,
}
use gole.Base.Int.{ℤ, pos, negsuc, ltℤ, eqℤ, add64}
use gole.Swarm.Types.Transport.{
  TransportConfig, TransportDecision, RelayInfo, mode_pinned, mode_relay, mode_peer, mode_dynamic,
}
use gole.Swarm.Discovery.Sorting.{SortLaws}
use gole.Swarm.Discovery.Select.{
  direct, through, weigh, best_relay, select_dynamic, select_transport,
}
use gole.Swarm.Discovery.Ranking.{IsBest, best_relay-IsBest}

-- When a relay is worth its use to a peer of this latency.
abbrev pub IsWorth : ℤ → ℤ → RelayInfo → Type 0
IsWorth threshold p2p r = (p2p ≡ pos 0) ⊎ (ltℤ (add64 r.latency threshold) p2p ≡ true)

pub data IsWeighed (threshold p2p : ℤ) (relays : List RelayInfo) (d : TransportDecision)
    : Type 0 where
  no_relays : relays ≡ [] → d.use_relay ≡ false → IsWeighed threshold p2p relays d
  relay_worth :
      (r : RelayInfo)
      → IsBest relays r
      → IsWorth threshold p2p r
      → d.use_relay ≡ true
      → d.relay_addr ≡ some r.addr
      → d.relay_latency ≡ r.latency
      → IsWeighed threshold p2p relays d
  peer_kept :
      (r : RelayInfo)
      → IsBest relays r
      → ¬ IsWorth threshold p2p r
      → d.use_relay ≡ false
      → d.relay_addr ≡ none
      → d.relay_latency ≡ r.latency
      → IsWeighed threshold p2p relays d

weigh-none :
    (threshold p2p : ℤ) (relays : List RelayInfo)
    → relays ≡ []
    → IsWeighed threshold p2p relays (weigh threshold p2p none)
unfolding weigh direct
weigh-none threshold p2p relays e = no_relays e refl

eqℤ-zero : (z : ℤ) → (eqℤ z (pos 0) ≡ true) ↔ (z ≡ pos 0)
eqℤ-zero (pos n) = ground arith
eqℤ-zero (negsuc n) = ground arith

weigh-some :
    (threshold p2p : ℤ) (relays : List RelayInfo) (r : RelayInfo)
    → IsBest relays r
    → IsWeighed threshold p2p relays (weigh threshold p2p (some r))
unfolding weigh direct through
weigh-some threshold p2p relays r b = elim (Bool-cases (eqℤ p2p (pos 0))) [
  | inl z ↦ rw z (relay_worth r b (inl ((eqℤ-zero p2p).0 z)) refl refl refl)
  | inr z ↦ elim (Bool-cases (ltℤ (add64 r.latency threshold) p2p)) [
    | inl w ↦ rw (z, w) (relay_worth r b (inr w) refl refl refl)
    | inr w ↦
        rw (z, w)
          (peer_kept r b
            (λ h. elim h [
              | inl e ↦ absurd (ground (arith, z, (eqℤ-zero p2p).1 e))
              | inr e ↦ absurd (ground (arith, w, e))
            ])
            refl refl refl)
  ]
]

module _ (sort_slice : (RelayInfo → RelayInfo → Bool) → List RelayInfo → List RelayInfo)
    (laws : SortLaws sort_slice) where
  select_transport-weigh :
      (cfg : TransportConfig) (p2p : ℤ) (relays : List RelayInfo)
      → cfg.mode ≡ mode_dynamic
      → select_transport sort_slice cfg p2p relays
        ≡ weigh cfg.threshold p2p (best_relay sort_slice relays)
  unfolding select_transport select_dynamic
  select_transport-weigh cfg p2p relays m =
      let pinned : nat_beq cfg.mode mode_pinned ≡ false = ground (arith, m) in
      let relay : nat_beq cfg.mode mode_relay ≡ false = ground (arith, m) in
      let peer : nat_beq cfg.mode mode_peer ≡ false = ground (arith, m) in
      let dynamic : nat_beq cfg.mode mode_dynamic ≡ true = ground (arith, m) in
      rw (pinned, relay, peer, dynamic) refl

  -- In dynamic mode, with any sort that meets the contract of sort.Slice: without relays the
  -- transport is direct; otherwise it is through a best relay when the peer's latency is 0 (not
  -- measured) or above the relay's by more than the threshold, in 64-bit arithmetic, and direct
  -- when it is neither.
  pub select_transport-IsWeighed :
      (cfg : TransportConfig) (p2p : ℤ) (relays : List RelayInfo)
      → cfg.mode ≡ mode_dynamic
      → IsWeighed cfg.threshold p2p relays (select_transport sort_slice cfg p2p relays)
  select_transport-IsWeighed cfg p2p relays m =
      subst (IsWeighed cfg.threshold p2p relays) (sym (select_transport-weigh cfg p2p relays m)) (
        let (empty, best) = best_relay-IsBest sort_slice laws relays in
        elim (Option-cases (best_relay sort_slice relays)) [
          | inl q ↦ rw q (weigh-none cfg.threshold p2p relays (empty.0 q))
          | inr (r, q) ↦ rw q (weigh-some cfg.threshold p2p relays r (best r q))
        ])
