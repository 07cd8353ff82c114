-- ===== src/Swarm/Discovery/Select.antt =====
-- swarm/discovery.go: the choice of a transport, and one evaluation of the monitor. sort.Slice
-- leaves the order of equal elements open: it is a parameter, with its contract in Sorting.
use gole.Base.{
  ◌*◌, Bool, true, false, not, Option, none, some, List, [], ◌∷◌, Bytes, ◌==◌, bytes_eq, nat_eq,
  if◌then◌else◌,
}
use gole.Base.Int.{ℤ, pos, ltℤ, eqℤ, add64}
use gole.Swarm.Types.Address.{EndpointAddr, addr_key}
use gole.Swarm.Types.Transport.{
  TransportConfig, TransportDecision, RelayInfo, mode_pinned, mode_relay, mode_peer, mode_dynamic,
  minute,
}

-- The order of RankRelays: ascending latency, the unprobed last
unfoldable pub rank_less : RelayInfo → RelayInfo → Bool
rank_less a b =
    if eqℤ a.latency (pos 0)
    then false
    else if eqℤ b.latency (pos 0)
    then true
    else ltℤ a.latency b.latency

-- PrioritizeRelay's loop: the target's entry, the last of several, and the other entries
unfoldable pub split_target :
    Bytes → List RelayInfo → Option RelayInfo → Option RelayInfo × List RelayInfo
split_target key [] found = (found, [])
split_target key (r ∷ rs) found =
    let hit = addr_key r.addr == key in
    let (f, others) = split_target key rs (if hit then some r else found) in
    (f, if hit then others else r ∷ others)

-- PrioritizeRelay
unfoldable pub prioritize_relay : List RelayInfo → EndpointAddr → List RelayInfo
prioritize_relay relays target =
    let (found, others) = split_target (addr_key target) relays none in
    elim found [ none ↦ record { addr = target; latency = pos 0 } ∷ others | some r ↦ r ∷ others ]

-- The first relay whose latency is known
unfoldable pub first_probed : List RelayInfo → Option RelayInfo
first_probed [] = none
first_probed (r ∷ rs) = let rest = first_probed rs in if ltℤ (pos 0) r.latency then some r else rest

unfoldable pub head_of : List RelayInfo → Option RelayInfo
head_of [] = none
head_of (r ∷ rs) = some r

-- relayAddr, relayLat
unfoldable pub relay_addr_of : Option RelayInfo → Option EndpointAddr
relay_addr_of none = none
relay_addr_of (some r) = some r.addr

unfoldable pub relay_lat : Option RelayInfo → ℤ
relay_lat none = pos 0
relay_lat (some r) = r.latency

unfoldable pub find_relay : Bytes → List RelayInfo → Option RelayInfo
find_relay key [] = none
find_relay key (r ∷ rs) =
    let rest = find_relay key rs in if addr_key r.addr == key then some r else rest

-- UseRelay false, with the peer's latency alone
unfoldable pub direct : ℤ → TransportDecision
direct p2p = record {
  use_relay = false;
  relay_addr = none;
  p2p_latency = p2p;
  relay_latency = pos 0;
}

-- UseRelay true, with the relay's latency alone
unfoldable pub through : Option EndpointAddr → ℤ → TransportDecision
through addr lat = record {
  use_relay = true;
  relay_addr = addr;
  p2p_latency = pos 0;
  relay_latency = lat;
}

-- selectDynamic once the best relay is known
unfoldable pub weigh : ℤ → ℤ → Option RelayInfo → TransportDecision
weigh threshold p2p none = direct p2p
weigh threshold p2p (some best) =
    if eqℤ p2p (pos 0)
    then through (some best.addr) best.latency
    else if ltℤ (add64 best.latency threshold) p2p
    then record (through (some best.addr) best.latency) { p2p_latency = p2p }
    else record (direct p2p) { relay_latency = best.latency }

-- A probe of a relay; `none` is an error
unfoldable pub probe_each : (EndpointAddr → Option ℤ) → List RelayInfo → List RelayInfo
probe_each prober [] = []
probe_each prober (r ∷ rs) =
    elim (prober r.addr) [
      | none ↦ record { addr = r.addr; latency = pos 0 }
      | some lat ↦ record { addr = r.addr; latency = lat }
    ]
    ∷ probe_each prober rs

pub record TransportMonitor : Type 0 where
  pub cfg : TransportConfig
  pub peer : EndpointAddr
  pub relays : List RelayInfo
  pub current : TransportDecision

-- NewTransportMonitor
unfoldable pub new_transport_monitor :
    TransportConfig → EndpointAddr → List RelayInfo → TransportMonitor
new_transport_monitor cfg peer relays = record {
  cfg = cfg;
  peer = peer;
  relays = relays;
  current = record {
    use_relay = false;
    relay_addr = none;
    p2p_latency = pos 0;
    relay_latency = pos 0;
  };
}

-- The interval of the monitor's loop
unfoldable pub tick_interval : TransportConfig → ℤ
tick_interval cfg = if ltℤ (pos 0) cfg.probe_interval then cfg.probe_interval else pos (5 * minute)

unfoldable pub same_use : Bool → Bool → Bool
same_use true b = b
same_use false b = not b

module _ (sort_slice : (RelayInfo → RelayInfo → Bool) → List RelayInfo → List RelayInfo) where
  -- RankRelays
  unfoldable pub rank_relays : List RelayInfo → List RelayInfo
  rank_relays relays = sort_slice rank_less relays

  -- bestRelay
  unfoldable pub best_relay : List RelayInfo → Option RelayInfo
  best_relay relays = elim (first_probed (rank_relays relays)) [
    | some r ↦ some r
    | none ↦ head_of (rank_relays relays)
  ]

  -- selectBestRelay
  unfoldable pub select_best_relay : List RelayInfo → TransportDecision
  select_best_relay relays =
      through (relay_addr_of (best_relay relays)) (relay_lat (best_relay relays))

  -- selectPinned
  unfoldable pub select_pinned : TransportConfig → List RelayInfo → TransportDecision
  select_pinned cfg relays = elim cfg.pinned_relay [
    | none ↦ select_best_relay relays
    | some pinned ↦ elim (find_relay (addr_key pinned) relays) [
      | some r ↦ through (some r.addr) r.latency
      | none ↦ through (some pinned) (pos 0)
    ]
  ]

  -- selectDynamic
  unfoldable pub select_dynamic : TransportConfig → ℤ → List RelayInfo → TransportDecision
  select_dynamic cfg p2p relays = weigh cfg.threshold p2p (best_relay relays)

  -- SelectTransport
  unfoldable pub select_transport : TransportConfig → ℤ → List RelayInfo → TransportDecision
  select_transport cfg p2p relays =
      if cfg.mode == mode_pinned
      then select_pinned cfg relays
      else if cfg.mode == mode_relay
      then select_best_relay relays
      else if cfg.mode == mode_peer
      then direct p2p
      else if cfg.mode == mode_dynamic
      then select_dynamic cfg p2p relays
      else direct p2p

  -- ProbeRelays
  unfoldable pub probe_relays : (EndpointAddr → Option ℤ) → List RelayInfo → List RelayInfo
  probe_relays prober relays = rank_relays (probe_each prober relays)

  -- evaluate: the monitor, and the decision with which onChange is called. The latency of the peer
  -- is what ProbePeer returns, whether with an error or not.
  unfoldable pub evaluate :
      (EndpointAddr → Option ℤ)
      → (EndpointAddr → ℤ)
      → TransportMonitor
      → TransportMonitor × Option TransportDecision
  evaluate prober probe_peer m =
      let probed = probe_relays prober m.relays in
      let decision = select_transport m.cfg (probe_peer m.peer) probed in
      (
        record m { current = decision; relays = probed },
        if same_use m.current.use_relay decision.use_relay then none else some decision,
      )
