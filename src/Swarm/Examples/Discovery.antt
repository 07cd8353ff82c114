-- ===== src/Swarm/Examples/Discovery.antt =====
-- The transport selection's theorems at concrete inputs.
use gole.Base.{ℕ, refl, none, List, [], ◌∷◌, bytes_eq, nat_eq}
use gole.Base.Int.{pos}
use gole.Swarm.Types.Transport.{TransportConfig, RelayInfo, mode_dynamic}
use gole.Swarm.Discovery.Sorting.{insertion_sort, insertion_sort-SortLaws}
use gole.Swarm.Discovery.Select.{select_transport}
use gole.Swarm.Discovery.Weighing.{IsWeighed, select_transport-IsWeighed}

abbrev relay_at : ℕ → ℕ → RelayInfo
relay_at id latency = record {
  addr = record { domain = 0; group = 0; endpoint = id; role_flags = 3 };
  latency = pos latency;
}

-- One relay is not probed yet.
abbrev relays : List RelayInfo
relays = relay_at 1 0 ∷ relay_at 2 80 ∷ relay_at 3 20 ∷ []

abbrev dynamic : TransportConfig
dynamic = record {
  mode = mode_dynamic;
  pinned_relay = none;
  probe_interval = pos 0;
  threshold = pos 50;
}

select_transport-IsWeighed_example :
    IsWeighed (pos 50) (pos 90) relays (select_transport insertion_sort dynamic (pos 90) relays)
select_transport-IsWeighed_example =
    select_transport-IsWeighed insertion_sort insertion_sort-SortLaws dynamic (pos 90) relays refl
