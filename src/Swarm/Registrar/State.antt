-- ===== src/Swarm/Registrar/State.antt =====
-- swarm/registrar.go: the registrar's state and its internal helpers.
-- The nested maps are nested dictionaries; a missing inner map reads as an empty one, as in Go.
-- A write through a `*RegisteredEndpoint` or a `*pendingEnroll` is a write at the key under which
-- the map holds it; the registrar hands no such pointer out.
use gole.Base.{
  ℕ, Bool, true, false, not, ◌&&◌, Option, none, some, List, [], ◌∷◌, Bytes, length, ◌==◌, nat_eq,
  bytes_eq, if◌then◌else◌,
}
use gole.Base.Dict.{first_match, Dict, lookup, insert}
use gole.Base.Int.{ℤ}
use gole.Swarm.Types.Address.{EndpointAddr, state_registered, state_active, state_revoked}
use gole.Swarm.Types.Enroll.{EnrollStatus, RegisteredEndpoint}
use gole.Swarm.Types.Transport.{RelayInfo}
use gole.Swarm.Types.Wire.{ReachabilityInfo}
use gole.Base.Int.{pos}

abbrev pub max_endpoints_per_group : ℕ
max_endpoints_per_group = 65534

abbrev pub relay_domain : ℕ
relay_domain = 0

abbrev pub relay_group : ℕ
relay_group = 0

-- pendingEnroll
pub record PendingEnroll : Type 0 where
  pub request_id : Bytes
  pub public_key : Bytes
  pub fingerprint : Bytes
  pub role_flags : ℕ
  pub challenge : Bytes
  pub created_at : ℤ
  pub state : ℕ
  pub address : EndpointAddr
  pub token : Bytes

-- addrMapping
pub record AddrMapping : Type 0 where
  pub domain : ℕ
  pub group : ℕ

abbrev pub Group : Type 0
Group = Dict ℕ RegisteredEndpoint

abbrev pub Endpoints : Type 0
Endpoints = Dict ℕ (Dict ℕ Group)

-- Registrar; the mutex makes each method one step.
pub record Registrar : Type 0 where
  pub public_key : Bytes
  pub private_key : Bytes
  pub endpoints : Endpoints
  pub pending : Dict Bytes PendingEnroll
  pub by_fingerprint : Dict Bytes Bytes
  pub pre_approved : Dict Bytes AddrMapping
  pub next_id : Dict ℕ (Dict ℕ ℕ)
  pub reachability : Dict Bytes ReachabilityInfo
  pub token_ttl : ℤ

-- NewRegistrar, with the key pair that was generated
unfoldable pub new_registrar : Bytes → Bytes → ℤ → Registrar
new_registrar pub_key priv_key ttl = record {
  public_key = pub_key;
  private_key = priv_key;
  endpoints = [];
  pending = [];
  by_fingerprint = [];
  pre_approved = [];
  next_id = [];
  reachability = [];
  token_ttl = ttl;
}

-- m[k] where a missing entry reads as the zero value
abbrev pub get_or : {V : Type 0} → Option V → V → V
get_or none v = v
get_or (some w) v = w

unfoldable pub groups : Endpoints → ℕ → Dict ℕ Group
groups eps d = get_or (lookup d eps) []

-- r.endpoints[d][g]
unfoldable pub members : Endpoints → ℕ → ℕ → Group
members eps d g = get_or (lookup g (groups eps d)) []

-- getEndpoint
unfoldable pub get_endpoint : Registrar → EndpointAddr → Option RegisteredEndpoint
get_endpoint r addr = lookup addr.endpoint (members r.endpoints addr.domain addr.group)

-- r.endpoints[d][g][e] = ep
unfoldable pub put_endpoint : Endpoints → ℕ → ℕ → ℕ → RegisteredEndpoint → Endpoints
put_endpoint eps d g e ep = insert d (insert g (insert e ep (members eps d g)) (groups eps d)) eps

-- storeEndpoint
unfoldable pub store_endpoint : EndpointAddr → Bytes → Bytes → Bytes → Registrar → Registrar
store_endpoint addr pk token fp r = record r {
  endpoints = put_endpoint r.endpoints addr.domain addr.group addr.endpoint record {
    addr = addr;
    public_key = pk;
    state = state_registered;
    token = token;
    fingerprint = fp;
  };
}

-- ep.State = s, through the pointer that getEndpoint(addr) returned
unfoldable pub set_state : EndpointAddr → RegisteredEndpoint → ℕ → Registrar → Registrar
set_state addr ep s r = record r {
  endpoints =
      put_endpoint r.endpoints addr.domain addr.group addr.endpoint (record ep { state = s });
}

-- isIDTaken
unfoldable pub is_id_taken : Registrar → ℕ → ℕ → ℕ → Bool
is_id_taken r d g id = elim (lookup id (members r.endpoints d g)) [ none ↦ false | some ep ↦ true ]

-- countEndpoints
unfoldable pub count_endpoints : Registrar → ℕ → ℕ → ℕ
count_endpoints r d g = length (members r.endpoints d g)

-- The test of findByFingerprint.
unfoldable pub is_live_match : Bytes → RegisteredEndpoint → Bool
is_live_match fp ep = (ep.fingerprint == fp) && not (ep.state == state_revoked)

-- The three nested loops of findByFingerprint.
unfoldable pub live_match : Bytes → RegisteredEndpoint → Option RegisteredEndpoint
live_match fp ep = if is_live_match fp ep then some ep else none

unfoldable pub scan_group : Bytes → Group → Option RegisteredEndpoint
scan_group fp = first_match (live_match fp)

unfoldable pub scan_domain : Bytes → Dict ℕ Group → Option RegisteredEndpoint
scan_domain fp = first_match (scan_group fp)

unfoldable pub scan_all : Bytes → Endpoints → Option RegisteredEndpoint
scan_all fp = first_match (scan_domain fp)

-- findByFingerprint; the address it returns beside the endpoint is the endpoint's own
unfoldable pub find_by_fingerprint : Registrar → Bytes → Option RegisteredEndpoint
find_by_fingerprint r fp = if fp == [] then none else scan_all fp r.endpoints

active_relays : Group → List RelayInfo
active_relays [] = []
active_relays ((id, ep) ∷ m) =
    let rest = active_relays m in
    if ep.state == state_active then record { addr = ep.addr; latency = pos 0 } ∷ rest else rest

-- listRelaysLocked, and ListRelays, whose argument is not used
unfoldable pub list_relays : Registrar → List RelayInfo
unfolding active_relays
list_relays r = active_relays (members r.endpoints relay_domain relay_group)

-- statusFor
unfoldable pub status_for : PendingEnroll → EnrollStatus
status_for pe = record {
  state = pe.state;
  result =
      if pe.state == state_registered
      then some record { address = pe.address; token = pe.token }
      else none;
}
