-- ===== src/Swarm/Examples/Access.antt =====
-- Tokens, flows and reachability at concrete inputs.
use gole.Base.{
  ℕ, ◌≡◌, refl, ◌≢◌, ◌↔◌, Bool, true, false, Option, none, some, List, [], ◌∷◌, arith, Bytes, codes,
  bytes_beq, if◌then◌else◌, length, ◌%◌, nat_eq, bytes_eq,
}
use gole.Base.Dict.{lookup, insert, delete}
use gole.Base.Int.{pos, ltℤ}
use gole.Base.Result.{ok, err}
use gole.Swarm.Types.Address.{EndpointAddr, addr_key}
use gole.Swarm.Types.Wire.{SwarmMessage, DirectRoute, ReachabilityInfo}
use gole.Swarm.Paseto.{TokenClaims, expired, verify_token, claims_match}
use gole.Swarm.Paseto.Tokens.{verify_token-sign_token, verify_token_sound, IsAuthentic}
use gole.Swarm.Paseto.Encoding.{pae-injective}
use gole.Swarm.Paseto.Toy.{toy, toy-CryptoLaws}
use gole.Swarm.Registrar.State.{
  Registrar, new_registrar, groups, members, get_endpoint, put_endpoint, set_state,
}
use gole.Swarm.Registrar.Activation.{revoke_endpoint}
use gole.Swarm.Controller.{Controller, validate_flow}
use gole.Swarm.Controller.Flows.{Permitted, validate_flow-ok_iff}
use gole.Swarm.Controller.Revoked.{validate_flow_revoked_sender, validate_flow_revoked_destination}
use gole.Swarm.Examples.Setup.{
  claims, token, token_runs, secret, agent_addr, client_addr, active_pair,
}

verify_token-sign_token_example :
    verify_token toy token secret (pos 50)
    ≡ (if ltℤ (pos 110) (pos 50) then err expired else ok claims)
unfolding token_runs
verify_token-sign_token_example =
    verify_token-sign_token toy toy-CryptoLaws claims secret token (pos 50) (omega arith)
      (omega arith) refl

verify_token_sound_example : IsAuthentic toy token secret (pos 50) claims
unfolding token_runs
verify_token_sound_example = verify_token_sound toy token secret (pos 50) claims refl

pae-injective_example : ◌≡◌ {A = List Bytes} ((1 ∷ []) ∷ []) ((1 ∷ []) ∷ [])
pae-injective_example =
    pae-injective ((1 ∷ []) ∷ []) ((1 ∷ []) ∷ []) (omega arith) (omega arith) (omega arith)
      (omega arith) refl

abbrev controller : Controller
controller = record { registrar_key = secret; policies = [] }

validate_flow-ok_iff_example :
    (validate_flow toy controller active_pair client_addr agent_addr token (pos 50) ≡ ok tt) ↔ (
      (t : TokenClaims) × (verify_token toy token secret (pos 50) ≡ ok t)
      × (claims_match t client_addr ≡ true)
      × Permitted controller active_pair client_addr agent_addr)
validate_flow-ok_iff_example =
    validate_flow-ok_iff toy controller active_pair client_addr agent_addr token (pos 50)

abbrev message : SwarmMessage
message = record {
  from = client_addr;
  to = agent_addr;
  token = token;
  payload = 1 ∷ [];
  signature = [];
}

lookups_run : ℕ
unfolding get_endpoint put_endpoint set_state members groups lookup insert delete revoke_endpoint
    addr_key new_registrar
lookups_run = 0

different : ¬ ((◌≡◌ {A = ℕ} 1 1) × (◌≡◌ {A = ℕ} 2 2) × (◌≡◌ {A = ℕ} 2 1))
different = λ h. absurd (omega arith)

validate_flow_revoked_sender_example :
    validate_flow toy controller
      (revoke_endpoint client_addr active_pair).0
      client_addr
      agent_addr
      token
      (pos 50)
    ≡ validate_flow toy controller active_pair client_addr agent_addr token (pos 50)
unfolding lookups_run
validate_flow_revoked_sender_example =
    validate_flow_revoked_sender toy controller active_pair client_addr agent_addr token (pos 50)
      refl different

validate_flow_revoked_destination_example :
    validate_flow toy controller
      (revoke_endpoint agent_addr active_pair).0
      client_addr
      agent_addr
      token
      (pos 50)
    ≢ ok tt
unfolding lookups_run
validate_flow_revoked_destination_example =
    validate_flow_revoked_destination toy controller active_pair client_addr agent_addr token
      (pos 50) refl

abbrev route : DirectRoute
route = record { observed_addr = codes "203.0.113.5:48291"; proto = codes "udp" }

abbrev seen : EndpointAddr → ReachabilityInfo
seen addr = record { addr = addr; direct = some route; relay = none; updated_at = pos 0 }

abbrev observed : Registrar
observed = record active_pair {
  reachability =
      insert (addr_key client_addr) (seen client_addr)
        (insert (addr_key agent_addr) (seen agent_addr) []);
}
