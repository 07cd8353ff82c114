-- ===== src/Swarm/Examples/Endpoint.antt =====
-- The endpoint's theorems at concrete inputs.
use gole.Base.{◌≡◌, refl, ◌≢◌, none, some, [], ◌∷◌, arith, codes, nat_eq, bytes_eq}
use gole.Base.Int.{pos}
use gole.Base.Result.{ok}
use gole.Swarm.Types.Address.{state_active, state_registered}
use gole.Swarm.Types.Wire.{SwarmMessage}
use gole.Swarm.Paseto.Toy.{toy, toy-CryptoLaws}
use gole.Swarm.Registrar.State.{Registrar, PendingEnroll}
use gole.Swarm.Registrar.Enrollment.{poll_text}
use gole.Swarm.Controller.{Controller, validate_flow, verify_message}
use gole.Swarm.Endpoint.State.{
  Endpoint, new_endpoint, enrolled, confirmed, apply_status, apply_registered,
}
use gole.Swarm.Endpoint.Lifecycle.{
  endpoint_enroll, endpoint_confirm, endpoint_poll, after_confirm, after_enroll, auto_enroll,
  activate, prepare_message,
}
use gole.Swarm.Endpoint.Messages.{prepared, verify_message-prepare_message}
use gole.Swarm.Endpoint.Outcomes.{IsEnrolled, auto_enroll-IsEnrolled}
use gole.Swarm.Endpoint.Polling.{endpoint_poll_demotes}
use gole.Swarm.Examples.Runs.{registrar_runs}
use gole.Swarm.Examples.Setup.{
  secret, key, fresh, agent_addr, client_addr, active_pair, stored, claims, token, token_runs,
}

abbrev newcomer : Endpoint
newcomer = new_endpoint key key

auto_enroll-IsEnrolled_example :
    IsEnrolled (auto_enroll toy none 3 (some (1 ∷ [])) (some (9 ∷ [])) (pos 10) [] newcomer fresh).0
unfolding registrar_runs auto_enroll after_enroll after_confirm endpoint_enroll endpoint_confirm
    enrolled confirmed apply_status apply_registered new_endpoint
auto_enroll-IsEnrolled_example =
    auto_enroll-IsEnrolled toy none 3 (some (1 ∷ [])) (some (9 ∷ [])) (pos 10) [] newcomer fresh
      refl

abbrev active_client : Endpoint
active_client = record (new_endpoint key key) {
  addr = some client_addr;
  token = token;
  state = state_active;
}

abbrev controller : Controller
controller = record { registrar_key = secret; policies = [] }

abbrev sent : SwarmMessage
sent = prepared toy client_addr agent_addr (1 ∷ []) active_client

verify_message-prepare_message_example :
    verify_message toy controller active_pair sent (pos 50)
    ≡ validate_flow toy controller active_pair client_addr agent_addr token (pos 50)
unfolding token_runs prepare_message new_endpoint
verify_message-prepare_message_example =
    verify_message-prepare_message toy toy-CryptoLaws controller active_pair agent_addr (1 ∷ [])
      active_client sent claims (pos 50) refl refl refl refl

abbrev done : PendingEnroll
done = record {
  request_id = 9 ∷ [];
  fingerprint = codes "fp";
  role_flags = 2;
  public_key = key;
  challenge = 1 ∷ [];
  created_at = pos 0;
  state = state_registered;
  address = agent_addr;
  token = [];
}

abbrev with_done : Registrar
with_done = record active_pair { pending = (9 ∷ [], done) ∷ [] }

abbrev active_agent : Endpoint
active_agent = record (new_endpoint key key) {
  addr = some agent_addr;
  state = state_active;
  request_id = 9 ∷ [];
}

endpoint_poll_demotes_example :
    ((endpoint_poll toy active_agent with_done).0.state ≡ state_registered)
    × ((activate toy (pos 50) (endpoint_poll toy active_agent with_done).0 with_done).1.1 ≢ ok tt)
unfolding registrar_runs new_endpoint poll_text
endpoint_poll_demotes_example =
    endpoint_poll_demotes toy active_agent with_done done (stored agent_addr state_active) (pos 50)
      (ground arith) refl refl refl refl refl
