-- ===== src/Swarm/Examples/Registrar.antt =====
-- The registrar's theorems at concrete inputs.
use gole.Base.{ℕ, ◌≡◌, refl, ◌≢◌, ◌↔◌, true, false, none, some, [], ◌∷◌, arith, Bytes, codes}
use gole.Base.Dict.{lookup}
use gole.Base.Int.{pos}
use gole.Base.Result.{Result, ok, err}
use gole.Swarm.Types.Address.{state_registered}
use gole.Swarm.Types.Enroll.{EnrollStatus, EnrollResult, RegisteredEndpoint}
use gole.Swarm.Paseto.{TokenClaims, verify_token, claims_match}
use gole.Swarm.Paseto.Toy.{toy, toy-CryptoLaws}
use gole.Swarm.Registrar.State.{
  Registrar, PendingEnroll, new_registrar, get_endpoint, is_id_taken, get_or,
}
use gole.Swarm.Registrar.Ids.{hints, hint_of, set_hint, allocate_id}
use gole.Swarm.Registrar.Ids.Probing.{AllTaken}
use gole.Swarm.Registrar.Ids.Allocation.{
  start_hint, IsAllocated, allocate_id-IsAllocated, allocate_id-none_iff,
}
use gole.Swarm.Registrar.Enrollment.{
  RegistrarError, new_enroll, enroll, confirm_enrollment, challenge_failed,
}
use gole.Swarm.Registrar.Activation.{activate_endpoint, revoke_endpoint, is_active}
use gole.Swarm.Registrar.Trace.{clears, run}
use gole.Swarm.Registrar.Store.{find_endpoint}
use gole.Swarm.Registrar.Growth.{Kept}
use gole.Swarm.Registrar.Soundness.{IsSound}
use gole.Swarm.Registrar.Life.{run-new_registrar-IsSound, run-Kept, revoked_for_good}
use gole.Swarm.Registrar.Binding.{IsBound, SentTo, confirm-IsBound}
use gole.Swarm.Registrar.Confirmation.{IsForgotten, confirm_bad_signature}
use gole.Swarm.Registrar.Activating.{activate-ok_iff}
use gole.Swarm.Registrar.Idempotence.{enroll_again}
use gole.Swarm.Examples.Runs.{enrollment_runs, registrar_runs}
use gole.Swarm.Examples.Setup.{
  secret, key, fresh, relay_request, agent_request, confirmation, bad_confirmation, relay_calls,
  relay_addr, agent_addr, active_pair, stored, value_or,
}

abbrev enrolled : Registrar
enrolled = (enroll toy relay_request (some (1 ∷ [])) (some (9 ∷ [])) (pos 10) fresh).0

abbrev enrolled_agent : Registrar
enrolled_agent = (enroll toy agent_request (some (1 ∷ [])) (some (9 ∷ [])) (pos 10) fresh).0

abbrev relay_enroll : PendingEnroll
relay_enroll = new_enroll relay_request (1 ∷ []) (9 ∷ []) (pos 10)

abbrev agent_enroll : PendingEnroll
agent_enroll = new_enroll agent_request (1 ∷ []) (9 ∷ []) (pos 10)

abbrev confirmed : Result RegistrarError EnrollStatus
confirmed = (confirm_enrollment toy confirmation (pos 11) enrolled).1

abbrev status : EnrollStatus
status = value_or confirmed (record { state = 0; result = none })

abbrev handed_out : EnrollResult
handed_out = get_or status.result (record { address = relay_addr; token = [] })

confirm-IsBound_example :
    (toy.verify key (1 ∷ []) confirmation.signature ≡ true)
    × ((d g : ℕ) × SentTo relay_enroll enrolled d g
        × IsBound toy relay_enroll d g (pos 11) (pos 50) enrolled handed_out)
unfolding enrollment_runs
confirm-IsBound_example =
    confirm-IsBound toy toy-CryptoLaws confirmation relay_enroll (pos 11) (pos 50) enrolled status
      handed_out refl tt refl refl refl refl refl

run-new_registrar-IsSound_example : IsSound (run toy relay_calls fresh)
run-new_registrar-IsSound_example =
    run-new_registrar-IsSound toy secret secret (pos 100) relay_calls

abbrev with_relay : Registrar
with_relay = run toy relay_calls fresh

relay_found : find_endpoint with_relay.endpoints 0 0 1 ≡ get_endpoint with_relay relay_addr
unfolding get_endpoint
relay_found = refl

abbrev no_endpoint : RegisteredEndpoint
no_endpoint = stored relay_addr 0

abbrev the_relay : RegisteredEndpoint
the_relay = get_or (get_endpoint with_relay relay_addr) no_endpoint

run-Kept_example :
    (ep : RegisteredEndpoint) × (find_endpoint
        (run toy (clears relay_addr ∷ []) with_relay).endpoints
        0
        0
        1
      ≡ some ep)
    × Kept the_relay ep
unfolding registrar_runs
run-Kept_example =
    run-Kept toy (clears relay_addr ∷ []) with_relay 0 0 1 the_relay
      (run-new_registrar-IsSound toy secret secret (pos 100) relay_calls) refl

revoked_for_good_example :
    ((activate_endpoint toy relay_addr []
        (pos 20)
        (run toy relay_calls (revoke_endpoint relay_addr with_relay).0)).1
      ≢ ok tt)
    × (is_active relay_addr (run toy relay_calls (revoke_endpoint relay_addr with_relay).0) ≡ false)
unfolding registrar_runs
revoked_for_good_example =
    revoked_for_good toy relay_addr with_relay relay_calls [] (pos 20)
      (run-new_registrar-IsSound toy secret secret (pos 100) relay_calls) refl

allocate_id-IsAllocated_example : IsAllocated active_pair 1 2 (set_hint active_pair 1 2 4) 3
unfolding registrar_runs
allocate_id-IsAllocated_example =
    allocate_id-IsAllocated active_pair 1 2 (set_hint active_pair 1 2 4) 3 refl

allocate_id-none_iff_example :
    ((allocate_id active_pair 1 2).1 ≡ none)
    ↔ AllTaken (is_id_taken active_pair 1 2) (start_hint active_pair 1 2)
unfolding hint_of hints lookup new_registrar
allocate_id-none_iff_example = allocate_id-none_iff active_pair 1 2 (omega arith)

confirm_bad_signature_example :
    ((confirm_enrollment toy bad_confirmation (pos 11) enrolled).1 ≡ err challenge_failed)
    × IsForgotten toy
        (9 ∷ [])
        relay_enroll
        enrolled
        (confirm_enrollment toy bad_confirmation (pos 11) enrolled).0
unfolding enrollment_runs
confirm_bad_signature_example =
    confirm_bad_signature toy bad_confirmation relay_enroll (pos 11) enrolled refl refl refl

two-ne-three : ◌≢◌ {A = ℕ} 2 3
two-ne-three = omega arith

activate-ok_iff_example : ((activate_endpoint toy agent_addr [] (pos 20) active_pair).1 ≡ ok tt) ↔ (
    (t : TokenClaims) × (ep : RegisteredEndpoint) × (verify_token toy [] secret (pos 20) ≡ ok t)
    × (claims_match t agent_addr ≡ true)
    × (get_endpoint active_pair agent_addr ≡ some ep)
    × (ep.state ≡ state_registered))
unfolding new_registrar
activate-ok_iff_example = activate-ok_iff toy agent_addr [] (pos 20) active_pair

fp-ne-empty : ◌≢◌ {A = Bytes} (codes "fp") []
fp-ne-empty = ground arith

enroll_again_example :
    enroll toy agent_request none none (pos 30) enrolled_agent
    ≡ (enrolled_agent, ok record { request_id = 9 ∷ []; challenge = 1 ∷ [] })
unfolding enrollment_runs
enroll_again_example =
    enroll_again toy agent_request agent_request (some (1 ∷ [])) (some (9 ∷ [])) none none (pos 10)
      (pos 30) fresh enrolled_agent (record { request_id = 9 ∷ []; challenge = 1 ∷ [] }) fp-ne-empty
      refl refl refl
