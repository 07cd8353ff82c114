-- ===== src/Swarm/Examples/Runs.antt =====
-- The names that runs of the registrar compute with.
use gole.Base.{ℕ, bytes_beq}
use gole.Base.Dict.{lookup, insert, delete, first_match}
use gole.Swarm.Types.Address.{role_of, addr_key}
use gole.Swarm.Paseto.{le64, pieces_loop, pae, signed_text, sign_token}
use gole.Base.Words.{le_bytes}
use gole.Swarm.Paseto.Toy.{toy_sign, toy_marshal}
use gole.Swarm.Registrar.State.{
  new_registrar, groups, members, get_endpoint, put_endpoint, store_endpoint, set_state,
  is_id_taken, count_endpoints, is_live_match, live_match, scan_group, scan_domain, scan_all,
  find_by_fingerprint, status_for,
}
use gole.Swarm.Registrar.Ids.{
  hints, hint_of, candidate_at, probe, hint_after, set_hint, allocate_id,
}
use gole.Swarm.Registrar.Enrollment.{
  is_known_role, check_request, existing_enroll, new_enroll, add_enroll, put_pending, forget_enroll,
  fresh_enroll, known_or_fresh, enroll, claims_for, issue, issue_at, register_approved, settle,
  decide_enroll, confirm_found, confirm_enrollment,
}
use gole.Swarm.Registrar.Activation.{revoke_endpoint}
use gole.Swarm.Registrar.Trace.{step, run}

-- The names that a run of the enrollment computes with.
unfoldable pub enrollment_runs : ℕ
unfolding enroll known_or_fresh check_request is_known_role existing_enroll fresh_enroll add_enroll
    new_enroll confirm_enrollment confirm_found decide_enroll register_approved find_by_fingerprint
    scan_all scan_domain scan_group live_match is_live_match first_match count_endpoints members
    groups allocate_id probe candidate_at hint_of hints hint_after set_hint is_id_taken issue_at
    issue claims_for sign_token signed_text pae pieces_loop le64 le_bytes store_endpoint
    put_endpoint settle status_for put_pending forget_enroll lookup insert delete bytes_beq role_of
    toy_sign toy_marshal new_registrar
enrollment_runs = 0

-- The registrar's lookups and the calls that a run of the examples makes.
unfoldable pub registrar_runs : ℕ
unfolding enrollment_runs run step revoke_endpoint get_endpoint set_state addr_key
registrar_runs = 0
