-- ===== src/Swarm/Examples/Setup.antt =====
-- A registrar over the toy crypto, and the calls that the examples make.
use gole.Base.Words.{le_bytes}
use gole.Base.{bytes_beq}
use gole.Base.Strings.{has_prefix}
use gole.Swarm.Paseto.{
  TokenClaims, le64, pieces_loop, pae, signed_text, sign_token, verify_token, claims_match_id,
}
use gole.Swarm.Registrar.State.{get_or}
use gole.Base.{ℕ, some, List, [], ◌∷◌, Bytes, codes}
use gole.Base.Int.{pos}
use gole.Base.Result.{Result, ok, err}
use gole.Swarm.Types.Address.{EndpointAddr, state_active}
use gole.Swarm.Types.Enroll.{EnrollRequest, EnrollConfirm, RegisteredEndpoint}
use gole.Swarm.Paseto.Toy.{toy, toy_marshal, toy_unmarshal, toy_sign}
use gole.Swarm.Registrar.State.{Registrar, new_registrar, put_endpoint, get_or}
use gole.Swarm.Registrar.Trace.{Call, enrolls, confirms}

abbrev pub secret : Bytes
secret = 7 ∷ []

abbrev pub key : Bytes
key =
    5 ∷ 5 ∷ 5 ∷ 5 ∷ 5 ∷ 5 ∷ 5 ∷ 5 ∷ 5 ∷ 5 ∷ 5 ∷ 5 ∷ 5 ∷ 5 ∷ 5 ∷ 5 ∷ 5 ∷ 5 ∷ 5 ∷ 5 ∷ 5 ∷ 5 ∷ 5 ∷ 5
    ∷ 5 ∷ 5 ∷ 5 ∷ 5 ∷ 5 ∷ 5 ∷ 5 ∷ 5 ∷ []

abbrev pub fresh : Registrar
fresh = new_registrar secret secret (pos 100)

abbrev pub relay_request : EnrollRequest
relay_request = record { public_key = key; fingerprint = []; role_flags = 3 }

abbrev pub agent_request : EnrollRequest
agent_request = record { public_key = key; fingerprint = codes "fp"; role_flags = 2 }

abbrev pub confirmation : EnrollConfirm
confirmation = record { request_id = 9 ∷ []; signature = toy_sign key (1 ∷ []) }

abbrev pub bad_confirmation : EnrollConfirm
bad_confirmation = record { request_id = 9 ∷ []; signature = [] }

abbrev pub relay_calls : List Call
relay_calls =
    enrolls relay_request (some (1 ∷ [])) (some (9 ∷ [])) (pos 10)
    ∷ confirms confirmation (pos 11)
    ∷ []

abbrev pub relay_addr : EndpointAddr
relay_addr = record { domain = 0; group = 0; endpoint = 1; role_flags = 3 }

abbrev pub agent_addr : EndpointAddr
agent_addr = record { domain = 1; group = 2; endpoint = 1; role_flags = 2 }

abbrev pub client_addr : EndpointAddr
client_addr = record { domain = 1; group = 2; endpoint = 2; role_flags = 1 }

abbrev pub stored : EndpointAddr → ℕ → RegisteredEndpoint
stored addr state = record {
  addr = addr;
  public_key = key;
  state = state;
  token = [];
  fingerprint = codes "fp";
}

-- A client and an agent of one group, both active.
abbrev pub active_pair : Registrar
active_pair = record fresh {
  endpoints =
      put_endpoint (put_endpoint [] 1 2 1 (stored agent_addr state_active)) 1 2 2
        (stored client_addr state_active);
}

abbrev pub value_or : {E A : Type 0} → Result E A → A → A
value_or (ok a) b = a
value_or (err e) b = b

abbrev pub claims : TokenClaims
claims = record {
  endpoint_id = 2;
  domain = 1;
  group = 2;
  role_flags = 1;
  public_key = key;
  fingerprint = codes "fp";
  issued_at = pos 10;
  expires_at = pos 110;
  issuer = codes "x";
}

abbrev pub token : Bytes
token = get_or (sign_token toy claims secret) []

-- The names that a run of SignToken and VerifyToken computes with.
unfoldable pub token_runs : ℕ
unfolding sign_token signed_text pae pieces_loop le64 le_bytes toy_sign toy_marshal toy_unmarshal
    verify_token has_prefix bytes_beq claims_match_id
token_runs = 0
