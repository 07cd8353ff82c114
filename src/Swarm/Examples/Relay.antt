-- ===== src/Swarm/Examples/Relay.antt =====
-- The relay's theorems at concrete inputs.
use gole.Base.{
  ℕ, ◌+◌, ◌<◌, ◌≤◌, ◌≡◌, refl, ◌≢◌, ◌↔◌, ◌⊎◌, inr, Option, none, some, List, [], ◌∷◌, ◌++◌, arith,
  Bytes, All, length, nat_eq, bytes_eq,
}
use gole.Base.Dict.{lookup}
use gole.Base.Int.{pos}
use gole.Base.Words.{le_bytes, le_value}
use gole.Base.Result.{ok}
use gole.Swarm.Types.Address.{addr_key}
use gole.Swarm.Types.Wire.{RelayFrameHeader, frame_data, frame_ping, max_relay_payload}
use gole.Swarm.Paseto.Toy.{toy}
use gole.Swarm.Relay.Frames.{
  header_bytes, write_frame, read_frame, read_full, read_payload, header_of, byte_at, plain_header,
  addressed_header,
}
use gole.Swarm.Relay.RoundTrip.{FrameFits, read_frame-write_frame, read_frame_sound}
use gole.Swarm.Relay.Server.{
  RelaySession, RelayServer, new_relay_server, sink_of, session_key, get_session, local_route,
  handle_frame, handle_conn, session_of, check_auth, authenticate, out_of_fuel, destination,
}
use gole.Swarm.Relay.Run.{connects, receives, closes, RelayEvent, relay_run}
use gole.Swarm.Relay.Served.{IsServed, IsAdmitted, new_relay_server-IsServed}
use gole.Swarm.Relay.Delivery.{Receives, stamped_header, forward-IsStamped}
use gole.Swarm.Relay.Loop.{handle_conn-ends}
use gole.Swarm.Examples.Setup.{secret, claims, token, token_runs}

abbrev hello : Bytes
hello = 104 ∷ 105 ∷ []

abbrev header : RelayFrameHeader
header = record {
  kind = frame_data;
  dst_domain = 1;
  dst_group = 2;
  dst_endpoint = 300;
  payload_len = 2;
}

header-FrameFits : FrameFits header hello
header-FrameFits = record { endpoint_fits = omega arith; sized = refl; within = omega arith }

read_frame-write_frame_example :
    ((write_frame header hello (record { written = []; faults = [] })).1 ≡ ok tt)
    × (read_frame
          ((write_frame header hello (record { written = []; faults = [] })).0.written ++ hello)
        ≡ ok (header, (hello, hello)))
read_frame-write_frame_example = read_frame-write_frame header hello hello header-FrameFits

abbrev stream : Bytes
stream = 16 ∷ 1 ∷ 2 ∷ 44 ∷ 1 ∷ 2 ∷ 0 ∷ 0 ∷ 0 ∷ 104 ∷ 105 ∷ 7 ∷ []

frames_run : ℕ
unfolding read_frame read_full read_payload header_of byte_at le_value header_bytes le_bytes
    plain_header addressed_header
frames_run = 0

stream-IsByte : All (λ x. x < 256) stream
stream-IsByte = ground arith

read_frame_sound_example :
    (stream ≡ header_bytes header ++ (hello ++ (7 ∷ [])))
    × (header.payload_len ≡ length hello)
    × (length hello ≤ max_relay_payload)
unfolding frames_run
read_frame_sound_example = read_frame_sound stream header hello (7 ∷ []) stream-IsByte refl

abbrev session : ℕ → RelaySession
session id = record {
  id = id;
  addr = record { domain = 1; group = 2; endpoint = 2; role_flags = 1 };
  claims = claims;
}

-- The endpoint's newer connection has replaced the older one.
abbrev replaced : RelayServer
replaced = record {
  controller_pub_key = secret;
  sessions = (session_key (session 2), session 2) ∷ [];
  sinks = [];
}

abbrev auth_input : Bytes
auth_input = 1 ∷ 0 ∷ 0 ∷ 0 ∷ 0 ∷ length token ∷ 0 ∷ 0 ∷ 0 ∷ (token ++ hello)

abbrev relay_events : List RelayEvent
relay_events =
    connects 1 auth_input (pos 50)
    ∷ receives 1 header hello
    ∷ connects 2 auth_input (pos 51)
    ∷ closes 1
    ∷ []

new_relay_server-IsServed_example : IsServed toy secret (
    relay_run toy local_route relay_events (record { server = new_relay_server secret; live = [] }))
new_relay_server-IsServed_example = new_relay_server-IsServed toy secret relay_events

abbrev one_session : RelayServer
one_session = record {
  controller_pub_key = secret;
  sessions = (addr_key (destination header), session 2) ∷ [];
  sinks = [];
}

forward-IsStamped_example :
    IsAdmitted toy secret (session_of 1 claims)
    × Receives 2 one_session
        (handle_frame local_route (session_of 1 claims) header hello one_session).0
        (stamped_header claims hello)
        hello
unfolding frames_run token_runs authenticate check_auth session_of get_session lookup sink_of
    addr_key destination new_relay_server gole.Base.Decimal.itoa
forward-IsStamped_example =
    forward-IsStamped toy 1 auth_input (pos 50) (new_relay_server secret) one_session
      (session_of 1 claims) (session 2) hello hello header refl refl refl refl (omega arith)
      (omega arith)

abbrev ping : RelayFrameHeader
ping = record {
  kind = frame_ping;
  dst_domain = 0;
  dst_group = 0;
  dst_endpoint = 0;
  payload_len = 2;
}

handle_conn-ends_example :
    (handle_conn toy local_route 1 auth_input (pos 50) (new_relay_server secret)).1 ≢ out_of_fuel
handle_conn-ends_example =
    handle_conn-ends toy local_route 1 auth_input (pos 50) (new_relay_server secret)
