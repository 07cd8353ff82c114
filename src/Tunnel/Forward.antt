-- ===== src/Tunnel/Forward.antt =====
-- client.go and server.go: the keep-alive settings of the tunnels, the loops that accept
-- connections and streams, and the forwarding of datagrams. What the sockets and smux return is a
-- list of events.
use gole.Base.{
  ℕ, suc, ◌/◌, Bool, true, false, not, Option, none, some, List, [], ◌∷◌, ◌++◌, Bytes, take,
  if◌then◌else◌,
}
use gole.Base.Int.{ℤ, pos, negsuc, sub_ℕ}
use gole.Tunnel.Common.{bound, UdpAddr, udp_addr_equal}
pub mod KeepAlive
pub mod Deliveries
pub mod Datagrams

-- g_timeout/3
unfoldable pub third : ℤ → ℤ
third (pos n) = pos (n / 3)
third (negsuc n) = sub_ℕ 0 (suc n / 3)

-- The seconds of smux's KeepAliveInterval
unfoldable pub keep_alive_interval : ℤ → ℤ
keep_alive_interval g_timeout = bound (third g_timeout) (pos 1) (pos 10)

-- What a round of a client's loop finds: no further connection, a connection for which the tunnel
-- opens no stream, or a connection and its stream.
pub data ClientEvent : Type 0 where
  accept_failed : ClientEvent
  open_failed : ℕ → ClientEvent
  opened : ℕ → ℕ → ClientEvent

-- What becomes of connections and streams
pub data Action : Type 0 where
  conn_to_stream : ℕ → ℕ → Action
  stream_to_conn : ℕ → ℕ → Action
  stream_to_socks5 : ℕ → Action
  close_conn : ℕ → Action
  close_stream : ℕ → Action
  close_tunnel : Action

-- The loop of StartClientTCP and StartClientKCP, and the end of the tunnel after it
unfoldable pub client_loop : List ClientEvent → List Action
client_loop [] = []
client_loop (accept_failed ∷ es) = close_tunnel ∷ []
client_loop (open_failed conn ∷ es) = close_conn conn ∷ close_tunnel ∷ []
client_loop (opened conn stream ∷ es) = conn_to_stream conn stream ∷ client_loop es

-- What a round of a server's loop finds: no further stream, or a stream with what dialing the
-- forward address gives.
pub data ServerEvent : Type 0 where
  no_stream : ServerEvent
  accepted : ℕ → Option ℕ → ServerEvent

unfoldable pub serve_stream : Bool → ℕ → Option ℕ → Action
serve_stream forwards stream none =
    if forwards then close_stream stream else stream_to_socks5 stream
serve_stream forwards stream (some conn) =
    if forwards then stream_to_conn stream conn else stream_to_socks5 stream

-- The loop of StartServerTCP and StartServerKCP, by whether there is a forward address
unfoldable pub server_loop : Bool → List ServerEvent → List Action
server_loop forwards [] = []
server_loop forwards (no_stream ∷ es) = close_tunnel ∷ []
server_loop forwards (accepted stream conn ∷ es) =
    serve_stream forwards stream conn ∷ server_loop forwards es

-- StartClientUDP: the datagrams that the tunnel's socket has received, the one that its goroutine
-- holds while it waits for a client, the client's address, whether `sent` is closed, and what was
-- sent to clients and into the tunnel.
pub record Relay : Type 0 where
  pub inbound : List Bytes
  pub held : Option Bytes
  pub client_addr : Option UdpAddr
  pub sent_closed : Bool
  pub to_clients : List (UdpAddr × Bytes)
  pub to_tunnel : List Bytes

abbrev pub new_relay : Relay
new_relay = record {
  inbound = [];
  held = none;
  client_addr = none;
  sent_closed = false;
  to_clients = [];
  to_tunnel = [];
}

-- A datagram arrives from the tunnel, is read, and is passed on; a client's is passed on; the
-- sockets are closed, since a read or the sending of an answer has failed, which ends both loops;
-- or a client's datagram is read and cannot be passed on, which ends them too.
pub data RelayEvent : Type 0 where
  arrive : Bytes → RelayEvent
  read : RelayEvent
  deliver : RelayEvent
  from_client : UdpAddr → Bytes → RelayEvent
  failed : RelayEvent
  send_failed : UdpAddr → Bytes → RelayEvent

-- A datagram in a buffer of 4096 bytes
abbrev pub in_buffer : Bytes → Bytes
in_buffer b = take 4096 b

-- conn.ReadFrom, where the goroutine is at it
unfoldable pub read_inbound : Option Bytes → List Bytes → Relay → Relay
read_inbound none [] r = r
read_inbound none (b ∷ bs) r = record r { inbound = bs; held = some (in_buffer b) }
read_inbound (some h) bs r = r

-- fwd_conn.WriteToUDP, once a client has sent something
unfoldable pub deliver_held : Option Bytes → Option UdpAddr → Bool → Relay → Relay
deliver_held (some b) (some addr) true r = record r {
  held = none;
  to_clients = r.to_clients ++ ((addr, b) ∷ []);
}
deliver_held held addr closed r = r

-- The address that answers go to after a client's datagram
unfoldable pub next_client : Option UdpAddr → UdpAddr → UdpAddr
next_client none c_addr = c_addr
next_client (some old) c_addr = if not (udp_addr_equal c_addr old) then c_addr else old

unfoldable pub note_client : UdpAddr → Relay → Relay
note_client c_addr r = record r {
  client_addr = some (next_client r.client_addr c_addr);
  sent_closed = true;
}

unfoldable pub on_client : UdpAddr → Bytes → Relay → Relay
on_client c_addr b r = record (note_client c_addr r) {
  to_tunnel = r.to_tunnel ++ (in_buffer b ∷ []);
}

unfoldable pub relay_step : RelayEvent → Relay → Relay
relay_step (arrive b) r = record r { inbound = r.inbound ++ (b ∷ []) }
relay_step read r = read_inbound r.held r.inbound r
relay_step deliver r = deliver_held r.held r.client_addr r.sent_closed r
relay_step (from_client c_addr b) r = on_client c_addr b r
relay_step failed r = r
relay_step (send_failed c_addr b) r = note_client c_addr r

unfoldable pub relay_run : List RelayEvent → Relay → Relay
relay_run [] r = r
relay_run (arrive b ∷ es) r = relay_run es (relay_step (arrive b) r)
relay_run (read ∷ es) r = relay_run es (relay_step read r)
relay_run (deliver ∷ es) r = relay_run es (relay_step deliver r)
relay_run (from_client c_addr b ∷ es) r = relay_run es (relay_step (from_client c_addr b) r)
relay_run (failed ∷ es) r = relay_step failed r
relay_run (send_failed c_addr b ∷ es) r = relay_step (send_failed c_addr b) r
