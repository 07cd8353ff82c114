-- ===== src/Swarm/Relay/Delivery.antt =====
-- swarm/relay.go: what a connection receives when the relay handles another's frame, or its own
-- ping.
use gole.Base.{
  ℕ, ◌%◌, ◌^◌, ◌≤◌, ◌<◌, ◌≡◌, refl, ◌∙◌, sym, ap, subst, true, false, some, [], ◌++◌, arith, Bytes,
  length, nat_eq, bytes_eq, nat_beq,
}
use mathlib.Core.List.{append_assoc}
use gole.Base.Dict.{insert, lookup-insert_self}
use gole.Base.Int.{ℤ}
use gole.Base.Result.{Result, ok, err}
use gole.Swarm.Types.Address.{EndpointAddr, addr_key}
use gole.Swarm.Types.Wire.{RelayFrameHeader, frame_data, frame_ping, frame_pong, max_relay_payload}
use gole.Swarm.Paseto.{Crypto, TokenClaims}
use gole.Swarm.Relay.Frames.{
  Sink, WriteError, header_bytes, write_frame, read_frame, plain_header, addressed_header,
}
use gole.Swarm.Relay.RoundTrip.{FrameFits, read_frame-bytes, write_frame-bytes}
use gole.Swarm.Relay.Server.{
  RelaySession, RelayServer, sink_of, write_to, get_session, forwarded, local_route, destination,
  after_route, handle_frame, session_of, authenticate,
}
use gole.Swarm.Relay.Served.{IsAdmitted, authenticate-IsAdmitted}

-- The connection gets one frame more, which reads as the header and payload whatever follows.
pub record Receives (id : ℕ) (r r' : RelayServer) (h : RelayFrameHeader) (payload : Bytes)
    : Type 0 where
  pub frame : Bytes
  pub sent : (sink_of id r').written ≡ (sink_of id r).written ++ frame
  pub reads : (tail : Bytes) → read_frame (frame ++ tail) ≡ ok (h, (payload, tail))

Sink-eta : (w : Sink) → w.faults ≡ [] → w ≡ record { written = w.written; faults = [] }
Sink-eta w e = ap (λ z. record w { faults = z }) e

write_frame-healthy :
    (h : RelayFrameHeader) (payload : Bytes) (w : Sink)
    → w.faults ≡ []
    → write_frame h payload w
      ≡ (record { written = w.written ++ (header_bytes h ++ payload); faults = [] }, ok tt)
write_frame-healthy h payload w e =
    ap (write_frame h payload) (Sink-eta w e) ∙ write_frame-bytes h payload w.written

sink_of-insert :
    (id : ℕ) (w : Sink) (r : RelayServer)
    → sink_of id (record r { sinks = insert id w r.sinks }) ≡ w
unfolding sink_of
sink_of-insert id w r = rw (lookup-insert_self id w r.sinks, sink_of) refl

write_to-Receives :
    (id : ℕ) (h : RelayFrameHeader) (payload : Bytes) (r : RelayServer)
    → (sink_of id r).faults ≡ []
    → FrameFits h payload
    → Receives id r (write_to id h payload r).0 h payload × ((write_to id h payload r).1 ≡ ok tt)
unfolding write_to
write_to-Receives id h payload r w f =
    let e = write_frame-healthy h payload (sink_of id r) w in
    (
      record {
        frame = header_bytes h ++ payload;
        sent =
            ap (λ z. z.written) (sink_of-insert id (write_frame h payload (sink_of id r)).0 r)
            ∙ ap (λ z. z.0.written) e;
        reads = λ tail.
            ap read_frame (append_assoc (header_bytes h) payload tail)
            ∙ read_frame-bytes h payload tail f;
      },
      ap (λ z. z.1) e,
    )

-- The header that a receiver sees: the sender's address from its token.
abbrev pub stamped_header : TokenClaims → Bytes → RelayFrameHeader
stamped_header t payload = record {
  kind = frame_data;
  dst_domain = t.domain;
  dst_group = t.group;
  dst_endpoint = t.endpoint_id;
  payload_len = length payload;
}

forwarded_lem :
    (t : RelaySession) (p : RelayServer × Result WriteError (Unit {0}))
    → p.1 ≡ ok tt
    → forwarded t p ≡ (p.0, ok true)
unfolding forwarded
forwarded_lem t (r, ok u) e = refl
forwarded_lem t (r, err x) e = absurd (ground (arith, e))

local_route_lem :
    (src target : RelaySession) (dst : EndpointAddr) (h g : RelayFrameHeader) (payload : Bytes)
    (r : RelayServer)
    → get_session (addr_key dst) r ≡ some target
    → addressed_header frame_data src.addr (length payload) ≡ g
    → (write_to target.id g payload r).1 ≡ ok tt
    → local_route src dst h payload r ≡ ((write_to target.id g payload r).0, ok true)
unfolding local_route
local_route_lem src target dst h g payload r found same sent =
    rw (found, local_route, same) (forwarded_lem target (write_to target.id g payload r) sent)

handle_data_lem :
    (s target : RelaySession) (h g : RelayFrameHeader) (payload : Bytes) (r : RelayServer)
    → h.kind ≡ frame_data
    → local_route s (destination h) h payload r ≡ ((write_to target.id g payload r).0, ok true)
    → (handle_frame local_route s h payload r).0 ≡ (write_to target.id g payload r).0
unfolding handle_frame after_route
handle_data_lem s target h g payload r k e =
    let ping : nat_beq h.kind frame_ping ≡ false = ground (arith, k) in
    let is_data : nat_beq h.kind frame_data ≡ true = ground (arith, k) in rw (ping, is_data, e) refl

stamped :
    (s : RelaySession) (payload : Bytes)
    → s ≡ session_of s.id s.claims
    → length payload ≤ max_relay_payload
    → addressed_header frame_data s.addr (length payload) ≡ stamped_header s.claims payload
unfolding addressed_header session_of
stamped s payload named len =
    let short : length payload % 2 ^ 32 ≡ length payload = omega (arith, len) in
    ap (λ z. addressed_header frame_data z.addr (length payload)) named
    ∙ ap (λ n. record (stamped_header s.claims payload) { payload_len = n }) short

-- A sender cannot choose the address that its receiver sees: when a session that authenticate has
-- let in sends a data frame to a connected endpoint whose connection takes what is written, then
-- some token that verified under the relay's key has granted the session's claims, the endpoint
-- receives one frame more, and that frame carries the payload and the domain, group and ID of those
-- claims. The payload is within the limit and the claimed ID fits 16 bits.
pub forward-IsStamped :
    (c : Crypto) (id : ℕ) (input : Bytes) (now : ℤ) (start r : RelayServer)
    (s target : RelaySession) (rest payload : Bytes) (h : RelayFrameHeader)
    → authenticate c id input now start ≡ ok (s, rest)
    → h.kind ≡ frame_data
    → get_session (addr_key (destination h)) r ≡ some target
    → (sink_of target.id r).faults ≡ []
    → length payload ≤ max_relay_payload
    → s.claims.endpoint_id < 2 ^ 16
    → IsAdmitted c start.controller_pub_key s
      × Receives target.id r
          (handle_frame local_route s h payload r).0
          (stamped_header s.claims payload)
          payload
forward-IsStamped c id input now start r s target rest payload h a k g w len fits =
    let (own, admitted) = authenticate-IsAdmitted c id input now start s rest a in
    let (got, sent) =
      write_to-Receives target.id (stamped_header s.claims payload) payload r w
        (record { endpoint_fits = fits; sized = refl; within = len }) in
    let routed =
      local_route_lem s target (destination h) h (stamped_header s.claims payload) payload r g
        (stamped s payload admitted.named len) sent in
    (
      admitted,
      subst (λ z. Receives target.id r z (stamped_header s.claims payload) payload)
          (sym (handle_data_lem s target h (stamped_header s.claims payload) payload r k routed))
          got,
    )

-- A ping is answered by a pong with the same payload, on a connection that takes what is written.
pub ping-IsAnswered :
    (s : RelaySession) (h : RelayFrameHeader) (payload : Bytes) (r : RelayServer)
    → h.kind ≡ frame_ping
    → (sink_of s.id r).faults ≡ []
    → length payload ≤ max_relay_payload
    → Receives s.id r
        (handle_frame local_route s h payload r).0
        (record (plain_header frame_pong 0) { payload_len = length payload })
        payload
unfolding handle_frame plain_header
ping-IsAnswered s h payload r k w len =
    let ping : nat_beq h.kind frame_ping ≡ true = ground (arith, k) in
    let short : length payload % 2 ^ 32 ≡ length payload = omega (arith, len) in
    rw (ping, short)
      (write_to-Receives s.id (record (plain_header frame_pong 0) { payload_len = length payload })
        payload r w (record { endpoint_fits = omega arith; sized = refl; within = len })).0
