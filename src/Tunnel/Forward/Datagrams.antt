-- ===== src/Tunnel/Forward/Datagrams.antt =====
-- client.go: the order of the datagrams that StartClientUDP passes on.
use gole.Base.{
  ◌≡◌, refl, ◌∙◌, sym, ap, Bool, true, false, inl, inr, Option, none, some, List, [], ◌∷◌, ◌++◌,
  arith, Bytes, bytes_beq_iff, nat_eq, bytes_eq, Bool-cases,
}
use mathlib.Core.List.{append_assoc, append-nil}
use gole.Tunnel.Common.{UdpAddr, udp_addr_equal}
use gole.Tunnel.Forward.{
  Relay, new_relay, RelayEvent, arrive, read, deliver, from_client, failed, send_failed, in_buffer,
  read_inbound, deliver_held, next_client, note_client, on_client, relay_step, relay_run,
}
use gole.Tunnel.Forward.Deliveries.{IsOpened-run, delivery, delivery-relay_step}

unfoldable pub texts : List (UdpAddr × Bytes) → List Bytes
texts [] = []
texts ((a, b) ∷ rest) = b ∷ texts rest

unfoldable pub in_buffers : List Bytes → List Bytes
in_buffers [] = []
in_buffers (b ∷ bs) = in_buffer b ∷ in_buffers bs

unfoldable pub held_text : Option Bytes → List Bytes
held_text none = []
held_text (some b) = b ∷ []

-- The datagrams that come out of the tunnel, those of the clients that are passed on, and the
-- last client, all until the loops end
unfoldable pub arrived : List RelayEvent → List Bytes
arrived [] = []
arrived (arrive b ∷ es) = in_buffer b ∷ arrived es
arrived (read ∷ es) = arrived es
arrived (deliver ∷ es) = arrived es
arrived (from_client a b ∷ es) = arrived es
arrived (failed ∷ es) = []
arrived (send_failed a b ∷ es) = []

unfoldable pub sent : List RelayEvent → List Bytes
sent [] = []
sent (arrive b ∷ es) = sent es
sent (read ∷ es) = sent es
sent (deliver ∷ es) = sent es
sent (from_client a b ∷ es) = in_buffer b ∷ sent es
sent (failed ∷ es) = []
sent (send_failed a b ∷ es) = []

unfoldable pub last_client : Option UdpAddr → List RelayEvent → Option UdpAddr
last_client addr [] = addr
last_client addr (arrive b ∷ es) = last_client addr es
last_client addr (read ∷ es) = last_client addr es
last_client addr (deliver ∷ es) = last_client addr es
last_client addr (from_client a b ∷ es) = last_client (some a) es
last_client addr (failed ∷ es) = addr
last_client addr (send_failed a b ∷ es) = some a

-- What has been delivered, and what is on the way to be
unfoldable pub flow : Relay → List Bytes
flow r = texts r.to_clients ++ (held_text r.held ++ in_buffers r.inbound)

texts-append : (xs ys : List (UdpAddr × Bytes)) → texts (xs ++ ys) ≡ texts xs ++ texts ys
unfolding texts
texts-append [] ys = refl
texts-append ((a, b) ∷ xs) ys = ap (◌∷◌ b) (texts-append xs ys)

in_buffers-append : (xs ys : List Bytes) → in_buffers (xs ++ ys) ≡ in_buffers xs ++ in_buffers ys
unfolding in_buffers
in_buffers-append [] ys = refl
in_buffers-append (b ∷ xs) ys = ap (◌∷◌ (in_buffer b)) (in_buffers-append xs ys)

flow-read :
    (held : Option Bytes) (inbound : List Bytes) (r : Relay)
    → r.held ≡ held
    → r.inbound ≡ inbound
    → flow (read_inbound held inbound r) ≡ flow r
unfolding flow read_inbound held_text in_buffers
flow-read none [] r h i = refl
flow-read none (b ∷ bs) r h i = rw (h, i) refl
flow-read (some x) bs r h i = refl

flow-deliver :
    (held : Option Bytes) (addr : Option UdpAddr) (closed : Bool) (r : Relay)
    → r.held ≡ held
    → flow (deliver_held held addr closed r) ≡ flow r
unfolding flow deliver_held held_text texts
flow-deliver none addr closed r h = refl
flow-deliver (some b) none closed r h = refl
flow-deliver (some b) (some a) false r h = refl
flow-deliver (some b) (some a) true r h = rw h (
    ap (λ z. z ++ in_buffers r.inbound) (texts-append r.to_clients ((a, b) ∷ []))
    ∙ append_assoc (texts r.to_clients) (b ∷ []) (in_buffers r.inbound))

flow-arrive :
    (b : Bytes) (r : Relay)
    → flow (record r { inbound = r.inbound ++ (b ∷ []) }) ≡ flow r ++ (in_buffer b ∷ [])
unfolding flow in_buffers
flow-arrive b r =
    ap (λ z. texts r.to_clients ++ (held_text r.held ++ z)) (in_buffers-append r.inbound (b ∷ []))
    ∙ (ap (λ z. texts r.to_clients ++ z)
          (sym (append_assoc (held_text r.held) (in_buffers r.inbound) (in_buffer b ∷ [])))
        ∙ sym (
            append_assoc (texts r.to_clients) (held_text r.held ++ in_buffers r.inbound)
              (in_buffer b ∷ [])))

flow-on_client : (a : UdpAddr) (b : Bytes) (r : Relay) → flow (on_client a b r) ≡ flow r
unfolding flow on_client note_client
flow-on_client a b r = refl

flow-run : (es : List RelayEvent) (r : Relay) → flow (relay_run es r) ≡ flow r ++ arrived es
unfolding relay_run relay_step arrived note_client flow
flow-run [] r = sym (append-nil (flow r))
flow-run (arrive b ∷ es) r =
    flow-run es (record r { inbound = r.inbound ++ (b ∷ []) })
    ∙ (ap (λ z. z ++ arrived es) (flow-arrive b r)
        ∙ append_assoc (flow r) (in_buffer b ∷ []) (arrived es))
flow-run (read ∷ es) r =
    flow-run es (read_inbound r.held r.inbound r)
    ∙ ap (λ z. z ++ arrived es) (flow-read r.held r.inbound r refl refl)
flow-run (deliver ∷ es) r =
    flow-run es (deliver_held r.held r.client_addr r.sent_closed r)
    ∙ ap (λ z. z ++ arrived es) (flow-deliver r.held r.client_addr r.sent_closed r refl)
flow-run (from_client a b ∷ es) r =
    flow-run es (on_client a b r) ∙ ap (λ z. z ++ arrived es) (flow-on_client a b r)
flow-run (failed ∷ es) r = sym (append-nil (flow r))
flow-run (send_failed a b ∷ es) r = sym (append-nil (flow r))

-- What the two events of the tunnel's goroutine leave as it is
unfoldable pub clients_side : Relay → List Bytes × Option UdpAddr
clients_side r = (r.to_tunnel, r.client_addr)

clients_side-read :
    (held : Option Bytes) (inbound : List Bytes) (r : Relay)
    → clients_side (read_inbound held inbound r) ≡ clients_side r
unfolding clients_side read_inbound
clients_side-read none [] r = refl
clients_side-read none (b ∷ bs) r = refl
clients_side-read (some x) bs r = refl

clients_side-deliver :
    (held : Option Bytes) (addr : Option UdpAddr) (closed : Bool) (r : Relay)
    → clients_side (deliver_held held addr closed r) ≡ clients_side r
unfolding clients_side deliver_held
clients_side-deliver none addr closed r = refl
clients_side-deliver (some b) none closed r = refl
clients_side-deliver (some b) (some a) false r = refl
clients_side-deliver (some b) (some a) true r = refl

-- UDPAddrEqual tells addresses apart.
udp_addr_equal_sound : (a b : UdpAddr) → udp_addr_equal a b ≡ true → a ≡ b
unfolding udp_addr_equal
udp_addr_equal_sound a b h =
    same a b (ground (arith, h)) ((bytes_beq_iff a.ip b.ip).0 (ground (arith, h)))
      ((bytes_beq_iff a.zone b.zone).0 (ground (arith, h)))
  where
    same : (a b : UdpAddr) → a.port ≡ b.port → a.ip ≡ b.ip → a.zone ≡ b.zone → a ≡ b
    same a b p i z = λ j. record { ip = i j; port = p j; zone = z j }

next_client_lem : (old : Option UdpAddr) (a : UdpAddr) → next_client old a ≡ a
unfolding next_client
next_client_lem none a = refl
next_client_lem (some old) a = elim (Bool-cases (udp_addr_equal a old)) [
  | inl b ↦ rw b (sym (udp_addr_equal_sound a old b))
  | inr b ↦ rw b refl
]

clients_side-run :
    (es : List RelayEvent) (r : Relay)
    → clients_side (relay_run es r) ≡ (r.to_tunnel ++ sent es, last_client r.client_addr es)
unfolding relay_run relay_step sent last_client clients_side on_client note_client
clients_side-run [] r = ap (λ z. (z, r.client_addr)) (sym (append-nil r.to_tunnel))
clients_side-run (arrive b ∷ es) r =
    clients_side-run es (record r { inbound = r.inbound ++ (b ∷ []) })
clients_side-run (read ∷ es) r =
    clients_side-run es (read_inbound r.held r.inbound r)
    ∙ ap (λ z. (z.0 ++ sent es, last_client z.1 es)) (clients_side-read r.held r.inbound r)
clients_side-run (deliver ∷ es) r =
    clients_side-run es (deliver_held r.held r.client_addr r.sent_closed r)
    ∙ ap (λ z. (z.0 ++ sent es, last_client z.1 es))
        (clients_side-deliver r.held r.client_addr r.sent_closed r)
clients_side-run (from_client a b ∷ es) r =
    clients_side-run es (on_client a b r)
    ∙ (ap (λ z. (z, last_client (some (next_client r.client_addr a)) es))
          (append_assoc r.to_tunnel (in_buffer b ∷ []) (sent es))
        ∙ ap (λ z. (r.to_tunnel ++ (in_buffer b ∷ sent es), last_client (some z) es))
            (next_client_lem r.client_addr a))
clients_side-run (failed ∷ es) r = ap (λ z. (z, r.client_addr)) (sym (append-nil r.to_tunnel))
clients_side-run (send_failed a b ∷ es) r =
    ap (λ z. (z, some (next_client r.client_addr a))) (sym (append-nil r.to_tunnel))
    ∙ ap (λ z. (r.to_tunnel ++ [], some z)) (next_client_lem r.client_addr a)

-- Whatever the order of events `es`, until the loops end: the datagrams that were delivered to
-- clients, the one that the goroutine holds and those not yet read are what has arrived from the
-- tunnel, in its order and with none lost or doubled; what was sent into the tunnel is what
-- clients sent, in their order, but for the one that could not be passed on. An event `e` that
-- follows sends something to a client only if it is a delivery, a datagram is held and a client
-- has sent, and then sends the held datagram to the client that was the last to send. A datagram
-- counts up to its first 4096 bytes.
pub relay_run-InOrder :
    (es : List RelayEvent) (e : RelayEvent)
    → (flow (relay_run es new_relay) ≡ arrived es)
      × (clients_side (relay_run es new_relay) ≡ (sent es, last_client none es))
      × ((relay_step e (relay_run es new_relay)).to_clients
          ≡ (relay_run es new_relay).to_clients
            ++ delivery e (relay_run es new_relay).held (last_client none es))
unfolding flow texts held_text in_buffers clients_side
relay_run-InOrder es e =
    let r : Relay = relay_run es new_relay in
    let sides = clients_side-run es new_relay in
    (
      flow-run es new_relay,
      sides,
      delivery-relay_step e r (IsOpened-run es new_relay refl)
          ∙ ap (λ z. r.to_clients ++ delivery e r.held z) (ap (λ z. z.1) sides),
    )
