-- ===== src/Tunnel/Forward/Deliveries.antt =====
-- client.go: where StartClientUDP sends the answers that come out of the tunnel.
use gole.Base.{
  ◌≡◌, refl, ◌∙◌, sym, Bool, true, false, Option, none, some, List, [], ◌∷◌, ◌++◌, arith, Bytes,
  nat_eq, bytes_eq,
}
use mathlib.Core.List.{append-nil}
use gole.Tunnel.Common.{UdpAddr}
use gole.Tunnel.Forward.{
  Relay, RelayEvent, arrive, read, deliver, from_client, failed, send_failed, read_inbound,
  deliver_held, note_client, on_client, relay_step, relay_run,
}

abbrev pub is_some : {A : Type 0} → Option A → Bool
is_some none = false
is_some (some a) = true

-- `sent` is closed exactly once there is a client.
abbrev pub IsOpened : Relay → Type 0
IsOpened r = r.sent_closed ≡ is_some r.client_addr

IsOpened-read :
    (held : Option Bytes) (inbound : List Bytes) (r : Relay)
    → IsOpened r
    → IsOpened (read_inbound held inbound r)
unfolding read_inbound
IsOpened-read none [] r h = h
IsOpened-read none (b ∷ bs) r h = h
IsOpened-read (some x) bs r h = h

IsOpened-deliver :
    (held : Option Bytes) (addr : Option UdpAddr) (closed : Bool) (r : Relay)
    → IsOpened r
    → IsOpened (deliver_held held addr closed r)
unfolding deliver_held
IsOpened-deliver none addr closed r h = h
IsOpened-deliver (some b) none closed r h = h
IsOpened-deliver (some b) (some a) false r h = h
IsOpened-deliver (some b) (some a) true r h = h

pub IsOpened-run : (es : List RelayEvent) (r : Relay) → IsOpened r → IsOpened (relay_run es r)
unfolding relay_run relay_step on_client note_client
IsOpened-run [] r h = h
IsOpened-run (arrive b ∷ es) r h = IsOpened-run es (record r { inbound = r.inbound ++ (b ∷ []) }) h
IsOpened-run (read ∷ es) r h =
    IsOpened-run es (read_inbound r.held r.inbound r) (IsOpened-read r.held r.inbound r h)
IsOpened-run (deliver ∷ es) r h =
    IsOpened-run es (deliver_held r.held r.client_addr r.sent_closed r)
      (IsOpened-deliver r.held r.client_addr r.sent_closed r h)
IsOpened-run (from_client a b ∷ es) r h = IsOpened-run es (on_client a b r) refl
IsOpened-run (failed ∷ es) r h = h
IsOpened-run (send_failed a b ∷ es) r h = refl

-- What an event sends to clients: the datagram that is held, to the client that was the last to
-- send
unfoldable pub delivery : RelayEvent → Option Bytes → Option UdpAddr → List (UdpAddr × Bytes)
delivery deliver (some b) (some a) = (a, b) ∷ []
delivery e held addr = []

delivery-deliver_held :
    (held : Option Bytes) (addr : Option UdpAddr) (closed : Bool) (r : Relay)
    → closed ≡ is_some addr
    → (deliver_held held addr closed r).to_clients ≡ r.to_clients ++ delivery deliver held addr
unfolding deliver_held delivery
delivery-deliver_held none addr closed r h = sym (append-nil r.to_clients)
delivery-deliver_held (some b) none closed r h = sym (append-nil r.to_clients)
delivery-deliver_held (some b) (some a) true r h = refl
delivery-deliver_held (some b) (some a) false r h = absurd (ground (arith, h))

read_inbound-to_clients :
    (held : Option Bytes) (inbound : List Bytes) (r : Relay)
    → (read_inbound held inbound r).to_clients ≡ r.to_clients
unfolding read_inbound
read_inbound-to_clients none [] r = refl
read_inbound-to_clients none (b ∷ bs) r = refl
read_inbound-to_clients (some x) bs r = refl

pub delivery-relay_step :
    (e : RelayEvent) (r : Relay)
    → IsOpened r
    → (relay_step e r).to_clients ≡ r.to_clients ++ delivery e r.held r.client_addr
unfolding relay_step delivery on_client note_client
delivery-relay_step (arrive b) r h = sym (append-nil r.to_clients)
delivery-relay_step read r h =
    read_inbound-to_clients r.held r.inbound r ∙ sym (append-nil r.to_clients)
delivery-relay_step deliver r h = delivery-deliver_held r.held r.client_addr r.sent_closed r h
delivery-relay_step (from_client a b) r h = sym (append-nil r.to_clients)
delivery-relay_step failed r h = sym (append-nil r.to_clients)
delivery-relay_step (send_failed a b) r h = sym (append-nil r.to_clients)
