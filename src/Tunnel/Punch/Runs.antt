-- ===== src/Tunnel/Punch/Runs.antt =====
-- holepunch.go: what comes from outside in a run of PunchUDP.
pub mod Tracing
use gole.Base.{
  ◌≡◌, ◌≢◌, Bool-cases, refl, ◌∙◌, sym, ap, true, false, not, inl, inr, Bool, Option, none, some,
  List, [], ◌∷◌, ◌++◌, arith, Bytes, length, take, ltb, bytes_beq, bytes_beq_iff, bytes_eq, nat_eq,
  codes, ℕ, ◌==◌,
}
use mathlib.Core.List.{append_assoc}
use gole.Tunnel.Common.{contains}
use gole.Tunnel.Punch.Udp.{
  Packet, Receiver, reading, handling, quitting, done, Punch, start, on_timeout, close_late,
  sender_done, on_read, on_helo, on_okay, on_failure, on_message, on_packet, receiver_done,
  close_main, Step, send, retry, cancel, give_up, leave_late, leave, read, handle, quit, wake,
  close, return, Reach, here, later,
}
use gole.Tunnel.Punch.Invariant.Kept.{if-both}

-- What a run takes from outside: what ReadFrom returns, and the timeouts of the sender's rounds
pub data Event : Type 0 where
  came : Packet → Event
  timed : ℕ → Event

abbrev pub event_of : {peer : Bytes} {s t : Punch} → Step peer s t → List Event
event_of (send i e) = []
event_of (retry i e) = timed i ∷ []
event_of (cancel i e c) = []
event_of (give_up e) = []
event_of (leave_late e) = []
event_of (leave e) = []
event_of (read p e) = came p ∷ []
event_of (handle p e) = []
event_of (quit e) = []
event_of (wake e z) = []
event_of (close e) = []
event_of (return e) = []

-- The events of a run, in their order
abbrev pub events : {peer : Bytes} {s t : Punch} → Reach peer s t → List Event
events here = []
events (later r alive st) = events r ++ event_of st

-- The packet is one of those that ReadFrom returned.
pub record Among (p : Packet) (es : List Event) : Type 0 where
  pub before : List Event
  pub after : List Event
  pub split : es ≡ before ++ (came p ∷ after)

-- A message with this first word was read from the peer, without an error.
pub record Heard (peer word : Bytes) (es : List Event) : Type 0 where
  pub packet : Packet
  pub among : Among packet es
  pub from_peer : packet.source ≡ some peer
  pub sound : packet.failed ≡ false
  pub says : take 4 packet.text ≡ word

pub Among-append : (p : Packet) (es more : List Event) → Among p es → Among p (es ++ more)
Among-append p es more a = record {
  before = a.before;
  after = a.after ++ more;
  split = ap (λ z. z ++ more) a.split ∙ append_assoc a.before (came p ∷ a.after) more;
}

pub Heard-append :
    (peer word : Bytes) (es more : List Event) → Heard peer word es → Heard peer word (es ++ more)
Heard-append peer word es more h = record {
  packet = h.packet;
  among = Among-append h.packet es more h.among;
  from_peer = h.from_peer;
  sound = h.sound;
  says = h.says;
}
