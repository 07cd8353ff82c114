-- ===== src/Tunnel/Punch/Invariant/Receiving.antt =====
-- holepunch.go: the receiver's steps keep the invariant.
use gole.Base.{
  ◌+◌, ◌≡◌, refl, ap, Bool, true, false, not, Option, none, some, [], ◌∷◌, arith, Bytes, length,
  take, ltb, ◌==◌, nat_eq, bytes_eq, codes,
}
use gole.Tunnel.Common.{contains}
use gole.Tunnel.Punch.Udp.{
  Failure, bad_message, read_error, nil_address, Packet, Sender, sending, waiting, closing,
  leaving_late, leaving, gave_up, stopped, Receiver, reading, handling, quitting, Main, blocked,
  woken, draining, returned, Punch, on_read, on_helo, on_okay, on_failure, on_message, on_packet,
  missing, receiver_done,
}
use gole.Tunnel.Punch.Invariant.Kept.{
  IsKept, Settled, closed_late, if-both, is_timeout, late, owes_receiver, quits,
}
use gole.Tunnel.Punch.Invariant.Sending.{crash-IsKept}

-- A move of the receiver within its loop
pub move_receiver :
    (s : Punch) (new : Receiver) (cancelled : Bool)
    → owes_receiver s.receiver s.helo s.okay ≡ owes_receiver new s.helo s.okay
    → quits new ≡ false
    → (s.okay ≡ true → cancelled ≡ true)
    → IsKept s
    → IsKept (record s { receiver = new; cancelled = cancelled })
move_receiver s new cancelled o q c k = record {
  count = ground (arith, k.count, o);
  late_fails = k.late_fails;
  timeout_late = k.timeout_late;
  closed = k.closed;
  closed_once = k.closed_once;
  all_done = k.all_done;
  quits_why = λ h. absurd (ground (arith, q, h));
  both = k.both;
  cancels = c;
  result = k.result;
  counts = k.counts;
}

-- The receiver starts to return, with a failure or because recv_done is closed.
pub failure-IsKept :
    (s : Punch) (why : Failure)
    → is_timeout (some why) ≡ false
    → owes_receiver s.receiver s.helo s.okay ≡ missing s.helo + missing s.okay
    → IsKept s
    → IsKept (on_failure why s)
unfolding on_failure
failure-IsKept s why t o k = record {
  count = ground (arith, k.count, o);
  late_fails = λ h. refl;
  timeout_late = λ h. absurd (ground (arith, t, h));
  closed = k.closed;
  closed_once = k.closed_once;
  all_done = k.all_done;
  quits_why = λ h. refl;
  both = λ h. refl;
  cancels = λ h. refl;
  result = k.result;
  counts = k.counts;
}

pub closed_late-late : (x : Sender) → closed_late x ≡ true → late x ≡ true
closed_late-late (sending i) h = cc
closed_late-late (waiting i) h = cc
closed_late-late closing h = cc
closed_late-late leaving_late h = refl
closed_late-late leaving h = cc
closed_late-late gave_up h = refl
closed_late-late stopped h = cc

pub read-IsKept : (s : Punch) (p : Packet) → s.receiver ≡ reading → IsKept s → IsKept (on_read p s)
unfolding on_read
read-IsKept s p e k =
    if-both IsKept s.recv_done
      (λ b. record {
        count = ground (arith, k.count, e);
        late_fails = k.late_fails;
        timeout_late = k.timeout_late;
        closed = k.closed;
        closed_once = k.closed_once;
        all_done = k.all_done;
        quits_why = λ h. ground (arith, b, k.closed, k.late_fails, closed_late-late s.sender);
        both = k.both;
        cancels = k.cancels;
        result = k.result;
        counts = k.counts;
      })
      (λ b.
        move_receiver s (handling p) s.cancelled (ap (λ z. owes_receiver z s.helo s.okay) e) refl
          k.cancels k)

-- Settled stays when more has been received.
pub Settled-helo : (m : Main) (helo okay : Bool) → Settled m helo okay → Settled m true okay
Settled-helo blocked helo okay h = tt
Settled-helo woken helo okay h = tt
Settled-helo draining helo okay h = tt
Settled-helo (returned f) helo okay h = (ground (arith, h.0), h.1)

pub Settled-okay : (m : Main) (helo okay : Bool) → Settled m helo okay → Settled m helo true
Settled-okay blocked helo okay h = tt
Settled-okay woken helo okay h = tt
Settled-okay draining helo okay h = tt
Settled-okay (returned f) helo okay h = (ground (arith, h.0), h.1)

pub helo-IsKept : (s : Punch) (p : Packet) → s.receiver ≡ handling p → IsKept s → IsKept (on_helo s)
unfolding on_helo missing
helo-IsKept s p e k =
    if-both IsKept s.helo
      (λ b.
        move_receiver s reading s.cancelled (ap (λ z. owes_receiver z s.helo s.okay) e) refl
          k.cancels k)
      (λ b.
        if-both IsKept (ltb s.wg 1) (λ d. absurd (ground (arith, k.count, e, b, d)))
          (λ d. record {
            count = ground (arith, k.count, e, b, d);
            late_fails = k.late_fails;
            timeout_late = k.timeout_late;
            closed = k.closed;
            closed_once = k.closed_once;
            all_done = k.all_done;
            quits_why = λ h. cc;
            both = λ h. ground (arith, k.both h, b);
            cancels = k.cancels;
            result = Settled-helo s.main s.helo s.okay k.result;
            counts = k.counts;
          }))

pub okay-IsKept : (s : Punch) (p : Packet) → s.receiver ≡ handling p → IsKept s → IsKept (on_okay s)
unfolding on_okay missing
okay-IsKept s p e k =
    if-both IsKept s.okay
      (λ b.
        move_receiver s reading true (ap (λ z. owes_receiver z s.helo s.okay) e) refl (λ h. refl) k)
      (λ b.
        if-both IsKept (ltb s.wg 1) (λ d. absurd (ground (arith, k.count, e, b, d)))
          (λ d. record {
            count = ground (arith, k.count, e, b, d);
            late_fails = k.late_fails;
            timeout_late = k.timeout_late;
            closed = k.closed;
            closed_once = k.closed_once;
            all_done = k.all_done;
            quits_why = λ h. cc;
            both = λ h. ground (arith, k.both h, b);
            cancels = λ h. refl;
            result = Settled-okay s.main s.helo s.okay k.result;
            counts = k.counts;
          }))

pub packet-IsKept :
    (peer : Bytes) (s : Punch) (p : Packet) (source : Option Bytes)
    → s.receiver ≡ handling p
    → IsKept s
    → IsKept (on_packet peer p source s)
unfolding on_packet on_message
packet-IsKept peer s p none e k = crash-IsKept s nil_address (λ h. cc) k
packet-IsKept peer s p (some source) e k =
    let owed : owes_receiver s.receiver s.helo s.okay ≡ missing s.helo + missing s.okay =
      ap (λ z. owes_receiver z s.helo s.okay) e in
    let again : IsKept (record s { receiver = reading }) =
      move_receiver s reading s.cancelled owed refl k.cancels k in
    if-both IsKept (not (source == peer)) (λ b. again)
      (λ b.
        if-both IsKept p.failed (λ d. failure-IsKept s read_error refl owed k)
          (λ d.
            if-both IsKept (ltb (length p.text) 4) (λ f. again)
              (λ f.
                if-both IsKept (not (contains (take 4 p.text) (codes "HELO" ∷ codes "OKAY" ∷ [])))
                  (λ g. failure-IsKept s bad_message refl owed k)
                  (λ g.
                    if-both IsKept (take 4 p.text == codes "HELO") (λ h. helo-IsKept s p e k)
                      (λ h. okay-IsKept s p e k)))))

pub receiver_done-IsKept : (s : Punch) → s.receiver ≡ quitting → IsKept s → IsKept (receiver_done s)
unfolding receiver_done
receiver_done-IsKept s e k =
    if-both IsKept (ltb s.wg (missing s.helo + missing s.okay))
      (λ b. absurd (ground (arith, k.count, e, b)))
      (λ b. record {
        count = ground (arith, k.count, e, b);
        late_fails = k.late_fails;
        timeout_late = k.timeout_late;
        closed = k.closed;
        closed_once = k.closed_once;
        all_done = k.all_done;
        quits_why = λ h. k.quits_why (ap quits e);
        both = k.both;
        cancels = k.cancels;
        result = k.result;
        counts = k.counts;
      })
