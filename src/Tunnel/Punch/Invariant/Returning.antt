-- ===== src/Tunnel/Punch/Invariant/Returning.antt =====
-- holepunch.go: the steps of PunchUDP itself keep the invariant.
use gole.Base.{◌≡◌, refl, ap, Bool, true, false, ◌&&◌, ◌||◌, arith, nat_eq, bytes_eq}
use gole.Tunnel.Punch.Udp.{
  closed_twice, Sender, sending, waiting, closing, leaving_late, leaving, gave_up, stopped,
  Receiver, reading, handling, quitting, done, blocked, woken, draining, returned, Punch, missing,
  close_main,
}
use gole.Tunnel.Punch.Invariant.Kept.{
  IsKept, awake, closed_late, ended, if-both, late, owes_receiver, owes_sender, quits,
}
use gole.Tunnel.Punch.Invariant.Sending.{crash-IsKept}

-- Nothing is owed: the sender is done, and the receiver too or with both its messages.
pub nothing_owed :
    (x : Receiver) (helo okay : Bool)
    → owes_receiver x helo okay ≡ 0
    → (quits x || (helo && okay)) ≡ true
unfolding missing
nothing_owed reading true true h = refl
nothing_owed reading true false h = absurd (ground (arith, h))
nothing_owed reading false true h = absurd (ground (arith, h))
nothing_owed reading false false h = absurd (ground (arith, h))
nothing_owed (handling p) true true h = refl
nothing_owed (handling p) true false h = absurd (ground (arith, h))
nothing_owed (handling p) false true h = absurd (ground (arith, h))
nothing_owed (handling p) false false h = absurd (ground (arith, h))
nothing_owed quitting helo okay h = refl
nothing_owed done helo okay h = refl

pub wake-IsKept :
    (s : Punch) → s.main ≡ blocked → s.wg ≡ 0 → IsKept s → IsKept (record s { main = woken })
wake-IsKept s e z k = record {
  count = k.count;
  late_fails = k.late_fails;
  timeout_late = k.timeout_late;
  closed = ground (arith, k.closed, e);
  closed_once = λ h. cc;
  all_done = λ h. omega (arith, k.count, z);
  quits_why = λ h. ground (arith, k.quits_why, h, e);
  both = λ h.
      ground
        (arith, k.quits_why, e, nothing_owed s.receiver s.helo s.okay (omega (arith, k.count, z)));
  cancels = k.cancels;
  result = tt;
  counts = k.counts;
}

pub close_main-IsKept : (s : Punch) → s.main ≡ woken → IsKept s → IsKept (close_main s)
unfolding close_main
close_main-IsKept s e k =
    if-both IsKept s.recv_done (λ b. crash-IsKept s closed_twice (λ h. cc) k)
      (λ b. record {
        count = k.count;
        late_fails = k.late_fails;
        timeout_late = k.timeout_late;
        closed = ground arith;
        closed_once = λ h. ground (arith, k.closed, b);
        all_done = λ h. k.all_done (ap awake e);
        quits_why = λ h. ground arith;
        both = λ h. k.both (ap awake e);
        cancels = k.cancels;
        result = tt;
        counts = k.counts;
      })

pub owes_late : (x : Sender) → owes_sender x ≡ 0 → closed_late x ≡ false → late x ≡ false
owes_late (sending i) h c = refl
owes_late (waiting i) h c = refl
owes_late closing h c = absurd (ground (arith, h))
owes_late leaving_late h c = cc
owes_late leaving h c = refl
owes_late gave_up h c = cc
owes_late stopped h c = refl

pub return-IsKept :
    (s : Punch) → s.main ≡ draining → IsKept s → IsKept (record s { main = returned s.fail })
return-IsKept s e k =
    let intime : late s.sender ≡ false =
      owes_late s.sender (k.all_done (ap awake e)) (k.closed_once (ap ended e)) in
    record {
      count = k.count;
      late_fails = k.late_fails;
      timeout_late = k.timeout_late;
      closed = ground (arith, k.closed, e);
      closed_once = λ h. k.closed_once (ap ended e);
      all_done = λ h. k.all_done (ap awake e);
      quits_why = λ h. ground arith;
      both = λ h. k.both (ap awake e);
      cancels = k.cancels;
      result = (k.both (ap awake e), ground (arith, k.timeout_late, intime));
      counts = k.counts;
    }
