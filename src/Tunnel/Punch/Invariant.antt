-- ===== src/Tunnel/Punch/Invariant.antt =====
-- holepunch.go: what PunchUDP's goroutines keep, whatever the order of their steps.
pub mod Kept
mod Sending
mod Receiving
pub mod Returning
use gole.Base.{
  ℕ, zero, suc, ◌+◌, ◌-◌, ◌≡◌, ◌≢◌, refl, ◌∙◌, sym, ap, subst, inl, inr, Bool, true, false, not,
  some_inj, if◌then◌else◌, ◌&&◌, ◌||◌, Option, none, some, [], ◌∷◌, arith, Bytes, length, take, ltb,
  Bool-cases, ◌==◌, nat_eq, nat_beq, bytes_eq, bytes_beq, codes,
}
use gole.Tunnel.Common.{contains}
use gole.Tunnel.Punch.Udp.{
  Failure, timed_out, bad_message, read_error, Crash, closed_twice, nil_address, negative_counter,
  Packet, Sender, sending, waiting, closing, leaving_late, leaving, gave_up, stopped, Receiver,
  reading, handling, quitting, done, Main, blocked, woken, draining, returned, Punch, start,
  crashed, on_timeout, close_late, sender_done, on_read, on_helo, on_okay, on_failure, on_message,
  on_packet, missing, receiver_done, close_main, Step, send, retry, cancel, give_up, leave_late,
  leave, read, handle, quit, wake, close, return, Reach, here, later,
}
use gole.Tunnel.Punch.Invariant.Kept.{
  IsKept, Settled, awake, closed_late, ended, ended-awake, failing, if-both, is_timeout, late,
  owes_receiver, owes_sender, quits, start-IsKept,
}
use gole.Tunnel.Punch.Invariant.Sending.{
  crash-IsKept, give_up-IsKept, move_sender, retry-IsKept, sender_done-IsKept,
}
use gole.Tunnel.Punch.Invariant.Receiving.{
  Settled-helo, Settled-okay, closed_late-late, failure-IsKept, helo-IsKept, move_receiver,
  okay-IsKept, packet-IsKept, read-IsKept, receiver_done-IsKept,
}
use gole.Tunnel.Punch.Invariant.Returning.{
  close_main-IsKept, nothing_owed, owes_late, return-IsKept, wake-IsKept,
}

pub step-IsKept : (peer : Bytes) (s t : Punch) → Step peer s t → IsKept s → IsKept t
step-IsKept peer s t (send i e) k =
    move_sender s (waiting i) (ap owes_sender e) (ap late e) (ap closed_late e) k
step-IsKept peer s t (retry i e) k = retry-IsKept s i e k
step-IsKept peer s t (cancel i e c) k =
    move_sender s leaving (ap owes_sender e) (ap late e) (ap closed_late e) k
step-IsKept peer s t (give_up e) k = give_up-IsKept s e k
step-IsKept peer s t (leave_late e) k =
    sender_done-IsKept s gave_up (ap owes_sender e) refl (ap late e) (ap closed_late e) k
step-IsKept peer s t (leave e) k =
    sender_done-IsKept s stopped (ap owes_sender e) refl (ap late e) (ap closed_late e) k
step-IsKept peer s t (read p e) k = read-IsKept s p e k
step-IsKept peer s t (handle p e) k = packet-IsKept peer s p p.source e k
step-IsKept peer s t (quit e) k = receiver_done-IsKept s e k
step-IsKept peer s t (wake e z) k = wake-IsKept s e z k
step-IsKept peer s t (close e) k = close_main-IsKept s e k
step-IsKept peer s t (return e) k = return-IsKept s e k

-- In every state that PunchUDP's goroutines reach, in whatever order they run and whatever is
-- read: the wait group counts the calls of Done that are still to come, and no call makes it
-- negative; recv_done is closed exactly if the sender or PunchUDP has closed it, and not by both
-- if PunchUDP is past its own; and the other parts of IsKept.
pub reach-IsKept : (peer : Bytes) (t : Punch) → Reach peer start t → IsKept t
reach-IsKept peer t here = start-IsKept
reach-IsKept peer u (later {t} r alive st) = step-IsKept peer t u st (reach-IsKept peer t r)
