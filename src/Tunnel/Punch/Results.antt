-- ===== src/Tunnel/Punch/Results.antt =====
-- holepunch.go: what PunchUDP returns.
use gole.Base.{◌≡◌, ◌≢◌, ap, subst, false, Option, none, some, arith, Bytes, codes}
use gole.Tunnel.Punch.Udp.{timed_out, Failure, returned, Punch, start, Reach}
use gole.Tunnel.Punch.Invariant.Kept.{IsKept, late, awake, ended, Settled}
use gole.Tunnel.Punch.Invariant.Returning.{owes_late}
use gole.Tunnel.Punch.Invariant.{reach-IsKept}
use gole.Tunnel.Punch.Runs.{events, Heard}
use gole.Tunnel.Punch.Runs.Tracing.{reach-Heard}

-- PunchUDP returns a connection only if ReadFrom has returned, each without an error and with the
-- peer's address, a message that starts with HELO and one that starts with OKAY.
-- It never returns its timeout: once the sender has run out of rounds PunchUDP does not return at
-- all, since it closes recv_done after the sender did and panics.
pub returned_sound :
    (peer : Bytes) (t : Punch) (f : Option Failure) (r : Reach peer start t)
    → t.main ≡ returned f
    → (f ≡ none → Heard peer (codes "HELO") (events r) × Heard peer (codes "OKAY") (events r))
      × (f ≢ some timed_out)
      × (late t.sender ≡ false)
returned_sound peer t f r e =
    let k : IsKept t = reach-IsKept peer t r in
    let (right, intime) = subst (λ m. Settled m t.helo t.okay) e k.result in
    let (greeted, agreed) = reach-Heard peer t r in
    (
      (λ n. (greeted (ground (arith, right, n)), agreed (ground (arith, right, n)))),
      (λ n. ground (arith, intime, n)),
      owes_late t.sender (k.all_done (ap awake e)) (k.closed_once (ap ended e)),
    )
