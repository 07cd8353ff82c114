-- ===== src/Tunnel/Punch/Progress/Finishing.antt =====
-- holepunch.go: with both messages received, PunchUDP's goroutines end by themselves.
use gole.Base.{
  ℕ, ◌-◌, ◌≡◌, ◌≢◌, refl, ◌∙◌, sym, ap, subst, true, false, Bool, Option, none, List, [], ◌++◌,
  arith, Bytes, nat_eq, bytes_eq, ltb, if◌then◌else◌,
}
use gole.Tunnel.Punch.Udp.{
  Failure, Sender, sending, waiting, closing, leaving_late, leaving, gave_up, stopped, Main,
  blocked, woken, draining, returned, Punch, missing, sender_done, close_main, Step, send, cancel,
  leave, wake, close, return, Reach, here, later, Receiver, reading, handling, quitting, done,
}
use mathlib.Core.List.{append_assoc, append-nil}
use gole.Tunnel.Punch.Runs.{Event, event_of, events}
use gole.Tunnel.Punch.Invariant.Kept.{IsKept, late, closed_late, owes_sender, owes_receiver}
use gole.Tunnel.Punch.Invariant.{step-IsKept}

reach_trans : (peer : Bytes) (s t u : Punch) → Reach peer s t → Reach peer t u → Reach peer s u
reach_trans peer s t u r here = r
reach_trans peer s t u r (later {t = v} q alive st) = later (reach_trans peer s t v r q) alive st

events-reach_trans :
    (peer : Bytes) (s t u : Punch) (r : Reach peer s t) (q : Reach peer t u)
    → events (reach_trans peer s t u r q) ≡ events r ++ events q
unfolding reach_trans
events-reach_trans peer s t u r here = sym (append-nil (events r))
events-reach_trans peer s t u r (later {t = v} q alive st) =
    ap (λ z. z ++ event_of st) (events-reach_trans peer s t v r q)
    ∙ append_assoc (events r) (events q) (event_of st)

-- A state from which the rest of the run is left to the program alone
pub record IsReady (s : Punch) : Type 0 where
  pub kept : IsKept s
  pub alive : s.crash ≡ none
  pub no_failure : s.fail ≡ none
  pub helo : s.helo ≡ true
  pub okay : s.okay ≡ true

-- The connection can still be returned, with these events to come from outside.
abbrev pub Succeeds : Bytes → List Event → Punch → Type 0
Succeeds peer es s =
    (t : Punch) × (q : Reach peer s t) × (events q ≡ es)
    × (t.crash ≡ none)
    × (t.main ≡ returned none)

pub first_step :
    (peer : Bytes) (es : List Event) (s t : Punch) (st : Step peer s t)
    → s.crash ≡ none
    → Succeeds peer es t
    → Succeeds peer (event_of st ++ es) s
first_step peer es s t st alive (u, q, e, a, m) = (
  u,
  reach_trans peer s t u (later here alive st) q,
  events-reach_trans peer s t u (later here alive st) q ∙ ap (λ z. event_of st ++ z) e,
  a,
  m,
)

pub from_draining : (peer : Bytes) (s : Punch) → IsReady s → s.main ≡ draining → Succeeds peer [] s
from_draining peer s g e =
    first_step peer [] s (record s { main = returned s.fail }) (return e) g.alive
      (record s { main = returned s.fail }, here, refl, g.alive, ap returned g.no_failure)

pub not_late : (s : Punch) → IsReady s → late s.sender ≡ false
not_late s g = ground (arith, g.kept.late_fails, g.no_failure)

pub if_false : {A : Type 0} (b : Bool) (x y : A) → b ≡ false → (if b then x else y) ≡ y
if_false true x y h = cc
if_false false x y h = refl

pub closed_late_in_time : (x : Sender) → late x ≡ false → closed_late x ≡ false
closed_late_in_time (sending i) h = refl
closed_late_in_time (waiting i) h = refl
closed_late_in_time closing h = cc
closed_late_in_time leaving_late h = cc
closed_late_in_time leaving h = refl
closed_late_in_time gave_up h = cc
closed_late_in_time stopped h = refl

pub from_woken : (peer : Bytes) (s : Punch) → IsReady s → s.main ≡ woken → Succeeds peer [] s
unfolding close_main
from_woken peer s g e =
    let open_yet : s.recv_done ≡ false =
      ground (arith, g.kept.closed, closed_late_in_time s.sender (not_late s g), e) in
    let next : Punch = record s { recv_done = true; main = draining } in
    let closed : close_main s ≡ next = if_false s.recv_done _ next open_yet in
    let ready : IsReady next = record {
      kept = subst IsKept closed (step-IsKept peer s (close_main s) (close e) g.kept);
      alive = g.alive;
      no_failure = g.no_failure;
      helo = g.helo;
      okay = g.okay;
    } in
    first_step peer [] s (close_main s) (close e) g.alive
      (subst (Succeeds peer []) (sym closed) (from_draining peer next ready refl))

pub nothing_missing : (x : Receiver) → owes_receiver x true true ≡ 0
unfolding missing
nothing_missing reading = refl
nothing_missing (handling p) = refl
nothing_missing quitting = refl
nothing_missing done = refl

-- A sender that owes nothing any more
pub from_main :
    (peer : Bytes) (s : Punch) (m : Main)
    → IsReady s
    → owes_sender s.sender ≡ 0
    → s.main ≡ m
    → ((f : Option Failure) → s.main ≢ returned f)
    → Succeeds peer [] s
unfolding missing
from_main peer s blocked g o e running =
    let zero_left : s.wg ≡ 0 = omega (
      arith,
      g.kept.count,
      o,
      ap (λ z. owes_receiver s.receiver z s.okay) g.helo
          ∙ ap (owes_receiver s.receiver true) g.okay,
      nothing_missing s.receiver,
    ) in
    let next : Punch = record s { main = woken } in
    let ready : IsReady next = record {
      kept = step-IsKept peer s next (wake e zero_left) g.kept;
      alive = g.alive;
      no_failure = g.no_failure;
      helo = g.helo;
      okay = g.okay;
    } in
    first_step peer [] s next (wake e zero_left) g.alive (from_woken peer next ready refl)
from_main peer s woken g o e running = from_woken peer s g e
from_main peer s draining g o e running = from_draining peer s g e
from_main peer s (returned f) g o e running = absurd (running f e)

pub from_leaving :
    (peer : Bytes) (s : Punch)
    → IsReady s
    → s.sender ≡ leaving
    → ((f : Option Failure) → s.main ≢ returned f)
    → Succeeds peer [] s
unfolding sender_done
from_leaving peer s g e running =
    let enough : ltb s.wg 1 ≡ false = ground (arith, g.kept.count, e) in
    let next : Punch = record s { wg = s.wg - 1; sender = stopped } in
    let stops : sender_done stopped s ≡ next = if_false (ltb s.wg 1) _ next enough in
    let ready : IsReady next = record {
      kept = subst IsKept stops (step-IsKept peer s (sender_done stopped s) (leave e) g.kept);
      alive = g.alive;
      no_failure = g.no_failure;
      helo = g.helo;
      okay = g.okay;
    } in
    first_step peer [] s (sender_done stopped s) (leave e) g.alive
      (subst (Succeeds peer []) (sym stops) (from_main peer next s.main ready refl refl running))

pub from_waiting :
    (peer : Bytes) (s : Punch) (i : ℕ)
    → IsReady s
    → s.sender ≡ waiting i
    → ((f : Option Failure) → s.main ≢ returned f)
    → Succeeds peer [] s
from_waiting peer s i g e running =
    let next : Punch = record s { sender = leaving } in
    let st : Step peer s next = cancel i e (g.kept.cancels g.okay) in
    let ready : IsReady next = record {
      kept = step-IsKept peer s next st g.kept;
      alive = g.alive;
      no_failure = g.no_failure;
      helo = g.helo;
      okay = g.okay;
    } in
    first_step peer [] s next st g.alive (from_leaving peer next ready refl running)

pub from_sender :
    (peer : Bytes) (s : Punch) (x : Sender)
    → IsReady s
    → s.sender ≡ x
    → ((f : Option Failure) → s.main ≢ returned f)
    → Succeeds peer [] s
from_sender peer s (sending i) g e running =
    let next : Punch = record s { sender = waiting i } in
    let ready : IsReady next = record {
      kept = step-IsKept peer s next (send i e) g.kept;
      alive = g.alive;
      no_failure = g.no_failure;
      helo = g.helo;
      okay = g.okay;
    } in
    first_step peer [] s next (send i e) g.alive (from_waiting peer next i ready refl running)
from_sender peer s (waiting i) g e running = from_waiting peer s i g e running
from_sender peer s closing g e running = absurd (ground (arith, not_late s g, e))
from_sender peer s leaving_late g e running = absurd (ground (arith, not_late s g, e))
from_sender peer s leaving g e running = from_leaving peer s g e running
from_sender peer s gave_up g e running = absurd (ground (arith, not_late s g, e))
from_sender peer s stopped g e running = from_main peer s s.main g (ap owes_sender e) refl running
