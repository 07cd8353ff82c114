-- ===== src/Tunnel/Punch/Progress.antt =====
-- holepunch.go: PunchUDP can always still succeed until it has failed.
mod Finishing
use gole.Base.{
  ℕ, ◌+◌, ◌-◌, ◌≡◌, ◌≢◌, refl, ◌∙◌, sym, ap, subst, true, false, Bool, inl, inr, Bool-cases, ◌&&◌,
  ◌||◌, Option, none, some, List, [], ◌∷◌, arith, Bytes, codes, bytes_beq, bytes_beq_iff, nat_eq,
  bytes_eq, ltb, if◌then◌else◌,
}
use gole.Tunnel.Common.{contains}
use gole.Tunnel.Punch.Udp.{
  Failure, Sender, sending, waiting, closing, leaving_late, leaving, gave_up, stopped, Main,
  blocked, woken, draining, returned, Punch, start, missing, sender_done, close_main, Step, send,
  cancel, leave, wake, close, return, Reach, here, later, Packet, on_read, on_packet, on_helo,
  on_okay, on_message, read, handle, Receiver, reading, handling, quitting, done,
}
use gole.Tunnel.Punch.Runs.{Event, came, events}
use gole.Tunnel.Punch.Invariant.Kept.{
  IsKept, failing, late, closed_late, ended, awake, owes_sender, owes_receiver, ended-awake,
}
use gole.Tunnel.Punch.Invariant.{step-IsKept}
use gole.Tunnel.Punch.Invariant.{reach-IsKept}
use gole.Tunnel.Punch.Progress.Finishing.{
  IsReady, Succeeds, closed_late_in_time, first_step, from_draining, from_leaving, from_main,
  from_sender, from_waiting, from_woken, if_false, not_late, nothing_missing,
}

-- A state that has not failed, with the receiver in its loop
record IsOpen (s : Punch) : Type 0 where
  kept : IsKept s
  alive : s.crash ≡ none
  no_failure : s.fail ≡ none
  loops : s.receiver ≡ reading
  open_yet : s.recv_done ≡ false
  running : (f : Option Failure) → s.main ≢ returned f

-- A message of the peer's
abbrev pub message : Bytes → Bytes → Packet
message peer text = record { source = some peer; failed = false; text = text }

abbrev taken : Packet → Punch → Punch
taken p s = record s { receiver = handling p }

-- A message is read and handled.
two_steps :
    (peer : Bytes) (es : List Event) (p : Packet) (s t : Punch)
    → IsOpen s
    → on_packet peer p p.source (taken p s) ≡ t
    → IsKept t × (Succeeds peer es t → Succeeds peer (came p ∷ es) s)
unfolding on_read
two_steps peer es p s t g h =
    let reads : on_read p s ≡ taken p s =
      if_false s.recv_done (record s { receiver = quitting }) (taken p s) g.open_yet in
    let first : Step peer s (on_read p s) = read p g.loops in
    let second : Step peer (taken p s) (on_packet peer p p.source (taken p s)) = handle p refl in
    let kept : IsKept (taken p s) =
      subst IsKept reads (step-IsKept peer s (on_read p s) first g.kept) in
    (
      subst IsKept h
          (step-IsKept peer (taken p s) (on_packet peer p p.source (taken p s)) second kept),
      λ q. first_step peer es s (on_read p s) first g.alive (
          subst (Succeeds peer es) (sym reads) (
            first_step peer es (taken p s) (on_packet peer p p.source (taken p s)) second g.alive
              (subst (Succeeds peer es) (sym h) q))),
    )

abbrev hello : Bytes → Packet
hello peer = message peer (codes "HELO")

abbrev fine : Bytes → Packet
fine peer = message peer (codes "OKAY")

on_packet-hello : (peer : Bytes) (s : Punch) → on_packet peer (hello peer) (some peer) s ≡ on_helo s
unfolding on_packet on_message contains bytes_beq
on_packet-hello peer s =
    let self : bytes_beq peer peer ≡ true = (bytes_beq_iff peer peer).1 refl in rw self refl

on_packet-fine : (peer : Bytes) (s : Punch) → on_packet peer (fine peer) (some peer) s ≡ on_okay s
unfolding on_packet on_message contains bytes_beq
on_packet-fine peer s =
    let self : bytes_beq peer peer ≡ true = (bytes_beq_iff peer peer).1 refl in rw self refl

if_true : {A : Type 0} (b : Bool) (x y : A) → b ≡ true → (if b then x else y) ≡ x
if_true true x y h = refl
if_true false x y h = cc

-- HELO arrives, for the first time or again.
hello_arrives :
    (peer : Bytes) (es : List Event) (s : Punch)
    → IsOpen s
    → (t : Punch) × IsOpen t
      × (t.helo ≡ true)
      × (Succeeds peer es t → Succeeds peer (came (hello peer) ∷ es) s)
unfolding on_helo missing
hello_arrives peer es s g = elim (Bool-cases s.helo) [
  | inl b ↦
      let t : Punch = record s { receiver = reading } in
      let (kept, back) =
        two_steps peer es (hello peer) s t g
          (on_packet-hello peer (taken (hello peer) s) ∙ if_true s.helo t _ b) in
      (
        t,
        record {
          kept = kept;
          alive = g.alive;
          no_failure = g.no_failure;
          loops = refl;
          open_yet = g.open_yet;
          running = g.running;
        },
        b,
        back,
      )
  | inr b ↦
      let enough : ltb s.wg 1 ≡ false = ground (arith, g.kept.count, g.loops, b) in
      let t : Punch = record s { receiver = reading; helo = true; wg = s.wg - 1 } in
      let (kept, back) = two_steps peer es (hello peer) s t g (
        on_packet-hello peer (taken (hello peer) s)
        ∙ (if_false s.helo _ _ b ∙ if_false (ltb s.wg 1) _ t enough)) in
      (
        t,
        record {
          kept = kept;
          alive = g.alive;
          no_failure = g.no_failure;
          loops = refl;
          open_yet = g.open_yet;
          running = g.running;
        },
        refl,
        back,
      )
]

-- OKAY arrives once HELO has, for the first time or again.
fine_arrives :
    (peer : Bytes) (s : Punch) → IsOpen s → s.helo ≡ true → Succeeds peer (came (fine peer) ∷ []) s
unfolding on_okay missing
fine_arrives peer s g helo = elim (Bool-cases s.okay) [
  | inl b ↦
      let t : Punch = record s { receiver = reading; cancelled = true } in
      let (kept, back) =
        two_steps peer [] (fine peer) s t g
          (on_packet-fine peer (taken (fine peer) s) ∙ if_true s.okay t _ b) in
      back (
        from_sender peer t t.sender
          (record {
            kept = kept;
            alive = g.alive;
            no_failure = g.no_failure;
            helo = helo;
            okay = b;
          })
          refl g.running)
  | inr b ↦
      let enough : ltb s.wg 1 ≡ false = ground (arith, g.kept.count, g.loops, b) in
      let t : Punch = record s {
        receiver = reading;
        cancelled = true;
        okay = true;
        wg = s.wg - 1;
      } in
      let (kept, back) = two_steps peer [] (fine peer) s t g (
        on_packet-fine peer (taken (fine peer) s)
        ∙ (if_false s.okay _ _ b ∙ if_false (ltb s.wg 1) _ t enough)) in
      back (
        from_sender peer t t.sender
          (record {
            kept = kept;
            alive = g.alive;
            no_failure = g.no_failure;
            helo = helo;
            okay = refl;
          })
          refl g.running)
]

-- The peer's HELO and OKAY, unless both have been received
abbrev pub awaited : Bytes → Punch → List Event
awaited peer s = if s.helo && s.okay then [] else came (hello peer) ∷ came (fine peer) ∷ []

-- From every state that PunchUDP reaches without a crash and without a failure, with its receiver
-- before a read, and in which it has not returned, there is a run that goes on to return the
-- connection. If HELO and OKAY have both been received that run takes nothing from outside: it
-- has steps of the goroutines alone, with no read and no timeout. Otherwise it reads the peer's
-- HELO and then its OKAY, and takes nothing else from outside.
pub reach-Succeeds :
    (peer : Bytes) (s : Punch)
    → Reach peer start s
    → s.crash ≡ none
    → s.fail ≡ none
    → s.receiver ≡ reading
    → ((f : Option Failure) → s.main ≢ returned f)
    → (t : Punch) × (q : Reach peer s t) × (events q ≡ awaited peer s)
      × (t.crash ≡ none)
      × (t.main ≡ returned none)
reach-Succeeds peer s r alive good loops running =
    let k : IsKept s = reach-IsKept peer s r in
    elim (Bool-cases (s.helo && s.okay)) [
      | inl b ↦
          subst (λ es. Succeeds peer es s) (sym (if_true (s.helo && s.okay) [] _ b))
            (from_sender peer s s.sender
              (record {
                kept = k;
                alive = alive;
                no_failure = good;
                helo = ground (arith, b);
                okay = ground (arith, b);
              })
              refl running)
      | inr b ↦
          let runs : ended s.main ≡ false = elim (Bool-cases (ended s.main)) [
            | inl d ↦ absurd (ground (arith, k.both (ended-awake s.main d), good, b))
            | inr d ↦ d
          ] in
          let intime : late s.sender ≡ false = ground (arith, k.late_fails, good) in
          let (t, g, helo, back) = hello_arrives peer (came (fine peer) ∷ []) s (record {
            kept = k;
            alive = alive;
            no_failure = good;
            loops = loops;
            open_yet = ground (arith, k.closed, closed_late_in_time s.sender intime, runs);
            running = running;
          }) in
          subst (λ es. Succeeds peer es s) (sym (if_false (s.helo && s.okay) [] _ b))
            (back (fine_arrives peer t g helo))
    ]
