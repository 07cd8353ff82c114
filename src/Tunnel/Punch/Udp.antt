-- ===== src/Tunnel/Punch/Udp.antt =====
-- holepunch.go: PunchUDP as the interleaved steps of its sender, its receiver and its main
-- goroutine. Both goroutines have started and the counter of the wait group is 3, as it is when
-- main comes to wg.Wait. Time is not modelled: a read, a timeout or a failure may come at any
-- time. The TTL, the deadlines and the messages that are sent do not come back into the state.
use gole.Base.{
  ℕ, ◌+◌, ◌-◌, ◌≡◌, Bool, true, false, not, Option, none, some, [], ◌∷◌, Bytes, length, take, ltb,
  if◌then◌else◌, ◌==◌, nat_eq, bytes_eq, codes,
}
use gole.Tunnel.Common.{contains}

-- fail
pub data Failure : Type 0 where
  timed_out : Failure
  bad_message : Failure
  read_error : Failure

-- What ends the whole process
pub data Crash : Type 0 where
  closed_twice : Crash
  nil_address : Crash
  negative_counter : Crash

-- What ReadFrom returns; the address is nil, the peer's or another, by its text.
pub record Packet : Type 0 where
  pub source : Option Bytes
  pub failed : Bool
  pub text : Bytes

-- The sender's place: before the send of round i, in its select, about to close recv_done, about
-- to return after that or by the context, and after wg.Done in the two cases.
pub data Sender : Type 0 where
  sending : ℕ → Sender
  waiting : ℕ → Sender
  closing : Sender
  leaving_late : Sender
  leaving : Sender
  gave_up : Sender
  stopped : Sender

-- The receiver's place: in ReadFrom, past the check of recv_done, about to return, returned
pub data Receiver : Type 0 where
  reading : Receiver
  handling : Packet → Receiver
  quitting : Receiver
  done : Receiver

-- The place of PunchUDP itself: in wg.Wait, past it, after close(recv_done), returned with fail
pub data Main : Type 0 where
  blocked : Main
  woken : Main
  draining : Main
  returned : Option Failure → Main

pub record Punch : Type 0 where
  pub sender : Sender
  pub receiver : Receiver
  pub main : Main
  pub wg : ℕ
  pub helo : Bool
  pub okay : Bool
  pub recv_done : Bool
  pub cancelled : Bool
  pub fail : Option Failure
  pub crash : Option Crash

abbrev pub start : Punch
start = record {
  sender = sending 1;
  receiver = reading;
  main = blocked;
  wg = 3;
  helo = false;
  okay = false;
  recv_done = false;
  cancelled = false;
  fail = none;
  crash = none;
}

abbrev pub crashed : Crash → Punch → Punch
crashed why s = record s { crash = some why }

-- time.After of the select in round i
unfoldable pub on_timeout : ℕ → Punch → Punch
on_timeout i s =
    if i == 60
    then record s { fail = some timed_out; sender = closing }
    else record s { sender = sending (i + 1) }

-- close(recv_done), in the sender
unfoldable pub close_late : Punch → Punch
close_late s =
    if s.recv_done
    then crashed closed_twice s
    else record s { recv_done = true; sender = leaving_late }

-- The sender's wg.Done
unfoldable pub sender_done : Sender → Punch → Punch
sender_done after s =
    if ltb s.wg 1 then crashed negative_counter s else record s { wg = s.wg - 1; sender = after }

-- The select after ReadFrom
unfoldable pub on_read : Packet → Punch → Punch
on_read p s =
    if s.recv_done then record s { receiver = quitting } else record s { receiver = handling p }

-- HELO and OKAY
unfoldable pub on_helo : Punch → Punch
on_helo s =
    if s.helo
    then record s { receiver = reading }
    else if ltb s.wg 1
    then crashed negative_counter s
    else record s { receiver = reading; helo = true; wg = s.wg - 1 }

unfoldable pub on_okay : Punch → Punch
on_okay s =
    if s.okay
    then record s { receiver = reading; cancelled = true }
    else if ltb s.wg 1
    then crashed negative_counter s
    else record s { receiver = reading; cancelled = true; okay = true; wg = s.wg - 1 }

-- fail = ..., sendDone(), return
unfoldable pub on_failure : Failure → Punch → Punch
on_failure why s = record s { fail = some why; cancelled = true; receiver = quitting }

-- The messages that are let through
unfoldable pub on_message : Bytes → Punch → Punch
on_message text s =
    if ltb (length text) 4
    then record s { receiver = reading }
    else if not (contains (take 4 text) (codes "HELO" ∷ codes "OKAY" ∷ []))
    then on_failure bad_message s
    else if take 4 text == codes "HELO"
    then on_helo s
    else on_okay s

-- The loop's body after the select, with the text of the peer's address
unfoldable pub on_packet : Bytes → Packet → Option Bytes → Punch → Punch
on_packet peer p none s = crashed nil_address s
on_packet peer p (some source) s =
    if not (source == peer)
    then record s { receiver = reading }
    else if p.failed
    then on_failure read_error s
    else on_message p.text s

unfoldable pub missing : Bool → ℕ
missing true = 0
missing false = 1

-- The receiver's deferred calls of wg.Done
unfoldable pub receiver_done : Punch → Punch
receiver_done s =
    if ltb s.wg (missing s.helo + missing s.okay)
    then crashed negative_counter s
    else record s { wg = s.wg - (missing s.helo + missing s.okay); receiver = done }

-- close(recv_done), in PunchUDP itself
unfoldable pub close_main : Punch → Punch
close_main s =
    if s.recv_done then crashed closed_twice s else record s { recv_done = true; main = draining }

-- The steps, while the process has not crashed
pub data Step (peer : Bytes) (s : Punch) : Punch → Type 0 where
  send : (i : ℕ) → s.sender ≡ sending i → Step peer s (record s { sender = waiting i })
  retry : (i : ℕ) → s.sender ≡ waiting i → Step peer s (on_timeout i s)
  cancel :
      (i : ℕ)
      → s.sender ≡ waiting i
      → s.cancelled ≡ true
      → Step peer s (record s { sender = leaving })
  give_up : s.sender ≡ closing → Step peer s (close_late s)
  leave_late : s.sender ≡ leaving_late → Step peer s (sender_done gave_up s)
  leave : s.sender ≡ leaving → Step peer s (sender_done stopped s)
  read : (p : Packet) → s.receiver ≡ reading → Step peer s (on_read p s)
  handle : (p : Packet) → s.receiver ≡ handling p → Step peer s (on_packet peer p p.source s)
  quit : s.receiver ≡ quitting → Step peer s (receiver_done s)
  wake : s.main ≡ blocked → s.wg ≡ 0 → Step peer s (record s { main = woken })
  close : s.main ≡ woken → Step peer s (close_main s)
  return : s.main ≡ draining → Step peer s (record s { main = returned s.fail })

-- What the steps lead to
pub data Reach (peer : Bytes) (s : Punch) : Punch → Type 0 where
  here : Reach peer s s
  later : {t u : Punch} → Reach peer s t → t.crash ≡ none → Step peer t u → Reach peer s u
