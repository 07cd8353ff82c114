-- ===== src/Tunnel/Punch/Invariant/Kept.antt =====
-- holepunch.go: the invariant of PunchUDP's goroutines.
use gole.Base.{
  ℕ, ◌+◌, ◌≡◌, ◌≢◌, refl, Bool, true, false, if◌then◌else◌, ◌&&◌, ◌||◌, Option, none, some, nat_eq,
  bytes_eq,
}
use gole.Tunnel.Punch.Udp.{
  Failure, timed_out, bad_message, read_error, negative_counter, Sender, sending, waiting, closing,
  leaving_late, leaving, gave_up, stopped, Receiver, reading, handling, quitting, done, Main,
  blocked, woken, draining, returned, Punch, start, missing,
}

-- The calls of wg.Done that the goroutines have yet to make
abbrev pub owes_sender : Sender → ℕ
owes_sender (sending i) = 1
owes_sender (waiting i) = 1
owes_sender closing = 1
owes_sender leaving_late = 1
owes_sender leaving = 1
owes_sender gave_up = 0
owes_sender stopped = 0

abbrev pub owes_receiver : Receiver → Bool → Bool → ℕ
owes_receiver reading helo okay = missing helo + missing okay
owes_receiver (handling p) helo okay = missing helo + missing okay
owes_receiver quitting helo okay = missing helo + missing okay
owes_receiver done helo okay = 0

-- The sender has run out of rounds.
abbrev pub late : Sender → Bool
late closing = true
late leaving_late = true
late gave_up = true
late (sending i) = false
late (waiting i) = false
late leaving = false
late stopped = false

-- The sender has closed recv_done.
abbrev pub closed_late : Sender → Bool
closed_late leaving_late = true
closed_late gave_up = true
closed_late closing = false
closed_late (sending i) = false
closed_late (waiting i) = false
closed_late leaving = false
closed_late stopped = false

-- PunchUDP itself has closed recv_done.
abbrev pub ended : Main → Bool
ended blocked = false
ended woken = false
ended draining = true
ended (returned f) = true

abbrev pub awake : Main → Bool
awake blocked = false
awake woken = true
awake draining = true
awake (returned f) = true

abbrev pub failing : Option Failure → Bool
failing none = false
failing (some f) = true

abbrev pub is_timeout : Option Failure → Bool
is_timeout none = false
is_timeout (some timed_out) = true
is_timeout (some bad_message) = false
is_timeout (some read_error) = false

abbrev pub quits : Receiver → Bool
quits reading = false
quits (handling p) = false
quits quitting = true
quits done = true

-- What a result says: a failure, though no timeout, or that both messages were received
abbrev pub Settled : Main → Bool → Bool → Type 0
Settled blocked helo okay = Unit {0}
Settled woken helo okay = Unit {0}
Settled draining helo okay = Unit {0}
Settled (returned f) helo okay = ((failing f || (helo && okay)) ≡ true) × (is_timeout f ≡ false)

pub record IsKept (s : Punch) : Type 0 where
  pub count : s.wg ≡ owes_sender s.sender + owes_receiver s.receiver s.helo s.okay
  pub late_fails : late s.sender ≡ true → failing s.fail ≡ true
  pub timeout_late : is_timeout s.fail ≡ true → late s.sender ≡ true
  pub closed : s.recv_done ≡ (closed_late s.sender || ended s.main)
  pub closed_once : ended s.main ≡ true → closed_late s.sender ≡ false
  pub all_done : awake s.main ≡ true → owes_sender s.sender ≡ 0
  pub quits_why : quits s.receiver ≡ true → (failing s.fail || ended s.main) ≡ true
  pub both : awake s.main ≡ true → (failing s.fail || (s.helo && s.okay)) ≡ true
  pub cancels : s.okay ≡ true → s.cancelled ≡ true
  pub result : Settled s.main s.helo s.okay
  pub counts : s.crash ≢ some negative_counter

pub start-IsKept : IsKept start
unfolding missing
start-IsKept = record {
  count = refl;
  late_fails = λ h. cc;
  timeout_late = λ h. cc;
  closed = refl;
  closed_once = λ h. cc;
  all_done = λ h. cc;
  quits_why = λ h. cc;
  both = λ h. cc;
  cancels = λ h. cc;
  result = tt;
  counts = λ h. cc;
}

-- A property of a conditional, by its branches
pub if-both :
    {A : Type 0} (P : A → Type 0) (b : Bool) {x y : A}
    → (b ≡ true → P x)
    → (b ≡ false → P y)
    → P (if b then x else y)
if-both P true h k = h refl
if-both P false h k = k refl

pub ended-awake : (m : Main) → ended m ≡ true → awake m ≡ true
ended-awake blocked h = cc
ended-awake woken h = cc
ended-awake draining h = refl
ended-awake (returned f) h = refl
