-- ===== src/Tunnel/Punch/Invariant/Sending.antt =====
-- holepunch.go: the sender's steps keep the invariant.
use gole.Base.{
  ℕ, ◌+◌, ◌≡◌, ◌≢◌, refl, ◌∙◌, sym, ap, some_inj, ◌||◌, arith, ltb, nat_eq, nat_beq, bytes_eq,
}
use gole.Tunnel.Punch.Udp.{
  Crash, closed_twice, negative_counter, Sender, sending, waiting, closing, Punch, crashed,
  on_timeout, close_late, sender_done,
}
use gole.Tunnel.Punch.Invariant.Kept.{
  IsKept, closed_late, ended, ended-awake, if-both, late, owes_sender,
}

-- A move of the sender that neither calls wg.Done nor changes what it owes to the others
pub move_sender :
    (s : Punch) (new : Sender)
    → owes_sender s.sender ≡ owes_sender new
    → late s.sender ≡ late new
    → closed_late s.sender ≡ closed_late new
    → IsKept s
    → IsKept (record s { sender = new })
move_sender s new o l c k = record {
  count = ground (arith, k.count, o);
  late_fails = λ h. k.late_fails (l ∙ h);
  timeout_late = λ h. sym l ∙ k.timeout_late h;
  closed = k.closed ∙ ap (λ z. z || ended s.main) c;
  closed_once = λ h. sym c ∙ k.closed_once h;
  all_done = λ h. sym o ∙ k.all_done h;
  quits_why = k.quits_why;
  both = k.both;
  cancels = k.cancels;
  result = k.result;
  counts = k.counts;
}

pub crash-IsKept :
    (s : Punch) (why : Crash) → why ≢ negative_counter → IsKept s → IsKept (crashed why s)
crash-IsKept s why h k = record {
  count = k.count;
  late_fails = k.late_fails;
  timeout_late = k.timeout_late;
  closed = k.closed;
  closed_once = k.closed_once;
  all_done = k.all_done;
  quits_why = k.quits_why;
  both = k.both;
  cancels = k.cancels;
  result = k.result;
  counts = λ e. h (some_inj e);
}

pub retry-IsKept : (s : Punch) (i : ℕ) → s.sender ≡ waiting i → IsKept s → IsKept (on_timeout i s)
unfolding on_timeout
retry-IsKept s i e k =
    if-both IsKept (nat_beq i 60)
      (λ b. record {
        count = ground (arith, k.count, e);
        late_fails = λ h. refl;
        timeout_late = λ h. refl;
        closed = ground (arith, k.closed, e);
        closed_once = λ h. refl;
        all_done = λ h. ground (arith, k.all_done, e);
        quits_why = λ h. refl;
        both = λ h. refl;
        cancels = k.cancels;
        result = k.result;
        counts = k.counts;
      })
      (λ b. (move_sender s (sending (i + 1)) (ap owes_sender e) (ap late e) (ap closed_late e) k))

pub give_up-IsKept : (s : Punch) → s.sender ≡ closing → IsKept s → IsKept (close_late s)
unfolding close_late
give_up-IsKept s e k =
    if-both IsKept s.recv_done (λ b. crash-IsKept s closed_twice (λ h. cc) k)
      (λ b. (record {
        count = ground (arith, k.count, e);
        late_fails = λ h. k.late_fails (ap late e);
        timeout_late = λ h. refl;
        closed = refl;
        closed_once = λ h. absurd (ground (arith, k.all_done (ended-awake s.main h), e));
        all_done = λ h. ground (arith, k.all_done, e);
        quits_why = k.quits_why;
        both = k.both;
        cancels = k.cancels;
        result = k.result;
        counts = k.counts;
      }))

pub sender_done-IsKept :
    (s : Punch) (new : Sender)
    → owes_sender s.sender ≡ 1
    → owes_sender new ≡ 0
    → late s.sender ≡ late new
    → closed_late s.sender ≡ closed_late new
    → IsKept s
    → IsKept (sender_done new s)
unfolding sender_done
sender_done-IsKept s new o n l c k =
    if-both IsKept (ltb s.wg 1) (λ b. absurd (ground (arith, k.count, o, b)))
      (λ b. record {
        count = ground (arith, k.count, o, n, b);
        late_fails = λ h. k.late_fails (l ∙ h);
        timeout_late = λ h. sym l ∙ k.timeout_late h;
        closed = k.closed ∙ ap (λ z. z || ended s.main) c;
        closed_once = λ h. sym c ∙ k.closed_once h;
        all_done = λ h. n;
        quits_why = k.quits_why;
        both = k.both;
        cancels = k.cancels;
        result = k.result;
        counts = k.counts;
      })
