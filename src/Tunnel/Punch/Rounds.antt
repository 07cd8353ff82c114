-- ===== src/Tunnel/Punch/Rounds.antt =====
-- holepunch.go: which of its attempts PunchTCP returns.
use gole.Base.{
  ℕ, zero, suc, ◌+◌, ◌≤◌, ◌<◌, ◌≡◌, refl, ◌∙◌, sym, ap, ◌↔◌, inl, inr, true, arith, Bytes, bytes_eq,
  bytes_beq, bytes_beq_iff, codes, Bool-cases, nat_beq, nat_eq,
}
use gole.Base.Result.{ok}
use gole.Tunnel.Punch.Tcp.{
  Attempt, no_connection, send_failed, recv_failed, received, first_four, after_attempt, punch_loop,
  punch_tcp,
}

-- The round i is the first from `from` on that connects, and it hears HELO.
pub record IsFirst (attempts : ℕ → Attempt) (from i : ℕ) : Type 0 where
  pub message : Bytes
  pub heard : attempts i ≡ received message
  pub helo : first_four message ≡ codes "HELO"
  pub before : (j : ℕ) → from ≤ j → j < i → attempts j ≡ no_connection

-- How the round at hand goes
after_attempt-ok :
    (attempts : ℕ → Attempt) (a : Attempt) (left from i : ℕ)
    → attempts from ≡ a
    → (punch_loop attempts left (from + 1) ≡ ok i
        → (from + 1 ≤ i) × (i < from + 1 + left) × IsFirst attempts (from + 1) i)
    → after_attempt a from (punch_loop attempts left (from + 1)) ≡ ok i
    → (from ≤ i) × (i < from + suc left) × IsFirst attempts from i
unfolding after_attempt
after_attempt-ok attempts no_connection left from i e ih h =
    let (low, high, first) = ih h in
    (
      omega (arith, low),
      omega (arith, high),
      record {
        message = first.message;
        heard = first.heard;
        helo = first.helo;
        before = λ j l k. elim (Bool-cases (nat_beq from j)) [
          | inl b ↦ let here : from ≡ j = ground (arith, b) in sym (ap attempts here) ∙ e
          | inr b ↦ first.before j (ground (arith, b, l)) k
        ];
      },
    )
after_attempt-ok attempts send_failed left from i e ih h = absurd cc
after_attempt-ok attempts recv_failed left from i e ih h = absurd cc
after_attempt-ok attempts (received message) left from i e ih h =
    elim (Bool-cases (bytes_beq (first_four message) (codes "HELO"))) [
      | inl b ↦
          let here : from ≡ i = ground (arith, b, h) in
          (
            omega (arith, here),
            omega (arith, here),
            record {
              message = message;
              heard = sym (ap attempts here) ∙ e;
              helo = (bytes_beq_iff _ _).0 b;
              before = λ j l k. absurd (omega (arith, l, k, here));
            },
          )
      | inr b ↦ absurd (ground (arith, b, h))
    ]

punch_loop-ok :
    (attempts : ℕ → Attempt) (left from i : ℕ)
    → punch_loop attempts left from ≡ ok i
    → (from ≤ i) × (i < from + left) × IsFirst attempts from i
unfolding punch_loop
punch_loop-ok attempts zero from i h = absurd cc
punch_loop-ok attempts (suc left) from i h =
    after_attempt-ok attempts (attempts from) left from i refl
      (punch_loop-ok attempts left (from + 1) i) h

ok-punch_loop :
    (attempts : ℕ → Attempt) (left from i : ℕ)
    → from ≤ i
    → i < from + left
    → IsFirst attempts from i
    → punch_loop attempts left from ≡ ok i
unfolding punch_loop after_attempt
ok-punch_loop attempts zero from i low high first = absurd (omega (arith, low, high))
ok-punch_loop attempts (suc left) from i low high first = elim (Bool-cases (nat_beq from i)) [
  | inl b ↦
      let here : from ≡ i = ground (arith, b) in
      let heard : attempts from ≡ received first.message = ap attempts here ∙ first.heard in
      let helo : bytes_beq (first_four first.message) (codes "HELO") ≡ true =
        (bytes_beq_iff _ _).1 first.helo in
      ap (λ a. after_attempt a from (punch_loop attempts left (from + 1))) heard
      ∙ (rw helo (ap ok here))
  | inr b ↦
      let miss : attempts from ≡ no_connection =
        first.before from (omega arith) (ground (arith, b, low)) in
      ap (λ a. after_attempt a from (punch_loop attempts left (from + 1))) miss
      ∙ ok-punch_loop attempts left (from + 1) i (ground (arith, b, low)) (omega (arith, high))
          (record {
            message = first.message;
            heard = first.heard;
            helo = first.helo;
            before = λ j l k. first.before j (omega (arith, l)) k;
          })
]

-- PunchTCP returns the connection of a round exactly if it is one of the first 60, no earlier
-- round got a connection, and the four bytes that it read first are HELO, those that it did not
-- get counting as zeros.
pub punch_tcp-ok_iff :
    (attempts : ℕ → Attempt) (i : ℕ)
    → (punch_tcp attempts ≡ ok i) ↔ ((i < 60) × IsFirst attempts 0 i)
unfolding punch_tcp
punch_tcp-ok_iff attempts i = (
  (λ h. let (low, high, first) = punch_loop-ok attempts 60 0 i h in (omega (arith, high), first)),
  (λ p. ok-punch_loop attempts 60 0 i (omega arith) (omega (arith, p.0)) p.1),
)
