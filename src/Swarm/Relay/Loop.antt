-- ===== src/Swarm/Relay/Loop.antt =====
-- swarm/relay.go: HandleConn's loop ends.
use gole.Base.{ℕ, zero, suc, ◌+◌, ◌<◌, ◌≢◌, Bytes, length, arith, inl, inr}
use gole.Base.Int.{ℤ}
use gole.Base.Result.{Result-cases}
use gole.Swarm.Paseto.{Crypto}
use gole.Swarm.Relay.Frames.{read_frame}
use gole.Swarm.Relay.RoundTrip.{read_frame-shorter}
use gole.Swarm.Relay.Server.{
  RelaySession, RelayServer, RelayRouter, out_of_fuel, handle_frame, handle_frames, start_conn,
  handle_conn,
}

handle_frames-ends :
    (fuel : ℕ) (route : RelayRouter) (s : RelaySession) (input : Bytes) (r : RelayServer)
    → length input < fuel
    → (handle_frames fuel route s input r).1 ≢ out_of_fuel
unfolding handle_frames
handle_frames-ends zero route s input r h = absurd (omega arith)
handle_frames-ends (suc fuel) route s input r h = elim (Result-cases (read_frame input)) [
  | inl (e, q) ↦ rw (q, handle_frames) (λ x. ground (arith, x))
  | inr (f, q) ↦ elim (Result-cases (handle_frame route s f.0 f.1.0 r).1) [
    | inl (e, w) ↦ rw (q, w, handle_frames) (λ x. ground (arith, x))
    | inr (u, w) ↦
        rw (q, w, handle_frames)
          (handle_frames-ends fuel route s f.1.1 (handle_frame route s f.0 f.1.0 r).0
            (omega (arith, h, read_frame-shorter input f.0 f.1.0 f.1.1 q)))
  ]
]

-- HandleConn returns, with any router, on every connection whose stream ends: one round more than
-- the connection has bytes after its first frame is enough for the loop.
pub handle_conn-ends :
    (c : Crypto) (route : RelayRouter) (id : ℕ) (input : Bytes) (now : ℤ) (r : RelayServer)
    → (handle_conn c route id input now r).1 ≢ out_of_fuel
unfolding handle_conn
handle_conn-ends c route id input now r = elim (Result-cases (start_conn c id input now r).1) [
  | inl (e, q) ↦ rw (q, handle_conn) (λ x. ground (arith, x))
  | inr (f, q) ↦
      rw (q, handle_conn)
        (handle_frames-ends (length f.1 + 1) route f.0 f.1 (start_conn c id input now r).0
          (omega arith))
]
