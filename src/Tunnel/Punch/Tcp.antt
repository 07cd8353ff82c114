-- ===== src/Tunnel/Punch/Tcp.antt =====
-- holepunch.go: PunchTCP, by how its attempts go. The sockets, the sleep between attempts and the
-- wrapping of the connection in a cipher are not modelled: a message is what conn.Read gives.
use gole.Base.{ℕ, zero, suc, ◌+◌, [], ◌∷◌, Bytes, take, ◌++◌, if◌then◌else◌, ◌==◌, bytes_eq, codes}
use gole.Base.Result.{Result, ok, err}

-- How an attempt goes: the dial fails, the write fails, the read fails, or a message is read.
pub data Attempt : Type 0 where
  no_connection : Attempt
  send_failed : Attempt
  recv_failed : Attempt
  received : Bytes → Attempt

pub data PunchError : Type 0 where
  send_error : PunchError
  recv_error : PunchError
  auth_failed : PunchError
  timeout : PunchError

-- data[:4] of a zeroed buffer
unfoldable pub first_four : Bytes → Bytes
first_four message = take 4 (message ++ (0 ∷ 0 ∷ 0 ∷ 0 ∷ []))

-- The loop's body in the round i, with what the later rounds give
unfoldable pub after_attempt : Attempt → ℕ → Result PunchError ℕ → Result PunchError ℕ
after_attempt no_connection i next = next
after_attempt send_failed i next = err send_error
after_attempt recv_failed i next = err recv_error
after_attempt (received message) i next =
    if first_four message == codes "HELO" then ok i else err auth_failed

-- The loop from the round i on, with the rounds that are left; the result is the round whose
-- connection PunchTCP returns.
unfoldable pub punch_loop : (ℕ → Attempt) → ℕ → ℕ → Result PunchError ℕ
punch_loop attempts zero i = err timeout
punch_loop attempts (suc left) i = after_attempt (attempts i) i (punch_loop attempts left (i + 1))

-- PunchTCP
unfoldable pub punch_tcp : (ℕ → Attempt) → Result PunchError ℕ
punch_tcp attempts = punch_loop attempts 60 0
