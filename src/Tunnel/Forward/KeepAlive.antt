-- ===== src/Tunnel/Forward/KeepAlive.antt =====
-- client.go and server.go: the keep-alive settings.
use gole.Base.{ℕ, ◌≤◌, arith}
use gole.Base.Int.{pos, ◌≤ℤ◌}
use gole.Tunnel.Common.{bound}
use gole.Tunnel.Forward.{third, keep_alive_interval}

-- The interval is from 1 to 10 seconds, and is no longer than the timeout if that is at least a
-- second: smux asks for both.
pub keep_alive_interval-bounds :
    (timeout : ℕ)
    → (pos 1 ≤ℤ keep_alive_interval (pos timeout))
      × (keep_alive_interval (pos timeout) ≤ℤ pos 10)
      × (1 ≤ timeout → keep_alive_interval (pos timeout) ≤ℤ pos timeout)
unfolding keep_alive_interval third bound
keep_alive_interval-bounds timeout = (ground arith, ground arith, λ h. ground arith)
