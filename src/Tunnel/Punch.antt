-- ===== src/Tunnel/Punch.antt =====
-- holepunch.go: two hosts reach each other by sending at the same time.
pub mod Tcp
pub mod Udp
pub mod Runs
pub mod Invariant
pub mod Rounds
pub mod Results
pub mod Progress
