-- ===== src/Tunnel.antt =====
-- The root package: the tunnels' command.
pub mod Common
pub mod Punch
pub mod Cli
pub mod Kcp
pub mod Forward
mod Examples
