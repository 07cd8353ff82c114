-- ===== src/Swarm/Relay.antt =====
-- swarm/relay.go: the relay server, its frames, sessions and routers.
pub mod Frames
pub mod RoundTrip
pub mod Server
pub mod Sessions
pub mod Run
pub mod Served
pub mod Delivery
pub mod Loop
