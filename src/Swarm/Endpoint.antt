-- ===== src/Swarm/Endpoint.antt =====
-- swarm/endpoint.go: a participant of the swarm.
pub mod State
pub mod Lifecycle
pub mod Messages
pub mod Outcomes
pub mod Polling
