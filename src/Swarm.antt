-- ===== src/Swarm.antt =====
-- The swarm package.
pub mod Types
pub mod Paseto
pub mod Registrar
pub mod Policy
pub mod Controller
pub mod Relay
pub mod Discovery
pub mod Endpoint
pub mod Config
pub mod MachineId
pub mod Demo
mod Examples
