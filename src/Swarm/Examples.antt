-- ===== src/Swarm/Examples.antt =====
-- The theorems applied at concrete inputs.
mod Setup
mod Runs
mod Registrar
mod Access
mod Relay
mod Discovery
mod Endpoint
mod Config
mod MachineId
mod Demo
