-- ===== src/Swarm/Registrar.antt =====
-- swarm/registrar.go
pub mod State
pub mod Ids
pub mod Enrollment
pub mod Activation
pub mod Store
pub mod Fingerprints
pub mod Approval
pub mod Trace
pub mod Growth
pub mod Soundness
pub mod Steps
pub mod Routing
pub mod Enrolling
pub mod Approvals
pub mod Progress
pub mod Life
pub mod Confirmation
pub mod Binding
pub mod Activating
pub mod Idempotence
pub mod Reach
