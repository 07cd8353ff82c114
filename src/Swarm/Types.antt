-- ===== src/Swarm/Types.antt =====
-- swarm/types.go
pub mod Address
pub mod Enroll
pub mod Transport
pub mod Wire
pub mod Roles
