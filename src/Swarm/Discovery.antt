-- ===== src/Swarm/Discovery.antt =====
-- swarm/discovery.go: relay probing and transport selection.
pub mod Select
pub mod Sorting
pub mod Ranking
pub mod Weighing
pub mod Priority
