-- ===== src/Topology.antt =====
-- topologer.go, with the topology settings of configs.go.
pub mod Request
pub mod Build
pub mod Order
pub mod Quorum
