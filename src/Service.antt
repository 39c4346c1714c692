-- ===== src/Service.antt =====
-- rabbitservice.go.
pub mod State
pub mod Setup
pub mod Publish
pub mod Stop
pub mod Monitor
pub mod Collect
pub mod Lookup
pub mod Keyed
pub mod Built
pub mod Ending
pub mod Retries
pub mod GivenUp
