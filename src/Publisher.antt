-- ===== src/Publisher.antt =====
-- publisher.go.
pub mod State
pub mod Publish
pub mod Step
pub mod Sent
pub mod Confirm
pub mod Outcome
pub mod Reopening
pub mod Accepted
pub mod Queue
pub mod Auto
pub mod Promises
