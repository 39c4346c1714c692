-- ===== src/Consumer.antt =====
-- consumer.go.
pub mod State
pub mod Control
pub mod Loop
pub mod Life
pub mod Races
pub mod Triple
pub mod Kept
pub mod Rounds
pub mod Promises
pub mod Single
pub mod Serving
pub mod Delivered
