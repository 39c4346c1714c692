-- ===== src/Pool.antt =====
-- connectionpool.go, connectionhost.go and channelhost.go.
pub mod State
pub mod Connection
pub mod Channel
pub mod Recovery
pub mod Lease
pub mod Start
pub mod Settings
pub mod Closing
pub mod Calm
pub mod Promises
pub mod Steady
pub mod View
