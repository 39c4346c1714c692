-- ===== src/Message.antt =====
-- message.go: letters and their options, receipts, and received messages.
pub mod Letter
pub mod Received
pub mod Promises
