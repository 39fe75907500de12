-- ===== src/Net.antt =====
-- crates/asli-net: the connection to the relay.
pub mod Backoff
pub mod State
pub mod Error
pub mod Envelope
pub mod Session
