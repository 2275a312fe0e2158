-- ===== src/Worker.antt =====
-- crates/journal-inbox-worker/src/lib.rs: the polling worker of the inbox clients.
pub mod Retry
pub mod State
pub mod Tick
pub mod Bounds
pub mod Log
pub mod Handoff
mod Examples
pub mod Envelope
pub mod Failures
