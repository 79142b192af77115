-- ===== src/Runtime.antt =====
-- The runtime: crates/discord-voice-service-runtime.
pub mod Error
pub mod State
pub mod Readiness
pub mod DeadlineSender
pub mod Playout
pub mod Live
pub mod Session
pub mod Examples
