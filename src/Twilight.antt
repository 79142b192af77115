-- ===== src/Twilight.antt =====
-- crates/discord-voice-service-twilight/src/lib.rs, the bridge for bots that are written with
-- Twilight.
pub mod Tracker
pub mod History
pub mod Advancing
pub mod Reporting
pub mod Observing
pub mod Examples
