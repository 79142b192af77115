-- ===== src/Runtime/Live.antt =====
-- crates/discord-voice-service-runtime/src/session/runtime.rs: the driver of the live media, which
-- keeps the frames between the shared source buffer and the deadline sender.
pub mod QueueEvents
pub mod Pending
pub mod Driver
pub mod Flush
pub mod Accounting
pub mod Conservation
pub mod Matching
pub mod Pumping
pub mod Draining
pub mod Examples
