-- ===== src/Runtime/Session.antt =====
-- crates/discord-voice-service-runtime/src/session/runtime.rs: the session runtime. What the code
-- does while it holds the lock of the snapshot is one function, a section; the commands are made of
-- these sections, and concurrent commands interleave them.
pub mod Events
pub mod Store
pub mod Sections
pub mod Rollover
pub mod Interleaving
pub mod Invariant
pub mod Epochs
pub mod Surroundings
pub mod Commands
pub mod Renewal
pub mod Dispatch
pub mod Outcomes
pub mod Refused
pub mod Leaving
pub mod Superseded
pub mod Examples
