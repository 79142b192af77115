-- ===== src/Playback.antt =====
-- crates/discord-voice-service-playback: from a stream of WebM bytes to paced Opus frames.
pub mod Error
pub mod OpusFrame
pub mod OpusQueue
pub mod Selector
pub mod Pacer
pub mod Demux
pub mod Position
pub mod Normalizer
pub mod HttpRange
pub mod HttpStream
pub mod Source
pub mod Recovery
pub mod Opening
pub mod Worker
pub mod Examples
