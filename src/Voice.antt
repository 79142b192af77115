-- ===== src/Voice.antt =====
-- crates/discord-voice-service-voice: the voice connection.
pub mod Error
pub mod Rtp
pub mod Crypto
pub mod Protection
pub mod Wire
pub mod Discovery
pub mod Udp
pub mod GatewayBinary
pub mod Receive
pub mod Examples
